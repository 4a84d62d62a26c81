-- ===== src/Examples/Comparing.antt =====
-- Replays, fingerprints and comparisons on the two small trails.
use task274_replaydivergence.Prelude.{
  String, ◌≡◌, refl, [], ◌∷◌, Memᴰ, none, ◌↔◌, All, ◌≢◌, ◌<◌, arith, eq_iff, some, str_eq, ◌⊎◌,
  Bool-cases, Bool, true, false, not, inl, sym, inr, eq_of_some, ◌==◌, ◌&&◌,
}
use task274_replaydivergence.Examples.{ref_trail, test_trail, test_2, test_1}
use task274_replaydivergence.Prelude.StrMap.{StrMap, lookup, insert, index, IsMap, SameMap}
use task274_replaydivergence.Model.Checkpoint.{Checkpoint, register_kind, scope}
use task274_replaydivergence.Compare.Replay.{replay, events_up_to}
use task274_replaydivergence.Compare.Comparator.{DivergentCheckpoint, compare_at_checkpoint}
use task274_replaydivergence.Compare.Hash.{hash_state, sum64, write, fnv_offset}
use task274_replaydivergence.Prelude.Int.{pos}
use task274_replaydivergence.Compare.Replay.LastWrite.{
  last_write, replay-last_write, HasValues, replay_succeeds_iff,
}
use task274_replaydivergence.Model.Errors.{ok, fingerprint_mismatch}
use task274_replaydivergence.Compare.Hash.OrderFree.{hash_state_of_SameMap}
use task274_replaydivergence.Compare.Diff.{diff_state}
use task274_replaydivergence.Compare.Comparator.Verdict.{
  agreeing_states_match, HasNoEmpty, mismatch_counts_a_difference,
}
use task274_replaydivergence.Prelude.Sort.{IsStrict, sort_on}
use task274_replaydivergence.Prelude.Unique.{itself}
use task274_replaydivergence.Compare.Diff.Exact.{diff_state_exact}
use task274_replaydivergence.Prelude.Order.{text_order}
use task274_replaydivergence.Model.Event.{key, ResourceAccess}
use task274_replaydivergence.Compare.Hash.Encoding.{
  HasNoNul, hashed_bytes, sum64_of_state, IsNulFree,
}
use task274_replaydivergence.Compare.Scope.{select_scope}
use task274_replaydivergence.Compare.Replay.Resume.{replay_resumes}
use Prim.Native.Char.{code}
use task274_replaydivergence.Model.Status.{FingerprintScope}
use task274_replaydivergence.Compare.Scope.Kinds.{Covers, select_scope-Covers}

abbrev ref_state : StrMap String
ref_state = ("reg:r1", "1") ∷ ("reg:r2", "3") ∷ []

abbrev swapped_state : StrMap String
swapped_state = ("reg:r2", "3") ∷ ("reg:r1", "1") ∷ []

abbrev other_state : StrMap String
other_state = ("reg:r1", "1") ∷ ("reg:r2", "9") ∷ []

abbrev at_3 : Checkpoint
at_3 = record {
  id = 1;
  batch_id = 1;
  seq = pos 3;
  kind = register_kind;
  values = [];
  status = "trusted";
  reason = "";
  created_at = 0;
}

ref_replay : replay [] ref_trail ≡ ok ref_state
unfolding replay insert lookup key
ref_replay = refl

test_replay : replay [] test_trail ≡ ok ref_state
unfolding replay insert lookup key
test_replay = refl

short_replay : replay [] (test_1 ∷ test_2 ∷ []) ≡ ok other_state
unfolding replay insert lookup key
short_replay = refl

short_prefix : replay [] (events_up_to test_trail (pos 2)) ≡ ok other_state
unfolding replay insert lookup key events_up_to
short_prefix = refl

over_prefix : replay other_state (events_up_to test_trail (pos 3)) ≡ ok ref_state
unfolding replay insert lookup key events_up_to
over_prefix = refl

agreeing_states_example :
    (dc : DivergentCheckpoint) × (compare_at_checkpoint at_3 ref_trail test_trail ≡ ok (dc, none))
    × (dc.ref_hash ≡ dc.test_hash)
agreeing_states_example =
    agreeing_states_match at_3 ref_trail test_trail ref_state ref_state ref_replay test_replay
      (λ k h. refl)

replay-last_write_example : lookup "reg:r2" ref_state ≡ last_write ref_trail "reg:r2"
replay-last_write_example = replay-last_write ref_trail ref_state "reg:r2" ref_replay

replay_succeeds_example :
    ((t : StrMap String) × (replay [] ref_trail ≡ ok t)) ↔ All (λ e. HasValues e e.writes) ref_trail
replay_succeeds_example = replay_succeeds_iff ref_trail []

apart : (a b : String) → str_eq a b ≡ false → a ≢ b
apart a b h e = cc ((eq_iff a b).1 e, h)

ref_state-IsMap : IsMap ref_state
ref_state-IsMap = ((apart "reg:r1" "reg:r2" refl, tt), (tt, tt))

swapped_state-IsMap : IsMap swapped_state
swapped_state-IsMap = ((apart "reg:r2" "reg:r1" refl, tt), (tt, tt))

-- What a map with two entries gives.
lookup_in_two :
    (i j a b k v : String)
    → lookup k ((i, a) ∷ (j, b) ∷ []) ≡ some v
    → ((k ≡ i) × (v ≡ a)) ⊎ ((k ≡ j) × (v ≡ b))
unfolding lookup
lookup_in_two i j a b k v h = elim (Bool-cases (str_eq i k)) [
  | inl p ↦ inl (sym ((eq_iff i k).0 p), sym (eq_of_some (rw p at h)))
  | inr p ↦ elim (Bool-cases (str_eq j k)) [
    | inl q ↦ inr (sym ((eq_iff j k).0 q), sym (eq_of_some (rw (p, q) at h)))
    | inr q ↦ absurd (cc (rw (p, q) at h))
  ]
]

same_entries : SameMap ref_state swapped_state
unfolding lookup
same_entries k = elim (Bool-cases (str_eq "reg:r1" k)) [
  | inl p ↦ rw (← (eq_iff "reg:r1" k).0 p) refl
  | inr p ↦ elim (Bool-cases (str_eq "reg:r2" k)) [
    | inl q ↦ rw (p, q) refl
    | inr q ↦ rw (p, q) refl
  ]
]

nul_free : String → Bool
nul_free String.[] = true
nul_free (String.◌∷◌ c s) = not (code c == 0) && nul_free s

nul_free-IsNulFree : (s : String) → nul_free s ≡ true → IsNulFree s
unfolding nul_free
nul_free-IsNulFree String.[] h = tt
nul_free-IsNulFree (String.◌∷◌ c s) h = (ground arith, nul_free-IsNulFree s (ground arith))

two_nul_free :
    (a b : String)
    → nul_free a ≡ true
    → nul_free b ≡ true
    → HasNoNul (("reg:r1", a) ∷ ("reg:r2", b) ∷ [])
unfolding nul_free
two_nul_free a b p q k v h = elim (lookup_in_two "reg:r1" "reg:r2" a b k v h) [
  | inl (ek, ev) ↦ rw (ek, ev) (nul_free-IsNulFree "reg:r1" refl, nul_free-IsNulFree a p)
  | inr (ek, ev) ↦ rw (ek, ev) (nul_free-IsNulFree "reg:r2" refl, nul_free-IsNulFree b q)
]

two_not_empty :
    (i j a b : String)
    → str_eq "" a ≡ false
    → str_eq "" b ≡ false
    → HasNoEmpty ((i, a) ∷ (j, b) ∷ [])
two_not_empty i j a b p q k h = elim (lookup_in_two i j a b k "" h) [
  | inl (ek, ev) ↦ apart "" a p ev
  | inr (ek, ev) ↦ apart "" b q ev
]

hash_state_example : hash_state ref_state ≡ hash_state swapped_state
hash_state_example =
    hash_state_of_SameMap ref_state swapped_state ref_state-IsMap swapped_state-IsMap same_entries

diff_state_example :
    ((k : String)
      → Memᴰ k (diff_state ref_state other_state) ↔ (index ref_state k ≢ index other_state k))
    × IsStrict itself (diff_state ref_state other_state)
diff_state_example = diff_state_exact ref_state other_state

ref_state-HasNoNul : HasNoNul ref_state
unfolding nul_free
ref_state-HasNoNul = two_nul_free "1" "3" refl refl

other_state-HasNoNul : HasNoNul other_state
unfolding nul_free
other_state-HasNoNul = two_nul_free "1" "9" refl refl

sum64_of_state_example :
    (sum64 ref_state ≡ write fnv_offset (hashed_bytes ref_state))
    × (hashed_bytes ref_state ≡ hashed_bytes other_state → SameMap ref_state other_state)
sum64_of_state_example =
    sum64_of_state ref_state other_state ref_state-HasNoNul other_state-HasNoNul

abbrev r2 : ResourceAccess
r2 = record { kind = "reg"; name = "r2" }

select_scope_example :
    (Covers FingerprintScope.register "reg"
      → lookup (key r2) (select_scope ref_state FingerprintScope.register)
        ≡ lookup (key r2) ref_state)
    × ((¬ Covers FingerprintScope.register "reg")
        → lookup (key r2) (select_scope ref_state FingerprintScope.register) ≡ none)
select_scope_example =
    select_scope-Covers FingerprintScope.register r2 ref_state ref_state-IsMap
      (record { known_kind = inl refl; named = λ e. cc e })

replay_resumes_example :
    (u : StrMap String) × (replay [] (events_up_to test_trail (pos 3)) ≡ ok u) × SameMap ref_state u
replay_resumes_example =
    replay_resumes test_trail (pos 2) (pos 3) other_state ref_state (omega arith) short_prefix
      over_prefix

ref_state-HasNoEmpty : HasNoEmpty ref_state
ref_state-HasNoEmpty = two_not_empty "reg:r1" "reg:r2" "1" "3" refl refl

other_state-HasNoEmpty : HasNoEmpty other_state
other_state-HasNoEmpty = two_not_empty "reg:r1" "reg:r2" "1" "9" refl refl

abbrev reported : DivergentCheckpoint
reported = record {
  seq = pos 3;
  kind = register_kind;
  ref_hash = hash_state ref_state;
  test_hash = hash_state other_state;
  diff_count = 1;
}

mismatch_at_3 :
    compare_at_checkpoint at_3 ref_trail (test_1 ∷ test_2 ∷ [])
    ≡ ok (reported, some (fingerprint_mismatch (pos 3)))
unfolding compare_at_checkpoint replay insert lookup key select_scope scope diff_state index sort_on
    hash_state
mismatch_at_3 = refl

mismatch_example : 0 < reported.diff_count
mismatch_example =
    mismatch_counts_a_difference at_3 ref_trail (test_1 ∷ test_2 ∷ []) ref_state other_state
      ref_replay short_replay ref_state-HasNoEmpty other_state-HasNoEmpty reported
      (fingerprint_mismatch (pos 3)) mismatch_at_3

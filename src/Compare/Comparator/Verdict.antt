-- ===== src/Compare/Comparator/Verdict.antt =====
-- What the verdict of a comparison says about the two replayed states.
use task274_replaydivergence.Prelude.{
  String, ◌≡◌, ◌≢◌, refl, sym, ◌∙◌, inl, inr, List, [], none, some, arith, Bool-cases, str_eq,
  eq_iff, Memᴰ, true, ◌<◌, List-cases, ap,
}
use task274_replaydivergence.Prelude.StrMap.{StrMap, lookup, index, IsMap, SameMap}
use task274_replaydivergence.Model.Errors.{ok}
use task274_replaydivergence.Model.Event.{ExecEvent}
use task274_replaydivergence.Model.Checkpoint.{Checkpoint, scope}
use task274_replaydivergence.Compare.Hash.{hash_state}
use task274_replaydivergence.Compare.Hash.OrderFree.{hash_state_of_SameMap}
use task274_replaydivergence.Compare.Replay.{replay}
use task274_replaydivergence.Compare.Replay.LastWrite.{replay-IsMap}
use task274_replaydivergence.Compare.Scope.{select_scope, in_scope}
use task274_replaydivergence.Compare.Scope.Lookup.{lookup-select_scope, select_scope-IsMap}
use task274_replaydivergence.Compare.Diff.{diff_state}
use task274_replaydivergence.Compare.Diff.Exact.{diff_state_exact}
use task274_replaydivergence.Compare.Comparator.{
  DivergentCheckpoint, compare_at_checkpoint, Error, length,
}

-- No key holds the empty text.
abbrev pub HasNoEmpty : StrMap String → Type 0
HasNoEmpty m = (k : String) → lookup k m ≢ some ""

index-lookup :
    (m n : StrMap String) (k : String)
    → HasNoEmpty m
    → HasNoEmpty n
    → index m k ≡ index n k
    → lookup k m ≡ lookup k n
unfolding index
index-lookup m n k hm hn e = ground (arith, hm k, hn k)

-- Two states without empty values whose difference is empty have the same fingerprint.
pub hash_state_of_no_diff :
    (m n : StrMap String)
    → IsMap m
    → IsMap n
    → HasNoEmpty m
    → HasNoEmpty n
    → diff_state m n ≡ []
    → hash_state m ≡ hash_state n
hash_state_of_no_diff m n hm hn em en none_differ =
    hash_state_of_SameMap m n hm hn λ k. index-lookup m n k em en (same_index k)
  where
    nothing_in : (k : String) → Memᴰ k (diff_state m n) → ⊥
    nothing_in k h = elim (rw none_differ at h) [ ]

    same_index : (k : String) → index m k ≡ index n k
    same_index k = elim (Bool-cases (str_eq (index m k) (index n k))) [
      | inl e ↦ (eq_iff _ _).0 e
      | inr e ↦ absurd (
          nothing_in k
            (((diff_state_exact m n).0 k).1 (λ p. cc ((eq_iff (index m k) (index n k)).1 p, e))))
    ]

module _ (cp : Checkpoint) (ref_events test_events : List ExecEvent) (r t : StrMap String)
    (ref_replayed : replay [] ref_events ≡ ok r)
    (test_replayed : replay [] test_events ≡ ok t) where
  -- If the two trails replay to states that agree on every key of the checkpoint's scope, the
  -- comparison reports no mismatch, and the two hashes are equal.
  pub agreeing_states_match :
      ((k : String) → in_scope (scope cp) k ≡ true → lookup k r ≡ lookup k t)
      → (dc : DivergentCheckpoint) × (compare_at_checkpoint cp ref_events test_events
          ≡ ok (dc, none))
        × (dc.ref_hash ≡ dc.test_hash)
  unfolding compare_at_checkpoint
  agreeing_states_match agree = (
    record {
      seq = cp.seq;
      kind = cp.kind;
      ref_hash = hash_state (select_scope r (scope cp));
      test_hash = hash_state (select_scope t (scope cp));
      diff_count = 0;
    },
    rw (ref_replayed, test_replayed) (rw ((eq_iff _ _).1 same_hash) refl),
    same_hash,
  )
    where
      same : SameMap (select_scope r (scope cp)) (select_scope t (scope cp))
      same k =
          lookup-select_scope (scope cp) k r (replay-IsMap ref_events [] r tt ref_replayed)
          ∙ elim (Bool-cases (in_scope (scope cp) k)) [
            | inl b ↦ rw b (agree k b)
            | inr b ↦ rw b refl
          ]
          ∙ sym
              (lookup-select_scope (scope cp) k t (replay-IsMap test_events [] t tt test_replayed))

      same_hash : hash_state (select_scope r (scope cp)) ≡ hash_state (select_scope t (scope cp))
      same_hash =
          hash_state_of_SameMap _ _ (select_scope-IsMap (scope cp) r)
            (select_scope-IsMap (scope cp) t) same

  -- If neither replayed state holds an empty value, a reported mismatch comes with at least one
  -- differing key in the scope.
  pub mismatch_counts_a_difference :
      HasNoEmpty r
      → HasNoEmpty t
      → (dc : DivergentCheckpoint) (e : Error)
      → compare_at_checkpoint cp ref_events test_events ≡ ok (dc, some e)
      → 0 < dc.diff_count
  unfolding compare_at_checkpoint
  mismatch_counts_a_difference er et dc e h = elim (List-cases (diff_state r_sub t_sub)) [
    | inl nothing ↦
        let same =
          hash_state_of_no_diff r_sub t_sub (select_scope-IsMap (scope cp) r)
            (select_scope-IsMap (scope cp) t)
            (no_empty r (replay-IsMap ref_events [] r tt ref_replayed) er)
            (no_empty t (replay-IsMap test_events [] t tt test_replayed) et) nothing in
        cc (rw (ref_replayed, test_replayed, (eq_iff _ _).1 same) at h)
    | inr (k, ks, some_key) ↦
        ground (arith, rw (ref_replayed, test_replayed) at h, ap length some_key)
  ]
    where
      r_sub : StrMap String
      r_sub = select_scope r (scope cp)

      t_sub : StrMap String
      t_sub = select_scope t (scope cp)

      no_empty :
          (m : StrMap String) → IsMap m → HasNoEmpty m → HasNoEmpty (select_scope m (scope cp))
      no_empty m hm h k = rw (lookup-select_scope (scope cp) k m hm) (ground (arith, h k))

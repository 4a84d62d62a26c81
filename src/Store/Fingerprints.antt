-- ===== src/Store/Fingerprints.antt =====
-- internal/store/fingerprint_store.go, over the table of fingerprints with its UNIQUE(batch_id,
-- side, seq, scope).
pub mod Keyed
pub mod Table
pub mod Refined
use task274_replaydivergence.Prelude.{
  ℕ, String, Bool, true, false, ◌&&◌, ◌==◌, List, [], ◌∷◌, Option, none, some, str_eq,
  if◌then◌else◌, keep, ◌+◌, length,
}
use task274_replaydivergence.Prelude.Int.{ℤ, eqb_ℤ}
use task274_replaydivergence.Model.Status.{
  TrailSide, reference, under_test, unknown_side, FingerprintScope, register, memory, full,
  other_scope,
}
use task274_replaydivergence.Model.Checkpoint.{StateFingerprint, FingerprintPair}
use task274_replaydivergence.Store.World.{World, statement}
use task274_replaydivergence.Store.Events.{same_side}
use task274_replaydivergence.Model.Exec.{Exec, ◌>>=◌}
use task274_replaydivergence.Model.Errors.{Result, ok, err, fingerprint_missing}
use task274_replaydivergence.Prelude.Sort.{sort_on}
use task274_replaydivergence.Prelude.Order.{pair_order}

unfoldable pub same_scope : FingerprintScope → FingerprintScope → Bool
same_scope register register = true
same_scope memory memory = true
same_scope full full = true
same_scope (other_scope s) (other_scope t) = str_eq s t
same_scope _ _ = false

-- WHERE batch_id=? AND seq=? AND scope=?
unfoldable pub at_point : ℕ → ℤ → FingerprintScope → StateFingerprint → Bool
unfolding same_scope
at_point batch_id seq scope f =
    (f.batch_id == batch_id) && eqb_ℤ f.seq seq && same_scope f.scope scope

-- ON CONFLICT(batch_id, side, seq, scope)
unfoldable pub same_key : StateFingerprint → StateFingerprint → Bool
unfolding at_point
same_key f old = at_point f.batch_id f.seq f.scope old && same_side old.side f.side

-- The INSERT with its DO UPDATE: a row with the key takes the hash and the algorithm, otherwise
-- the row is added. No code reads the ids of fingerprints.
unfoldable pub upsert_rows : ℕ → StateFingerprint → List StateFingerprint → List StateFingerprint
unfolding same_key
upsert_rows id f [] = record f { id = id } ∷ []
upsert_rows id f (old ∷ rest) =
    if same_key f old
    then record old { hash = f.hash; algo = f.algo } ∷ rest
    else old ∷ upsert_rows id f rest

unfoldable pub upsert : StateFingerprint → Exec World (Unit {0})
unfolding upsert_rows
upsert f = statement >>= λ _. λ (w : World). (
  ok tt,
  record w {
    fingerprints = upsert_rows w.next_fingerprint f w.fingerprints;
    next_fingerprint = w.next_fingerprint + 1;
  },
)

-- The loop over the rows: the hashes of the two sides, where they are found.
unfoldable pub sides_of :
    Option String × Option String → List StateFingerprint → Option String × Option String
sides_of found [] = found
sides_of found (f ∷ fs) =
    sides_of
      (elim f.side [
        | reference ↦ (some f.hash, found.1)
        | under_test ↦ (found.0, some f.hash)
        | unknown_side s ↦ found
      ])
      fs

-- A pair where both sides are found.
unfoldable pub pair_of :
    ℤ → FingerprintScope → Option String × Option String → Result FingerprintPair
pair_of seq scope (some r, some t) =
    ok (record { seq = seq; scope = scope; ref_hash = r; test_hash = t; matched = false })
pair_of seq scope _ = err fingerprint_missing

unfoldable pub get_pair : ℕ → ℤ → FingerprintScope → Exec World FingerprintPair
unfolding at_point sides_of pair_of
get_pair batch_id seq scope = statement >>= λ _. λ (w : World). (
  pair_of seq scope (sides_of (none, none) (keep (at_point batch_id seq scope) w.fingerprints)),
  w,
)

unfoldable pub count_fingerprints : ℕ → Exec World ℕ
count_fingerprints batch_id = statement >>= λ _. λ (w : World).
    (ok (length (keep (λ (f : StateFingerprint). f.batch_id == batch_id) w.fingerprints)), w)

-- The texts of the sides, by which the rows of one seq are ordered.
unfoldable pub side_text : TrailSide → String
side_text reference = "reference"
side_text under_test = "under_test"
side_text (unknown_side s) = s

unfoldable pub list_fingerprints : ℕ → Exec World (List StateFingerprint)
unfolding side_text
list_fingerprints batch_id = statement >>= λ _. λ (w : World). (
  ok (
      sort_on {K = ℤ × String} (λ (f : StateFingerprint). (f.seq, side_text f.side))
        (keep (λ (f : StateFingerprint). f.batch_id == batch_id) w.fingerprints)),
  w,
)

-- ===== src/Store/Fingerprints/Refined.antt =====
-- The calls on the table of fingerprints as calls on a map from keys to hashes.
use task274_replaydivergence.Prelude.{ℕ, ◌≡◌, sym, ◌∙◌, inl, inr, keep, none, ◌⊎◌, ◌+◌, ap}
use task274_replaydivergence.Store.Fingerprints.Keyed.{FingerprintKey, hash_at}
use task274_replaydivergence.Model.Checkpoint.{StateFingerprint, FingerprintPair}
use task274_replaydivergence.Store.Fingerprints.{
  upsert_rows, upsert, get_pair, sides_of, at_point, pair_of,
}
use task274_replaydivergence.Prelude.Int.{ℤ}
use task274_replaydivergence.Store.World.{World, statement}
use task274_replaydivergence.Model.Status.{FingerprintScope, reference, under_test}
use task274_replaydivergence.Model.Errors.{ok, Error, err, database}
use task274_replaydivergence.Prelude.StrMap.{or_else, or_else-none}
use task274_replaydivergence.Store.World.Atomic.{tables, statement-cases}
use task274_replaydivergence.Model.Exec.{Exec, ◌>>=◌, >>=-of_ok, >>=-of_err}
use mathlib.Core.Path.{subst}
use task274_replaydivergence.Store.Fingerprints.Table.{
  HashMap, IsTableOf, put, hashes_found, at_side, upsert_rows-IsTableOf, sides_of-keep,
}

-- What the calls on the table of fingerprints do, seen as calls on the map.
pub record IsSimulation (m : HashMap) (w : World) : Type 0 where
  pub writes :
      (f : StateFingerprint) (v : World)
      → upsert f w ≡ (ok tt, v)
      → IsTableOf (put f m) v.fingerprints
  pub refuses :
      (f : StateFingerprint) (e : Error) (v : World)
      → upsert f w ≡ (err e, v)
      → IsTableOf m v.fingerprints
  pub reads :
      (batch_id : ℕ) (seq : ℤ) (scope : FingerprintScope)
      → ((get_pair batch_id seq scope w).0 ≡ err database)
        ⊎ ((get_pair batch_id seq scope w).0
            ≡ pair_of seq scope (
              m (at_side batch_id seq scope reference),
              m (at_side batch_id seq scope under_test),
            ))
  pub keeps :
      (batch_id : ℕ) (seq : ℤ) (scope : FingerprintScope)
      → IsTableOf m (get_pair batch_id seq scope w).1.fingerprints

-- A call on the table: the database runs it on the same fingerprints, or refuses it.
asked :
    {A : Type 0} (k : Exec World A) (w : World)
    → ((u : World) × (u.fingerprints ≡ w.fingerprints) × ((statement >>= λ _. k) w ≡ k u))
      ⊎ ((u : World) × (u.fingerprints ≡ w.fingerprints)
          × ((statement >>= λ _. k) w ≡ (err database, u)))
unfolding tables
asked k w = elim (statement-cases w) [
  | inl (u, run, same) ↦
      inl (u, ap (λ (x : World). x.fingerprints) same, >>=-of_ok statement (λ _. k) w u tt run)
  | inr (u, stop, same) ↦
      inr (
        u,
        ap (λ (x : World). x.fingerprints) same,
        >>=-of_err statement (λ _. k) w u database stop,
      )
]

-- The table of fingerprints implements a map from the keys, made of the batch, the side, the seq
-- and the scope, to hashes. From a table that has exactly the entries of a map: `Upsert` puts one
-- entry into the map, or leaves the map as it was if it is refused; and `GetPair` returns the pair
-- of the entries of both sides, or the error for a missing one, unless the database refuses the
-- query, and changes nothing.
pub fingerprints-IsSimulation :
    (m : HashMap) (w : World) → IsTableOf m w.fingerprints → IsSimulation m w
unfolding upsert get_pair
fingerprints-IsSimulation m w t = record {
  writes = λ f v e. elim (asked (row_written f) w) [
    | inl (u, same, run) ↦
        let left = ap (λ r. r.1.fingerprints) (sym run ∙ e) in
        subst (IsTableOf (put f m)) left (
          upsert_rows-IsTableOf m u.next_fingerprint f u.fingerprints
            (subst (IsTableOf m) (sym same) t))
    | inr (u, same, stop) ↦ absurd (cc (ap (λ r. r.0) (sym stop ∙ e)))
  ];
  refuses = λ f x v e. elim (asked (row_written f) w) [
    | inl (u, same, run) ↦ absurd (cc (ap (λ r. r.0) (sym run ∙ e)))
    | inr (u, same, stop) ↦
        subst (IsTableOf m) (sym same ∙ ap (λ r. r.1.fingerprints) (sym stop ∙ e)) t
  ];
  reads = λ batch_id seq scope. elim (asked (pair_read batch_id seq scope) w) [
    | inl (u, same, run) ↦ inr (
        ap (λ r. r.0) run
        ∙ ap (pair_of seq scope) (
            ap (λ fs. sides_of (none, none) (keep (at_point batch_id seq scope) fs)) same
            ∙ sides_of-keep batch_id seq scope (none, none) w.fingerprints t.keyed
            ∙ found_none batch_id seq scope))
    | inr (u, same, stop) ↦ inl (ap (λ r. r.0) stop)
  ];
  keeps = λ batch_id seq scope. elim (asked (pair_read batch_id seq scope) w) [
    | inl (u, same, run) ↦ subst (IsTableOf m) (sym same ∙ sym (ap (λ r. r.1.fingerprints) run)) t
    | inr (u, same, stop) ↦ subst (IsTableOf m) (sym same ∙ sym (ap (λ r. r.1.fingerprints) stop)) t
  ];
}
  where
    row_written : StateFingerprint → Exec World (Unit {0})
    row_written f u = (
      ok tt,
      record u {
        fingerprints = upsert_rows u.next_fingerprint f u.fingerprints;
        next_fingerprint = u.next_fingerprint + 1;
      },
    )

    pair_read : ℕ → ℤ → FingerprintScope → Exec World FingerprintPair
    pair_read batch_id seq scope u = (
      pair_of seq scope (sides_of (none, none) (keep (at_point batch_id seq scope) u.fingerprints)),
      u,
    )

    found_none :
        (batch_id : ℕ) (seq : ℤ) (scope : FingerprintScope)
        → hashes_found batch_id seq scope (none, none) w.fingerprints
          ≡ (m (at_side batch_id seq scope reference), m (at_side batch_id seq scope under_test))
    found_none batch_id seq scope =
        let none_left : (k : FingerprintKey) → or_else (hash_at k w.fingerprints) none ≡ m k =
          λ k. or_else-none (hash_at k w.fingerprints) ∙ t.agrees k in
        cc (
          none_left (at_side batch_id seq scope reference),
          none_left (at_side batch_id seq scope under_test),
        )

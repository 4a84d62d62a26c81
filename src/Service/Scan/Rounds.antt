-- ===== src/Service/Scan/Rounds.antt =====
-- The fingerprints that one round of a scan leaves in the table.
use mathlib.Core.Path.{subst}
use task274_replaydivergence.Prelude.{
  ℕ, String, List, [], Option, none, some, ◌≡◌, refl, sym, ap, ◌∙◌, inl, inr, ◌⊎◌, Bool-cases, ◌≢◌,
}
use task274_replaydivergence.Prelude.Int.{ℤ}
use task274_replaydivergence.Model.Status.{reference, under_test, FingerprintScope, TrailSide}
use task274_replaydivergence.Model.Checkpoint.{scope, StateFingerprint, Checkpoint}
use task274_replaydivergence.Model.Event.{ExecEvent}
use task274_replaydivergence.Model.Errors.{Result, ok, err}
use task274_replaydivergence.Store.Fingerprints.Keyed.{
  FingerprintKey, hash_at, key_of, has_key, has_key-of, has_key-eq,
}
use task274_replaydivergence.Store.World.Atomic.{tables}
use task274_replaydivergence.Store.Fingerprints.{upsert}
use task274_replaydivergence.Service.Scan.{States, replay_both, fingerprint_of, save_pair}
use task274_replaydivergence.Model.Batch.{Time, ReplayBatch}
use task274_replaydivergence.Prelude.StrMap.{StrMap}
use task274_replaydivergence.Compare.Replay.{replay, events_up_to}
use task274_replaydivergence.Store.World.Holds.{
  IsTableFact, Holds, >>=-Holds, lift-Holds, statement-Holds, any-Holds, Holds-pre, step-Holds,
  pure-Holds,
}
use task274_replaydivergence.Store.World.{World, statement}
use task274_replaydivergence.Compare.Hash.{hash_state}
use task274_replaydivergence.Compare.Scope.{select_scope}
use task274_replaydivergence.Store.Fingerprints.Table.{at_side, hash_at-upsert_rows}

trail_of : List ExecEvent → List ExecEvent → TrailSide → List ExecEvent
trail_of refs tests side = elim side [ reference ↦ refs | _ ↦ tests ]

hashed : FingerprintScope → Result (StrMap String) → Option String
hashed sc (ok state) = some (hash_state (select_scope state sc))
hashed sc (err e) = none

-- The fingerprint of a side at a point: that of the state that its trail replays to.
unfoldable pub expected : List ExecEvent → List ExecEvent → FingerprintKey → Option String
unfolding trail_of hashed
expected refs tests k = hashed k.scope (replay [] (events_up_to (trail_of refs tests k.side) k.seq))

module _ (refs tests : List ExecEvent) where
  -- The table has the expected fingerprint for the key, and there is one.
  abbrev pub IsExpected : FingerprintKey → List StateFingerprint → Type 0
  IsExpected k fs = (hash_at k fs ≡ expected refs tests k) × (expected refs tests k ≢ none)

  -- The new row has the expected fingerprint.
  abbrev IsSound : StateFingerprint → Type 0
  IsSound f = expected refs tests (key_of f) ≡ some f.hash

  pub fingerprints-IsTableFact :
      (F : List StateFingerprint → Type 0) → IsTableFact (λ w. F w.fingerprints)
  unfolding tables
  fingerprints-IsTableFact F v w same h = subst (λ (u : World). F u.fingerprints) (sym same) h

  upsert-keeps :
      (k : FingerprintKey) (f : StateFingerprint)
      → IsSound f
      → Holds (λ w. IsExpected k w.fingerprints) (upsert f) (λ _ w. IsExpected k w.fingerprints)
  unfolding upsert
  upsert-keeps k f sound =
      >>=-Holds statement _ (statement-Holds _ (fingerprints-IsTableFact (IsExpected k))) λ _.
        step-Holds _ (λ _ w. IsExpected k w.fingerprints) _ _
          λ w h. (
            hash_at-upsert_rows k w.next_fingerprint f w.fingerprints
                ∙ (elim (Bool-cases (has_key k f)) [
                  | inl hit ↦ rw hit (sym sound ∙ ap (expected refs tests) (has_key-eq k f hit))
                  | inr miss ↦ rw miss h.0
                ]),
            h.1,
          )

  upsert-puts :
      (f : StateFingerprint)
      → IsSound f
      → Holds (λ _. Unit {0}) (upsert f) (λ _ w. IsExpected (key_of f) w.fingerprints)
  unfolding upsert
  upsert-puts f sound = >>=-Holds statement _ (any-Holds _ statement) λ _.
      step-Holds _ (λ _ w. IsExpected (key_of f) w.fingerprints) _ _
        λ w h. (
          hash_at-upsert_rows (key_of f) w.next_fingerprint f w.fingerprints
              ∙ rw (has_key-of (key_of f) f refl) (sym sound),
          λ e. cc (sound, e),
        )

  -- The states are those of the two trails at a seq.
  pub record IsReplayed (q : ℤ) (s : States) : Type 0 where
    pub ref : replay [] (events_up_to refs q) ≡ ok s.ref_state
    pub test : replay [] (events_up_to tests q) ≡ ok s.test_state

  pub replay_both-Holds :
      (P : World → Type 0) (q : ℤ)
      → Holds P
          (replay_both refs tests q (record { ref_state = []; test_state = [] }))
          (λ s w. P w × IsReplayed q s)
  unfolding replay_both
  replay_both-Holds P q =
      >>=-Holds {Q = λ r w. P w × (replay [] (events_up_to refs q) ≡ ok r)} _ _
        (lift-Holds P _ _ λ r w e h. (h, e))
        λ r.
          >>=-Holds
            {Q = λ t w.
              P w
              × (replay [] (events_up_to refs q) ≡ ok r)
              × (replay [] (events_up_to tests q) ≡ ok t)}
            _ _ (lift-Holds _ _ _ λ t w e h. (h.0, h.1, e))
            λ t.
              Holds-pre _ (λ w h. (h.0, record { ref = h.1; test = h.2 }))
                (pure-Holds (λ s w. P w × IsReplayed q s) _)

  module _ (now : Time) (batch_id : ℕ) (b : ReplayBatch) where
    ref-IsSound :
        (cp : Checkpoint) (s : States)
        → IsReplayed cp.seq s
        → IsSound (fingerprint_of now batch_id b cp reference s.ref_state)
    unfolding expected fingerprint_of
    ref-IsSound cp s r = ap (hashed (scope cp)) r.ref

    test-IsSound :
        (cp : Checkpoint) (s : States)
        → IsReplayed cp.seq s
        → IsSound (fingerprint_of now batch_id b cp under_test s.test_state)
    unfolding expected fingerprint_of
    test-IsSound cp s r = ap (hashed (scope cp)) r.test

    pub save_pair-keeps :
        (k : FingerprintKey) (cp : Checkpoint) (s : States)
        → IsReplayed cp.seq s
        → Holds
            (λ w. IsExpected k w.fingerprints)
            (save_pair now batch_id b cp s)
            (λ _ w. IsExpected k w.fingerprints)
    unfolding save_pair
    save_pair-keeps k cp s r =
        >>=-Holds _ _ (upsert-keeps k _ (ref-IsSound cp s r))
          λ _. upsert-keeps k _ (test-IsSound cp s r)

    pub save_pair-puts :
        (cp : Checkpoint) (s : States) (side : TrailSide)
        → ((side ≡ reference) ⊎ (side ≡ under_test))
        → IsReplayed cp.seq s
        → Holds
            (λ _. Unit {0})
            (save_pair now batch_id b cp s)
            (λ _ w. IsExpected (at_side batch_id cp.seq (scope cp) side) w.fingerprints)
    unfolding save_pair fingerprint_of
    save_pair-puts cp s side (inl e) r = rw e (
        >>=-Holds _ _ (upsert-puts _ (ref-IsSound cp s r))
          λ _. upsert-keeps (at_side batch_id cp.seq (scope cp) reference) _ (test-IsSound cp s r))
    save_pair-puts cp s side (inr e) r =
        rw e (>>=-Holds _ _ (any-Holds _ _) λ _. upsert-puts _ (test-IsSound cp s r))

-- ===== src/Service/Scan/Stored.antt =====
-- The fingerprints that a scan leaves in the table.
use mathlib.Core.Path.{subst}
use task274_replaydivergence.Model.Checkpoint.{scope}
use task274_replaydivergence.Service.Batches.Import.{get_batch-IsQuiet}
use task274_replaydivergence.Prelude.{
  ℕ, Bool, false, ◌&&◌, ◌==◌, not, List, [], ◌∷◌, ◌+◌, none, ◌≡◌, refl, sym, ap, ◌∙◌, inl, inr, ◌⊎◌,
  Bool-cases, arith, keep, Memᴰ, mem-keep,
}
use task274_replaydivergence.Model.Status.{
  reference, under_test, TrailSide, same_status, syncing, pending_loc,
}
use task274_replaydivergence.Model.Batch.{Time, ReplayBatch}
use task274_replaydivergence.Service.Scan.{
  by_seq, States, scan_fingerprints, save_pair, replay_both,
}
use task274_replaydivergence.Model.Checkpoint.{Checkpoint, is_unreliable}
use task274_replaydivergence.Service.Scan.Fresh.{scan_afresh, scan_fingerprints-scan_afresh}
use task274_replaydivergence.Store.Rows.{list_checkpoints, get_batch}
use task274_replaydivergence.Model.Event.{ExecEvent}
use task274_replaydivergence.Store.World.{World}
use task274_replaydivergence.Store.Events.{list_by_side, on_side, has_status}
use task274_replaydivergence.Model.Exec.{Exec, ◌>>=◌}
use task274_replaydivergence.Service.Scan.Carried.{fresh_loop}
use task274_replaydivergence.Prelude.Sort.{sort_on, mem-sort_on}
use task274_replaydivergence.Store.Fingerprints.Keyed.{FingerprintKey}
use task274_replaydivergence.Store.World.Atomic.{tables}
use task274_replaydivergence.Store.Fingerprints.Table.{at_side}
use task274_replaydivergence.Service.Scan.Rounds.{
  IsReplayed, IsExpected, save_pair-keeps, save_pair-puts, replay_both-Holds,
}
use task274_replaydivergence.Store.World.Holds.{
  Holds, pure-Holds, raise-Holds, if-Holds, >>=-Holds, any-Holds, IsQuiet-Holds, Holds-pre,
  Holds-post,
}
use task274_replaydivergence.Model.Errors.{ok, cancelled, invalid_state}
use task274_replaydivergence.Store.World.Reading.{Still, then_reads}
use task274_replaydivergence.Prelude.Order.{int_order}

module _ (ctx : ℕ → Bool) (clock : ℕ → Time) (batch_id : ℕ) (b : ReplayBatch)
    (refs tests : List ExecEvent) where
  -- One round and what follows it.
  round-Holds :
      {P Q R : World → Type 0} (n : ℕ) (cp : Checkpoint) (k : Exec World ℕ)
      → ((s : States)
          → IsReplayed refs tests cp.seq s
          → Holds P (save_pair (clock n) batch_id b cp s) (λ _. Q))
      → Holds Q k (λ _. R)
      → Holds P
          (replay_both refs tests cp.seq (record { ref_state = []; test_state = [] }) >>= λ next.
            save_pair (clock n) batch_id b cp next >>= λ _. k)
          (λ _. R)
  round-Holds n cp k saves rest =
      >>=-Holds _ _ (replay_both-Holds refs tests _ cp.seq) λ s. record {
        after = λ w a v p e. (>>=-Holds _ _ (saves s p.1) λ _. rest).after w a v p.0 e;
      }

  -- What the table has for a key stays through the rest of the loop.
  fresh_loop-keeps :
      (k : FingerprintKey) (n : ℕ) (cps : List Checkpoint) (count : ℕ)
      → Holds
          (λ w. IsExpected refs tests k w.fingerprints)
          (fresh_loop ctx clock batch_id b refs tests n cps count)
          (λ _ w. IsExpected refs tests k w.fingerprints)
  unfolding fresh_loop
  fresh_loop-keeps k n [] count = pure-Holds (λ _ w. IsExpected refs tests k w.fingerprints) count
  fresh_loop-keeps k n (cp ∷ cps) count = elim (Bool-cases (ctx n)) [
    | inl stop ↦ rw (stop, fresh_loop) (raise-Holds _ _ cancelled)
    | inr go ↦ elim (Bool-cases (is_unreliable cp)) [
      | inl skip ↦ rw (go, skip, fresh_loop) (fresh_loop-keeps k (n + 1) cps count)
      | inr use_it ↦
          rw (go, use_it, fresh_loop)
            (round-Holds n cp _ (λ s r. save_pair-keeps refs tests (clock n) batch_id b k cp s r)
              (fresh_loop-keeps k (n + 1) cps (count + 1)))
    ]
  ]

  -- Every trusted checkpoint of the list gets the two fingerprints.
  fresh_loop-puts :
      (cp : Checkpoint) (side : TrailSide) (n : ℕ) (cps : List Checkpoint) (count : ℕ)
      → is_unreliable cp ≡ false
      → ((side ≡ reference) ⊎ (side ≡ under_test))
      → Memᴰ cp cps
      → Holds
          (λ _. Unit {0})
          (fresh_loop ctx clock batch_id b refs tests n cps count)
          (λ _ w. IsExpected refs tests (at_side batch_id cp.seq (scope cp) side) w.fingerprints)
  unfolding fresh_loop
  fresh_loop-puts cp side n [] count trusted_cp sides m = absurd (elim m [ ])
  fresh_loop-puts cp side n (c ∷ cps) count trusted_cp sides m = elim (Bool-cases (ctx n)) [
    | inl stop ↦ rw (stop, fresh_loop) (raise-Holds _ _ cancelled)
    | inr go ↦ elim m [
      | Memᴰ.head e ↦
          rw (go, ap is_unreliable (sym e) ∙ trusted_cp, fresh_loop)
            (round-Holds n c _
              (λ s r.
                subst
                  (λ x.
                    Holds (λ _. Unit {0}) (save_pair (clock n) batch_id b c s)
                      (λ _ w.
                        IsExpected refs tests (at_side batch_id x.seq (scope x) side)
                          w.fingerprints))
                  (sym e) (save_pair-puts refs tests (clock n) batch_id b c s side sides r))
              (fresh_loop-keeps (at_side batch_id cp.seq (scope cp) side) (n + 1) cps (count + 1)))
      | Memᴰ.tail later ↦ elim (Bool-cases (is_unreliable c)) [
        | inl skip ↦
            rw (go, skip, fresh_loop)
              (fresh_loop-puts cp side (n + 1) cps count trusted_cp sides later)
        | inr use_it ↦
            rw (go, use_it, fresh_loop)
              (round-Holds n c _ (λ s r. any-Holds _ _)
                (fresh_loop-puts cp side (n + 1) cps (count + 1) trusted_cp sides later))
      ]
    ]
  ]

-- The trail of a side, in its order.
unfoldable pub stored_trail : ℕ → TrailSide → World → List ExecEvent
unfolding by_seq
stored_trail batch_id side w = by_seq (
    sort_on (λ (e : ExecEvent). e.seq)
      (keep (λ (e : ExecEvent). on_side batch_id side e && has_status none e) w.events))

-- The scan leaves the expected fingerprint of the side at the checkpoint.
abbrev pub IsScanned : ℕ → Checkpoint → TrailSide → World → World → Type 0
IsScanned batch_id cp side w v =
    IsExpected (stored_trail batch_id reference w) (stored_trail batch_id under_test w)
      (at_side batch_id cp.seq (scope cp) side) v.fingerprints

-- If a scan succeeds, then for every stored checkpoint of the batch that is not marked unreliable,
-- and for both sides, the table has the fingerprint of the checkpoint's scope of the state to which
-- the stored trail of that side replays from the start up to the checkpoint.
pub scan_fingerprints-IsScanned :
    (ctx : ℕ → Bool) (clock : ℕ → Time) (batch_id : ℕ) (w v : World) (n : ℕ) (cp : Checkpoint)
    (side : TrailSide)
    → scan_fingerprints ctx clock batch_id w ≡ (ok n, v)
    → Memᴰ cp w.checkpoints
    → cp.batch_id ≡ batch_id
    → is_unreliable cp ≡ false
    → ((side ≡ reference) ⊎ (side ≡ under_test))
    → IsScanned batch_id cp side w v
unfolding scan_afresh list_checkpoints list_by_side stored_trail tables
scan_fingerprints-IsScanned ctx clock batch_id w v n cp side run m own trusted_cp sides =
    let here : Holds (Still w) (scan_afresh ctx clock batch_id)
        (λ _ u. IsScanned batch_id cp side w u) =
      if-Holds (ctx 0) _ _ (λ _. raise-Holds _ _ cancelled)
        λ _.
          >>=-Holds (get_batch batch_id) _
            (IsQuiet-Holds (Still w) _ (λ x y same h. same ∙ h) (get_batch-IsQuiet batch_id))
            λ b.
              if-Holds
                (not (same_status b.status syncing) && not (same_status b.status pending_loc)) _ _
                (λ _. raise-Holds _ _ invalid_state)
                λ _.
                  then_reads w _ _ (λ u. refl)
                    λ cps is_cps.
                      then_reads w _ _ (λ u. refl)
                        λ refs is_refs.
                          then_reads w _ _ (λ u. refl)
                            λ tests is_tests.
                              let listed : Memᴰ cp cps = subst (Memᴰ cp) (sym is_cps) (
                                (mem-sort_on (λ (c : Checkpoint). c.seq) cp _).1 (
                                  (mem-keep cp (λ (c : Checkpoint). c.batch_id == batch_id)
                                      w.checkpoints).1
                                    (m, ground (arith, own)))) in
                              Holds-pre _ (λ u h. tt)
                                (Holds-post _
                                  (λ a u h.
                                    subst
                                      (λ r.
                                        IsExpected (by_seq r) (stored_trail batch_id under_test w)
                                          (at_side batch_id cp.seq (scope cp) side) u.fingerprints)
                                      is_refs
                                      (subst
                                        (λ t.
                                          IsExpected (by_seq refs) (by_seq t)
                                            (at_side batch_id cp.seq (scope cp) side)
                                            u.fingerprints)
                                        is_tests h))
                                  (fresh_loop-puts ctx clock batch_id b (by_seq refs) (by_seq tests)
                                    cp side 1 cps 0 trusted_cp sides listed)) in
    here.after w n v refl (sym (scan_fingerprints-scan_afresh ctx clock batch_id w) ∙ run)

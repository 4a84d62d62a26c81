-- ===== src/Service/Preserves/Loops.antt =====
-- The alignment and the scan, whose loops write once for every event or checkpoint.
use task274_replaydivergence.Sync.Aligner.{align}
use task274_replaydivergence.Prelude.{
  ℕ, List, [], ◌∷◌, Option, none, some, Bool, ◌+◌, Bool-cases, inl, inr,
}
use task274_replaydivergence.Store.World.Keeps.{
  Keeps, if-Keeps, >>=-Keeps, pure-Keeps, raise-Keeps, read-Keeps,
}
use task274_replaydivergence.Service.Preserves.{Preserves}
use task274_replaydivergence.Store.World.{World}
use task274_replaydivergence.Store.Events.{seq_range, event_getter}
use task274_replaydivergence.Sync.Aligner.{
  mark_aligned, align_range, SeqSet, is_excluded, AlignResult,
}
use task274_replaydivergence.Service.Batches.{lock_synced, sync}
use task274_replaydivergence.Service.Scan.{
  replay_both, save_pair, scan_loop, scan_fingerprints, States,
}
use task274_replaydivergence.Model.Status.{TrailSide, reference, under_test, aligned}
use task274_replaydivergence.Model.Batch.{Time, ReplayBatch}
use task274_replaydivergence.Model.Event.{ExecEvent}
use task274_replaydivergence.Store.Rows.{get_batch}
use task274_replaydivergence.Prelude.Int.{ℤ}
use task274_replaydivergence.Model.Errors.{cancelled, invalid_state, empty_trails}
use task274_replaydivergence.Model.Checkpoint.{Checkpoint, is_unreliable}
use task274_replaydivergence.Service.Preserves.Queries.{
  selected, get_batch-Keeps, list_checkpoints-Keeps, list_by_side-Keeps,
}

module _ (P : World → Type 0) (p : Preserves P) where
  seq_range-Keeps : (batch_id : ℕ) (side : TrailSide) → Keeps P (seq_range batch_id side)
  unfolding seq_range
  seq_range-Keeps batch_id side = selected P p.fact _

  mark_aligned-Keeps :
      (batch_id : ℕ) (es : List ExecEvent) (seqs : SeqSet)
      → Keeps P (mark_aligned event_getter batch_id es seqs)
  unfolding mark_aligned event_getter
  mark_aligned-Keeps batch_id [] seqs = pure-Keeps P seqs
  mark_aligned-Keeps batch_id (e ∷ es) seqs =
      let rest = mark_aligned-Keeps batch_id es (e.seq ∷ seqs) in
      if-Keeps (is_excluded e) _ _ rest
        (>>=-Keeps _ _ (p.update_status batch_id e.id aligned "") λ _. rest)

  align-Keeps : (fuel batch_id : ℕ) → Keeps P (align fuel event_getter batch_id)
  unfolding align align_range event_getter
  align-Keeps fuel batch_id = >>=-Keeps _ _ (seq_range-Keeps batch_id reference) λ _.
      >>=-Keeps _ _ (seq_range-Keeps batch_id under_test) λ _.
        if-Keeps _ _ _ (raise-Keeps P empty_trails) (
          >>=-Keeps _ _ (list_by_side-Keeps P p.fact batch_id reference none) λ refs.
            >>=-Keeps _ _ (list_by_side-Keeps P p.fact batch_id under_test none) λ tests.
              >>=-Keeps _ _ (mark_aligned-Keeps batch_id refs [])
                λ _. >>=-Keeps _ _ (mark_aligned-Keeps batch_id tests []) λ _. pure-Keeps P _)

  lock_synced-Keeps :
      (now : Time) (b : ReplayBatch) (res : Option AlignResult) → Keeps P (lock_synced now b res)
  unfolding lock_synced
  lock_synced-Keeps now b none = pure-Keeps P none
  lock_synced-Keeps now b (some res) = >>=-Keeps _ _ (read-Keeps P _) λ locked.
      >>=-Keeps _ _ (read-Keeps P _)
        λ moved. >>=-Keeps _ _ (p.update_batch moved) λ _. pure-Keeps P _

  pub sync-Keeps : (fuel : ℕ) (now : Time) (batch_id : ℕ) → Keeps P (sync fuel now batch_id)
  unfolding sync
  sync-Keeps fuel now batch_id =
      >>=-Keeps (get_batch batch_id) _ (get_batch-Keeps P p.fact batch_id) λ b.
        if-Keeps _ _ _ (raise-Keeps P invalid_state)
          (>>=-Keeps _ _ (align-Keeps fuel batch_id) (lock_synced-Keeps now b))

  replay_both-Keeps :
      (ref_events test_events : List ExecEvent) (limit : ℤ) (s : States)
      → Keeps P (replay_both ref_events test_events limit s)
  unfolding replay_both
  replay_both-Keeps ref_events test_events limit s =
      >>=-Keeps _ _ (read-Keeps P _) λ _. >>=-Keeps _ _ (read-Keeps P _) λ _. pure-Keeps P _

  save_pair-Keeps :
      (now : Time) (batch_id : ℕ) (b : ReplayBatch) (cp : Checkpoint) (s : States)
      → Keeps P (save_pair now batch_id b cp s)
  unfolding save_pair
  save_pair-Keeps now batch_id b cp s = >>=-Keeps _ _ (p.upsert _) λ _. p.upsert _

  scan_loop-Keeps :
      (ctx : ℕ → Bool) (clock : ℕ → Time) (batch_id : ℕ) (b : ReplayBatch)
      (ref_events test_events : List ExecEvent) (n : ℕ) (cps : List Checkpoint) (s : States)
      (count : ℕ)
      → Keeps P (scan_loop ctx clock batch_id b ref_events test_events n cps s count)
  unfolding scan_loop
  scan_loop-Keeps ctx clock batch_id b ref_events test_events n [] s count = pure-Keeps P count
  scan_loop-Keeps ctx clock batch_id b ref_events test_events n (cp ∷ cps) s count =
      let loop = scan_loop-Keeps ctx clock batch_id b ref_events test_events (n + 1) cps in
      elim (Bool-cases (ctx n)) [
        | inl stopped ↦ rw (stopped, scan_loop) (raise-Keeps P cancelled)
        | inr going ↦ elim (Bool-cases (is_unreliable cp)) [
          | inl skipped ↦ rw (going, skipped, scan_loop) (loop s count)
          | inr taken ↦
              rw (going, taken, scan_loop)
                (>>=-Keeps _ _ (replay_both-Keeps ref_events test_events cp.seq s) λ next.
                  >>=-Keeps _ _ (save_pair-Keeps (clock n) batch_id b cp next)
                    λ _. loop next (count + 1))
        ]
      ]

  pub scan_fingerprints-Keeps :
      (ctx : ℕ → Bool) (clock : ℕ → Time) (batch_id : ℕ)
      → Keeps P (scan_fingerprints ctx clock batch_id)
  unfolding scan_fingerprints
  scan_fingerprints-Keeps ctx clock batch_id = if-Keeps (ctx 0) _ _ (raise-Keeps P cancelled) (
      >>=-Keeps (get_batch batch_id) _ (get_batch-Keeps P p.fact batch_id) λ b.
        if-Keeps _ _ _ (raise-Keeps P invalid_state) (
          >>=-Keeps _ _ (list_checkpoints-Keeps P p.fact batch_id) λ cps.
            >>=-Keeps _ _ (list_by_side-Keeps P p.fact batch_id reference none) λ refs.
              >>=-Keeps _ _ (list_by_side-Keeps P p.fact batch_id under_test none)
                λ tests. scan_loop-Keeps ctx clock batch_id b _ _ 1 cps _ 0))

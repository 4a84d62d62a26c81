-- ===== src/Service/Preserves/Compares.antt =====
-- The comparison, the trace, the exclusion of an event and the making of a snapshot.
use task274_replaydivergence.Prelude.{
  ℕ, String, List, [], ◌∷◌, Option, none, some, ◌≢◌, Bool, length, Bool-cases, inl, inr, refl,
}
use task274_replaydivergence.Store.World.Keeps.{
  Keeps, if-Keeps, >>=-Keeps, pure-Keeps, raise-Keeps, read-Keeps,
}
use task274_replaydivergence.Service.Preserves.{Preserves}
use task274_replaydivergence.Service.Preserves.Parts.{
  transaction, replace_all-Keeps, save_chain-Keeps,
}
use task274_replaydivergence.Backtrace.Tracer.Result.{trace_exact}
use task274_replaydivergence.Store.World.{World}
use task274_replaydivergence.Service.Comparison.{
  tolerate, scanned_pair, compare_one, compare_loop, conclude, compare, Tally,
}
use task274_replaydivergence.Service.Tracing.{
  build_graph, difference, give_up, confirm, record_trace, trace_difference, trace_divergence,
  exclude_event, Inputs, describe,
}
use task274_replaydivergence.Service.Snapshots.{create_snapshot}
use task274_replaydivergence.Model.Errors.{
  Result, invalid_state, sealed_batch, cancelled, ok, fingerprint_missing, err,
}
use task274_replaydivergence.Store.Fingerprints.{get_pair}
use task274_replaydivergence.Model.Batch.{Time, ReplayBatch}
use task274_replaydivergence.Model.Checkpoint.{FingerprintPair, Checkpoint, is_match, is_unreliable}
use task274_replaydivergence.Prelude.Int.{ℤ}
use task274_replaydivergence.Model.Status.{
  reference, EventStatus, under_test, DivergenceStatus, candidate,
}
use task274_replaydivergence.Backtrace.Tracer.{TraceResult}
use task274_replaydivergence.Model.Snapshot.{new_loc_snapshot}
use task274_replaydivergence.Service.Preserves.Queries.{
  queried, get_batch-Keeps, list_checkpoints-Keeps, list_by_side-Keeps, get_divergence-Keeps,
  get-Keeps,
}

module _ (P : World → Type 0) (p : Preserves P) where
  tolerate_keeps : (r : Result FingerprintPair × World) → P r.1 → P (tolerate r).1
  unfolding tolerate
  tolerate_keeps (ok a, w) h = h
  tolerate_keeps (err e, w) h = h

  scanned_pair-Keeps : (batch_id : ℕ) (cp : Checkpoint) → Keeps P (scanned_pair batch_id cp)
  unfolding scanned_pair get_pair
  scanned_pair-Keeps batch_id cp = record {
    kept = λ w h. tolerate_keeps _ ((queried P p.fact _).kept w h);
  }

  compare_one-Keeps :
      (now : Time) (batch_id : ℕ) (seq : ℤ) (t : Tally) (found : Option FingerprintPair)
      → Keeps P (compare_one now batch_id seq t found)
  unfolding compare_one
  compare_one-Keeps now batch_id seq t none = pure-Keeps P t
  compare_one-Keeps now batch_id seq t (some pair) =
      >>=-Keeps _ _ (if-Keeps (is_match pair) _ _ (pure-Keeps P tt) (p.propose now batch_id seq))
        λ _. pure-Keeps P _

  compare_loop-Keeps :
      (now : Time) (batch_id : ℕ) (cps : List Checkpoint) (t : Tally)
      → Keeps P (compare_loop now batch_id cps t)
  unfolding compare_loop
  compare_loop-Keeps now batch_id [] t = pure-Keeps P t
  compare_loop-Keeps now batch_id (cp ∷ cps) t = elim (Bool-cases (is_unreliable cp)) [
    | inl skipped ↦ rw (skipped, compare_loop) (compare_loop-Keeps now batch_id cps t)
    | inr taken ↦
        rw (taken, compare_loop)
          (>>=-Keeps _ _ (scanned_pair-Keeps batch_id cp) λ found.
            >>=-Keeps _ _ (compare_one-Keeps now batch_id cp.seq t found)
              λ next. compare_loop-Keeps now batch_id cps next)
  ]

  conclude-Keeps : (now : Time) (b : ReplayBatch) (t : Tally) → Keeps P (conclude now b t)
  unfolding conclude
  conclude-Keeps now b t = if-Keeps _ _ _ (raise-Keeps P fingerprint_missing) (
      >>=-Keeps _ _ (read-Keeps P _)
        λ moved. >>=-Keeps _ _ (p.update_batch moved) λ _. pure-Keeps P _)

  pub compare-Keeps :
      (stopped : Bool) (now : Time) (batch_id : ℕ) → Keeps P (compare stopped now batch_id)
  unfolding compare
  compare-Keeps stopped now batch_id = if-Keeps stopped _ _ (raise-Keeps P cancelled) (
      >>=-Keeps _ _ (get_batch-Keeps P p.fact batch_id) λ b.
        if-Keeps _ _ _ (raise-Keeps P invalid_state) (
          >>=-Keeps _ _ (list_checkpoints-Keeps P p.fact batch_id)
            λ cps. >>=-Keeps _ _ (compare_loop-Keeps now batch_id cps _) (conclude-Keeps now b)))

  build_graph-Keeps : (batch_id div_id : ℕ) → Keeps P (build_graph batch_id div_id)
  unfolding build_graph
  build_graph-Keeps batch_id div_id = >>=-Keeps _ _ (get_batch-Keeps P p.fact batch_id) λ b.
      if-Keeps _ _ _ (raise-Keeps P invalid_state) (
        >>=-Keeps _ _ (get_divergence-Keeps P p.fact batch_id div_id) λ d.
          >>=-Keeps _ _ (list_by_side-Keeps P p.fact batch_id reference none) λ refs.
            >>=-Keeps _ _ (list_by_side-Keeps P p.fact batch_id under_test none) λ tests.
              >>=-Keeps _ _ (transaction P p _ (replace_all-Keeps P p batch_id _))
                λ _. pure-Keeps P _)

  difference-Keeps : (i : Inputs) → Keeps P (difference i)
  unfolding difference
  difference-Keeps i =
      >>=-Keeps _ _ (read-Keeps P _) λ _. >>=-Keeps _ _ (read-Keeps P _) λ _. pure-Keeps P _

  give_up-Keeps : (now : Time) (i : Inputs) → Keeps P (give_up now i)
  unfolding give_up
  give_up-Keeps now i = >>=-Keeps _ _ (p.update_divergence _ λ e. absurd (cc e)) λ _. pure-Keeps P _

  confirm-Keeps :
      (now : Time) (b : ReplayBatch) (status : DivergenceStatus) → Keeps P (confirm now b status)
  unfolding confirm
  confirm-Keeps now b status =
      if-Keeps _ _ _
        (>>=-Keeps _ _ (read-Keeps P _)
          λ moved. >>=-Keeps _ _ (p.update_batch moved) λ _. pure-Keeps P _)
        (pure-Keeps P b)

  record_trace-Keeps :
      (now : Time) (div_id : ℕ) (i : Inputs) (differences : ℕ) (tr : TraceResult)
      → tr.status ≢ candidate
      → Keeps P (record_trace now div_id i differences (some tr))
  unfolding record_trace describe
  record_trace-Keeps now div_id i differences tr decided =
      >>=-Keeps _ _ (transaction P p _ (save_chain-Keeps P p div_id _)) λ _.
        >>=-Keeps _ _ (p.update_divergence (describe now i.found differences tr) decided)
          λ _. >>=-Keeps _ _ (confirm-Keeps now i.batch tr.status) λ _. pure-Keeps P _

  trace_difference-Keeps :
      (stopped : Bool) (now : Time) (batch_id div_id : ℕ) (i : Inputs) (diff : List String)
      → Keeps P (trace_difference stopped now batch_id div_id i diff)
  unfolding trace_difference
  trace_difference-Keeps stopped now batch_id div_id i [] = give_up-Keeps now i
  trace_difference-Keeps stopped now batch_id div_id i (r ∷ rs) =
      if-Keeps stopped _ _ (raise-Keeps P cancelled) (
        let (res, returns, exact) =
          trace_exact batch_id i.edges i.test_events i.ref_events r rs i.found.checkpoint_seq
            div_id in
        rw returns (
          record_trace-Keeps now div_id i (length (r ∷ rs)) res (elim exact [
            | inl l ↦ λ e. absurd (cc (e, l.status))
            | inr (weak, _, _) ↦ λ e. absurd (cc (e, weak))
          ])))

  pub trace_divergence-Keeps :
      (stopped_first stopped_later : Bool) (now : Time) (batch_id div_id : ℕ)
      → Keeps P (trace_divergence stopped_first stopped_later now batch_id div_id)
  unfolding trace_divergence
  trace_divergence-Keeps stopped_first stopped_later now batch_id div_id =
      if-Keeps stopped_first _ _ (raise-Keeps P cancelled) (
        >>=-Keeps _ _ (build_graph-Keeps batch_id div_id) λ i.
          >>=-Keeps _ _ (difference-Keeps i)
            (trace_difference-Keeps stopped_later now batch_id div_id i))

  pub exclude_event-Keeps :
      (batch_id event_id : ℕ) (note : String) → Keeps P (exclude_event batch_id event_id note)
  unfolding exclude_event
  exclude_event-Keeps batch_id event_id note =
      >>=-Keeps _ _ (get_batch-Keeps P p.fact batch_id) λ b.
        if-Keeps _ _ _ (raise-Keeps P sealed_batch) (
          >>=-Keeps _ _ (get-Keeps P p.fact batch_id event_id) λ _.
            >>=-Keeps _ _ (p.update_status batch_id event_id EventStatus.excluded note)
              λ _. pure-Keeps P _)

  pub create_snapshot-Keeps :
      (now : Time) (stamp : String) (batch_id : ℕ) (name : String)
      → Keeps P (create_snapshot now stamp batch_id name)
  unfolding create_snapshot new_loc_snapshot
  create_snapshot-Keeps now stamp batch_id name =
      >>=-Keeps _ _ (get_batch-Keeps P p.fact batch_id) λ b.
        if-Keeps _ _ _ (raise-Keeps P sealed_batch) (
          if-Keeps _ _ _ (raise-Keeps P invalid_state) (
            >>=-Keeps _ _ (list_checkpoints-Keeps P p.fact batch_id) λ cps.
              >>=-Keeps _ _
                (list_by_side-Keeps P p.fact batch_id under_test (some EventStatus.excluded))
                λ excluded. p.create_draft _ refl))

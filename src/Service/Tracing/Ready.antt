-- ===== src/Service/Tracing/Ready.antt =====
-- The two kinds of outcome, and the graph that is stored first.
use task274_replaydivergence.Prelude.{
  ℕ, List, ◌≡◌, ◌⊎◌, not, some, arith, Option, length, String, [], ◌≢◌, ap, ◌∙◌, refl,
}
use task274_replaydivergence.Service.Tracing.{Inputs, build_graph, difference, TraceOutcome}
use task274_replaydivergence.Model.Batch.{ReplayBatch}
use task274_replaydivergence.Store.World.{World}
use task274_replaydivergence.Store.World.Atomic.{tables, SameTables}
use task274_replaydivergence.Store.Rows.{find_batch, get_batch}
use task274_replaydivergence.Prelude.Int.{ℤ, ◌≤ℤ◌}
use task274_replaydivergence.Model.Divergence.{Divergence}
use task274_replaydivergence.Model.Status.{
  same_status, insufficient_evidence, pending_loc, reference, under_test, DivergenceStatus,
  BatchStatus,
}
use task274_replaydivergence.Store.World.Holds.{
  Holds, >>=-Holds, lift-Holds, known-Holds, if-Holds, Holds-pre, raise-Holds, pure-Holds,
  with_tx-Holds,
}
use task274_replaydivergence.Model.Errors.{ok, invalid_state}
use task274_replaydivergence.Prelude.StrMap.{StrMap}
use task274_replaydivergence.Model.Event.{ExecEvent}
use task274_replaydivergence.Store.Divergences.{find_divergence, get_divergence}
use task274_replaydivergence.Service.Scan.Stored.{stored_trail}
use task274_replaydivergence.Compare.Replay.{replay, events_up_to}
use task274_replaydivergence.Backtrace.Tracer.{TraceResult, new_tracer}
use task274_replaydivergence.Backtrace.Tracer.First.{DiffersAt}
use task274_replaydivergence.Backtrace.Tracer.Result.{IsLocated}
use task274_replaydivergence.Store.Events.{list_by_side}
use task274_replaydivergence.Compare.Diff.{diff_state}
use task274_replaydivergence.Store.World.Reading.{Still, then_finds, then_reads}
use task274_replaydivergence.Backtrace.Graph.{build, sort_edges, new_graph_builder}
use task274_replaydivergence.Store.Rows.Written.{IsStoredAs}
use task274_replaydivergence.Service.Tracing.Kept.{Kept-IsTableFact, replace_all-Holds}
use task274_replaydivergence.Service.Scan.{by_seq}

-- The inputs are the batch, the divergence and the two trails that the tables hold, and the edges
-- of the graph of the trails.
pub record IsRead (batch_id div_id : ℕ) (i : Inputs) (w : World) : Type 0 where
  pub batch : find_batch batch_id w.batches ≡ ok i.batch
  pub divergence : find_divergence batch_id div_id w.divergences ≡ ok i.found
  pub ref_trail : i.ref_events ≡ stored_trail batch_id reference w
  pub test_trail : i.test_events ≡ stored_trail batch_id under_test w
  pub graph :
      i.edges ≡ sort_edges (build (new_graph_builder batch_id) i.ref_events i.test_events).edges

-- The states to which the trails replay up to the checkpoint, and the keys at which they differ.
pub record IsDifference (i : Inputs) (diff : List String) : Type 0 where
  pub ref_state : StrMap String
  pub test_state : StrMap String
  pub ref_replayed : replay [] (events_up_to i.ref_events i.found.checkpoint_seq) ≡ ok ref_state
  pub test_replayed : replay [] (events_up_to i.test_events i.found.checkpoint_seq) ≡ ok test_state
  pub keys : diff ≡ diff_state ref_state test_state

-- At no seq up to the checkpoint do both trails have an instruction and the two differ in their
-- writes.
abbrev pub IsUnlocatable : ℕ → Inputs → Type 0
IsUnlocatable batch_id i =
    (q : ℤ) (f : ExecEvent)
    → q ≤ℤ i.found.checkpoint_seq
    → ¬ DiffersAt (new_tracer batch_id i.edges i.test_events i.ref_events) q f

-- The divergence cannot be found: the batch stays as it was.
pub record IsUnfound (batch_id : ℕ) (i : Inputs) (diff : List String) (out : TraceOutcome)
    (w : World) : Type 0 where
  pub cause : (diff ≡ []) ⊎ IsUnlocatable batch_id i
  pub status : out.divergence.status ≡ insufficient_evidence
  pub waits : out.batch.status ≡ pending_loc
  pub kept : find_batch batch_id w.batches ≡ ok out.batch

-- The divergence is the first one of the two trails up to its checkpoint, and the batch is
-- confirmed.
pub record IsFound (batch_id : ℕ) (i : Inputs) (diff : List String) (out : TraceOutcome) (w : World)
    : Type 0 where
  pub differ : diff ≢ []
  pub res : TraceResult
  pub located :
      IsLocated (new_tracer batch_id i.edges i.test_events i.ref_events) i.found.checkpoint_seq res
  pub status : out.divergence.status ≡ DivergenceStatus.confirmed
  pub seq : out.divergence.first_divergent_seq ≡ res.first_seq
  pub pc : out.divergence.first_divergent_pc ≡ res.first_pc
  pub op : out.divergence.first_divergent_op ≡ res.first_op
  pub cause : out.divergence.root_cause ≡ res.root_cause
  pub moved : out.batch.status ≡ BatchStatus.confirmed
  pub stored : IsStoredAs batch_id BatchStatus.confirmed w

-- The outcome of a trace of the inputs, which is never out of fuel.
pub record IsTraceOutcome (batch_id div_id : ℕ) (i : Inputs) (found : Option TraceOutcome)
    (w : World) : Type 0 where
  pub out : TraceOutcome
  pub returned : found ≡ some out
  pub edges : out.edges ≡ length i.edges
  pub diff : List String
  pub difference_of : IsDifference i diff
  pub stored : find_divergence batch_id div_id w.divergences ≡ ok out.divergence
  pub ending : IsUnfound batch_id i diff out w ⊎ IsFound batch_id i diff out w

-- The batch and the divergence are stored, and the batch waits.
pub record IsWaiting (batch_id div_id : ℕ) (b : ReplayBatch) (d : Divergence)
    (bs : List ReplayBatch) (ds : List Divergence) : Type 0 where
  pub stored : find_batch batch_id bs ≡ ok b
  pub status : b.status ≡ pending_loc
  pub divergence : find_divergence batch_id div_id ds ≡ ok d

module _ (batch_id div_id : ℕ) where
  abbrev pub Waits : ReplayBatch → Divergence → World → Type 0
  Waits b d w = IsWaiting batch_id div_id b d w.batches w.divergences

  -- The inputs are read from the first world, and wait in the second.
  abbrev pub IsBuilt : World → Inputs → World → Type 0
  IsBuilt w i u = Waits i.batch i.found u × IsRead batch_id div_id i w

  Waits-start :
      (b : ReplayBatch) (d : Divergence) (w u : World)
      → find_batch batch_id w.batches ≡ ok b
      → find_divergence batch_id div_id w.divergences ≡ ok d
      → b.status ≡ pending_loc
      → SameTables u w
      → Waits b d u
  unfolding tables
  Waits-start b d w u found has waits same = record {
    stored = ap (λ (x : World). find_batch batch_id x.batches) same ∙ found;
    status = waits;
    divergence = ap (λ (x : World). find_divergence batch_id div_id x.divergences) same ∙ has;
  }

  pub build_graph-Holds : (w : World) → Holds (Still w) (build_graph batch_id div_id) (IsBuilt w)
  unfolding build_graph same_status get_batch get_divergence list_by_side stored_trail tables
  build_graph-Holds w =
      then_finds w _ _ (λ u. refl)
        λ b found.
          if-Holds (not (same_status b.status pending_loc)) _ _ (λ _. raise-Holds _ _ invalid_state)
            λ at.
              then_finds w _ _ (λ u. refl)
                λ d has.
                  then_reads w _ _ (λ u. refl)
                    λ refs is_ref.
                      then_reads w _ _ (λ u. refl)
                        λ tests is_test.
                          let fact = Kept-IsTableFact (IsWaiting batch_id div_id b d) in
                          Holds-pre _
                            (λ u same. Waits-start b d w u found has (ground (arith, at)) same)
                            (>>=-Holds {Q = λ _. Waits b d} _ _
                              (with_tx-Holds (Waits b d) (λ _. Waits b d) (λ _. fact) _ fact
                                (replace_all-Holds (IsWaiting batch_id div_id b d) batch_id _))
                              λ _.
                                Holds-pre _
                                  (λ u waits. (
                                    waits,
                                    record {
                                      batch = found;
                                      divergence = has;
                                      ref_trail = ap by_seq is_ref;
                                      test_trail = ap by_seq is_test;
                                      graph = refl;
                                    },
                                  ))
                                  (pure-Holds (IsBuilt w) _))

  pub difference-Holds :
      (P : World → Type 0) (i : Inputs)
      → Holds P (difference i) (λ diff w. P w × IsDifference i diff)
  unfolding difference
  difference-Holds P i =
      >>=-Holds
        {Q = λ r w. P w × (replay [] (events_up_to i.ref_events i.found.checkpoint_seq) ≡ ok r)} _ _
        (lift-Holds P _ _ λ r w e h. (h, e))
        λ r. known-Holds λ ref_replayed.
          >>=-Holds
            {Q = λ t w.
              P w × (replay [] (events_up_to i.test_events i.found.checkpoint_seq) ≡ ok t)}
            _ _ (lift-Holds P _ _ λ t w e h. (h, e))
            λ t. known-Holds λ test_replayed.
              Holds-pre _
                (λ w h. (
                  h,
                  record {
                    ref_state = r;
                    test_state = t;
                    ref_replayed = ref_replayed;
                    test_replayed = test_replayed;
                    keys = refl;
                  },
                ))
                (pure-Holds (λ diff w. P w × IsDifference i diff) (diff_state r t))

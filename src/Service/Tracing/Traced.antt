-- ===== src/Service/Tracing/Traced.antt =====
-- What a trace that succeeds returns and leaves in the tables.
use task274_replaydivergence.Prelude.{
  ℕ, String, List, [], ◌∷◌, ◌≡◌, ◌∙◌, sym, ap, refl, ◌⊎◌, inl, inr, Bool, some, true, false, Option,
  length, ◌≢◌,
}
use task274_replaydivergence.Service.Tracing.{
  TraceOutcome, Inputs, build_graph, difference, give_up, confirm, record_trace, trace_difference,
  trace_divergence, describe,
}
use task274_replaydivergence.Model.Batch.{ReplayBatch, Time}
use task274_replaydivergence.Store.World.{World}
use task274_replaydivergence.Model.Status.{insufficient_evidence}
use task274_replaydivergence.Backtrace.Tracer.{TraceResult, new_tracer}
use task274_replaydivergence.Model.Errors.{ok, cancelled}
use task274_replaydivergence.Store.World.Holds.{
  Holds, >>=-Holds, if-Holds, pure-Holds, Holds-pre, raise-Holds, IsTableFact, with_tx-Holds,
  known-Holds,
}
use task274_replaydivergence.Backtrace.Tracer.Result.{IsLocated, trace_exact}
use task274_replaydivergence.Service.Tracing.Kept.{Kept-IsTableFact, save_chain-Holds}
use task274_replaydivergence.Model.Exec.{>>=-eq-ok}
use task274_replaydivergence.Service.Tracing.Ready.{
  IsWaiting, IsTraceOutcome, IsUnfound, IsFound, build_graph-Holds, difference-Holds, IsUnlocatable,
  IsDifference, IsRead, Waits,
}
use task274_replaydivergence.Model.Divergence.{Divergence}
use task274_replaydivergence.Store.Divergences.{set_divergence}
use task274_replaydivergence.Service.Tracing.Confirmed.{
  IsReady, Follows, decide-Holds, confirm-Holds,
}

module _ (now : Time) (batch_id div_id : ℕ) (i : Inputs) (diff : List String) where
  abbrev Ends : Option TraceOutcome → World → Type 0
  Ends found w = IsTraceOutcome batch_id div_id i found w

  give_up-Holds :
      IsDifference i diff
      → diff ≡ []
      → Holds (IsReady now batch_id div_id i i.found) (give_up now i) Ends
  unfolding give_up set_divergence
  give_up-Holds differ none_differs =
      >>=-Holds _ _ (decide-Holds now batch_id div_id i _ refl refl) λ _.
        Holds-pre _
          (λ w h. record {
            out = _;
            returned = refl;
            edges = refl;
            diff = diff;
            difference_of = differ;
            stored = h.divergence;
            ending = inl (record {
              cause = inl none_differs;
              status = refl;
              waits = h.status;
              kept = h.stored;
            });
          })
          (pure-Holds Ends _)

  -- What the tracer finds.
  abbrev IsTraced : TraceResult → Type 0
  IsTraced res =
      IsLocated (new_tracer batch_id i.edges i.test_events i.ref_events) i.found.checkpoint_seq res
      ⊎ ((res.status ≡ insufficient_evidence) × IsUnlocatable batch_id i)

  described_ending :
      (res : TraceResult) (b : ReplayBatch) (w : World) (out : TraceOutcome)
      → out ≡ (record {
        divergence = describe now i.found (length diff) res;
        edges = length i.edges;
        batch = b;
      })
      → diff ≢ []
      → IsTraced res
      → Follows now batch_id div_id i (describe now i.found (length diff) res) b w
      → IsUnfound batch_id i diff out w ⊎ IsFound batch_id i diff out w
  unfolding describe
  described_ending res b w out e differ (inl l) (inl (weak, _, _), _) = absurd (cc (weak, l.status))
  described_ending res b w out e differ (inl l) (inr (_, moved, stored), _) = inr (record {
    differ = differ;
    res = res;
    located = l;
    status = rw e l.status;
    seq = rw e refl;
    pc = rw e refl;
    op = rw e refl;
    cause = rw e refl;
    moved = rw e moved;
    stored = stored;
  })
  described_ending res b w out e differ (inr (weak, unlocatable)) (inl (_, same, h), _) =
      inl (record {
        cause = inr unlocatable;
        status = rw e weak;
        waits = rw e (ap (λ (x : ReplayBatch). x.status) same ∙ h.status);
        kept = rw e (h.stored ∙ ap ok (sym same));
      })
  described_ending res b w out e differ (inr (weak, _)) (inr (strong, _, _), _) =
      absurd (strong weak)

  record_trace-Holds :
      (res : TraceResult)
      → IsDifference i diff
      → diff ≢ []
      → IsTraced res
      → Holds
          (IsReady now batch_id div_id i i.found)
          (record_trace now div_id i (length diff) (some res))
          Ends
  unfolding record_trace describe set_divergence
  record_trace-Holds res is_diff differ exact =
      let K : List ReplayBatch → List Divergence → Type 0 =
        IsWaiting batch_id div_id i.batch i.found in
      let fact : IsTableFact (IsReady now batch_id div_id i i.found) = Kept-IsTableFact K in
      let d = describe now i.found (length diff) res in
      >>=-Holds {Q = λ _. IsReady now batch_id div_id i i.found} _ _
        (with_tx-Holds (IsReady now batch_id div_id i i.found)
          (λ _. IsReady now batch_id div_id i i.found) (λ _. fact) _ fact
          (save_chain-Holds K div_id _))
        λ _.
          >>=-Holds {Q = λ _. IsReady now batch_id div_id i d} _ _
            (decide-Holds now batch_id div_id i d refl refl)
            λ _.
              >>=-Holds (confirm now i.batch d.status) _ (confirm-Holds now batch_id div_id i d)
                λ b.
                  Holds-pre _
                    (λ w h. record {
                      out = _;
                      returned = refl;
                      edges = refl;
                      diff = diff;
                      difference_of = is_diff;
                      stored = h.1;
                      ending = described_ending res b w _ refl differ exact h;
                    })
                    (pure-Holds Ends _)

trace_difference-Holds :
    (now : Time) (batch_id div_id : ℕ) (i : Inputs) (stopped : Bool) (diff : List String)
    → IsDifference i diff
    → Holds
        (Waits batch_id div_id i.batch i.found)
        (trace_difference stopped now batch_id div_id i diff)
        (IsTraceOutcome batch_id div_id i)
unfolding trace_difference
trace_difference-Holds now batch_id div_id i stopped [] is_diff =
    give_up-Holds now batch_id div_id i [] is_diff refl
trace_difference-Holds now batch_id div_id i stopped (r ∷ rs) is_diff =
    if-Holds stopped _ _ (λ _. raise-Holds _ _ cancelled)
      λ _.
        let (res, returns, exact) =
          trace_exact batch_id i.edges i.test_events i.ref_events r rs i.found.checkpoint_seq
            div_id in
        rw returns (
          record_trace-Holds now batch_id div_id i (r ∷ rs) res is_diff (λ e. cc e)
            (elim exact [ inl l ↦ inl l | inr weak ↦ inr (weak.0, weak.2) ]))

-- If a trace succeeds, it never ran out of fuel. With the batch, the divergence and the trails that
-- the tables held before, the edges of the graph of the trails, which it counts, and the keys at
-- which the states differ to which the trails replay up to the checkpoint: the divergence that it
-- returns is stored, and one of two holds. Either no key differs, or at no seq up to the checkpoint
-- do both trails have an instruction and the two differ in their writes; then the divergence has
-- insufficient evidence and the stored batch still waits as "pending_loc". Or some key differs, the
-- divergence is confirmed with the place and the cause of the first divergence of the two trails up
-- to the checkpoint, and the stored batch is confirmed.
pub trace_divergence-IsTraceOutcome :
    (stopped_first stopped_later : Bool) (now : Time) (batch_id div_id : ℕ) (w v : World)
    (found : Option TraceOutcome)
    → trace_divergence stopped_first stopped_later now batch_id div_id w ≡ (ok found, v)
    → (i : Inputs) × IsRead batch_id div_id i w × IsTraceOutcome batch_id div_id i found v
unfolding trace_divergence
trace_divergence-IsTraceOutcome true stopped_later now batch_id div_id w v found e =
    absurd (cc (ap (λ r. r.0) e))
trace_divergence-IsTraceOutcome false stopped_later now batch_id div_id w v found e =
    let (i, u, built, rest) = >>=-eq-ok (build_graph batch_id div_id) _ w v found e in
    let (waiting, is_read) = (build_graph-Holds batch_id div_id w).after w i u refl built in
    (
      i,
      is_read,
      (>>=-Holds (difference i) _ (difference-Holds batch_id div_id _ i) λ diff.
            known-Holds λ is_diff.
              trace_difference-Holds now batch_id div_id i stopped_later diff is_diff).after
          u found v waiting rest,
    )

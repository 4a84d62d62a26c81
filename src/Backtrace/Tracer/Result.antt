-- ===== src/Backtrace/Tracer/Result.antt =====
-- The result of `Trace`.
use task274_replaydivergence.Prelude.{
  ℕ, String, ◌≡◌, ◌⊎◌, refl, inl, inr, List, [], ◌∷◌, some, Option-cases,
}
use task274_replaydivergence.Prelude.Int.{ℤ, ◌≤ℤ◌, ◌<ℤ◌}
use task274_replaydivergence.Model.Event.{ExecEvent}
use task274_replaydivergence.Model.Divergence.{RwEdge, first_instruction, never_written}
use task274_replaydivergence.Model.Status.{insufficient_evidence, confirmed}
use task274_replaydivergence.Backtrace.Tracer.{
  Tracer, TraceResult, new_tracer, trace, first_divergent_event, located, insufficient,
}
use task274_replaydivergence.Backtrace.Tracer.First.{DiffersAt, first_divergent_event_exact}
use task274_replaydivergence.Backtrace.Tracer.Ends.{expand_chain_returns}

-- The result names the first divergence of the trails up to the limit.
pub record IsLocated (t : Tracer) (limit : ℤ) (res : TraceResult) : Type 0 where
  pub at : ℤ
  pub first : ExecEvent
  pub within : at ≤ℤ limit
  pub differs : DiffersAt t at first
  pub least : (q : ℤ) (f : ExecEvent) → q <ℤ at → ¬ DiffersAt t q f
  pub status : res.status ≡ confirmed
  pub first_seq : res.first_seq ≡ first.seq
  pub first_pc : res.first_pc ≡ first.pc
  pub first_op : res.first_op ≡ first.opcode
  pub root_cause : res.root_cause ≡ first_instruction first.seq first.opcode first.pc

-- `Trace` on a non-empty set of resources, whichever they are, returns: either it confirms the
-- divergence of least seq up to the checkpoint, or at no seq up to the checkpoint do both trails
-- have an instruction and the two differ in their writes, the status is "insufficient evidence" and
-- the chain is empty.
pub trace_exact :
    (batch_id : ℕ) (edges : List RwEdge) (test_events ref_events : List ExecEvent) (r : String)
    (rs : List String) (limit : ℤ) (divergence_id : ℕ)
    → let t = new_tracer batch_id edges test_events ref_events in
      (res : TraceResult) × (trace t (r ∷ rs) limit divergence_id ≡ some res)
      × (IsLocated t limit res
          ⊎ ((res.status ≡ insufficient_evidence)
              × (res.chain_nodes ≡ [])
              × ((q : ℤ) (f : ExecEvent) → q ≤ℤ limit → ¬ DiffersAt t q f)))
unfolding trace
trace_exact batch_id edges test_events ref_events r rs limit divergence_id =
    let t = new_tracer batch_id edges test_events ref_events in
    elim (Option-cases (first_divergent_event t limit)) [
      | inl none_differs ↦ (
        insufficient divergence_id never_written,
        rw (none_differs, trace) refl,
        inr (refl, refl, (first_divergent_event_exact t limit).1 none_differs),
      )
      | inr (first, found) ↦
          let (s, le, d, least) = (first_divergent_event_exact t limit).0 first found in
          let (chain, ends) =
            expand_chain_returns batch_id edges test_events ref_events first 1 (first.seq ∷ []) in
          (
            located divergence_id first chain,
            rw (found, trace) (rw (ends, trace) refl),
            inl (record {
              at = s;
              first = first;
              within = le;
              differs = d;
              least = least;
              status = refl;
              first_seq = refl;
              first_pc = refl;
              first_op = refl;
              root_cause = refl;
            }),
          )
    ]

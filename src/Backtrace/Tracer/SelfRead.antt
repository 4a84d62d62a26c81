-- ===== src/Backtrace/Tracer/SelfRead.antt =====
-- `latestRefWriter` is asked up to and including the seq of the reader, and that seq is visited
-- from the start.
use task274_replaydivergence.Prelude.{
  ℕ, suc, ◌≡◌, refl, inl, inr, List, [], ◌∷◌, some, arith, All, length, Memᴰ, true, ◌+◌, ap,
  Option-cases, All-mem, zero, ◌∙◌,
}
use task274_replaydivergence.Prelude.Int.{ℤ, ◌≤ℤ◌, pos_part, neg_part, eq_of_parts}
use task274_replaydivergence.Model.Event.{ResourceAccess, ExecEvent, key}
use task274_replaydivergence.Backtrace.Tracer.{
  Tracer, Frontier, is_visited, follow, follow_reads, expand, expand_chain, latest_ref_writer,
}
use task274_replaydivergence.Backtrace.Tracer.Writers.{
  Writes, WritesWithin, latest_ref_writer_exact,
}
use task274_replaydivergence.Backtrace.Tracer.Ends.{IsIndexed}
use task274_replaydivergence.Model.Divergence.{ChainEdge}

-- The reference instruction of the same seq writes the resource.
abbrev pub IsOverwritten : Tracer → ExecEvent → ResourceAccess → Type 0
IsOverwritten t e rd = (r : ExecEvent) × Memᴰ (e.seq, r) t.ref_events × Writes (key rd) r.writes

module _ (t : Tracer) (indexed : IsIndexed t.ref_events) (first : ExecEvent) where
  latest_is_own :
      (rd : ResourceAccess)
      → IsOverwritten t first rd
      → (w : ExecEvent) × (latest_ref_writer t (key rd) first.seq ≡ some w) × (w.seq ≡ first.seq)
  latest_is_own rd (r, entry, writes) =
      let here : WritesWithin (key rd) first.seq t.ref_events r = record {
        at = first.seq;
        entry = entry;
        within = omega arith;
        writes = writes;
      } in
      elim (Option-cases (latest_ref_writer t (key rd) first.seq)) [
        | inl nobody ↦ absurd ((latest_ref_writer_exact t (key rd) first.seq).1 nobody r here)
        | inr (w, found) ↦
            let (d, last) = (latest_ref_writer_exact t (key rd) first.seq).0 w found in
            let w_at : w.seq ≡ d.at = All-mem _ t.ref_events (d.at, w) indexed d.entry in
            let r_at : r.seq ≡ first.seq = All-mem _ t.ref_events (first.seq, r) indexed entry in
            (
              w,
              found,
              eq_of_parts w.seq first.seq
                  (within_both w r d.at first.seq w_at r_at d.within (last r here)),
            )
      ]
    where
      within_both :
          (w r : ExecEvent) (a b : ℤ)
          → w.seq ≡ a
          → r.seq ≡ b
          → a ≤ℤ b
          → r.seq ≤ℤ w.seq
          → pos_part w.seq + neg_part b ≡ pos_part b + neg_part w.seq
      within_both w r a b wa rb le ge =
          omega (arith, ap pos_part wa, ap neg_part wa, ap pos_part rb, ap neg_part rb)

  nothing_followed :
      (depth : ℕ) (rds : List ResourceAccess) (f : Frontier)
      → is_visited first.seq f.visited ≡ true
      → All (IsOverwritten t first) rds
      → follow_reads t first depth rds f ≡ f
  unfolding follow_reads follow
  nothing_followed depth [] f seen h = refl
  nothing_followed depth (rd ∷ rds) f seen h =
      let (w, found, own) = latest_is_own rd h.0 in
      rw (found, own, seen) (nothing_followed depth rds f seen h.1)

expand-empty :
    (t : Tracer) (fuel : ℕ) (visited : List ℤ) (nodes : List ChainEdge)
    → expand t fuel (record { queue = []; visited = visited; nodes = nodes }) ≡ some nodes
unfolding expand
expand-empty t zero visited nodes = refl
expand-empty t (suc fuel) visited nodes = refl

-- If the reference instruction at the seq of the first divergent one writes every resource that
-- the divergent one reads, as an instruction that reads and writes one register does, the chain is
-- empty, whatever wrote those resources before.
pub self_read_hides_upstream :
    (t : Tracer) (first : ExecEvent) (depth : ℕ)
    → IsIndexed t.ref_events
    → All (IsOverwritten t first) first.reads
    → expand_chain t first depth (first.seq ∷ []) ≡ some []
unfolding expand_chain expand is_visited
self_read_hides_upstream t first depth indexed h =
    let f : Frontier = record { queue = []; visited = first.seq ∷ []; nodes = [] } in
    ap (expand t (length t.ref_events))
      (nothing_followed t indexed first depth first.reads f (ground arith) h)
    ∙ expand-empty t (length t.ref_events) (first.seq ∷ []) []

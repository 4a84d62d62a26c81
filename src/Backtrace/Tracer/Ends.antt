-- ===== src/Backtrace/Tracer/Ends.antt =====
-- The loop of `expandChain` ends: each round takes one instruction off the queue, and each one put
-- on it was not visited before.
use task274_replaydivergence.Prelude.{
  ℕ, zero, suc, ◌+◌, ◌≤◌, ◌<◌, String, ◌≡◌, refl, ap, inl, inr, false, List, [], ◌∷◌, some, arith,
  Memᴰ, Memᴰ-cons, All, All-mem, Option-cases, Bool-cases, List-cases, if◌then◌else◌, length,
  length-append, sym,
}
use task274_replaydivergence.Prelude.Int.{ℤ, eqb_ℤ}
use task274_replaydivergence.Model.Event.{ResourceAccess, ExecEvent, key}
use task274_replaydivergence.Model.Divergence.{ChainEdge, RwEdge}
use task274_replaydivergence.Backtrace.Tracer.{
  SeqMap, Tracer, insert_seq, index_events, is_visited, Frontier, follow, follow_reads, expand,
  expand_chain, latest_ref_writer, new_tracer,
}
use task274_replaydivergence.Backtrace.Tracer.Writers.{WritesWithin, latest_ref_writer_exact}
use mathlib.Core.Path.{subst}

-- Every entry stands at the seq of its event.
abbrev pub IsIndexed : SeqMap → Type 0
IsIndexed m = All (λ (p : ℤ × ExecEvent). p.1.seq ≡ p.0) m

insert_seq-IsIndexed : (e : ExecEvent) (m : SeqMap) → IsIndexed m → IsIndexed (insert_seq e.seq e m)
unfolding insert_seq
insert_seq-IsIndexed e [] h = (refl, tt)
insert_seq-IsIndexed e ((t, f) ∷ m) h = elim (Bool-cases (eqb_ℤ t e.seq)) [
  | inl b ↦ rw b (refl, h.1)
  | inr b ↦ rw b (h.0, insert_seq-IsIndexed e m h.1)
]

pub index_events-IsIndexed :
    (es : List ExecEvent) (m : SeqMap) → IsIndexed m → IsIndexed (index_events es m)
unfolding index_events
index_events-IsIndexed [] m h = h
index_events-IsIndexed (e ∷ es) m h =
    index_events-IsIndexed es (insert_seq e.seq e m) (insert_seq-IsIndexed e m h)

-- The entries whose seqs are not visited.
unvisited : List ℤ → SeqMap → ℕ
unvisited vs [] = 0
unvisited vs ((s, e) ∷ m) = let rest = unvisited vs m in if is_visited s vs then rest else suc rest

unvisited-cons-le : (s : ℤ) (vs : List ℤ) (m : SeqMap) → unvisited (s ∷ vs) m ≤ unvisited vs m
unfolding unvisited is_visited
unvisited-cons-le s vs [] = omega arith
unvisited-cons-le s vs ((q, e) ∷ m) = ground (arith, unvisited-cons-le s vs m)

unvisited-cons-lt :
    (s : ℤ) (e : ExecEvent) (vs : List ℤ) (m : SeqMap)
    → Memᴰ (s, e) m
    → is_visited s vs ≡ false
    → unvisited (s ∷ vs) m < unvisited vs m
unfolding unvisited is_visited
unvisited-cons-lt s e vs [] h n = elim h [ ]
unvisited-cons-lt s e vs ((q, f) ∷ m) h n = elim ((Memᴰ-cons (s, e) (q, f) m).0 h) [
  | inl here ↦ ground (arith, ap (λ (p : ℤ × ExecEvent). p.0) here, unvisited-cons-le s vs m)
  | inr there ↦ ground (arith, unvisited-cons-lt s e vs m there n)
]

unvisited-le : (vs : List ℤ) (m : SeqMap) → unvisited vs m ≤ length m
unfolding unvisited
unvisited-le vs [] = omega arith
unvisited-le vs ((s, e) ∷ m) = ground (arith, unvisited-le vs m)

module _ (t : Tracer) (indexed : IsIndexed t.ref_events) where
  abbrev work : Frontier → ℕ
  work f = unvisited f.visited t.ref_events + length f.queue

  follow-work :
      (depth : ℕ) (resource : String) (limit : ℤ) (f : Frontier)
      → work (follow depth resource (latest_ref_writer t resource limit) f) ≤ work f
  follow-work depth resource limit f = elim (Option-cases (latest_ref_writer t resource limit)) [
    | inl nobody ↦ rw nobody (unfold follow in omega arith)
    | inr (w, found) ↦ rw found (step w ((latest_ref_writer_exact t resource limit).0 w found).0)
  ]
    where
      step :
          (w : ExecEvent)
          → WritesWithin resource limit t.ref_events w
          → work (follow depth resource (some w) f) ≤ work f
      step w d = elim (Bool-cases (is_visited w.seq f.visited)) [
        | inl old ↦ unfold follow in rw old (omega arith)
        | inr new ↦
            let at_seq : w.seq ≡ d.at = All-mem _ t.ref_events (d.at, w) indexed d.entry in
            unfold follow in
            rw new (
              omega (
                arith,
                unvisited-cons-lt w.seq w f.visited t.ref_events
                    (subst (λ q. Memᴰ (q, w) t.ref_events) (sym at_seq) d.entry) new,
                length-append f.queue ((w, depth + 1) ∷ []),
              ))
      ]

  follow_reads-work :
      (cur : ExecEvent) (depth : ℕ) (rds : List ResourceAccess) (f : Frontier)
      → work (follow_reads t cur depth rds f) ≤ work f
  unfolding follow_reads
  follow_reads-work cur depth [] f = omega arith
  follow_reads-work cur depth (rd ∷ rds) f = omega (
    arith,
    follow-work depth (key rd) cur.seq f,
    follow_reads-work cur depth rds
        (follow depth (key rd) (latest_ref_writer t (key rd) cur.seq) f),
  )

  expand_ends :
      (fuel : ℕ) (f : Frontier)
      → work f ≤ fuel
      → (nodes : List ChainEdge) × (expand t fuel f ≡ some nodes)
  unfolding expand
  expand_ends zero f h = elim (List-cases f.queue) [
    | inl empty ↦ (f.nodes, rw (empty, expand) refl)
    | inr (c, rest, e) ↦ absurd (omega (arith, ap length e))
  ]
  expand_ends (suc fuel) f h = elim (List-cases f.queue) [
    | inl empty ↦ (f.nodes, rw (empty, expand) refl)
    | inr (c, rest, e) ↦
        let popped = record f { queue = rest } in
        let (nodes, ends) =
          expand_ends fuel (follow_reads t c.0 c.1 c.0.reads popped)
            (omega (arith, follow_reads-work c.0 c.1 c.0.reads popped, ap length e)) in
        (nodes, rw (e, expand) ends)
  ]

-- The queue of `expandChain` runs empty, whatever the two trails are: the fuel of one round more
-- than there are reference events is never used up.
pub expand_chain_returns :
    (batch_id : ℕ) (edges : List RwEdge) (test_events ref_events : List ExecEvent)
    (first : ExecEvent) (depth : ℕ) (visited : List ℤ)
    → (nodes : List ChainEdge) × (expand_chain
          (new_tracer batch_id edges test_events ref_events)
          first
          depth
          visited
        ≡ some nodes)
unfolding expand_chain new_tracer
expand_chain_returns batch_id edges test_events ref_events first depth visited =
    let t = new_tracer batch_id edges test_events ref_events in
    expand_ends t (index_events-IsIndexed ref_events [] tt) (suc (length t.ref_events))
      (record { queue = (first, depth) ∷ []; visited = visited; nodes = [] })
      (omega (arith, unvisited-le visited t.ref_events))

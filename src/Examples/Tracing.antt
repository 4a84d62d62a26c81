-- ===== src/Examples/Tracing.antt =====
-- Runs of the tracer and of the dependency graph on the two small trails.
use task274_replaydivergence.Prelude.{
  ◌≡◌, refl, List, [], ◌∷◌, All, some, map, ◌⊎◌, Memᴰ, none, inl,
}
use task274_replaydivergence.Examples.{tracer, ref_trail, test_trail, ref_1, ref_3, test_2, test_3}
use task274_replaydivergence.Backtrace.Tracer.{
  first_divergent_event, TraceResult, expand_chain, new_tracer, lookup_seq, trace,
  latest_ref_writer, index_events, reader_node, insert_seq, writes_differ,
}
use task274_replaydivergence.Model.Event.{ExecEvent, key}
use task274_replaydivergence.Model.Divergence.{ChainEdge, RwEdge}
use task274_replaydivergence.Backtrace.Graph.{writers_of, new_graph_builder}
use task274_replaydivergence.Backtrace.Graph.{build}
use task274_replaydivergence.Prelude.Int.{pos, ℤ, ◌≤ℤ◌, ◌<ℤ◌}
use task274_replaydivergence.Backtrace.Tracer.Links.{IsLink, expand_chain_sound}
use task274_replaydivergence.Prelude.Sort.{sort_on}
use task274_replaydivergence.Backtrace.Graph.Edges.{edges_for, build-IsIndex}
use task274_replaydivergence.Backtrace.Tracer.Result.{IsLocated, trace_exact}
use task274_replaydivergence.Prelude.Unique.{IsDistinct}
use task274_replaydivergence.Backtrace.Tracer.Ends.{expand_chain_returns, IsIndexed}
use task274_replaydivergence.Backtrace.Tracer.Writers.{WritesWithin, latest_ref_writer_exact}
use task274_replaydivergence.Backtrace.Tracer.SelfRead.{IsOverwritten, self_read_hides_upstream}
use task274_replaydivergence.Backtrace.Tracer.First.{DiffersAt, first_divergent_event_exact}
use task274_replaydivergence.Model.Status.{insufficient_evidence}
use task274_replaydivergence.Prelude.Order.{int_order}
use task274_replaydivergence.Prelude.StrMap.{lookup, insert}

first_divergence : first_divergent_event tracer (pos 3) ≡ some test_2
unfolding first_divergent_event new_tracer lookup_seq sort_on writes_differ lookup key
first_divergence = refl

first_divergent_event_example :
    ((e : ExecEvent)
      → first_divergent_event tracer (pos 3) ≡ some e
      → (s : ℤ) × (s ≤ℤ pos 3)
        × DiffersAt tracer s e
        × ((q : ℤ) (f : ExecEvent) → q <ℤ s → ¬ DiffersAt tracer q f))
    × (first_divergent_event tracer (pos 3) ≡ none
        → (q : ℤ) (f : ExecEvent) → q ≤ℤ pos 3
        → ¬ DiffersAt tracer q f)
first_divergent_event_example = first_divergent_event_exact tracer (pos 3)

trace_example :
    (res : TraceResult) × (trace tracer ("reg:r2" ∷ []) (pos 3) 7 ≡ some res)
    × (IsLocated tracer (pos 3) res
        ⊎ ((res.status ≡ insufficient_evidence)
            × (res.chain_nodes ≡ [])
            × ((q : ℤ) (f : ExecEvent) → q ≤ℤ pos 3 → ¬ DiffersAt tracer q f)))
trace_example = trace_exact 1 [] test_trail ref_trail "reg:r2" [] (pos 3) 7

chain_of_2 : expand_chain tracer test_2 1 (pos 2 ∷ []) ≡ some (reader_node 1 "reg:r1" ref_1 ∷ [])
unfolding expand_chain latest_ref_writer new_tracer reader_node key
chain_of_2 = refl

expand_chain_sound_example :
    All (IsLink tracer test_2 1) (reader_node 1 "reg:r1" ref_1 ∷ [])
    × IsDistinct (λ (n : ChainEdge). n.seq) (reader_node 1 "reg:r1" ref_1 ∷ [])
expand_chain_sound_example =
    expand_chain_sound tracer test_2 1 (pos 2 ∷ []) (reader_node 1 "reg:r1" ref_1 ∷ []) chain_of_2

expand_chain_returns_example :
    (nodes : List ChainEdge) × (expand_chain
        (new_tracer 1 [] test_trail ref_trail)
        test_2
        1
        (pos 2 ∷ [])
      ≡ some nodes)
expand_chain_returns_example = expand_chain_returns 1 [] test_trail ref_trail test_2 1 (pos 2 ∷ [])

latest_ref_writer_example :
    ((w : ExecEvent)
      → latest_ref_writer tracer "reg:r2" (pos 2) ≡ some w
      → WritesWithin "reg:r2" (pos 2) tracer.ref_events w
        × ((f : ExecEvent) → WritesWithin "reg:r2" (pos 2) tracer.ref_events f → f.seq ≤ℤ w.seq))
    × (latest_ref_writer tracer "reg:r2" (pos 2) ≡ none
        → (f : ExecEvent) → ¬ WritesWithin "reg:r2" (pos 2) tracer.ref_events f)
latest_ref_writer_example = latest_ref_writer_exact tracer "reg:r2" (pos 2)

tracer-IsIndexed : IsIndexed tracer.ref_events
unfolding new_tracer index_events insert_seq
tracer-IsIndexed = (refl, (refl, (refl, tt)))

own_write_3 : All (IsOverwritten tracer test_3) test_3.reads
unfolding new_tracer index_events insert_seq
own_write_3 = ((ref_3, Memᴰ.tail (Memᴰ.tail (Memᴰ.head refl)), inl refl), tt)

self_read_example : expand_chain tracer test_3 1 (pos 3 ∷ []) ≡ some []
self_read_example = self_read_hides_upstream tracer test_3 1 tracer-IsIndexed own_write_3

build_example :
    writers_of (build (new_graph_builder 1) ref_trail test_trail) "reg:r2"
    ≡ edges_for "reg:r2" (build (new_graph_builder 1) ref_trail test_trail).edges
build_example = build-IsIndex 1 ref_trail test_trail "reg:r2"

-- The reader at 2 gets no edge for "reg:r2", and the one at 3 gets the writer 3 itself.
edges_of_r2 :
    map {B = ℤ × ℤ}
      (λ (e : RwEdge). (e.writer_seq, e.reader_seq))
      (build (new_graph_builder 1) ref_trail test_trail).edges
    ≡ (pos 1, pos 2) ∷ (pos 3, pos 3) ∷ []
unfolding build new_graph_builder key lookup insert
edges_of_r2 = refl

-- ===== src/Backtrace/Graph/Edges.antt =====
-- The edges of the graph, and its index by resource.
use task274_replaydivergence.Prelude.{
  String, ◌≡◌, inl, inr, Bool, List, [], ◌∷◌, ◌++◌, arith, keep, Bool-cases, if◌then◌else◌, str_eq,
  eq_iff, Option, ℕ, some, none, refl,
}
use task274_replaydivergence.Prelude.StrMap.{StrMap, lookup, lookup-insert}
use task274_replaydivergence.Model.Event.{ResourceAccess, ExecEvent, key}
use task274_replaydivergence.Model.Divergence.{RwEdge}
use task274_replaydivergence.Backtrace.Graph.{
  Writer, GraphBuilder, edge_of, writers_of, add_edge, read_edges, add_read, test_edges, build,
  new_graph_builder, record_writers,
}

-- The edges that belong to a resource.
abbrev pub edges_for : String → List RwEdge → List RwEdge
edges_for resource = keep (λ (e : RwEdge). str_eq e.resource resource)

-- The index lists the edges of every resource, in their order.
abbrev pub IsIndex : GraphBuilder → Type 0
IsIndex g = (resource : String) → writers_of g resource ≡ edges_for resource g.edges

keep-snoc :
    (p : RwEdge → Bool) (xs : List RwEdge) (x : RwEdge)
    → keep p (xs ++ x ∷ []) ≡ (if p x then keep p xs ++ x ∷ [] else keep p xs)
keep-snoc p [] x = ground arith
keep-snoc p (y ∷ ys) x = elim (Bool-cases (p y)) [
  | inl b ↦ rw b (rw (keep-snoc p ys x) (ground arith))
  | inr b ↦ rw b (keep-snoc p ys x)
]

add_edge-IsIndex : (g : GraphBuilder) (edge : RwEdge) → IsIndex g → IsIndex (add_edge g edge)
unfolding add_edge writers_of
add_edge-IsIndex g edge h resource = ground (
  arith,
  lookup-insert edge.resource resource (writers_of g edge.resource ++ edge ∷ []) g.by_res,
  keep-snoc (λ (e : RwEdge). str_eq e.resource resource) g.edges edge,
  h resource,
  h edge.resource,
  eq_iff edge.resource resource,
)

add_read-IsIndex :
    (g : GraphBuilder) (rd : ResourceAccess) (e : ExecEvent) (found : Option Writer)
    → IsIndex g
    → IsIndex (add_read g rd e found)
unfolding add_read
add_read-IsIndex g rd e none h = h
add_read-IsIndex g rd e (some w) h = add_edge-IsIndex g (edge_of g.batch_id rd w e) h

read_edges-IsIndex :
    (last : StrMap Writer) (e : ExecEvent) (rds : List ResourceAccess) (g : GraphBuilder)
    → IsIndex g
    → IsIndex (read_edges last e rds g)
unfolding read_edges
read_edges-IsIndex last e [] g h = h
read_edges-IsIndex last e (rd ∷ rds) g h =
    let next = add_read g rd e (lookup (key rd) last) in
    read_edges-IsIndex last e rds next (add_read-IsIndex g rd e (lookup (key rd) last) h)

test_edges-IsIndex :
    (last : StrMap Writer) (es : List ExecEvent) (g : GraphBuilder)
    → IsIndex g
    → IsIndex (test_edges last es g)
unfolding test_edges
test_edges-IsIndex last [] g h = h
test_edges-IsIndex last (e ∷ es) g h =
    test_edges-IsIndex last es (read_edges last e e.reads g) (read_edges-IsIndex last e e.reads g h)

-- The index of a built graph lists, for every resource, exactly the edges of that resource, in
-- the order in which they were added.
pub build-IsIndex :
    (batch_id : ℕ) (ref_events test_events : List ExecEvent) (resource : String)
    → writers_of (build (new_graph_builder batch_id) ref_events test_events) resource
      ≡ edges_for resource (build (new_graph_builder batch_id) ref_events test_events).edges
unfolding build new_graph_builder writers_of lookup
build-IsIndex batch_id ref_events test_events resource =
    test_edges-IsIndex (record_writers ref_events []) test_events (new_graph_builder batch_id)
      (λ r. refl) resource

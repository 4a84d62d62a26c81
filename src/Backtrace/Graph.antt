-- ===== src/Backtrace/Graph.antt =====
-- internal/backtrace/graph.go, and `SortEdges` of tracer.go.
pub mod Edges
use task274_replaydivergence.Prelude.{
  ℕ, String, List, [], ◌∷◌, ◌++◌, Option, none, some, str_eq, if◌then◌else◌,
}
use task274_replaydivergence.Prelude.Int.{ℤ}
use task274_replaydivergence.Prelude.Order.{pair_order}
use task274_replaydivergence.Prelude.Sort.{sort_on}
use task274_replaydivergence.Prelude.StrMap.{StrMap, lookup, insert}
use task274_replaydivergence.Model.Event.{ResourceAccess, ExecEvent, key}
use task274_replaydivergence.Model.Divergence.{RwEdge}

pub record Writer : Type 0 where
  pub seq : ℤ
  pub pc : String
  pub op : String

pub record GraphBuilder : Type 0 where
  pub batch_id : ℕ
  pub edges : List RwEdge
  pub by_res : StrMap (List RwEdge)

unfoldable pub new_graph_builder : ℕ → GraphBuilder
new_graph_builder batch_id = record { batch_id = batch_id; edges = []; by_res = [] }

unfoldable pub writer_of : ExecEvent → Writer
writer_of e = record { seq = e.seq; pc = e.pc; op = e.opcode }

-- The inner loop over the writes of one reference event.
record_writes : ExecEvent → List ResourceAccess → StrMap Writer → StrMap Writer
unfolding writer_of
record_writes e [] last = last
record_writes e (w ∷ ws) last = record_writes e ws (insert (key w) (writer_of e) last)

-- The loop over the reference events.
record_writers : List ExecEvent → StrMap Writer → StrMap Writer
unfolding record_writes
record_writers [] last = last
record_writers (e ∷ es) last = record_writers es (record_writes e e.writes last)

edge_of : ℕ → ResourceAccess → Writer → ExecEvent → RwEdge
edge_of batch_id rd w e = record {
  id = 0;
  batch_id = batch_id;
  resource = key rd;
  writer_seq = w.seq;
  writer_pc = w.pc;
  writer_op = w.op;
  reader_seq = e.seq;
  reader_pc = e.pc;
  reader_op = e.opcode;
}

-- g.byRes[resource]: no edges where the resource is missing
unfoldable pub writers_of : GraphBuilder → String → List RwEdge
writers_of g resource = elim (lookup resource g.by_res) [ none ↦ [] | some es ↦ es ]

add_edge : GraphBuilder → RwEdge → GraphBuilder
unfolding writers_of
add_edge g edge = record g {
  edges = g.edges ++ edge ∷ [];
  by_res = insert edge.resource (writers_of g edge.resource ++ edge ∷ []) g.by_res;
}

-- One read: no edge where the reference trail never wrote the resource.
add_read : GraphBuilder → ResourceAccess → ExecEvent → Option Writer → GraphBuilder
unfolding add_edge edge_of
add_read g rd e none = g
add_read g rd e (some w) = add_edge g (edge_of g.batch_id rd w e)

-- The inner loop over the reads of one test event.
read_edges : StrMap Writer → ExecEvent → List ResourceAccess → GraphBuilder → GraphBuilder
unfolding add_read
read_edges last e [] g = g
read_edges last e (rd ∷ rds) g = read_edges last e rds (add_read g rd e (lookup (key rd) last))

test_edges : StrMap Writer → List ExecEvent → GraphBuilder → GraphBuilder
unfolding read_edges
test_edges last [] g = g
test_edges last (e ∷ es) g = test_edges last es (read_edges last e e.reads g)

-- The builder after `Build`, whose `edges` is what `Build` returns.
unfoldable pub build : GraphBuilder → List ExecEvent → List ExecEvent → GraphBuilder
unfolding record_writers test_edges
build g ref_events test_events = test_edges (record_writers ref_events []) test_events g

-- By the reader's seq, then by the resource.
unfoldable pub sort_edges : List RwEdge → List RwEdge
sort_edges edges = sort_on {K = ℤ × String} (λ (e : RwEdge). (e.reader_seq, e.resource)) edges

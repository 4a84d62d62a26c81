-- ===== src/Backtrace/Tracer.antt =====
-- internal/backtrace/tracer.go: the search for the first divergence and its chain of dependencies.
-- A `map[int64]*ExecEvent` is a list of entries by seq. The loop over the queue takes fuel, one
-- more than the number of reference events.
pub mod First
pub mod Writers
pub mod Ends
pub mod Links
pub mod SelfRead
pub mod Result
use task274_replaydivergence.Prelude.{
  ℕ, zero, suc, ◌+◌, String, Bool, true, false, not, ◌&&◌, ◌||◌, List, [], ◌∷◌, ◌++◌, Option, none,
  some, length, str_eq, if◌then◌else◌,
}
use task274_replaydivergence.Prelude.Int.{ℤ, pos, ltb_ℤ, leb_ℤ, eqb_ℤ}
use task274_replaydivergence.Prelude.Order.{int_order}
use task274_replaydivergence.Prelude.Sort.{sort_on}
use task274_replaydivergence.Prelude.Unique.{itself}
use task274_replaydivergence.Prelude.StrMap.{lookup}
use task274_replaydivergence.Model.Status.{
  DivergenceStatus, insufficient_evidence, confirmed, reference, under_test,
}
use task274_replaydivergence.Model.Event.{ResourceAccess, ExecEvent, key}
use task274_replaydivergence.Model.Divergence.{
  RwEdge, RootCause, blank, no_resources, never_written, first_instruction, ChainEdge, writer,
  reader,
}

abbrev pub SeqMap : Type 0
SeqMap = List (ℤ × ExecEvent)

unfoldable pub lookup_seq : ℤ → SeqMap → Option ExecEvent
lookup_seq s [] = none
lookup_seq s ((t, e) ∷ m) = if eqb_ℤ t s then some e else lookup_seq s m

unfoldable pub insert_seq : ℤ → ExecEvent → SeqMap → SeqMap
insert_seq s e [] = (s, e) ∷ []
insert_seq s e ((t, f) ∷ m) = if eqb_ℤ t s then (s, e) ∷ m else (t, f) ∷ insert_seq s e m

pub record Tracer : Type 0 where
  pub batch_id : ℕ
  pub edges : List RwEdge
  pub events : SeqMap
  pub ref_events : SeqMap

unfoldable pub index_events : List ExecEvent → SeqMap → SeqMap
unfolding insert_seq
index_events [] m = m
index_events (e ∷ es) m = index_events es (insert_seq e.seq e m)

unfoldable pub new_tracer : ℕ → List RwEdge → List ExecEvent → List ExecEvent → Tracer
unfolding index_events
new_tracer batch_id edges test_events ref_events = record {
  batch_id = batch_id;
  edges = edges;
  events = index_events test_events [];
  ref_events = index_events ref_events [];
}

-- testHas && refHas && testVal != refVal
value_differs : Option String → Option String → Bool
value_differs (some t) (some r) = not (str_eq t r)
value_differs _ _ = false

writes_differ_from : ExecEvent → ExecEvent → List ResourceAccess → Bool
unfolding value_differs
writes_differ_from test_e ref_e [] = false
writes_differ_from test_e ref_e (w ∷ ws) =
    if value_differs (lookup (key w) test_e.values) (lookup (key w) ref_e.values)
    then true
    else writes_differ_from test_e ref_e ws

unfoldable pub writes_differ : ExecEvent → ExecEvent → Bool
unfolding writes_differ_from
writes_differ test_e ref_e = writes_differ_from test_e ref_e test_e.writes

-- The first loop: the seqs up to the checkpoint.
seqs_up_to : ℤ → SeqMap → List ℤ
seqs_up_to limit [] = []
seqs_up_to limit ((s, e) ∷ m) =
    let rest = seqs_up_to limit m in if leb_ℤ s limit then s ∷ rest else rest

-- What the second loop does with the entries of one seq.
test_if_differs : Option ExecEvent → Option ExecEvent → Option ExecEvent
test_if_differs (some test_e) (some ref_e) =
    if writes_differ test_e ref_e then some test_e else none
test_if_differs _ _ = none

differing : Tracer → ℤ → Option ExecEvent
unfolding lookup_seq test_if_differs
differing t s = test_if_differs (lookup_seq s t.events) (lookup_seq s t.ref_events)

first_of_seqs : Tracer → List ℤ → Option ExecEvent
unfolding differing
first_of_seqs t [] = none
first_of_seqs t (s ∷ ss) =
    let rest = first_of_seqs t ss in elim (differing t s) [ none ↦ rest | some e ↦ some e ]

unfoldable pub first_divergent_event : Tracer → ℤ → Option ExecEvent
unfolding seqs_up_to first_of_seqs
first_divergent_event t checkpoint_seq =
    first_of_seqs t (sort_on itself (seqs_up_to checkpoint_seq t.events))

-- best == nil || e.Seq > best.Seq
is_later : ExecEvent → Option ExecEvent → Bool
is_later e none = true
is_later e (some best) = ltb_ℤ best.seq e.seq

-- The inner loop over the writes of one entry.
better_writer : String → ExecEvent → List ResourceAccess → Option ExecEvent → Option ExecEvent
unfolding is_later
better_writer resource e [] best = best
better_writer resource e (w ∷ ws) best =
    better_writer resource e ws
      (if str_eq (key w) resource && is_later e best then some e else best)

writer_among : String → ℤ → SeqMap → Option ExecEvent → Option ExecEvent
unfolding better_writer
writer_among resource limit [] best = best
writer_among resource limit ((s, e) ∷ m) best =
    writer_among resource limit m
      (if ltb_ℤ limit s then best else better_writer resource e e.writes best)

unfoldable pub latest_ref_writer : Tracer → String → ℤ → Option ExecEvent
unfolding writer_among
latest_ref_writer t resource limit = writer_among resource limit t.ref_events none

-- visited[seq]
unfoldable pub is_visited : ℤ → List ℤ → Bool
is_visited s [] = false
is_visited s (v ∷ vs) = if eqb_ℤ v s then true else is_visited s vs

pub record Frontier : Type 0 where
  pub queue : List (ExecEvent × ℕ)
  pub visited : List ℤ
  pub nodes : List ChainEdge

unfoldable pub reader_node : ℕ → String → ExecEvent → ChainEdge
reader_node depth resource e = record {
  id = 0;
  divergence_id = 0;
  depth = depth;
  side = reference;
  seq = e.seq;
  pc = e.pc;
  opcode = e.opcode;
  resource = resource;
  role = reader;
}

-- A writer of `resource` that was found is appended, unless it was visited.
unfoldable pub follow : ℕ → String → Option ExecEvent → Frontier → Frontier
unfolding is_visited reader_node
follow depth resource none f = f
follow depth resource (some w) f = if is_visited w.seq f.visited then f else record {
  queue = f.queue ++ (w, depth + 1) ∷ [];
  visited = w.seq ∷ f.visited;
  nodes = f.nodes ++ reader_node depth resource w ∷ [];
}

-- The inner loop over the reads of `cur`.
unfoldable pub follow_reads : Tracer → ExecEvent → ℕ → List ResourceAccess → Frontier → Frontier
unfolding follow
follow_reads t cur depth [] f = f
follow_reads t cur depth (rd ∷ rds) f =
    follow_reads t cur depth rds (follow depth (key rd) (latest_ref_writer t (key rd) cur.seq) f)

-- The loop over the queue. `none`: out of fuel.
unfoldable pub expand : Tracer → ℕ → Frontier → Option (List ChainEdge)
unfolding follow_reads
expand t zero f = elim f.queue [ [] ↦ some f.nodes | _ ∷ _ ↦ none ]
expand t (suc fuel) f = elim f.queue [
  | [] ↦ some f.nodes
  | c ∷ rest ↦ expand t fuel (follow_reads t c.0 c.1 c.0.reads (record f { queue = rest }))
]

unfoldable pub expand_chain : Tracer → ExecEvent → ℕ → List ℤ → Option (List ChainEdge)
unfolding expand
expand_chain t w depth visited =
    expand t (suc (length t.ref_events))
      (record { queue = (w, depth) ∷ []; visited = visited; nodes = [] })

pub record TraceResult : Type 0 where
  pub divergence_id : ℕ
  pub first_seq : ℤ
  pub first_pc : String
  pub first_op : String
  pub root_cause : RootCause
  pub status : DivergenceStatus
  pub chain_nodes : List ChainEdge

insufficient : ℕ → RootCause → TraceResult
insufficient divergence_id cause = record {
  divergence_id = divergence_id;
  first_seq = pos 0;
  first_pc = "";
  first_op = "";
  root_cause = cause;
  status = insufficient_evidence;
  chain_nodes = [];
}

unfoldable pub writer_node : ℕ → ExecEvent → ChainEdge
writer_node divergence_id e = record {
  id = 0;
  divergence_id = divergence_id;
  depth = 0;
  side = under_test;
  seq = e.seq;
  pc = e.pc;
  opcode = e.opcode;
  resource = "";
  role = writer;
}

-- The result for a first divergent event, given its chain.
located : ℕ → ExecEvent → List ChainEdge → TraceResult
unfolding writer_node
located divergence_id e chain = record {
  divergence_id = divergence_id;
  first_seq = e.seq;
  first_pc = e.pc;
  first_op = e.opcode;
  root_cause = first_instruction e.seq e.opcode e.pc;
  status = confirmed;
  chain_nodes = writer_node divergence_id e ∷ chain;
}

-- `none` stands for a chain that ran out of fuel.
unfoldable pub trace : Tracer → List String → ℤ → ℕ → Option TraceResult
unfolding first_divergent_event expand_chain insufficient located
trace t [] checkpoint_seq divergence_id = some (insufficient divergence_id no_resources)
trace t (_ ∷ _) checkpoint_seq divergence_id = elim (first_divergent_event t checkpoint_seq) [
  | none ↦ some (insufficient divergence_id never_written)
  | some first ↦ elim (expand_chain t first 1 (first.seq ∷ [])) [
    | none ↦ none
    | some chain ↦ some (located divergence_id first chain)
  ]
]

-- ===== src/Store/Divergences.antt =====
-- internal/store/divergence_store.go, over the tables of divergences and of chain nodes.
pub mod Written
use task274_replaydivergence.Prelude.{
  ℕ, ◌==◌, not, List, [], ◌∷◌, ◌++◌, keep, map, ◌+◌, ltb, if◌then◌else◌, ◌&&◌,
}
use task274_replaydivergence.Prelude.Int.{pos}
use task274_replaydivergence.Model.Divergence.{Divergence, ChainEdge}
use task274_replaydivergence.Store.World.{World, statement}
use task274_replaydivergence.Model.Exec.{Exec, ◌>>=◌, pure}
use task274_replaydivergence.Model.Errors.{Result, err, ok, not_found}
use task274_replaydivergence.Prelude.Sort.{sort_on}
use task274_replaydivergence.Prelude.Order.{int_order}

unfoldable pub create_divergence : Divergence → Exec World Divergence
create_divergence d = statement >>= λ _. λ (w : World).
    let row : Divergence = record d { id = w.next_divergence } in
    (
      ok row,
      record w { divergences = w.divergences ++ row ∷ []; next_divergence = w.next_divergence + 1 },
    )

unfoldable pub find_divergence : ℕ → ℕ → List Divergence → Result Divergence
find_divergence batch_id id [] = err not_found
find_divergence batch_id id (d ∷ ds) =
    let rest = find_divergence batch_id id ds in
    if (d.batch_id == batch_id) && (d.id == id) then ok d else rest

unfoldable pub get_divergence : ℕ → ℕ → Exec World Divergence
unfolding find_divergence
get_divergence batch_id id =
    statement >>= λ _. λ (w : World). (find_divergence batch_id id w.divergences, w)

-- WHERE batch_id=? ORDER BY id
unfoldable pub divergences_of : ℕ → List Divergence → List Divergence
divergences_of batch_id ds =
    sort_on (λ (d : Divergence). pos d.id) (keep (λ (d : Divergence). d.batch_id == batch_id) ds)

unfoldable pub list_divergences : ℕ → Exec World (List Divergence)
unfolding divergences_of
list_divergences batch_id =
    statement >>= λ _. λ (w : World). (ok (divergences_of batch_id w.divergences), w)

-- The columns that the UPDATE sets.
unfoldable pub set_divergence : Divergence → Divergence → Divergence
set_divergence d old = record old {
  status = d.status;
  first_divergent_seq = d.first_divergent_seq;
  first_divergent_pc = d.first_divergent_pc;
  first_divergent_op = d.first_divergent_op;
  root_cause = d.root_cause;
  evidence = d.evidence;
  updated_at = d.updated_at;
}

unfoldable pub update_divergence : Divergence → Exec World (Unit {0})
unfolding set_divergence
update_divergence d = statement >>= λ _. λ (w : World). (
  ok tt,
  record w {
    divergences =
        map (λ (old : Divergence). if old.id == d.id then set_divergence d old else old)
          w.divergences;
  },
)

-- INSERT INTO divergence_chain_edges
unfoldable pub insert_node : ChainEdge → Exec World (Unit {0})
insert_node n = statement >>= λ _. λ (w : World). (
  ok tt,
  record w {
    chain_edges = w.chain_edges ++ record n { id = w.next_chain_edge } ∷ [];
    next_chain_edge = w.next_chain_edge + 1;
  },
)

unfoldable pub insert_nodes : List ChainEdge → Exec World (Unit {0})
unfolding insert_node
insert_nodes [] = pure tt
insert_nodes (n ∷ ns) = insert_node n >>= λ _. insert_nodes ns

-- DELETE FROM divergence_chain_edges WHERE divergence_id=?
unfoldable pub delete_chain : ℕ → Exec World (Unit {0})
delete_chain div_id = statement >>= λ _. λ (w : World). (
  ok tt,
  record w {
    chain_edges = keep (λ (n : ChainEdge). not (n.divergence_id == div_id)) w.chain_edges;
  },
)

unfoldable pub save_chain : ℕ → List ChainEdge → Exec World (Unit {0})
unfolding delete_chain insert_nodes
save_chain div_id nodes = delete_chain div_id >>= λ _. insert_nodes nodes

-- WHERE divergence_id=? ORDER BY depth
unfoldable pub chain_of : ℕ → List ChainEdge → List ChainEdge
chain_of div_id ns =
    sort_on (λ (n : ChainEdge). pos n.depth)
      (keep (λ (n : ChainEdge). n.divergence_id == div_id) ns)

unfoldable pub list_chain : ℕ → Exec World (List ChainEdge)
unfolding chain_of
list_chain div_id = statement >>= λ _. λ (w : World). (ok (chain_of div_id w.chain_edges), w)

-- COALESCE(MAX(depth),0)
unfoldable pub deepest : List ChainEdge → ℕ
deepest [] = 0
deepest (n ∷ ns) = let rest = deepest ns in if ltb rest n.depth then n.depth else rest

unfoldable pub max_depth : ℕ → Exec World ℕ
unfolding deepest
max_depth div_id = statement >>= λ _. λ (w : World).
    (ok (deepest (keep (λ (n : ChainEdge). n.divergence_id == div_id) w.chain_edges)), w)

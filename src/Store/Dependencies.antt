-- ===== src/Store/Dependencies.antt =====
-- internal/store/dependency_store.go, over the table of dependency edges.
use task274_replaydivergence.Prelude.{ℕ, ◌==◌, not, List, [], ◌∷◌, ◌++◌, keep, ◌+◌, length}
use task274_replaydivergence.Prelude.Int.{pos}
use task274_replaydivergence.Model.Divergence.{RwEdge}
use task274_replaydivergence.Store.World.{World, statement}
use task274_replaydivergence.Model.Exec.{Exec, ◌>>=◌, pure}
use task274_replaydivergence.Model.Errors.{ok}
use task274_replaydivergence.Prelude.Sort.{sort_on}
use task274_replaydivergence.Prelude.Order.{int_order}

-- INSERT INTO rw_dependencies
unfoldable pub insert_edge : RwEdge → Exec World (Unit {0})
insert_edge e = statement >>= λ _. λ (w : World). (
  ok tt,
  record w {
    dependencies = w.dependencies ++ record e { id = w.next_dependency } ∷ [];
    next_dependency = w.next_dependency + 1;
  },
)

unfoldable pub insert_edges : List RwEdge → Exec World (Unit {0})
unfolding insert_edge
insert_edges [] = pure tt
insert_edges (e ∷ es) = insert_edge e >>= λ _. insert_edges es

-- DELETE FROM rw_dependencies WHERE batch_id=?
unfoldable pub delete_edges : ℕ → Exec World (Unit {0})
delete_edges batch_id = statement >>= λ _. λ (w : World). (
  ok tt,
  record w { dependencies = keep (λ (e : RwEdge). not (e.batch_id == batch_id)) w.dependencies },
)

unfoldable pub replace_all : ℕ → List RwEdge → Exec World (Unit {0})
unfolding delete_edges insert_edges
replace_all batch_id edges = delete_edges batch_id >>= λ _. insert_edges edges

unfoldable pub list_dependencies : ℕ → Exec World (List RwEdge)
list_dependencies batch_id = statement >>= λ _. λ (w : World). (
  ok (
      sort_on (λ (e : RwEdge). pos e.id)
        (keep (λ (e : RwEdge). e.batch_id == batch_id) w.dependencies)),
  w,
)

unfoldable pub count_dependencies : ℕ → Exec World ℕ
count_dependencies batch_id = statement >>= λ _.
    λ (w : World). (ok (length (keep (λ (e : RwEdge). e.batch_id == batch_id) w.dependencies)), w)

-- ===== src/Service/Preserves/Parts.antt =====
-- The loops over one statement, and transactions.
use task274_replaydivergence.Prelude.{ℕ, List, [], ◌∷◌}
use task274_replaydivergence.Service.Preserves.{Preserves}
use task274_replaydivergence.Store.World.{World, with_tx, statement}
use task274_replaydivergence.Model.Exec.{Exec}
use task274_replaydivergence.Store.World.Keeps.{
  Keeps, >>=-Keeps, pure-Keeps, with_tx-Keeps, Holds-of_Keeps,
}
use task274_replaydivergence.Store.Events.{insert_batch, insert_row}
use task274_replaydivergence.Store.Dependencies.{
  insert_edges, replace_all, delete_edges, insert_edge,
}
use task274_replaydivergence.Store.Divergences.{insert_nodes, save_chain, delete_chain, insert_node}
use task274_replaydivergence.Store.World.Quiet.{statement-IsQuiet}
use task274_replaydivergence.Model.Event.{ExecEvent}
use task274_replaydivergence.Model.Divergence.{RwEdge, ChainEdge}
use task274_replaydivergence.Service.Preserves.Queries.{quiet}

module _ (P : World → Type 0) (p : Preserves P) where
  pub insert_batch-Keeps : (es : List ExecEvent) → Keeps P (insert_batch es)
  unfolding insert_batch
  insert_batch-Keeps [] = pure-Keeps P tt
  insert_batch-Keeps (e ∷ es) =
      >>=-Keeps statement _ (quiet P p.fact statement statement-IsQuiet)
        λ _. >>=-Keeps (insert_row e) _ (p.insert_row e) λ _. insert_batch-Keeps es

  insert_edges-Keeps : (es : List RwEdge) → Keeps P (insert_edges es)
  unfolding insert_edges
  insert_edges-Keeps [] = pure-Keeps P tt
  insert_edges-Keeps (e ∷ es) =
      >>=-Keeps (insert_edge e) _ (p.insert_edge e) λ _. insert_edges-Keeps es

  pub replace_all-Keeps : (batch_id : ℕ) (es : List RwEdge) → Keeps P (replace_all batch_id es)
  unfolding replace_all
  replace_all-Keeps batch_id es =
      >>=-Keeps (delete_edges batch_id) _ (p.delete_edges batch_id) λ _. insert_edges-Keeps es

  insert_nodes-Keeps : (ns : List ChainEdge) → Keeps P (insert_nodes ns)
  unfolding insert_nodes
  insert_nodes-Keeps [] = pure-Keeps P tt
  insert_nodes-Keeps (n ∷ ns) =
      >>=-Keeps (insert_node n) _ (p.insert_node n) λ _. insert_nodes-Keeps ns

  pub save_chain-Keeps : (div_id : ℕ) (ns : List ChainEdge) → Keeps P (save_chain div_id ns)
  unfolding save_chain
  save_chain-Keeps div_id ns =
      >>=-Keeps (delete_chain div_id) _ (p.delete_chain div_id) λ _. insert_nodes-Keeps ns

  pub transaction : {A : Type 0} (fn : Exec World A) → Keeps P fn → Keeps P (with_tx fn)
  transaction fn k = with_tx-Keeps P p.fact fn (Holds-of_Keeps fn k)

-- ===== src/Service/Tracing/Kept.antt =====
-- The statements of a trace that leave the tables of batches and of divergences alone, and the
-- UPDATE of the divergence.
use task274_replaydivergence.Prelude.{ℕ, List, [], ◌∷◌, sym, ◌≡◌, ◌∙◌}
use task274_replaydivergence.Store.World.{World, statement}
use task274_replaydivergence.Model.Batch.{ReplayBatch}
use task274_replaydivergence.Store.World.Holds.{
  IsTableFact, Holds, >>=-Holds, pure-Holds, statement-Holds, step-Holds,
}
use task274_replaydivergence.Store.Dependencies.{
  insert_edges, replace_all, insert_edge, delete_edges,
}
use task274_replaydivergence.Store.Divergences.{
  insert_nodes, save_chain, update_divergence, insert_node, delete_chain, set_divergence,
  find_divergence,
}
use task274_replaydivergence.Model.Exec.{◌>>=◌}
use task274_replaydivergence.Model.Divergence.{Divergence, RwEdge, ChainEdge}
use task274_replaydivergence.Model.Errors.{ok}
use task274_replaydivergence.Store.World.Atomic.{tables}
use mathlib.Core.Path.{subst}
use task274_replaydivergence.Store.Divergences.Written.{find_divergence-id, find_divergence-set}

module _ (F : List ReplayBatch → List Divergence → Type 0) where
  abbrev Kept : World → Type 0
  Kept w = F w.batches w.divergences

  pub Kept-IsTableFact : IsTableFact Kept
  unfolding tables
  Kept-IsTableFact v w same h = subst (λ (u : World). F u.batches u.divergences) (sym same) h

  -- A statement that writes another table.
  elsewhere :
      (f : World → World)
      → ((w : World) → Kept w → Kept (f w))
      → Holds Kept (statement >>= λ _. λ (w : World). (ok tt, f w)) (λ (_ : Unit {0}). Kept)
  elsewhere f keeps =
      >>=-Holds statement _ (statement-Holds Kept Kept-IsTableFact)
        λ _. step-Holds Kept (λ _. Kept) (λ _. tt) f keeps

  insert_edges-Holds : (es : List RwEdge) → Holds Kept (insert_edges es) (λ _. Kept)
  unfolding insert_edges insert_edge
  insert_edges-Holds [] = pure-Holds (λ _. Kept) tt
  insert_edges-Holds (e ∷ es) =
      >>=-Holds (insert_edge e) _ (elsewhere _ λ w h. h) λ _. insert_edges-Holds es

  pub replace_all-Holds :
      (batch_id : ℕ) (es : List RwEdge) → Holds Kept (replace_all batch_id es) (λ _. Kept)
  unfolding replace_all delete_edges
  replace_all-Holds batch_id es =
      >>=-Holds (delete_edges batch_id) _ (elsewhere _ λ w h. h) λ _. insert_edges-Holds es

  insert_nodes-Holds : (ns : List ChainEdge) → Holds Kept (insert_nodes ns) (λ _. Kept)
  unfolding insert_nodes insert_node
  insert_nodes-Holds [] = pure-Holds (λ _. Kept) tt
  insert_nodes-Holds (n ∷ ns) =
      >>=-Holds (insert_node n) _ (elsewhere _ λ w h. h) λ _. insert_nodes-Holds ns

  pub save_chain-Holds :
      (div_id : ℕ) (ns : List ChainEdge) → Holds Kept (save_chain div_id ns) (λ _. Kept)
  unfolding save_chain delete_chain
  save_chain-Holds div_id ns =
      >>=-Holds (delete_chain div_id) _ (elsewhere _ λ w h. h) λ _. insert_nodes-Holds ns

-- The UPDATE of a divergence that changes no other column than it writes.
pub update_divergence-Holds :
    (G : List ReplayBatch → Type 0) (batch_id div_id : ℕ) (old d : Divergence)
    → set_divergence d old ≡ d
    → d.id ≡ old.id
    → Holds
        (λ w. G w.batches × (find_divergence batch_id div_id w.divergences ≡ ok old))
        (update_divergence d)
        (λ _ w. G w.batches × (find_divergence batch_id div_id w.divergences ≡ ok d))
unfolding update_divergence tables
update_divergence-Holds G batch_id div_id old d same own =
    let Before : World → Type 0 =
      λ w. G w.batches × (find_divergence batch_id div_id w.divergences ≡ ok old) in
    let After : World → Type 0 =
      λ w. G w.batches × (find_divergence batch_id div_id w.divergences ≡ ok d) in
    >>=-Holds statement _ (statement-Holds Before λ v w still h. subst Before (sym still) h) λ _.
      step-Holds Before (λ _. After) _ _
        λ w h.
          let here = own ∙ find_divergence-id batch_id div_id w.divergences old h.1 in
          (h.0, rw⁻¹ here (find_divergence-set batch_id d old w.divergences same (rw here h.1)))

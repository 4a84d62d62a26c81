-- ===== src/Httpapi/Batches.antt =====
-- internal/httpapi/batch_handlers.go: a handler for each route.
use task274_replaydivergence.Prelude.{ℕ, Option}
use task274_replaydivergence.Httpapi.Router.{
  Handler, respond, respond_some, parsed, Setting, all_batches, one_batch, statistics,
  CreateBatchReq, synced,
}
use task274_replaydivergence.Store.Rows.{list_batches, get_batch}
use task274_replaydivergence.Service.Batches.{confirm_batch, seal_batch, create_batch, sync}
use task274_replaydivergence.Service.Statistics.{stats}

unfoldable pub handle_create_batch : Setting → Option CreateBatchReq → Handler
handle_create_batch s body =
    parsed body λ req.
      respond 201 one_batch (create_batch (s.clock 0) req.name req.ref req.test req.hash_algo)

unfoldable pub handle_list_batches : Handler
handle_list_batches = respond 200 all_batches list_batches

unfoldable pub handle_get_batch : Option ℕ → Handler
handle_get_batch id = parsed id λ i. respond 200 one_batch (get_batch i)

unfoldable pub handle_sync_batch : Setting → Option ℕ → Handler
handle_sync_batch s id = parsed id λ i. respond_some 200 synced (sync s.fuel (s.clock 0) i)

unfoldable pub handle_confirm_batch : Setting → Option ℕ → Handler
handle_confirm_batch s id = parsed id λ i. respond 200 one_batch (confirm_batch (s.clock 0) i)

unfoldable pub handle_seal_batch : Setting → Option ℕ → Handler
handle_seal_batch s id = parsed id λ i. respond 200 one_batch (seal_batch (s.clock 0) i)

unfoldable pub handle_batch_stats : Option ℕ → Handler
handle_batch_stats id = parsed id λ i. respond 200 statistics (stats i)

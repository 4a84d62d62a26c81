-- ===== src/Examples/Answering.antt =====
-- Requests to a server on a new database.
use task274_replaydivergence.Prelude.{false, refl, [], ◌∷◌, some, arith, ◌≡◌}
use task274_replaydivergence.Prelude.Int.{pos}
use task274_replaydivergence.Model.Status.{sealed}
use task274_replaydivergence.Examples.{batch_at}
use task274_replaydivergence.Store.World.{World, new_database, statement}
use task274_replaydivergence.Store.World.Atomic.{SameTables}
use task274_replaydivergence.Store.Consistent.{IsConsistent}
use task274_replaydivergence.Httpapi.Router.{
  Request, Setting, CreateBatchReq, AddCheckpointReq, post_batches, post_checkpoints, post_sync,
  error_of, get_stats, parsed, respond, written, write_err, write_json, status_of,
}
use task274_replaydivergence.Httpapi.Routes.{serve, is_get}
use task274_replaydivergence.Httpapi.Reached.{
  Reached, opened, served, Reached-IsConsistent, serve-SameTables,
}
use task274_replaydivergence.Httpapi.Comparisons.{handle_add_checkpoint}
use task274_replaydivergence.Httpapi.Answers.Errors.{writes_in_steps, serve-SameTables_on_error}
use task274_replaydivergence.Model.Errors.{database, ok}
use task274_replaydivergence.Service.Batches.{service_add_checkpoint, create_batch}
use task274_replaydivergence.Model.Exec.{◌>>=◌}
use task274_replaydivergence.Store.Rows.{get_batch, create_batch_row, create_checkpoint, find_batch}
use task274_replaydivergence.Httpapi.Batches.{handle_create_batch}
use task274_replaydivergence.Model.Batch.{is_sealed, new_replay_batch}
use task274_replaydivergence.Model.Status.{same_status}
use task274_replaydivergence.Httpapi.Answers.Sealed.{target, IsDenied, serve-IsDenied}

abbrev setting : Setting
setting = record { ctx = λ _. false; clock = λ n. n; stamp = "now"; fuel = 8 }

abbrev batch_body : CreateBatchReq
batch_body = record { name = "run"; ref = "golden"; test = "chip"; hash_algo = "" }

abbrev checkpoint_body : AddCheckpointReq
checkpoint_body = record { seq = pos 2; kind = "register"; values = ("r2", "2") ∷ [] }

abbrev after : Request → World → World
after req w = (serve setting req w).1

-- A batch with a checkpoint; a second checkpoint at the same seq is refused.
abbrev one_checkpoint : World
one_checkpoint = after (post_checkpoints (some 1) (some checkpoint_body)) (
    after (post_checkpoints (some 1) (some checkpoint_body))
      (after (post_batches (some batch_body)) new_database))

one_checkpoint-Reached : Reached one_checkpoint
one_checkpoint-Reached = served setting (post_checkpoints (some 1) (some checkpoint_body)) (
    served setting (post_checkpoints (some 1) (some checkpoint_body))
      (served setting (post_batches (some batch_body)) opened))

Reached-IsConsistent_example : IsConsistent one_checkpoint
Reached-IsConsistent_example = Reached-IsConsistent one_checkpoint one_checkpoint-Reached

serve-SameTables_example :
    SameTables (serve setting (get_stats (some 1)) one_checkpoint).1 one_checkpoint
unfolding is_get
serve-SameTables_example = serve-SameTables setting (get_stats (some 1)) one_checkpoint refl

-- Of two requests for the same checkpoint the second is an error of the database.
duplicate :
    (serve setting (post_checkpoints (some 1) (some checkpoint_body)) one_checkpoint).0
    ≡ some (record { status = 500; body = error_of database })
unfolding serve handle_add_checkpoint parsed respond written write_err write_json status_of
    service_add_checkpoint ◌>>=◌ get_batch statement handle_create_batch create_batch
    create_batch_row new_database is_sealed same_status new_replay_batch create_checkpoint
duplicate = refl

serve-SameTables_on_error_example :
    SameTables
      (serve setting (post_checkpoints (some 1) (some checkpoint_body)) one_checkpoint).1
      one_checkpoint
unfolding writes_in_steps
serve-SameTables_on_error_example =
    serve-SameTables_on_error setting (post_checkpoints (some 1) (some checkpoint_body))
      one_checkpoint (record { status = 500; body = error_of database }) refl duplicate
      (omega arith)

-- A world whose one batch is sealed.
abbrev sealed_world : World
sealed_world = record new_database { batches = batch_at sealed ∷ []; next_batch = 2 }

sealed_row : find_batch 1 sealed_world.batches ≡ ok (batch_at sealed)
unfolding find_batch
sealed_row = refl

serve-IsDenied_example : IsDenied sealed_world (serve setting (post_sync (some 1)) sealed_world)
unfolding target
serve-IsDenied_example =
    serve-IsDenied setting (post_sync (some 1)) 1 sealed_world (batch_at sealed) refl sealed_row
      refl

-- ===== src/Httpapi/Router.antt =====
-- internal/httpapi/router.go: the requests by their routes, and how a call becomes an answer. A
-- request is given by what the libraries make of its parts: an id is `none` where `ParseInt` fails,
-- a body is `none` where the decoder of JSON does; a body whose error the handler drops is what the
-- decoder leaves in its variable. Ids that parse are natural numbers; no row has a negative one.
use task274_replaydivergence.Prelude.{ℕ, String, Bool, List, Option, none, some}
use task274_replaydivergence.Prelude.Int.{ℤ}
use task274_replaydivergence.Prelude.StrMap.{StrMap}
use task274_replaydivergence.Model.Status.{TrailSide, SnapshotStatus}
use task274_replaydivergence.Model.Batch.{Time, ReplayBatch}
use task274_replaydivergence.Model.Errors.{
  Error, not_found, ok, err, conflict, fingerprint_missing, invalid_state, sealed_batch,
  range_locked, dependency_cycle, Result,
}
use task274_replaydivergence.Store.World.{World}
use task274_replaydivergence.Model.Exec.{Exec}
use task274_replaydivergence.Trace.Importer.{EventInput}
use task274_replaydivergence.Model.Snapshot.{SnapshotConfig, SnapshotSummary, LocSnapshot}
use task274_replaydivergence.Service.Batches.{SyncResult}
use task274_replaydivergence.Service.Statistics.{BatchStats}
use task274_replaydivergence.Trace.Validator.{ValidationResult}
use task274_replaydivergence.Model.Event.{ExecEvent}
use task274_replaydivergence.Model.Checkpoint.{Checkpoint, StateFingerprint}
use task274_replaydivergence.Service.Comparison.{CompareOutcome}
use task274_replaydivergence.Model.Divergence.{Divergence, ChainEdge}
use task274_replaydivergence.Service.Tracing.{TraceOutcome}

pub record CreateBatchReq : Type 0 where
  pub name : String
  pub ref : String
  pub test : String
  pub hash_algo : String

pub record ImportEventsReq : Type 0 where
  pub side : TrailSide
  pub events : List EventInput

pub record AddCheckpointReq : Type 0 where
  pub seq : ℤ
  pub kind : String
  pub values : StrMap String

-- One constructor for each route, with the ids of its path, its query and its body.
pub data Request : Type 0 where
  post_batches : Option CreateBatchReq → Request
  get_batches get_health get_self_check : Request
  get_one_batch post_sync post_confirm post_seal get_stats : Option ℕ → Request
  post_events : Option ℕ → Option ImportEventsReq → Request
  get_events : Option ℕ → String → String → Request
  patch_exclude : Option ℕ → Option ℕ → String → Request
  post_checkpoints : Option ℕ → Option AddCheckpointReq → Request
  post_mark_unreliable : Option ℕ → Option ℕ → String → Request
  get_checkpoints post_scan get_fingerprints post_compare get_divergences : Option ℕ → Request
  post_trace get_chain post_publish : Option ℕ → Option ℕ → Request
  post_snapshots : Option ℕ → String → Request
  get_snapshots get_one_snapshot : Option ℕ → Request

-- What a request meets: the answers of its context's `Err`, the readings of the clock, the
-- formatted time, and the rounds that are left to the loops on fuel.
pub record Setting : Type 0 where
  pub ctx : ℕ → Bool
  pub clock : ℕ → Time
  pub stamp : String
  pub fuel : ℕ

-- The view of a snapshot that `handleGetSnapshot` declares.
pub record SnapshotView : Type 0 where
  pub id : ℕ
  pub batch_id : ℕ
  pub name : String
  pub status : SnapshotStatus
  pub config : SnapshotConfig
  pub summary : Option SnapshotSummary
  pub created_at : Time

pub record SelfCheckReport : Type 0 where
  pub status : String
  pub batches : ℕ
  pub events : ℕ
  pub checkpoints : ℕ
  pub fingerprints : ℕ
  pub divergences : ℕ
  pub snapshots : ℕ
  pub message : String

-- The value that is encoded as the body of an answer.
pub data Body : Type 0 where
  error_of : Error → Body
  malformed bad_side healthy : Body
  one_batch : ReplayBatch → Body
  all_batches : List ReplayBatch → Body
  synced : SyncResult → Body
  statistics : BatchStats → Body
  validated : ValidationResult → Body
  one_event : ExecEvent → Body
  all_events : List ExecEvent → Body
  one_checkpoint : Checkpoint → Body
  all_checkpoints : List Checkpoint → Body
  scanned : ℕ → Body
  all_fingerprints : List StateFingerprint → Body
  compared : CompareOutcome → Body
  all_divergences : List Divergence → Body
  traced : TraceOutcome → Body
  chain_nodes : List ChainEdge → Body
  one_snapshot : LocSnapshot → Body
  all_snapshots : List LocSnapshot → Body
  snapshot_view : SnapshotView → Body
  self_check : SelfCheckReport → Body

-- The status code and the body of an answer.
pub record Answer : Type 0 where
  pub status : ℕ
  pub body : Body

-- What a handler does; `none` where a loop ran out of fuel, so that no answer is written.
abbrev pub Handler : Type 0
Handler = World → Option Answer × World

-- The switch over the errors of the model.
unfoldable pub status_of : Error → ℕ
status_of e = elim e [
  | not_found ↦ 404
  | conflict ↦ 409
  | fingerprint_missing ↦ 409
  | invalid_state ↦ 422
  | sealed_batch ↦ 422
  | range_locked ↦ 422
  | dependency_cycle ↦ 422
  | _ ↦ 500
]

unfoldable pub write_json : ℕ → Body → Handler
write_json status body w = (some (record { status = status; body = body }), w)

unfoldable pub write_err : Error → Handler
unfolding write_json status_of
write_err e = write_json (status_of e) (error_of e)

-- `writeErr` on an error of `ParseInt` or of the decoder, which is none of the model's errors.
unfoldable pub write_malformed : Handler
unfolding write_json
write_malformed = write_json 500 malformed

-- The end of a handler: an error is written, a result is encoded with the given status.
unfoldable pub written : {A : Type 0} → ℕ → (A → Body) → Result A × World → Option Answer × World
unfolding write_json write_err
written status encode (ok a, v) = write_json status (encode a) v
written status encode (err e, v) = write_err e v

unfoldable pub respond : {A : Type 0} → ℕ → (A → Body) → Exec World A → Handler
unfolding written
respond status encode m w = written status encode (m w)

-- The end of a handler whose call has a loop on fuel.
unfoldable pub written_some :
    {A : Type 0} → ℕ → (A → Body) → Result (Option A) × World → Option Answer × World
unfolding write_json write_err
written_some status encode (ok (some a), v) = write_json status (encode a) v
written_some status encode (ok none, v) = (none, v)
written_some status encode (err e, v) = write_err e v

unfoldable pub respond_some : {A : Type 0} → ℕ → (A → Body) → Exec World (Option A) → Handler
unfolding written_some
respond_some status encode m w = written_some status encode (m w)

-- A value that `ParseInt` or the decoder returns, and what the handler does with it.
unfoldable pub parsed : {A : Type 0} → Option A → (A → Handler) → Handler
unfolding write_malformed
parsed none k = write_malformed
parsed (some a) k = k a

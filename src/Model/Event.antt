-- ===== src/Model/Event.antt =====
-- internal/model/event.go: resource accesses and execution events.
pub mod Laws
use Prim.Native.Char.{Char, code}
use task274_replaydivergence.Prelude.{
  ℕ, String, Bool, true, false, ◌&&◌, List, [], ◌∷◌, str_eq, if◌then◌else◌,
}
use task274_replaydivergence.Prelude.Int.{ℤ}
use task274_replaydivergence.Prelude.Order.{text_order}
use task274_replaydivergence.Prelude.Sort.{sort_on}
use task274_replaydivergence.Prelude.StrMap.{StrMap}
use task274_replaydivergence.Model.Batch.{Time}
use task274_replaydivergence.Model.Status.{TrailSide, EventStatus}

pub record ResourceAccess : Type 0 where
  pub kind : String
  pub name : String

-- One text after another.
unfoldable pub join : String → String → String
join String.[] t = t
join (String.◌∷◌ c s) t = String.◌∷◌ c (join s t)

-- fmt.Sprintf("%s:%s", r.Kind, r.Name)
unfoldable pub key : ResourceAccess → String
unfolding join
key r = join r.kind (join ":" r.name)

-- The JSON columns of the table hold `reads`, `writes` and `values` as they are here.
pub record ExecEvent : Type 0 where
  pub id : ℕ
  pub batch_id : ℕ
  pub side : TrailSide
  pub seq : ℤ
  pub pc : String
  pub opcode : String
  pub stage : String
  pub reads : List ResourceAccess
  pub writes : List ResourceAccess
  pub values : StrMap String
  pub status : EventStatus
  pub note : String
  pub created_at : Time

unfoldable pub normalize_reads : ExecEvent → ExecEvent
normalize_reads e = record e { reads = sort_on key e.reads }

unfoldable pub normalize_writes : ExecEvent → ExecEvent
normalize_writes e = record e { writes = sort_on key e.writes }

-- The loop of `WritesResource` and of `ReadsResource`.
has_access : ResourceAccess → List ResourceAccess → Bool
has_access r [] = false
has_access r (w ∷ rest) =
    if str_eq w.kind r.kind && str_eq w.name r.name then true else has_access r rest

unfoldable pub writes_resource : ExecEvent → ResourceAccess → Bool
unfolding has_access
writes_resource e r = has_access r e.writes

unfoldable pub reads_resource : ExecEvent → ResourceAccess → Bool
unfolding has_access
reads_resource e r = has_access r e.reads

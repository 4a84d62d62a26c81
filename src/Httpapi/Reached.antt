-- ===== src/Httpapi/Reached.antt =====
-- The databases that requests make of a new one, and what holds of all of them.
use task274_replaydivergence.Prelude.{◌≡◌, refl, true, List, Bool, ◌∙◌}
use task274_replaydivergence.Store.World.{World, new_database}
use task274_replaydivergence.Store.World.Atomic.{SameTables, tables}
use task274_replaydivergence.Store.Consistent.{IsConsistent}
use task274_replaydivergence.Service.Preserves.{Preserves}
use task274_replaydivergence.Service.Preserves.Consistent.{IsConsistent-Preserves}
use task274_replaydivergence.Httpapi.Router.{Request, Setting}
use task274_replaydivergence.Httpapi.Routes.{serve, is_get}
use task274_replaydivergence.Httpapi.Keeping.Reading.{read-HandlerKeeps}
use task274_replaydivergence.Httpapi.Keeping.Serving.{serve-HandlerKeeps}

-- A new database, then any requests in any settings, and any refusals of the database to come.
pub data Reached : World → Type 0 where
  opened : Reached new_database
  failing : {w : World} (faults : List Bool) → Reached w → Reached (record w { faults = faults })
  served : {w : World} (s : Setting) (req : Request) → Reached w → Reached (serve s req w).1

-- A fact of a new database that every write keeps holds of every database that is reached.
Reached-of_Preserves :
    (P : World → Type 0) (w : World) → Preserves P → P new_database → Reached w → P w
unfolding tables
Reached-of_Preserves P w p h opened = h
Reached-of_Preserves P w p h (failing {w = v} faults r) =
    p.fact (record v { faults = faults }) v refl (Reached-of_Preserves P v p h r)
Reached-of_Preserves P w p h (served {w = v} s req r) =
    (serve-HandlerKeeps P p s req).kept v (Reached-of_Preserves P v p h r)

new_database-IsConsistent : IsConsistent new_database
unfolding new_database
new_database-IsConsistent = record {
  sound = (
    record { numbered = tt; keys = tt },
    tt,
    record { numbered = tt; keys = λ x y m _ _. absurd (elim m [ ]) },
    record { numbered = tt; keys = tt },
    record { numbered = tt; open_ones = λ x y m _ _. absurd (elim m [ ]) },
    tt,
    tt,
    tt,
  );
  single = λ x y m _ _. absurd (elim m [ ]);
}

-- Whatever requests are served from a new database on, whatever the contexts and the clock say and
-- whichever statements the database refuses: the ids of each of the eight tables are distinct and
-- below the next id of the table, no two events share batch, side and seq, no two checkpoints share
-- batch and seq, no two fingerprints share their key, a checkpoint of a batch has at most one open
-- candidate divergence, and a batch has at most one published snapshot.
pub Reached-IsConsistent : (w : World) → Reached w → IsConsistent w
Reached-IsConsistent w r =
    Reached-of_Preserves IsConsistent w IsConsistent-Preserves new_database-IsConsistent r

-- A request by GET leaves every table as it is, whatever it is answered.
pub serve-SameTables :
    (s : Setting) (req : Request) (w : World) → is_get req ≡ true → SameTables (serve s req w).1 w
serve-SameTables s req w is_read =
    (read-HandlerKeeps (λ v. SameTables v w) (λ u v same h. same ∙ h) s req is_read).kept w refl

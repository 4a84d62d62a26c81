-- ===== src/Examples/Storing.antt =====
-- Runs of the calls on a small database, some of whose statements are refused.
use task274_replaydivergence.Prelude.{Memᴰ, ap}
use task274_replaydivergence.Prelude.{◌≡◌, refl, List, [], ◌∷◌, Bool, true, false, ◌≢◌, none, arith}
use task274_replaydivergence.Examples.{batch_at, input, ref_1, ref_2}
use task274_replaydivergence.Model.Status.{BatchStatus, reference, sealed, receiving}
use task274_replaydivergence.Store.World.{with_tx, World}
use task274_replaydivergence.Store.World.Atomic.{SameTables}
use task274_replaydivergence.Trace.Importer.{EventInput, to_model, dedupe_inputs}
use task274_replaydivergence.Service.Batches.{import_events, sync}
use task274_replaydivergence.Store.Rows.{find_batch, get_batch}
use task274_replaydivergence.Service.Batches.Sealed.{IsReadOnly, sealed-IsReadOnly}
use task274_replaydivergence.Store.Events.{insert_batch, any_row, at_seq}
use task274_replaydivergence.Prelude.Int.{pos}
use task274_replaydivergence.Model.Errors.{ok, database, err}
use task274_replaydivergence.Trace.Validator.{validate, examine}
use task274_replaydivergence.Service.Batches.Import.{import_events-IsAtomic}
use task274_replaydivergence.Prelude.Sort.{sort_on}
use task274_replaydivergence.Model.Exec.{◌>>=◌}
use task274_replaydivergence.Model.Batch.{is_sealed}
use task274_replaydivergence.Model.Status.{same_status, is_valid_trail_side}
use task274_replaydivergence.Store.Events.{seq_exists}
use task274_replaydivergence.Service.Batches.Synced.{HasSeqsWithin, sync_ends}
use task274_replaydivergence.Model.Event.{ExecEvent}

abbrev world : BatchStatus → List Bool → World
world status faults = record {
  events = ref_1 ∷ [];
  next_event = 1;
  batches = batch_at status ∷ [];
  next_batch = 2;
  checkpoints = [];
  next_checkpoint = 1;
  fingerprints = [];
  next_fingerprint = 1;
  dependencies = [];
  next_dependency = 1;
  divergences = [];
  next_divergence = 1;
  chain_edges = [];
  next_chain_edge = 1;
  snapshots = [];
  next_snapshot = 1;
  faults = faults;
}

two_seqs : HasSeqsWithin 2 1 (record (world receiving []) { events = ref_1 ∷ ref_2 ∷ [] })
two_seqs e (Memᴰ.head at) own = (1, ap (λ (x : ExecEvent). x.seq) at, omega arith)
two_seqs e (Memᴰ.tail (Memᴰ.head at)) own = (2, ap (λ (x : ExecEvent). x.seq) at, omega arith)
two_seqs e (Memᴰ.tail (Memᴰ.tail m)) own = absurd (elim m [ ])

sync_ends_example :
    (sync 4 9 1 (record (world receiving []) { events = ref_1 ∷ ref_2 ∷ [] })).0 ≢ ok none
sync_ends_example =
    sync_ends 4 2 1 9 (record (world receiving []) { events = ref_1 ∷ ref_2 ∷ [] }) two_seqs
      (omega arith) (omega arith)

abbrev two_inputs : List EventInput
two_inputs = input (pos 3) "ADD" ∷ input (pos 2) "ADD" ∷ []

-- The batch, two tests for duplicates, the start and the first insertion; the second is refused.
abbrev sixth_fails : List Bool
sixth_fails = false ∷ false ∷ false ∷ false ∷ false ∷ true ∷ []

import_fails :
    (import_events false false 9 1 reference two_inputs (world receiving sixth_fails)).0
    ≡ err database
unfolding import_events get_batch validate examine to_model dedupe_inputs sort_on with_tx
    insert_batch ◌>>=◌ any_row at_seq is_sealed same_status is_valid_trail_side seq_exists
import_fails = refl

import_events_example :
    SameTables
      (import_events false false 9 1 reference two_inputs (world receiving sixth_fails)).1
      (world receiving sixth_fails)
import_events_example =
    (import_events-IsAtomic false false 9 1 reference two_inputs).same (world receiving sixth_fails)
      database import_fails

stored_batch : find_batch 1 (world sealed []).batches ≡ ok (batch_at sealed)
unfolding find_batch
stored_batch = refl

sealed_example : IsReadOnly 1 (world sealed [])
sealed_example = sealed-IsReadOnly 1 (world sealed []) (batch_at sealed) stored_batch refl

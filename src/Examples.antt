-- ===== src/Examples.antt =====
-- Two small trails and the data around them, for the tests of the child modules.
mod Tracing
mod Comparing
mod Lives
mod Storing
mod Served
mod Serving
mod Answering
mod Smoke
use task274_replaydivergence.Prelude.{ℕ, String, List, [], ◌∷◌}
use task274_replaydivergence.Prelude.Int.{ℤ, pos}
use task274_replaydivergence.Prelude.StrMap.{StrMap}
use task274_replaydivergence.Model.Status.{TrailSide, reference, under_test, raw, BatchStatus}
use task274_replaydivergence.Model.Event.{ResourceAccess, ExecEvent}
use task274_replaydivergence.Model.Batch.{ReplayBatch}
use task274_replaydivergence.Backtrace.Tracer.{Tracer, new_tracer}
use task274_replaydivergence.Trace.Importer.{EventInput}

abbrev pub reg : String → ResourceAccess
reg name = record { kind = "reg"; name = name }

abbrev pub event :
    TrailSide → ℤ → List ResourceAccess → List ResourceAccess → StrMap String → ExecEvent
event side seq reads writes values = record {
  id = 0;
  batch_id = 1;
  side = side;
  seq = seq;
  pc = "0x0";
  opcode = "ADD";
  stage = "EX";
  reads = reads;
  writes = writes;
  values = values;
  status = raw;
  note = "";
  created_at = 0;
}

abbrev pub ref_1 : ExecEvent
ref_1 = event reference (pos 1) [] (reg "r1" ∷ []) (("reg:r1", "1") ∷ [])

abbrev pub ref_2 : ExecEvent
ref_2 = event reference (pos 2) (reg "r1" ∷ []) (reg "r2" ∷ []) (("reg:r2", "2") ∷ [])

abbrev pub ref_3 : ExecEvent
ref_3 = event reference (pos 3) (reg "r2" ∷ []) (reg "r2" ∷ []) (("reg:r2", "3") ∷ [])

abbrev pub test_1 : ExecEvent
test_1 = event under_test (pos 1) [] (reg "r1" ∷ []) (("reg:r1", "1") ∷ [])

abbrev pub test_2 : ExecEvent
test_2 = event under_test (pos 2) (reg "r1" ∷ []) (reg "r2" ∷ []) (("reg:r2", "9") ∷ [])

abbrev pub test_3 : ExecEvent
test_3 = event under_test (pos 3) (reg "r2" ∷ []) (reg "r2" ∷ []) (("reg:r2", "3") ∷ [])

abbrev pub ref_trail : List ExecEvent
ref_trail = ref_1 ∷ ref_2 ∷ ref_3 ∷ []

abbrev pub test_trail : List ExecEvent
test_trail = test_1 ∷ test_2 ∷ test_3 ∷ []

abbrev pub tracer : Tracer
tracer = new_tracer 1 [] test_trail ref_trail

abbrev pub batch_at : BatchStatus → ReplayBatch
batch_at status = record {
  id = 1;
  name = "run";
  ref_trail_name = "ref";
  test_trail_name = "test";
  status = status;
  seq_min = pos 1;
  seq_max = pos 3;
  hash_algo = "fnv1a-sorted";
  created_at = 0;
  updated_at = 0;
}

abbrev pub input : ℤ → String → EventInput
input seq opcode = record {
  seq = seq;
  pc = "";
  opcode = opcode;
  stage = "EX";
  reads = "reg:r1" ∷ [];
  writes = "mem:0x10" ∷ [];
  values = ("mem:0x10", "1") ∷ [];
}

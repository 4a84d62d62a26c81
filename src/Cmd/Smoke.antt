-- ===== src/Cmd/Smoke.antt =====
-- `runSmokeTest` of cmd/replaydivergence/main.go, on the calls of the service. The code that the
-- program exits with is the result; the context is never cancelled, and closing and opening the
-- database again changes no table. `now` is what `time.Now` returns, one value for all reads of the clock,
-- and `fuel` is for the counting loop of `Sync`.
use task274_replaydivergence.Model.Status.{DivergenceStatus}
use task274_replaydivergence.Prelude.{
  ℕ, String, Bool, not, ◌||◌, ◌==◌, List, [], ◌∷◌, Option, some, none, if◌then◌else◌, str_eq,
  length, false, true,
}
use task274_replaydivergence.Prelude.Int.{pos, eqb_ℤ}
use task274_replaydivergence.Model.Errors.{Result, ok, err}
use task274_replaydivergence.Model.Exec.{Exec, pure}
use task274_replaydivergence.Model.Batch.{Time}
use task274_replaydivergence.Model.Status.{reference, under_test, same_status, sealed}
use task274_replaydivergence.Store.World.{World}
use task274_replaydivergence.Trace.Importer.{EventInput}
use task274_replaydivergence.Service.Batches.{
  create_batch, import_events, service_add_checkpoint, sync, SyncResult,
}
use task274_replaydivergence.Service.Scan.{scan_fingerprints}
use task274_replaydivergence.Service.Comparison.{compare}
use task274_replaydivergence.Service.Tracing.{trace_divergence, TraceOutcome}
use task274_replaydivergence.Service.Snapshots.{create_snapshot, publish_snapshot, is_published}
use task274_replaydivergence.Model.Divergence.{Divergence}
use task274_replaydivergence.Model.Snapshot.{SnapshotSummary}
use task274_replaydivergence.Store.Rows.{get_batch}
use task274_replaydivergence.Store.Divergences.{list_divergences, list_chain}
use task274_replaydivergence.Model.Checkpoint.{full_kind}
use task274_replaydivergence.Service.Statistics.{stats}
use task274_replaydivergence.Store.Snapshots.{get_snapshot}

-- `return fail(...)`
abbrev fail : Exec World ℕ
fail = pure 1

failing : {A : Type 0} → (A → Exec World ℕ) → Result A × World → Result ℕ × World
failing next (ok a, w) = next a w
failing next (err e, w) = fail w

-- A call whose error ends the test.
unfoldable pub must : {A : Type 0} → Exec World A → (A → Exec World ℕ) → Exec World ℕ
unfolding failing
must m next w = failing next (m w)

-- A call with a loop on fuel.
unfoldable pub some_or_fail : {A : Type 0} → (A → Exec World ℕ) → Option A → Exec World ℕ
some_or_fail next none = fail
some_or_fail next (some a) = next a

-- The two trails, which differ in the value that the second instruction writes and that the later
-- ones pass on.
unfoldable pub smoke_inputs : String → List EventInput
smoke_inputs value =
    record {
      seq = pos 0;
      pc = "0x0000";
      opcode = "mov";
      stage = "";
      reads = [];
      writes = "reg:rax" ∷ [];
      values = ("reg:rax", "0x1") ∷ [];
    }
    ∷ record {
      seq = pos 1;
      pc = "0x0004";
      opcode = "add";
      stage = "";
      reads = "reg:rax" ∷ [];
      writes = "reg:rbx" ∷ [];
      values = ("reg:rbx", value) ∷ [];
    }
    ∷ record {
      seq = pos 2;
      pc = "0x0008";
      opcode = "store";
      stage = "";
      reads = "reg:rbx" ∷ [];
      writes = "mem:0x1000" ∷ [];
      values = ("mem:0x1000", value) ∷ [];
    }
    ∷ record {
      seq = pos 3;
      pc = "0x000c";
      opcode = "load";
      stage = "";
      reads = "mem:0x1000" ∷ [];
      writes = "reg:rcx" ∷ [];
      values = ("reg:rcx", value) ∷ [];
    }
    ∷ record {
      seq = pos 4;
      pc = "0x0010";
      opcode = "ret";
      stage = "";
      reads = [];
      writes = [];
      values = [];
    }
    ∷ []

-- `len(divs) != 1`, and `divs[0]`.
unfoldable pub with_one : {A : Type 0} → (A → Exec World ℕ) → List A → Exec World ℕ
with_one next (a ∷ []) = next a
with_one next _ = fail

is_confirmed : Divergence → Bool
is_confirmed d = elim d.status [ DivergenceStatus.confirmed ↦ true | _ ↦ false ]

module _ (fuel : ℕ) (now : Time) (stamp : String) (id : ℕ) where
  -- The summary of the snapshot, and the statistics.
  check_summary : SnapshotSummary → Exec World ℕ
  check_summary sum =
      if not (eqb_ℤ sum.first_divergent_seq (pos 1)) then fail else must (stats id) λ _. pure 0

  -- What the database that is opened again holds.
  unfoldable pub check_recovery : ℕ → Exec World ℕ
  unfolding check_summary is_confirmed
  check_recovery snap_id = must (get_batch id) λ b.
      if not (same_status b.status sealed)
      then fail
      else must (list_divergences id) (
          with_one λ d.
            if not (eqb_ℤ d.first_divergent_seq (pos 1)) || not (is_confirmed d)
            then fail
            else must (get_snapshot snap_id)
                λ s. if not (is_published s) then fail else some_or_fail check_summary s.summary)

  unfoldable pub check_publication : Exec World ℕ
  unfolding check_recovery
  check_publication = must (create_snapshot now stamp id "smoke-loc-snapshot") λ made.
      must (publish_snapshot false now id made.id) λ snap.
        if not (eqb_ℤ snap.config.seq_min (pos 0))
          || not (eqb_ℤ snap.config.seq_max (pos 4))
          || not (length snap.config.checkpoint_seqs == 1)
        then fail
        else check_recovery snap.id

  check_trace : TraceOutcome → Exec World ℕ
  unfolding check_publication
  check_trace out =
      if not (eqb_ℤ out.divergence.first_divergent_seq (pos 1))
      then fail
      else if not (str_eq out.divergence.first_divergent_op "add")
      then fail
      else must (list_chain out.divergence.id)
          λ chain. if length chain == 0 then fail else check_publication

  unfoldable pub check_comparison : Exec World ℕ
  unfolding check_trace
  check_comparison = must (compare false now id) λ comp.
      if not (comp.tally.divergent == 1)
      then fail
      else must (list_divergences id)
          (with_one λ d. must (trace_divergence false false now id d.id) (some_or_fail check_trace))

  check_alignment : SyncResult → Exec World ℕ
  unfolding check_comparison
  check_alignment res =
      if not (eqb_ℤ res.align.aligned_count (pos 10))
      then fail
      else must (scan_fingerprints (λ _. false) (λ _. now) id)
          λ scanned. if not (scanned == 1) then fail else check_comparison

  unfoldable pub check_checkpoint : Exec World ℕ
  unfolding check_alignment
  check_checkpoint =
      must
        (service_add_checkpoint now id (pos 4) full_kind (
          ("reg:rax", "0x1")
          ∷ ("reg:rbx", "0x1")
          ∷ ("reg:rcx", "0x1")
          ∷ ("mem:0x1000", "0x1")
          ∷ []))
        λ _. must (sync fuel now id) (some_or_fail check_alignment)

  -- The imports, the last of which repeats the first.
  unfoldable pub check_imports : Exec World ℕ
  unfolding check_checkpoint smoke_inputs
  check_imports = must (import_events false false now id reference (smoke_inputs "0x1")) λ _.
      must (import_events false false now id under_test (smoke_inputs "0x2")) λ _.
        must (import_events false false now id reference (smoke_inputs "0x1"))
          λ again. if not (again.accepted == 0) then fail else check_checkpoint

unfoldable pub run_smoke_test : ℕ → Time → String → Exec World ℕ
unfolding check_imports
run_smoke_test fuel now stamp =
    must (create_batch now "smoke-replay" "ref-trail" "test-trail" "")
      λ b. check_imports fuel now stamp b.id

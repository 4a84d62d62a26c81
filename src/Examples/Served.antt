-- ===== src/Examples/Served.antt =====
-- A batch in the tables; a scan and a comparison of it.
use task274_replaydivergence.Service.Comparison.Candidates.{IsOutcome, compare-IsOutcome}
use task274_replaydivergence.Prelude.{
  ℕ, ◌≡◌, refl, List, [], ◌∷◌, Bool, false, none, String, ap, Memᴰ, inl,
}
use task274_replaydivergence.Prelude.Int.{pos}
use task274_replaydivergence.Model.Checkpoint.{
  Checkpoint, register_kind, StateFingerprint, is_unreliable, scope, is_match,
}
use task274_replaydivergence.Model.Status.{
  TrailSide, SnapshotStatus, BatchStatus, syncing, register, published, pending_loc, reference,
  under_test, draft, same_status, can_transition_batch,
}
use task274_replaydivergence.Service.Scan.{
  scan_fingerprints, by_seq, scan_loop, replay_both, save_pair, fingerprint_of,
}
use task274_replaydivergence.Service.Comparison.{
  CompareOutcome, compare, scanned_pair, propose, new_candidate, has_candidate, add_pair,
}
use task274_replaydivergence.Model.Snapshot.{LocSnapshot}
use task274_replaydivergence.Store.World.{World, statement}
use task274_replaydivergence.Store.Rows.{get_batch, list_checkpoints, update_batch}
use task274_replaydivergence.Examples.{ref_1, batch_at, ref_2, test_1, test_2}
use task274_replaydivergence.Service.Scan.Fresh.{scan_afresh, scan_fingerprints-scan_afresh}
use task274_replaydivergence.Store.Fingerprints.{get_pair, upsert, upsert_rows}
use task274_replaydivergence.Store.Divergences.{list_divergences, divergences_of, create_divergence}
use task274_replaydivergence.Model.Errors.{ok, Result}
use task274_replaydivergence.Model.Exec.{◌>>=◌}
use task274_replaydivergence.Prelude.Sort.{sort_on}
use task274_replaydivergence.Model.Batch.{transition}
use task274_replaydivergence.Store.Events.{list_by_side, on_side}
use task274_replaydivergence.Service.Scan.Stored.{IsScanned, scan_fingerprints-IsScanned}
use task274_replaydivergence.Compare.Replay.{replay, replay_writes, events_up_to}
use task274_replaydivergence.Prelude.StrMap.{lookup, insert}
use task274_replaydivergence.Model.Event.{key}

abbrev checkpoint : Checkpoint
checkpoint = record {
  id = 1;
  batch_id = 1;
  seq = pos 2;
  kind = register_kind;
  values = ("r2", "2") ∷ [];
  status = "trusted";
  reason = "";
  created_at = 0;
}

abbrev pub fingerprint : ℕ → TrailSide → String → StateFingerprint
fingerprint id side hash = record {
  id = id;
  batch_id = 1;
  side = side;
  seq = pos 2;
  scope = register;
  hash = hash;
  algo = "fnv1a-sorted";
  created_at = 0;
}

abbrev pub snapshot : ℕ → SnapshotStatus → LocSnapshot
snapshot id status = record {
  id = id;
  batch_id = 1;
  name = "run";
  status = status;
  config = record {
    seq_min = pos 1;
    seq_max = pos 3;
    hash_algo = "fnv1a-sorted";
    checkpoint_seqs = [];
    unreliable_seqs = [];
    excluded_seqs = [];
  };
  summary = none;
  created_at = 0;
  published_at = none;
  superseded_by = 0;
}

abbrev pub served : BatchStatus → List Bool → World
served status faults = record {
  events = ref_1 ∷ ref_2 ∷ test_1 ∷ test_2 ∷ [];
  next_event = 5;
  batches = batch_at status ∷ [];
  next_batch = 2;
  checkpoints = checkpoint ∷ [];
  next_checkpoint = 2;
  fingerprints = fingerprint 1 reference "a" ∷ fingerprint 2 under_test "b" ∷ [];
  next_fingerprint = 3;
  dependencies = [];
  next_dependency = 1;
  divergences = record (new_candidate 3 1 (pos 2)) { id = 1 } ∷ [];
  next_divergence = 2;
  chain_edges = [];
  next_chain_edge = 1;
  snapshots = snapshot 1 published ∷ snapshot 2 draft ∷ [];
  next_snapshot = 3;
  faults = faults;
}

abbrev on_time : ℕ → Bool
on_time n = false

abbrev ticks : ℕ → ℕ
ticks n = n

scan_fingerprints_example :
    scan_fingerprints on_time ticks 1 (served syncing [])
    ≡ scan_afresh on_time ticks 1 (served syncing [])
scan_fingerprints_example = scan_fingerprints-scan_afresh on_time ticks 1 (served syncing [])

trusted_checkpoint : is_unreliable checkpoint ≡ false
unfolding is_unreliable
trusted_checkpoint = refl

abbrev scanned : Result ℕ × World
scanned = scan_fingerprints on_time ticks 1 (served syncing [])

scan_runs : scanned.0 ≡ ok 1
unfolding scan_fingerprints get_batch list_checkpoints list_by_side statement ◌>>=◌ same_status
    by_seq sort_on on_side scan_loop is_unreliable replay_both replay replay_writes events_up_to
    save_pair fingerprint_of upsert upsert_rows lookup insert key scope
scan_runs = refl

scan_fingerprints-IsScanned_example : IsScanned 1 checkpoint reference (served syncing []) scanned.1
scan_fingerprints-IsScanned_example =
    scan_fingerprints-IsScanned on_time ticks 1 (served syncing []) scanned.1 1 checkpoint reference
      (ap (λ r. (r, scanned.1)) scan_runs) (Memᴰ.head refl) refl trusted_checkpoint (inl refl)

abbrev one_divergent : CompareOutcome
one_divergent = record {
  tally = record {
    scanned = 1;
    matched = 0;
    divergent = 1;
    pairs =
        record { seq = pos 2; scope = register; ref_hash = "a"; test_hash = "b"; matched = false }
        ∷ [];
  };
  batch = record (batch_at pending_loc) { updated_at = 5 };
}

compare_runs : (compare false 5 1 (served syncing [])).0 ≡ ok one_divergent
unfolding compare get_batch list_checkpoints get_pair scanned_pair propose list_divergences
    update_batch divergences_of ◌>>=◌ same_status sort_on transition can_transition_batch
    is_unreliable scope new_candidate is_match has_candidate add_pair create_divergence statement
compare_runs = refl

compare_example :
    IsOutcome 1 (served syncing []) one_divergent (compare false 5 1 (served syncing [])).1
compare_example =
    compare-IsOutcome false 5 1 (served syncing []) (compare false 5 1 (served syncing [])).1
      one_divergent (ap (λ r. (r, (compare false 5 1 (served syncing [])).1)) compare_runs)

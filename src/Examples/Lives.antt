-- ===== src/Examples/Lives.antt =====
-- Runs of the life cycles, of the importer and of the aligner.
use task274_replaydivergence.Prelude.{
  ◌≡◌, List, ℕ, ◌∷◌, [], none, Bool, length, some, refl, ◌+◌, All, arith, sym, ap, ◌∙◌,
}
use task274_replaydivergence.Model.Status.{
  can_transition_batch, receiving, syncing, BatchStatus, SnapshotStatus, published, TrailSide,
  sealed, pending_loc, superseded, reference, draft, raw,
}
use task274_replaydivergence.Model.Batch.Lifecycle.{Subseq, requests, sealed_needs_all_stages}
use task274_replaydivergence.Model.Exec.{Exec, ◌>>=◌}
use task274_replaydivergence.Model.Batch.{transition}
use task274_replaydivergence.Model.Snapshot.{SnapshotConfig, LocSnapshot}
use task274_replaydivergence.Model.Snapshot.Life.{
  SameEvidence, Call, release, calls, replace, published_evidence_frozen,
}
use task274_replaydivergence.Snapshot.Publisher.Replaced.{IsExact, supersede_previous-IsExact}
use task274_replaydivergence.Snapshot.Publisher.Frozen.{
  IsFrozen, Entry, trusted, doubted, register, dropped, build-IsFrozen,
}
use task274_replaydivergence.Model.Event.{ResourceAccess, key, ExecEvent}
use task274_replaydivergence.Trace.Importer.{
  parse_resource, validate_sequence, access, EventInput, to_model, dedupe_inputs,
}
use task274_replaydivergence.Prelude.Sort.{sort_on}
use task274_replaydivergence.Prelude.Int.{ℤ, pos, ◌+ℤ◌, negsuc}
use task274_replaydivergence.Model.Errors.{Result, ok, err, ok-injective}
use task274_replaydivergence.Trace.Validator.{ValidationResult, validate, examine}
use task274_replaydivergence.Sync.Aligner.{Missing, has_seq, count_missing, max_int64}
use task274_replaydivergence.Examples.{batch_at, input}
use task274_replaydivergence.Snapshot.Publisher.{supersede_previous, build, new_config_assembler}
use task274_replaydivergence.Trace.Importer.Resource.{IsResource, parse_resource_sound}
use task274_replaydivergence.Sync.Aligner.Counts.{count_missing_exact}
use task274_replaydivergence.Sync.Aligner.Ends.{count_never_ends}
use task274_replaydivergence.Prelude.Order.{text_order}
use task274_replaydivergence.Trace.Validator.Accepted.{validate_sound}
use mathlib.Core.List.{Perm}
use task274_replaydivergence.Trace.Validator.Judged.{IsJudged, IsMarked}

-- A detour over `receiving`, and two requests that are refused.
abbrev detour : List BatchStatus
detour =
    syncing ∷ sealed ∷ receiving ∷ syncing ∷ pending_loc ∷ BatchStatus.confirmed ∷ sealed ∷ syncing
    ∷ []

detour_seals : (requests 5 (batch_at receiving) detour).status ≡ sealed
unfolding requests transition can_transition_batch
detour_seals = refl

sealed_needs_all_stages_example :
    Subseq (syncing ∷ pending_loc ∷ BatchStatus.confirmed ∷ sealed ∷ []) detour
sealed_needs_all_stages_example = sealed_needs_all_stages 5 detour (batch_at receiving) detour_seals

abbrev config : SnapshotConfig
config = record {
  seq_min = pos 1;
  seq_max = pos 3;
  hash_algo = "fnv1a-sorted";
  checkpoint_seqs = pos 2 ∷ [];
  unreliable_seqs = [];
  excluded_seqs = [];
}

abbrev snapshot_at : ℕ → SnapshotStatus → LocSnapshot
snapshot_at id status = record {
  id = id;
  batch_id = 1;
  name = "s";
  status = status;
  config = config;
  summary = none;
  created_at = 0;
  published_at = none;
  superseded_by = 0;
}

abbrev later_calls : List Call
later_calls = release 9 ∷ replace 4 ∷ replace 5 ∷ []

published_evidence_example :
    SameEvidence (snapshot_at 3 published) (calls (snapshot_at 3 published) later_calls)
published_evidence_example =
    published_evidence_frozen later_calls (snapshot_at 3 published) (λ e. cc e)

abbrev three_snapshots : List LocSnapshot
three_snapshots = snapshot_at 1 superseded ∷ snapshot_at 2 published ∷ snapshot_at 3 draft ∷ []

supersede_previous_example : IsExact 3 three_snapshots (supersede_previous three_snapshots 3)
supersede_previous_example = supersede_previous-IsExact three_snapshots 3

abbrev entries : List Entry
entries = trusted (pos 3) ∷ doubted (pos 2) ∷ trusted (pos 1) ∷ dropped (pos 7) ∷ []

build_config_example :
    IsFrozen
      (batch_at BatchStatus.confirmed)
      entries
      (build (register (new_config_assembler (batch_at BatchStatus.confirmed)) entries))
build_config_example = build-IsFrozen (batch_at BatchStatus.confirmed) entries

abbrev read_r1 : ResourceAccess
read_r1 = record { kind = "reg"; name = "r1" }

parse_r1 : parse_resource "reg:r1" ≡ access read_r1
unfolding parse_resource
parse_r1 = refl

parse_resource_example : (key read_r1 ≡ "reg:r1") × IsResource read_r1
parse_resource_example = parse_resource_sound "reg:r1" read_r1 parse_r1

-- A store that holds the seqs of its list.
abbrev in_store : ℕ → TrailSide → ℤ → Exec (List ℤ) Bool
in_store batch_id side q stored = (ok (has_seq stored q), stored)

-- Two that are accepted, out of order; one stored already, one repeated, one without an opcode.
abbrev fragment : List EventInput
fragment =
    input (pos 6) "ADD"
    ∷ input (pos 2) "ADD"
    ∷ input (pos 4) "SUB"
    ∷ input (pos 6) "MUL"
    ∷ input (pos 5) ""
    ∷ []

abbrev validated : Result (ValidationResult × List ExecEvent) × List ℤ
validated = validate in_store 1 reference raw fragment (pos 4 ∷ [])

abbrev validated_pair : ValidationResult × List ExecEvent
validated_pair = elim validated.0 [
  | ok r ↦ r
  | err e ↦ (record { accepted = 0; skipped = []; warnings = [] }, [])
]

fragment_validates : validated ≡ (ok validated_pair, pos 4 ∷ [])
unfolding validate examine ◌>>=◌ to_model has_seq dedupe_inputs sort_on
fragment_validates = refl

two_accepted : validated_pair.0.accepted ≡ 2
unfolding validate examine ◌>>=◌ to_model has_seq dedupe_inputs sort_on
two_accepted = refl

-- The store tells what it has, and stays as it is.
in_store-tells :
    (q : ℤ) (s s' : List ℤ) (b : Bool)
    → s ≡ pos 4 ∷ []
    → in_store 1 reference q s ≡ (ok b, s')
    → (b ≡ has_seq (pos 4 ∷ []) q) × (s' ≡ pos 4 ∷ [])
in_store-tells q s s' b good e = (
  sym (ok-injective (ap (λ p. p.0) e)) ∙ ap (λ l. has_seq l q) good,
  sym (ap (λ p. p.1) e) ∙ good,
)

validate_example :
    IsJudged 1 reference raw
      (has_seq (pos 4 ∷ []))
      (negsuc 0)
      (dedupe_inputs fragment)
      validated_pair.0.skipped
      validated_pair.0.warnings
      validated_pair.1
    × Perm (dedupe_inputs fragment) fragment
    × (validate_sequence validated_pair.1 ≡ ok tt)
    × (length validated_pair.1 + length validated_pair.0.skipped ≡ length fragment)
    × (validated_pair.0.accepted ≡ length validated_pair.1)
    × All (IsMarked 1 reference raw) validated_pair.1
validate_example =
    validate_sound 1 reference raw in_store (has_seq (pos 4 ∷ [])) (λ s. s ≡ pos 4 ∷ [])
      in_store-tells fragment (pos 4 ∷ []) (pos 4 ∷ []) validated_pair.0 validated_pair.1 refl
      fragment_validates

abbrev nothing_missing : Missing
nothing_missing = record { missing_ref = 0; missing_test = 0 }

count_missing_example :
    count_missing 5
      (pos 1 ∷ pos 3 ∷ [])
      (pos 2 ∷ pos 3 ∷ pos 4 ∷ [])
      (pos 1)
      (pos 4)
      nothing_missing
    ≡ some (record { missing_ref = 2; missing_test = 1 })
unfolding has_seq ◌+ℤ◌
count_missing_example =
    count_missing_exact 4 5 (pos 1 ∷ pos 3 ∷ []) (pos 2 ∷ pos 3 ∷ pos 4 ∷ []) (pos 1) (pos 4)
      nothing_missing (omega arith) (omega arith) refl

count_never_ends_example :
    count_missing 3 [] (max_int64 ∷ []) (pos 0) max_int64 nothing_missing ≡ none
count_never_ends_example =
    count_never_ends 3 [] (max_int64 ∷ []) (pos 0) nothing_missing (omega arith)

-- ===== src/Service/Comparison.antt =====
-- `Compare` of internal/service/compare_service.go. `stopped` is what the context's `Err` says, and
-- `now` what `time.Now` returns, one value for all reads of the clock in a call.
pub mod Compared
pub mod Proposals
pub mod Counted
pub mod Candidates
pub mod Single
use task274_replaydivergence.Prelude.{
  ℕ, Bool, true, false, not, ◌&&◌, ◌==◌, List, [], ◌∷◌, ◌++◌, ◌+◌, Option, none, some,
  if◌then◌else◌,
}
use task274_replaydivergence.Prelude.Int.{ℤ, pos, eqb_ℤ}
use task274_replaydivergence.Model.Errors.{
  cancelled, invalid_state, fingerprint_missing, Error, Result, ok, err,
}
use task274_replaydivergence.Model.Status.{
  DivergenceStatus, candidate, pending_loc, syncing, same_status,
}
use task274_replaydivergence.Model.Divergence.{Divergence, blank, no_evidence}
use task274_replaydivergence.Model.Batch.{Time, ReplayBatch, transition}
use task274_replaydivergence.Model.Checkpoint.{
  Checkpoint, FingerprintPair, scope, is_unreliable, is_match,
}
use task274_replaydivergence.Model.Exec.{Exec, pure, raise, lift, ◌>>=◌}
use task274_replaydivergence.Store.World.{World}
use task274_replaydivergence.Store.Rows.{get_batch, list_checkpoints, update_batch}
use task274_replaydivergence.Store.Fingerprints.{get_pair}
use task274_replaydivergence.Store.Divergences.{list_divergences, create_divergence}

-- The counters and the pairs of the outcome, and its batch.
pub record Tally : Type 0 where
  pub scanned : ℕ
  pub matched : ℕ
  pub divergent : ℕ
  pub pairs : List FingerprintPair

pub record CompareOutcome : Type 0 where
  pub tally : Tally
  pub batch : ReplayBatch

-- errors.Is(err, model.ErrFingerprintMissing)
is_missing : Error → Bool
is_missing e = elim e [ fingerprint_missing ↦ true | _ ↦ false ]

-- `continue` where the pair is missing; other errors end the loop.
unfoldable pub tolerate : Result FingerprintPair × World → Result (Option FingerprintPair) × World
unfolding is_missing
tolerate (ok p, w) = (ok (some p), w)
tolerate (err e, w) = (if is_missing e then ok none else err e, w)

unfoldable pub scanned_pair : ℕ → Checkpoint → Exec World (Option FingerprintPair)
unfolding tolerate
scanned_pair batch_id cp w = tolerate (get_pair batch_id cp.seq (scope cp) w)

is_candidate : Divergence → Bool
is_candidate d = elim d.status [ candidate ↦ true | _ ↦ false ]

-- The loop that sets `dup`.
unfoldable pub has_candidate : ℤ → List Divergence → Bool
unfolding is_candidate
has_candidate seq [] = false
has_candidate seq (d ∷ ds) =
    let rest = has_candidate seq ds in
    if eqb_ℤ d.checkpoint_seq seq && is_candidate d then true else rest

unfoldable pub new_candidate : Time → ℕ → ℤ → Divergence
new_candidate now batch_id seq = record {
  id = 0;
  batch_id = batch_id;
  checkpoint_seq = seq;
  status = candidate;
  first_divergent_seq = pos 0;
  first_divergent_pc = "";
  first_divergent_op = "";
  root_cause = blank;
  evidence = no_evidence;
  created_at = now;
  updated_at = now;
}

-- A candidate for the checkpoint, unless the batch has one.
unfoldable pub propose : Time → ℕ → ℤ → Exec World (Unit {0})
unfolding has_candidate new_candidate
propose now batch_id seq = list_divergences batch_id >>= λ existing.
    if has_candidate seq existing
    then pure tt
    else create_divergence (new_candidate now batch_id seq) >>= λ _. pure tt

unfoldable pub add_pair : FingerprintPair → Tally → Tally
add_pair pair t = record {
  scanned = t.scanned + 1;
  matched = if is_match pair then t.matched + 1 else t.matched;
  divergent = if is_match pair then t.divergent else t.divergent + 1;
  pairs = t.pairs ++ record pair { matched = is_match pair } ∷ [];
}

-- One round past the reading of the pair; a checkpoint without one is passed over.
unfoldable pub compare_one : Time → ℕ → ℤ → Tally → Option FingerprintPair → Exec World Tally
unfolding propose add_pair
compare_one now batch_id seq t none = pure t
compare_one now batch_id seq t (some pair) =
    (if is_match pair then pure tt else propose now batch_id seq) >>= λ _. pure (add_pair pair t)

-- The loop over the checkpoints.
unfoldable pub compare_loop : Time → ℕ → List Checkpoint → Tally → Exec World Tally
unfolding scanned_pair compare_one
compare_loop now batch_id [] t = pure t
compare_loop now batch_id (cp ∷ cps) t = elim (is_unreliable cp) [
  | true ↦ compare_loop now batch_id cps t
  | false ↦ scanned_pair batch_id cp >>= λ found.
      compare_one now batch_id cp.seq t found >>= λ next. compare_loop now batch_id cps next
]

-- From the end of the loop on.
unfoldable pub conclude : Time → ReplayBatch → Tally → Exec World CompareOutcome
conclude now b t =
    if t.scanned == 0
    then raise fingerprint_missing
    else lift (transition now b pending_loc) >>= λ moved.
        update_batch moved >>= λ _. pure (record { tally = t; batch = moved })

unfoldable pub compare : Bool → Time → ℕ → Exec World CompareOutcome
unfolding compare_loop conclude
compare stopped now batch_id =
    if stopped
    then raise cancelled
    else get_batch batch_id >>= λ b.
        if not (same_status b.status syncing)
        then raise invalid_state
        else list_checkpoints batch_id >>= λ cps.
            compare_loop now batch_id cps
              (record { scanned = 0; matched = 0; divergent = 0; pairs = [] })
            >>= conclude now b

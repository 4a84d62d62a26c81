-- ===== src/Service/Comparison/Candidates.antt =====
-- The outcome of a comparison and the candidate divergences that it leaves.
use mathlib.Core.Path.{subst}
use task274_replaydivergence.Prelude.{
  ◌≡◌, refl, ap, sym, inl, inr, All, ℕ, List, ◌++◌, false, ◌∷◌, ◌==◌, [], Bool-cases, arith, Option,
  some, ◌∙◌, if◌then◌else◌, none, All-map, ◌<◌, Bool, not,
}
use task274_replaydivergence.Store.World.Holds.{
  Holds, IsTableFact, >>=-Holds, statement-Holds, step-Holds, if-Holds, Holds-pre, pure-Holds,
  raise-Holds, lift-Holds, known-Holds, both-Holds, Holds-post,
}
use task274_replaydivergence.Service.Comparison.{
  Tally, propose, scanned_pair, add_pair, compare_loop, compare_one, CompareOutcome, conclude,
  compare,
}
use task274_replaydivergence.Store.World.Atomic.{tables}
use task274_replaydivergence.Store.World.{World, statement}
use task274_replaydivergence.Model.Divergence.{Divergence}
use task274_replaydivergence.Model.Status.{pending_loc, same_status, syncing}
use task274_replaydivergence.Model.Checkpoint.{
  FingerprintPair, Checkpoint, is_unreliable, is_match, StateFingerprint,
}
use task274_replaydivergence.Model.Batch.{Time, ReplayBatch, transition}
use task274_replaydivergence.Prelude.Order.{int_order}
use task274_replaydivergence.Model.Errors.{ok, fingerprint_missing, cancelled, invalid_state}
use task274_replaydivergence.Model.Exec.{pure, lift}
use task274_replaydivergence.Store.Rows.{update_batch, get_batch, list_checkpoints, find_batch}
use task274_replaydivergence.Model.Batch.Lifecycle.{transition-status}
use task274_replaydivergence.Service.Comparison.Proposals.{
  IsCounted, HasCandidate, IsProposed, propose-Holds, HasCandidate-snoc, propose-keeps,
}
use task274_replaydivergence.Service.Comparison.Compared.{
  compared_pairs, stored_checkpoints, judged, found_pair-seq, scanned_pair-Holds,
}
use mathlib.Core.List.{append-nil, append_assoc}
use task274_replaydivergence.Store.Rows.Written.{IsStoredAs, find_batch-id, update_batch-Holds}
use task274_replaydivergence.Store.World.Reading.{Still, then_finds, then_reads}
use task274_replaydivergence.Service.Comparison.Counted.{
  IsVerdict, IsCounted-add_pair, All-snoc, is_match-IsVerdict,
}

-- What the loop keeps true of its tally, of the fingerprints and of the batch.
record IsRunning (batch_id : ℕ) (fps : List StateFingerprint) (b : ReplayBatch) (t : Tally)
    (ds : List Divergence) (rows : List StateFingerprint) (bs : List ReplayBatch) : Type 0 where
  pub counted : IsCounted t
  pub verdicts : All IsVerdict t.pairs
  pub proposed :
      All (λ (p : FingerprintPair). p.matched ≡ false → HasCandidate batch_id p.seq ds) t.pairs
  pub same_rows : rows ≡ fps
  pub stored : find_batch batch_id bs ≡ ok b

module _ (now : Time) (batch_id : ℕ) (fps : List StateFingerprint) (b : ReplayBatch) where
  abbrev Runs : Tally → World → Type 0
  Runs t w = IsRunning batch_id fps b t w.divergences w.fingerprints w.batches

  Runs-IsTableFact : (t : Tally) → IsTableFact (Runs t)
  unfolding tables
  Runs-IsTableFact t v w same r =
      subst (λ (u : World). IsRunning batch_id fps b t u.divergences u.fingerprints u.batches)
        (sym same) r

  -- The pair is added, once the divergences have what it asks for.
  grown :
      (pair : FingerprintPair) (t : Tally) (w : World)
      → IsCounted t × All IsVerdict t.pairs
      → All
          (λ (p : FingerprintPair). p.matched ≡ false → HasCandidate batch_id p.seq w.divergences)
          t.pairs
      → (is_match pair ≡ false → HasCandidate batch_id pair.seq w.divergences)
      → (w.fingerprints ≡ fps) × (find_batch batch_id w.batches ≡ ok b)
      → Runs (add_pair pair t) w
  unfolding add_pair
  grown pair t w (counted, verdicts) proposed asked (same_rows, stored) = record {
    counted = IsCounted-add_pair pair t counted;
    verdicts = All-snoc _ t.pairs _ verdicts (is_match-IsVerdict pair);
    proposed = All-snoc _ t.pairs _ proposed asked;
    same_rows = same_rows;
    stored = stored;
  }

  -- The round for a pair, whatever its verdict.
  note_pair-Holds :
      (cp : Checkpoint) (pair : FingerprintPair) (t : Tally)
      → pair.seq ≡ cp.seq
      → Holds
          (Runs t)
          (if is_match pair then pure tt else propose now batch_id cp.seq)
          (λ _. Runs (add_pair pair t))
  note_pair-Holds cp pair t at_cp =
      if-Holds (is_match pair) _ _
        (λ same.
          Holds-pre _
            (λ w r.
              grown pair t w (r.counted, r.verdicts) r.proposed (λ no. absurd (cc (same, no)))
                (r.same_rows, r.stored))
            (pure-Holds (λ _. Runs (add_pair pair t)) tt))
        (λ differ. record {
          after = λ w a v r e.
              let F : List Divergence → Type 0 = λ ds.
                All (λ (p : FingerprintPair). p.matched ≡ false → HasCandidate batch_id p.seq ds)
                  t.pairs in
              let made =
                (propose-Holds F now batch_id cp.seq λ ds d h.
                    All-map _ _ t.pairs
                      (λ p have no. HasCandidate-snoc batch_id p.seq ds d (have no)) h).after
                  w a v r.proposed e in
              let kept =
                (propose-keeps (λ rows bs. (rows ≡ fps) × (find_batch batch_id bs ≡ ok b)) now
                    batch_id cp.seq).after
                  w a v (r.same_rows, r.stored) e in
              grown pair t v (r.counted, r.verdicts) made.0
                (λ _. subst (λ q. HasCandidate batch_id q v.divergences) (sym at_cp) made.1) kept;
        })

  compare_one-Holds :
      (cp : Checkpoint) (t : Tally) (found : Option FingerprintPair)
      → ((p : FingerprintPair) → found ≡ some p → p.seq ≡ cp.seq)
      → Holds
          (Runs t)
          (compare_one now batch_id cp.seq t found)
          (λ next w. Runs next w × (next.pairs ≡ t.pairs ++ judged found))
  unfolding compare_one add_pair judged
  compare_one-Holds cp t none at_cp =
      Holds-pre _ (λ w r. (r, sym (append-nil t.pairs)))
        (pure-Holds (λ next w. Runs next w × (next.pairs ≡ t.pairs ++ [])) t)
  compare_one-Holds cp t (some pair) at_cp =
      >>=-Holds _ _ (note_pair-Holds cp pair t (at_cp pair refl)) λ _.
        Holds-pre _ (λ w r. (r, refl))
          (pure-Holds (λ next w. Runs next w × (next.pairs ≡ t.pairs ++ judged (some pair)))
            (add_pair pair t))

  compare_loop-Holds :
      (cps : List Checkpoint) (t : Tally)
      → Holds
          (Runs t)
          (compare_loop now batch_id cps t)
          (λ last w. Runs last w × (last.pairs ≡ t.pairs ++ compared_pairs batch_id fps cps))
  unfolding compare_loop compared_pairs
  compare_loop-Holds [] t =
      Holds-pre _ (λ w r. (r, sym (append-nil t.pairs)))
        (pure-Holds (λ last w. Runs last w × (last.pairs ≡ t.pairs ++ [])) t)
  compare_loop-Holds (cp ∷ cps) t = elim (Bool-cases (is_unreliable cp)) [
    | inl skip ↦ rw (skip, compare_loop) (compare_loop-Holds cps t)
    | inr use_it ↦
        rw (use_it, compare_loop)
          (>>=-Holds (scanned_pair batch_id cp) _
            (scanned_pair-Holds (Runs t) batch_id fps cp (Runs-IsTableFact t) λ w r. r.same_rows)
            λ found. known-Holds λ is_found.
              >>=-Holds _ _
                (compare_one-Holds cp t found
                  λ p e. found_pair-seq batch_id fps cp p (sym is_found ∙ e))
                λ next. known-Holds λ added.
                  Holds-post _
                    (λ last w h. (
                      h.0,
                      h.1
                          ∙ ap (λ l. l ++ compared_pairs batch_id fps cps)
                              (added ∙ ap (λ f. t.pairs ++ judged f) is_found)
                          ∙ append_assoc t.pairs _ _,
                    ))
                    (compare_loop-Holds cps next))
  ]

  -- The UPDATE of the batch leaves the divergences.
  update_batch-keeps :
      (t : Tally) (moved : ReplayBatch)
      → Holds (IsProposed batch_id t) (update_batch moved) (λ _. IsProposed batch_id t)
  unfolding update_batch tables
  update_batch-keeps t moved =
      let P : World → Type 0 = IsProposed batch_id t in
      >>=-Holds statement _
        (statement-Holds P λ v w same h.
          subst
            (λ (u : World).
              All
                (λ (p : FingerprintPair).
                  p.matched ≡ false → HasCandidate batch_id p.seq u.divergences)
                t.pairs)
            (sym same) h)
        λ _. step-Holds P (λ _. P) _ _ λ w h. h

-- What a comparison returns, and what it leaves: its pairs are those of the first world.
pub record IsOutcome (batch_id : ℕ) (w : World) (out : CompareOutcome) (v : World) : Type 0 where
  pub pairs :
      out.tally.pairs ≡ compared_pairs batch_id w.fingerprints (stored_checkpoints batch_id w)
  pub verdicts : All IsVerdict out.tally.pairs
  pub counted : IsCounted out.tally
  pub some_pair : 0 < out.tally.scanned
  pub proposed : IsProposed batch_id out.tally v
  pub moved : out.batch.status ≡ pending_loc
  pub stored : IsStoredAs batch_id pending_loc v

module _ (now : Time) (batch_id : ℕ) (w : World) (b : ReplayBatch) (t : Tally) where
  conclude-Holds :
      t.pairs ≡ compared_pairs batch_id w.fingerprints (stored_checkpoints batch_id w)
      → Holds (Runs now batch_id w.fingerprints b t) (conclude now b t) (IsOutcome batch_id w)
  unfolding conclude
  conclude-Holds pairs =
      if-Holds (t.scanned == 0) _ _ (λ _. raise-Holds _ _ fingerprint_missing)
        λ some_pair.
          >>=-Holds
            {Q = λ moved u.
              Runs now batch_id w.fingerprints b t u
              × (moved.status ≡ pending_loc)
              × (moved.id ≡ b.id)}
            (lift (transition now b pending_loc)) _
            (lift-Holds _ _ (transition now b pending_loc) λ moved u e r.
              let done = transition-status now b moved pending_loc e in (r, done.0, done.1))
            λ moved. record {
              after = λ u out v (r, to, same_id) e.
                  let own = same_id ∙ find_batch-id batch_id u.batches b r.stored in
                  (>>=-Holds _ _
                      (both-Holds (update_batch-Holds batch_id b moved own)
                        (update_batch-keeps now batch_id w.fingerprints b t moved))
                      λ _.
                        Holds-pre _
                          (λ x h. record {
                            pairs = pairs;
                            verdicts = r.verdicts;
                            counted = r.counted;
                            some_pair = ground (arith, some_pair);
                            proposed = h.1;
                            moved = to;
                            stored = subst (λ st. IsStoredAs batch_id st x) to h.0;
                          })
                          (pure-Holds (IsOutcome batch_id w) _)).after
                    u out v (r.stored, r.proposed) e;
            }

-- If a comparison succeeds, its pairs are those of the trusted checkpoints of the batch, by seq,
-- for which the table of fingerprints has both sides, and there is at least one; a pair counts as
-- matched if its hashes are the same and not empty, and as divergent otherwise, and the counters are
-- the numbers of the pairs of each kind; for every pair that does not match, the batch has a
-- candidate divergence at its checkpoint; and the batch is returned and stored as "pending_loc".
pub compare-IsOutcome :
    (stopped : Bool) (now : Time) (batch_id : ℕ) (w v : World) (out : CompareOutcome)
    → compare stopped now batch_id w ≡ (ok out, v)
    → IsOutcome batch_id w out v
unfolding compare get_batch list_checkpoints stored_checkpoints tables
compare-IsOutcome stopped now batch_id w v out e =
    let start : Tally = record { scanned = 0; matched = 0; divergent = 0; pairs = [] } in
    let holds : Holds (Still w) (compare stopped now batch_id) (IsOutcome batch_id w) =
      if-Holds stopped _ _ (λ _. raise-Holds _ _ cancelled)
        λ _.
          then_finds w _ _ (λ u. refl)
            λ b found.
              if-Holds (not (same_status b.status syncing)) _ _ (λ _. raise-Holds _ _ invalid_state)
                λ _.
                  then_reads w _ _ (λ u. refl)
                    λ cps listed.
                      Holds-pre _
                        (λ u same. record {
                          counted = record { all = refl; matched = refl; divergent = refl };
                          verdicts = tt;
                          proposed = tt;
                          same_rows = ap (λ (x : World). x.fingerprints) same;
                          stored = ap (λ (x : World). find_batch batch_id x.batches) same ∙ found;
                        })
                        (>>=-Holds _ _ (compare_loop-Holds now batch_id w.fingerprints b cps start)
                          λ last. known-Holds λ pairs.
                            conclude-Holds now batch_id w b last
                              (pairs ∙ ap (compared_pairs batch_id w.fingerprints) listed)) in
    holds.after w out v refl e

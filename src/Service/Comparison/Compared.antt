-- ===== src/Service/Comparison/Compared.antt =====
-- The pairs that a comparison looks at, from the tables alone.
use task274_replaydivergence.Service.Comparison.{tolerate, scanned_pair, is_missing}
use task274_replaydivergence.Model.Errors.{Result, err, ok, database, ok-injective}
use task274_replaydivergence.Prelude.{
  ℕ, List, Option, ◌++◌, [], ◌≡◌, some, ◌∷◌, String, sym, none, if◌then◌else◌, keep, ap, ◌≢◌, ◌==◌,
  eq_of_some, Bool-cases, inl, inr, ◌∙◌,
}
use task274_replaydivergence.Model.Checkpoint.{
  is_match, FingerprintPair, StateFingerprint, Checkpoint, is_unreliable,
}
use task274_replaydivergence.Store.Fingerprints.{pair_of, get_pair, sides_of, at_point}
use task274_replaydivergence.Store.World.{World, statement}
use task274_replaydivergence.Prelude.Int.{ℤ}
use task274_replaydivergence.Model.Status.{FingerprintScope}
use task274_replaydivergence.Model.Checkpoint.{scope}
use task274_replaydivergence.Prelude.Sort.{sort_on}
use task274_replaydivergence.Store.World.Holds.{IsTableFact, Holds}
use task274_replaydivergence.Store.World.Atomic.{statement-cases}
use task274_replaydivergence.Prelude.Order.{int_order}
use task274_replaydivergence.Model.Exec.{>>=-of_ok, >>=-of_err}
use mathlib.Core.Path.{subst}

or_none : Result FingerprintPair → Option FingerprintPair
or_none (ok p) = some p
or_none (err e) = none

-- The fingerprints of the two sides for a checkpoint, where the table has both.
unfoldable pub found_pair : ℕ → List StateFingerprint → Checkpoint → Option FingerprintPair
unfolding or_none
found_pair batch_id fps cp = or_none (
    pair_of cp.seq (scope cp)
      (sides_of (none, none) (keep (at_point batch_id cp.seq (scope cp)) fps)))

-- The pair with its verdict.
unfoldable pub judged : Option FingerprintPair → List FingerprintPair
unfolding is_match
judged none = []
judged (some p) = record p { matched = is_match p } ∷ []

-- The pairs of the trusted checkpoints, in the order of the list.
unfoldable pub compared_pairs : ℕ → List StateFingerprint → List Checkpoint → List FingerprintPair
unfolding found_pair judged
compared_pairs batch_id fps [] = []
compared_pairs batch_id fps (cp ∷ cps) =
    (if is_unreliable cp then [] else judged (found_pair batch_id fps cp))
    ++ compared_pairs batch_id fps cps

-- The checkpoints of the batch, by seq.
unfoldable pub stored_checkpoints : ℕ → World → List Checkpoint
stored_checkpoints batch_id w =
    sort_on (λ (c : Checkpoint). c.seq)
      (keep (λ (c : Checkpoint). c.batch_id == batch_id) w.checkpoints)

pair_of-seq :
    (seq : ℤ) (sc : FingerprintScope) (found : Option String × Option String) (p : FingerprintPair)
    → or_none (pair_of seq sc found) ≡ some p
    → p.seq ≡ seq
unfolding pair_of or_none
pair_of-seq seq sc (some r, some t) p h = sym (ap (λ (x : FingerprintPair). x.seq) (eq_of_some h))
pair_of-seq seq sc (some r, none) p h = absurd (cc h)
pair_of-seq seq sc (none, t) p h = absurd (cc h)

pub found_pair-seq :
    (batch_id : ℕ) (fps : List StateFingerprint) (cp : Checkpoint) (p : FingerprintPair)
    → found_pair batch_id fps cp ≡ some p
    → p.seq ≡ cp.seq
unfolding found_pair
found_pair-seq batch_id fps cp p h = pair_of-seq cp.seq (scope cp) _ p h

-- A tolerated call returns the pair that the call returned, in the world that it left.
tolerate_lem :
    (r : Result FingerprintPair) (w v : World) (a : Option FingerprintPair)
    → tolerate (r, w) ≡ (ok a, v)
    → (v ≡ w) × (a ≡ or_none r)
unfolding tolerate or_none
tolerate_lem (ok q) w v a h = (sym (ap (λ x. x.1) h), sym (ok-injective (ap (λ x. x.0) h)))
tolerate_lem (err x) w v a h = elim (Bool-cases (is_missing x)) [
  | inl b ↦ (sym (ap (λ y. y.1) h), sym (ok-injective (ap (λ y. y.0) (rw b at h))))
  | inr b ↦ absurd (cc (ap (λ y. y.0) (rw b at h)))
]

-- A database that refuses the statement is not tolerated.
refused_lem : (w v : World) (a : Option FingerprintPair) → tolerate (err database, w) ≢ (ok a, v)
unfolding tolerate is_missing
refused_lem w v a h = cc (ap (λ y. y.0) h)

pub scanned_pair-Holds :
    (P : World → Type 0) (batch_id : ℕ) (fps : List StateFingerprint) (cp : Checkpoint)
    → IsTableFact P
    → ((w : World) → P w → w.fingerprints ≡ fps)
    → Holds P (scanned_pair batch_id cp) (λ found w. P w × (found ≡ found_pair batch_id fps cp))
unfolding scanned_pair get_pair found_pair
scanned_pair-Holds P batch_id fps cp fact rows = record {
  after = λ w a v p e. elim (statement-cases w) [
    | inl (u, run, same) ↦
        let asked = >>=-of_ok statement _ w u tt run in
        let (here, found) = tolerate_lem _ u v a (ap tolerate (sym asked) ∙ e) in
        let held = fact u w same p in
        (subst P (sym here) held, found ∙ ap (λ l. found_pair batch_id l cp) (rows u held))
    | inr (u, stop, same) ↦
        let asked = >>=-of_err statement _ w u database stop in
        absurd (refused_lem u v a (ap tolerate (sym asked) ∙ e))
  ];
}

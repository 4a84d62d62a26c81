-- ===== src/Service/Comparison/Proposals.antt =====
-- One proposal of a candidate.
use mathlib.Core.Path.{subst}
use task274_replaydivergence.Prelude.Rows.{Memᴰ-snoc}
use task274_replaydivergence.Prelude.{
  ◌≡◌, refl, ap, sym, inl, inr, All, ℕ, List, Memᴰ, length, ◌++◌, true, mem-keep, false, ◌∷◌, ◌==◌,
  [], Bool-cases, ◌&&◌, arith, keep, not,
}
use task274_replaydivergence.Store.World.Holds.{
  Holds, IsTableFact, >>=-Holds, statement-Holds, step-Holds, if-Holds, Holds-pre, pure-Holds,
  IsQuiet-Holds,
}
use task274_replaydivergence.Service.Comparison.{
  Tally, has_candidate, propose, is_candidate, new_candidate,
}
use task274_replaydivergence.Store.Divergences.{divergences_of, list_divergences, create_divergence}
use task274_replaydivergence.Store.World.Atomic.{tables}
use task274_replaydivergence.Prelude.Int.{ℤ, eqb_ℤ, pos, eq_of_parts}
use task274_replaydivergence.Store.World.{World, statement}
use task274_replaydivergence.Model.Divergence.{Divergence}
use task274_replaydivergence.Model.Status.{candidate}
use task274_replaydivergence.Model.Checkpoint.{FingerprintPair, StateFingerprint}
use task274_replaydivergence.Prelude.Sort.{mem-sort_on}
use task274_replaydivergence.Model.Batch.{Time, ReplayBatch}
use task274_replaydivergence.Prelude.Order.{int_order}
use task274_replaydivergence.Service.Snapshots.Lookups.{list_divergences-IsQuiet}

-- The batch has a candidate divergence at the checkpoint.
pub record HasCandidate (batch_id : ℕ) (seq : ℤ) (ds : List Divergence) : Type 0 where
  pub row : Divergence
  pub stored : Memᴰ row ds
  pub batch : row.batch_id ≡ batch_id
  pub checkpoint : row.checkpoint_seq ≡ seq
  pub open_one : row.status ≡ candidate

-- Every pair that does not match has its candidate.
abbrev pub IsProposed : ℕ → Tally → World → Type 0
IsProposed batch_id t w =
    All (λ (p : FingerprintPair). p.matched ≡ false → HasCandidate batch_id p.seq w.divergences)
      t.pairs

-- The counters count the pairs by their verdicts.
pub record IsCounted (t : Tally) : Type 0 where
  pub all : t.scanned ≡ length t.pairs
  pub matched : t.matched ≡ length (keep (λ (p : FingerprintPair). p.matched) t.pairs)
  pub divergent : t.divergent ≡ length (keep (λ (p : FingerprintPair). not p.matched) t.pairs)

pub HasCandidate-snoc :
    (batch_id : ℕ) (seq : ℤ) (ds : List Divergence) (d : Divergence)
    → HasCandidate batch_id seq ds
    → HasCandidate batch_id seq (ds ++ d ∷ [])
HasCandidate-snoc batch_id seq ds d h = record {
  row = h.row;
  stored = Memᴰ-snoc h.row d ds (inl h.stored);
  batch = h.batch;
  checkpoint = h.checkpoint;
  open_one = h.open_one;
}

-- A candidate that the loop over the batch's divergences finds.
has_candidate-HasCandidate :
    (batch_id : ℕ) (seq : ℤ) (ds all : List Divergence)
    → ((d : Divergence) → Memᴰ d ds → Memᴰ d all × (d.batch_id ≡ batch_id))
    → has_candidate seq ds ≡ true
    → HasCandidate batch_id seq all
unfolding has_candidate is_candidate
has_candidate-HasCandidate batch_id seq [] all own h = absurd (cc h)
has_candidate-HasCandidate batch_id seq (d ∷ ds) all own h =
    elim (Bool-cases (eqb_ℤ d.checkpoint_seq seq && is_candidate d)) [
      | inl b ↦ record {
        row = d;
        stored = (own d (Memᴰ.head refl)).0;
        batch = (own d (Memᴰ.head refl)).1;
        checkpoint = eq_of_parts d.checkpoint_seq seq (ground arith);
        open_one = ground arith;
      }
      | inr b ↦
          has_candidate-HasCandidate batch_id seq ds all (λ x m. own x (Memᴰ.tail m))
            (rw (b, has_candidate) at h)
    ]

mem-divergences_of :
    (batch_id : ℕ) (ds : List Divergence) (d : Divergence)
    → Memᴰ d (divergences_of batch_id ds)
    → Memᴰ d ds × (d.batch_id ≡ batch_id)
unfolding divergences_of
mem-divergences_of batch_id ds d m =
    let kept =
      (mem-keep d (λ (x : Divergence). x.batch_id == batch_id) ds).0
        ((mem-sort_on (λ (x : Divergence). pos x.id) d _).0 m) in
    let here = kept.1 in (kept.0, ground (arith, here))

-- A fact about the divergences alone.
divergences-IsTableFact : (F : List Divergence → Type 0) → IsTableFact (λ w. F w.divergences)
unfolding tables
divergences-IsTableFact F v w same h = subst F (sym (ap (λ (u : World). u.divergences) same)) h

pub propose-Holds :
    (F : List Divergence → Type 0) (now : Time) (batch_id : ℕ) (seq : ℤ)
    → ((ds : List Divergence) (d : Divergence) → F ds → F (ds ++ d ∷ []))
    → Holds
        (λ w. F w.divergences)
        (propose now batch_id seq)
        (λ _ w. F w.divergences × HasCandidate batch_id seq w.divergences)
unfolding propose list_divergences create_divergence new_candidate
propose-Holds F now batch_id seq grow =
    let P : World → Type 0 = λ w. F w.divergences in
    let listed : List Divergence → World → Type 0 =
      λ existing w. F w.divergences × (existing ≡ divergences_of batch_id w.divergences) in
    let done : Unit {0} → World → Type 0 =
      λ _ w. F w.divergences × HasCandidate batch_id seq w.divergences in
    >>=-Holds {Q = listed} (list_divergences batch_id) _
      (>>=-Holds statement _ (statement-Holds P (divergences-IsTableFact F)) λ _.
        step-Holds P listed (λ w. divergences_of batch_id w.divergences) (λ w. w) λ w h. (h, refl))
      λ existing.
        if-Holds (has_candidate seq existing) _ _
          (λ found.
            Holds-pre _
              (λ w p. (
                p.0,
                has_candidate-HasCandidate batch_id seq existing w.divergences
                    (λ d m.
                      mem-divergences_of batch_id w.divergences d (subst (λ l. Memᴰ d l) p.1 m))
                    found,
              ))
              (pure-Holds done tt))
          (λ fresh.
            Holds-pre _ (λ w p. p.0)
              (>>=-Holds {Q = λ _ w. done tt w} (create_divergence (new_candidate now batch_id seq))
                _
                (>>=-Holds statement _ (statement-Holds P (divergences-IsTableFact F)) λ _.
                  step-Holds P (λ _ w. done tt w) _ _
                    λ w h. (
                      grow w.divergences _ h,
                      record {
                        row = record (new_candidate now batch_id seq) { id = w.next_divergence };
                        stored = Memᴰ-snoc _ _ w.divergences (inr refl);
                        batch = refl;
                        checkpoint = refl;
                        open_one = refl;
                      },
                    ))
                λ _. pure-Holds done tt))

-- A proposal writes no other table.
pub propose-keeps :
    (G : List StateFingerprint → List ReplayBatch → Type 0) (now : Time) (batch_id : ℕ) (seq : ℤ)
    → Holds
        (λ w. G w.fingerprints w.batches)
        (propose now batch_id seq)
        (λ _ w. G w.fingerprints w.batches)
unfolding propose create_divergence tables
propose-keeps G now batch_id seq =
    let P : World → Type 0 = λ w. G w.fingerprints w.batches in
    let fact : IsTableFact P = λ v w same h. subst P (sym same) h in
    >>=-Holds {Q = λ _. P} _ _ (IsQuiet-Holds P _ fact (list_divergences-IsQuiet batch_id))
      λ existing.
        if-Holds (has_candidate seq existing) _ _ (λ _. pure-Holds (λ _. P) tt)
          λ _.
            >>=-Holds {Q = λ _. P} _ _
              (>>=-Holds {Q = λ _. P} _ _ (statement-Holds P fact)
                λ _. step-Holds P (λ _. P) _ _ λ w h. h)
              λ _. pure-Holds (λ _. P) tt

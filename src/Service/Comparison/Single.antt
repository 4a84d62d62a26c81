-- ===== src/Service/Comparison/Single.antt =====
-- A proposal leaves each checkpoint with at most one open candidate.
use task274_replaydivergence.Prelude.{
  ℕ, List, [], ◌∷◌, ◌≡◌, sym, refl, ap, true, Memᴰ, ◌∙◌, arith, mem-keep, inl, ◌==◌, inr, false,
  if◌then◌else◌, Bool-cases,
}
use task274_replaydivergence.Prelude.Rows.{IsAlone-snoc, IsNumbered-snoc}
use task274_replaydivergence.Store.Consistent.{IsSound, SameCandidate, IsSound-IsTableFact}
use task274_replaydivergence.Store.World.Keeps.{
  Keeps, >>=-Keeps_returned, written_keeps, IsQuiet-Keeps,
}
use task274_replaydivergence.Service.Comparison.{has_candidate, is_candidate, new_candidate}
use task274_replaydivergence.Store.Divergences.{divergences_of, list_divergences, create_divergence}
use task274_replaydivergence.Model.Divergence.{Divergence}
use task274_replaydivergence.Store.World.Holds.{Holds, >>=-Holds, any-Holds, step-Holds}
use task274_replaydivergence.Prelude.Int.{ℤ, pos}
use task274_replaydivergence.Model.Batch.{Time}
use task274_replaydivergence.Model.Status.{candidate}
use task274_replaydivergence.Prelude.Sort.{mem-sort_on}
use task274_replaydivergence.Store.World.{statement, World}
use task274_replaydivergence.Store.World.Atomic.{tables}
use task274_replaydivergence.Prelude.Order.{int_order}
use task274_replaydivergence.Service.Comparison.{propose}
use mathlib.Core.Path.{subst}
use task274_replaydivergence.Model.Exec.{pure, ◌>>=◌, >>=-cases}
use task274_replaydivergence.Service.Snapshots.Lookups.{list_divergences-IsQuiet}

-- A candidate of the checkpoint is found.
has_candidate-found :
    (seq : ℤ) (ds : List Divergence) (d : Divergence)
    → Memᴰ d ds
    → d.checkpoint_seq ≡ seq
    → d.status ≡ candidate
    → has_candidate seq ds ≡ true
unfolding has_candidate is_candidate
has_candidate-found seq [] d m at waits = absurd (elim m [ ])
has_candidate-found seq (c ∷ cs) d (Memᴰ.head e) at waits =
    let s = ap (λ (x : Divergence). x.checkpoint_seq) e in
    let t = ap (λ (x : Divergence). x.status) e in rw (sym s ∙ at, sym t ∙ waits) (ground arith)
has_candidate-found seq (c ∷ cs) d (Memᴰ.tail m) at waits =
    ground (arith, has_candidate-found seq cs d m at waits)

mem-divergences_of :
    (batch_id : ℕ) (ds : List Divergence) (d : Divergence)
    → Memᴰ d ds
    → d.batch_id ≡ batch_id
    → Memᴰ d (divergences_of batch_id ds)
unfolding divergences_of
mem-divergences_of batch_id ds d m own =
    (mem-sort_on (λ (x : Divergence). pos x.id) d _).1
      ((mem-keep d (λ (x : Divergence). x.batch_id == batch_id) ds).1 (m, ground (arith, own)))

list_divergences-Holds :
    (batch_id : ℕ)
    → Holds
        (λ _. Unit {0})
        (list_divergences batch_id)
        (λ existing w. existing ≡ divergences_of batch_id w.divergences)
unfolding list_divergences
list_divergences-Holds batch_id = >>=-Holds statement _ (any-Holds _ statement) λ _.
    step-Holds _ (λ existing w. existing ≡ divergences_of batch_id w.divergences) _ _ λ w h. refl

-- The checkpoint has no open candidate.
abbrev IsFree : ℕ → ℤ → List Divergence → Type 0
IsFree batch_id seq ds =
    (d : Divergence)
    → Memᴰ d ds
    → batch_id ≡ d.batch_id
    → seq ≡ d.checkpoint_seq
    → d.status ≡ candidate
    → ⊥

IsFree-of_unfound :
    (batch_id : ℕ) (seq : ℤ) (ds : List Divergence)
    → has_candidate seq (divergences_of batch_id ds) ≡ false
    → IsFree batch_id seq ds
IsFree-of_unfound batch_id seq ds none_found d m own at waits = absurd (
    cc (
      has_candidate-found seq (divergences_of batch_id ds) d
          (mem-divergences_of batch_id ds d m (sym own)) (sym at) waits,
      none_found,
    ))

-- The candidate is new to the checkpoint.
create_free :
    (now : Time) (batch_id : ℕ) (seq : ℤ) (w : World)
    → IsSound w × IsFree batch_id seq w.divergences
    → IsSound (create_divergence (new_candidate now batch_id seq) w).1
unfolding create_divergence new_candidate tables
create_free now batch_id seq =
    written_keeps {P = λ w. IsSound w × IsFree batch_id seq w.divergences} {Q = IsSound} _
      (λ v w same h.
        subst (λ (u : World). IsSound u × IsFree batch_id seq u.divergences) (sym same) h)
      (λ w h. h.0)
      λ w (h, free). (
        h.0,
        h.1,
        h.2,
        h.3,
        record {
          numbered =
              IsNumbered-snoc (λ (x : Divergence). x.id) w.next_divergence w.divergences _ refl
                h.4.numbered;
          open_ones =
              IsAlone-snoc SameCandidate w.divergences _
                (λ x m (own, at, waits, _). free x m (sym own) (sym at) waits)
                (λ x m (own, at, _, waits). free x m own at waits) h.4.open_ones;
        },
        h.5,
        h.6,
        h.7,
      )

pub propose-Keeps : (now : Time) (batch_id : ℕ) (seq : ℤ) → Keeps IsSound (propose now batch_id seq)
unfolding propose
propose-Keeps now batch_id seq =
    >>=-Keeps_returned (list_divergences batch_id) _
      (IsQuiet-Keeps _ IsSound-IsTableFact (list_divergences-IsQuiet batch_id))
      λ w existing h read.
        let listed = (list_divergences-Holds batch_id).after w existing _ tt read in
        proposed existing (list_divergences batch_id w).1 h listed
  where
    proposed :
        (existing : List Divergence) (v : World)
        → IsSound v
        → existing ≡ divergences_of batch_id v.divergences
        → IsSound
            ((if has_candidate seq existing
                then pure tt
                else (create_divergence (new_candidate now batch_id seq) >>= λ _. pure tt))
              v).1
    proposed existing v h listed = elim (Bool-cases (has_candidate seq existing)) [
      | inl found ↦ rw found h
      | inr unfound ↦
          let free =
            IsFree-of_unfound batch_id seq v.divergences
              (subst (λ l. has_candidate seq l ≡ false) listed unfound) in
          let made = create_free now batch_id seq v (h, free) in
          rw unfound
            (elim (>>=-cases (create_divergence (new_candidate now batch_id seq)) (λ _. pure tt)
              v) [
                | inl (_, e) ↦ subst (λ p. IsSound p.1) (sym e) made
                | inr (_, _, e) ↦ subst (λ p. IsSound p.1) (sym e) made
              ])
    ]

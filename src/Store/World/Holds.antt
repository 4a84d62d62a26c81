-- ===== src/Store/World/Holds.antt =====
-- What a call that succeeds makes of the world, by preconditions and postconditions.
use mathlib.Core.Path.{subst}
use task274_replaydivergence.Prelude.{
  ◌≡◌, refl, sym, ap, Bool, true, false, if◌then◌else◌, ◌∙◌, inl, inr, List,
}
use task274_replaydivergence.Store.World.{World, statement, with_tx, begin_tx, end_tx, commit}
use task274_replaydivergence.Store.World.Atomic.{
  SameTables, statement-SameTables, tables, statement-cases,
}
use task274_replaydivergence.Model.Exec.{Exec, pure, raise, ◌>>=◌, >>=-eq-ok, lift}
use task274_replaydivergence.Model.Errors.{Error, ok, Result, ok-injective, Result-cases}
use task274_replaydivergence.Store.World.Quiet.{IsQuiet}
use task274_replaydivergence.Model.Snapshot.{LocSnapshot}
use task274_replaydivergence.Model.Batch.{ReplayBatch}

-- If `m` returns a result from a world with `P`, then `Q` holds of the result and the world after.
pub record Holds {A : Type 0} (P : World → Type 0) (m : Exec World A) (Q : A → World → Type 0)
    : Type 0 where
  pub after : (w : World) (a : A) (v : World) → P w → m w ≡ (ok a, v) → Q a v

-- The fact is one on the tables alone.
abbrev pub IsTableFact : (World → Type 0) → Type 0
IsTableFact P = (v w : World) → SameTables v w → P w → P v

returned :
    {A : Type 0} (Q : A → World → Type 0) (a b : A) (w v : World)
    → ◌≡◌ {A = Result A × World} (ok a, w) (ok b, v)
    → Q a w
    → Q b v
returned Q a b w v e q =
    subst (λ x. Q x v) (ok-injective (ap (λ p. p.0) e)) (subst (λ u. Q a u) (ap (λ p. p.1) e) q)

pub pure-Holds : {A : Type 0} (Q : A → World → Type 0) (a : A) → Holds (Q a) (pure a) Q
pure-Holds Q a = record { after = λ w b v h e. returned Q a b w v e h }

pub raise-Holds :
    {A : Type 0} (P : World → Type 0) (Q : A → World → Type 0) (x : Error) → Holds P (raise x) Q
raise-Holds P Q x = record { after = λ w a v h e. absurd (cc (ap (λ p. p.0) e)) }

pub >>=-Holds :
    {A B : Type 0} {P : World → Type 0} {Q : A → World → Type 0} {R : B → World → Type 0}
    (m : Exec World A) (f : A → Exec World B)
    → Holds P m Q
    → ((a : A) → Holds (Q a) (f a) R)
    → Holds P (m >>= f) R
>>=-Holds m f first next = record {
  after = λ w b v p e.
      let (a, u, h, k) = >>=-eq-ok m f w v b e in (next a).after u b v (first.after w a u p h) k;
}

pub lift-Holds :
    {A : Type 0} (P : World → Type 0) (Q : A → World → Type 0) (r : Result A)
    → ((a : A) (w : World) → r ≡ ok a → P w → Q a w)
    → Holds P (lift r) Q
lift-Holds P Q r h = record {
  after = λ w a v p e. subst (λ u. Q a u) (ap (λ x. x.1) e) (h a w (ap (λ x. x.0) e) p);
}

-- Nothing is claimed of what the call leaves.
pub any-Holds : {A : Type 0} (P : World → Type 0) (m : Exec World A) → Holds P m (λ _ _. Unit {0})
any-Holds P m = record { after = λ w a v p e. tt }

pub Holds-pre :
    {A : Type 0} {P P' : World → Type 0} {Q : A → World → Type 0} (m : Exec World A)
    → ((w : World) → P' w → P w)
    → Holds P m Q
    → Holds P' m Q
Holds-pre m weaker h = record { after = λ w a v p e. h.after w a v (weaker w p) e }

pub Holds-post :
    {A : Type 0} {P : World → Type 0} {Q Q' : A → World → Type 0} (m : Exec World A)
    → ((a : A) (w : World) → Q a w → Q' a w)
    → Holds P m Q
    → Holds P m Q'
Holds-post m weaker h = record { after = λ w a v p e. weaker a v (h.after w a v p e) }

pub both-Holds :
    {A : Type 0} {P P' : World → Type 0} {Q Q' : A → World → Type 0} {m : Exec World A}
    → Holds P m Q
    → Holds P' m Q'
    → Holds (λ w. P w × P' w) m (λ a w. Q a w × Q' a w)
both-Holds h k = record { after = λ w a v p e. (h.after w a v p.0 e, k.after w a v p.1 e) }

pub if-Holds :
    {A : Type 0} {P : World → Type 0} {Q : A → World → Type 0} (b : Bool) (m n : Exec World A)
    → (b ≡ true → Holds P m Q)
    → (b ≡ false → Holds P n Q)
    → Holds P (if b then m else n) Q
if-Holds true m n hm hn = hm refl
if-Holds false m n hm hn = hn refl

-- A call that computes its result and the world after from the world before.
pub step-Holds :
    {A : Type 0} (P : World → Type 0) (Q : A → World → Type 0) (r : World → A) (f : World → World)
    → ((w : World) → P w → Q (r w) (f w))
    → Holds P (λ (w : World). (ok (r w), f w)) Q
step-Holds P Q r f h = record { after = λ w a v p e. returned Q (r w) a (f w) v e (h w p) }

pub statement-Holds : (P : World → Type 0) → IsTableFact P → Holds P statement (λ _. P)
statement-Holds P fact = record {
  after = λ w a v p e. fact v w (sym (ap (λ r. tables r.1) e) ∙ statement-SameTables w) p;
}

-- A fact that is settled before the call.
pub known-Holds :
    {A F : Type 0} {P : World → Type 0} {Q : A → World → Type 0} {m : Exec World A}
    → (F → Holds P m Q)
    → Holds (λ w. P w × F) m Q
known-Holds h = record { after = λ w a v p e. (h p.1).after w a v p.0 e }

-- A call that reads a result that may be an error.
pub read-Holds :
    {A : Type 0} {P : World → Type 0} (Q : A → World → Type 0) (r : World → Result A)
    → ((a : A) (w : World) → P w → r w ≡ ok a → Q a w)
    → Holds P (λ (w : World). (r w, w)) Q
read-Holds Q r h = record {
  after = λ w a v p e. subst (λ u. Q a u) (ap (λ x. x.1) e) (h a w p (ap (λ x. x.0) e));
}

-- A fact about the snapshots and the batches.
pub rows-IsTableFact :
    (F : List LocSnapshot → List ReplayBatch → Type 0) → IsTableFact (λ w. F w.snapshots w.batches)
unfolding tables
rows-IsTableFact F v w same h = subst (λ (u : World). F u.snapshots u.batches) (sym same) h

pub IsQuiet-Holds :
    {A : Type 0} (P : World → Type 0) (m : Exec World A)
    → IsTableFact P
    → IsQuiet m
    → Holds P m (λ _. P)
IsQuiet-Holds P m fact quiet = record {
  after = λ w a v p e. fact v w (sym (ap (λ r. tables r.1) e) ∙ quiet.same w) p;
}

module _ {A : Type 0} (P : World → Type 0) (Q : A → World → Type 0)
    (fact : (a : A) → IsTableFact (Q a)) where
  committed :
      (before u v : World) (b a : A) → commit before b (statement u) ≡ (ok a, v) → Q b u → Q a v
  unfolding commit
  committed before u v b a h q = elim (statement-cases u) [
    | inl (x, run, same) ↦
        returned Q b a x v (sym (ap (commit before b) run) ∙ h) (fact b x u same q)
    | inr (x, stop, same) ↦ absurd (cc (ap (λ r. r.0) (sym (ap (commit before b) stop) ∙ h)))
  ]

  ended :
      (before w v : World) (fn : Exec World A) (a : A)
      → Holds P fn Q
      → P w
      → end_tx before (fn w) ≡ (ok a, v)
      → Q a v
  unfolding end_tx
  ended before w v fn a h p e = elim (Result-cases (fn w).0) [
    | inl (x, bad) ↦
        absurd (cc (ap (λ r. r.0) (sym (ap (λ r. end_tx before (r, (fn w).1)) bad) ∙ e)))
    | inr (b, good) ↦
        committed before (fn w).1 v b a (sym (ap (λ r. end_tx before (r, (fn w).1)) good) ∙ e)
          (h.after w b (fn w).1 p (ap (λ r. (r, (fn w).1)) good))
  ]

  -- What the body of a transaction leaves is what the transaction leaves once it is committed.
  pub with_tx-Holds : (fn : Exec World A) → IsTableFact P → Holds P fn Q → Holds P (with_tx fn) Q
  unfolding with_tx begin_tx
  with_tx-Holds fn before h = record {
    after = λ w a v p e. elim (statement-cases w) [
      | inl (u, run, same) ↦ ended u u v fn a h (before u w same p) (sym (ap (begin_tx fn) run) ∙ e)
      | inr (u, stop, same) ↦ absurd (cc (ap (λ r. r.0) (sym (ap (begin_tx fn) stop) ∙ e)))
    ];
  }

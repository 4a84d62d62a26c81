-- ===== src/Store/World/Keeps.antt =====
-- Calls that keep a fact about the tables, however they end.
use mathlib.Core.Path.{subst}
use task274_replaydivergence.Prelude.{
  refl, sym, Bool, if◌then◌else◌, true, false, inl, inr, ◌≡◌, ap,
}
use task274_replaydivergence.Store.World.{
  World, statement, roll_back, commit, end_tx, begin_tx, with_tx,
}
use task274_replaydivergence.Model.Exec.{Exec, pure, raise, ◌>>=◌, >>=-cases, >>=-of_err, >>=-of_ok}
use task274_replaydivergence.Model.Errors.{Error, Result, ok, err, Result-cases}
use task274_replaydivergence.Store.World.Holds.{IsTableFact, Holds}
use task274_replaydivergence.Store.World.Quiet.{IsQuiet, statement-IsQuiet}
use task274_replaydivergence.Store.World.Atomic.{tables}

-- A world with `P` is left with `P`, also by a call that stops at an error.
pub record Keeps {A : Type 0} (P : World → Type 0) (m : Exec World A) : Type 0 where
  pub kept : (w : World) → P w → P (m w).1

pub pure-Keeps : {A : Type 0} (P : World → Type 0) (a : A) → Keeps P (pure a)
pure-Keeps P a = record { kept = λ w h. h }

pub raise-Keeps : {A : Type 0} (P : World → Type 0) (x : Error) → Keeps {A = A} P (raise x)
raise-Keeps P x = record { kept = λ w h. h }

-- A call that reads, or that has its result already.
pub read-Keeps :
    {A : Type 0} (P : World → Type 0) (f : World → Result A) → Keeps P (λ (w : World). (f w, w))
read-Keeps P f = record { kept = λ w h. h }

pub >>=-Keeps :
    {A B : Type 0} {P : World → Type 0} (m : Exec World A) (f : A → Exec World B)
    → Keeps P m
    → ((a : A) → Keeps P (f a))
    → Keeps P (m >>= f)
>>=-Keeps {P = P} m f first next = record {
  kept = λ w h. elim (>>=-cases m f w) [
    | inl (a, e) ↦ subst (λ p. P p.1) (sym e) ((next a).kept (m w).1 (first.kept w h))
    | inr (x, _, e) ↦ subst (λ p. P p.1) (sym e) (first.kept w h)
  ];
}

-- What comes after a call that succeeded may use what that call returned.
pub >>=-Keeps_returned :
    {A B : Type 0} {P : World → Type 0} (m : Exec World A) (f : A → Exec World B)
    → Keeps P m
    → ((w : World) (a : A) → P (m w).1 → m w ≡ (ok a, (m w).1) → P (f a (m w).1).1)
    → Keeps P (m >>= f)
>>=-Keeps_returned {P = P} m f first next = record {
  kept = λ w h. elim (Result-cases (m w).0) [
    | inl (x, bad) ↦
        subst (λ p. P p.1) (sym (>>=-of_err m f w (m w).1 x (ap (λ r. (r, (m w).1)) bad)))
          (first.kept w h)
    | inr (a, good) ↦
        let e = ap (λ r. (r, (m w).1)) good in
        subst (λ p. P p.1) (sym (>>=-of_ok m f w (m w).1 a e)) (next w a (first.kept w h) e)
  ];
}

pub ×-Keeps :
    {A : Type 0} {P Q : World → Type 0} (m : Exec World A)
    → Keeps P m
    → Keeps Q m
    → Keeps (λ w. P w × Q w) m
×-Keeps m hp hq = record { kept = λ w h. (hp.kept w h.0, hq.kept w h.1) }

pub if-Keeps :
    {A : Type 0} {P : World → Type 0} (b : Bool) (m n : Exec World A)
    → Keeps P m
    → Keeps P n
    → Keeps P (if b then m else n)
if-Keeps true m n hm hn = hm
if-Keeps false m n hm hn = hn

pub IsQuiet-Keeps :
    {A : Type 0} {P : World → Type 0} (m : Exec World A) → IsTableFact P → IsQuiet m → Keeps P m
IsQuiet-Keeps m fact quiet = record { kept = λ w h. fact (m w).1 w (quiet.same w) h }

-- A statement that the database refuses, or that has an effect.
pub written_keeps :
    {A : Type 0} {P Q : World → Type 0} (k : Exec World A)
    → IsTableFact P
    → ((w : World) → P w → Q w)
    → ((w : World) → P w → Q (k w).1)
    → (w : World) → P w
    → Q ((statement >>= λ _. k) w).1
written_keeps {P = P} {Q = Q} k fact weaker effect w h =
    let asked = fact (statement w).1 w (statement-IsQuiet.same w) h in
    elim (>>=-cases statement (λ _. k) w) [
      | inl (a, e) ↦ subst (λ p. Q p.1) (sym e) (effect (statement w).1 asked)
      | inr (x, _, e) ↦ subst (λ p. Q p.1) (sym e) (weaker (statement w).1 asked)
    ]

pub write-Keeps :
    {A : Type 0} {P : World → Type 0} (k : Exec World A)
    → IsTableFact P
    → ((w : World) → P w → P (k w).1)
    → Keeps P (statement >>= λ _. k)
write-Keeps k fact effect = record { kept = written_keeps k fact (λ w h. h) effect }

rolled_back :
    (P : World → Type 0)
    → IsTableFact P
    → (before after : World) → P before
    → P (roll_back before after)
unfolding roll_back tables
rolled_back P fact before after h = fact (roll_back before after) before refl h

module _ {A : Type 0} (P : World → Type 0) (fact : IsTableFact P) where
  committed_keeps :
      (before : World) (a : A) (p : Result (Unit {0}) × World)
      → P before
      → P p.1
      → P (commit before a p).1
  unfolding commit
  committed_keeps before a (ok _, after) h k = k
  committed_keeps before a (err e, after) h k = rolled_back P fact before after h

  ended_keeps :
      (before : World) (p : Result A × World)
      → P before
      → ((a : A) → p.0 ≡ ok a → P p.1)
      → P (end_tx before p).1
  unfolding end_tx
  ended_keeps before (ok a, after) h k =
      committed_keeps before a (statement after) h
        (fact (statement after).1 after (statement-IsQuiet.same after) (k a refl))
  ended_keeps before (err e, after) h k = rolled_back P fact before after h

  begun_keeps :
      (fn : Exec World A) (p : Result (Unit {0}) × World)
      → Holds P fn (λ _. P)
      → P p.1
      → P (begin_tx fn p).1
  unfolding begin_tx
  begun_keeps fn (ok _, w) holds h =
      ended_keeps w (fn w) h λ a e. holds.after w a (fn w).1 h (ap (λ r. (r, (fn w).1)) e)
  begun_keeps fn (err e, w) holds h = h

  -- A transaction keeps the fact if its body, where it succeeds, has it again at its end.
  pub with_tx-Keeps : (fn : Exec World A) → Holds P fn (λ _. P) → Keeps P (with_tx fn)
  unfolding with_tx
  with_tx-Keeps fn holds = record {
    kept = λ w h.
        begun_keeps fn (statement w) holds (fact (statement w).1 w (statement-IsQuiet.same w) h);
  }

pub Holds-of_Keeps :
    {A : Type 0} {P : World → Type 0} (m : Exec World A) → Keeps P m → Holds P m (λ _. P)
Holds-of_Keeps {P = P} m keeps = record {
  after = λ w a v h e. subst P (ap (λ r. r.1) e) (keeps.kept w h);
}

-- ===== src/Store/World/Atomic.antt =====
-- What a failed transaction leaves behind.
use task274_replaydivergence.Prelude.{
  List, Bool, true, false, [], ◌∷◌, ◌≡◌, refl, ◌∙◌, ◌⊎◌, inl, inr,
}
use task274_replaydivergence.Model.Errors.{Error, Result, ok, err, database}
use task274_replaydivergence.Model.Exec.{Exec}
use task274_replaydivergence.Store.World.{
  World, statement, answer, with_tx, begin_tx, end_tx, commit, roll_back,
}

-- All tables with their next ids.
unfoldable pub tables : World → World
tables w = record w { faults = [] }

-- The worlds hold the same rows and the same next ids.
abbrev pub SameTables : World → World → Type 0
SameTables v w = tables v ≡ tables w

pub statement-SameTables : (w : World) → SameTables (statement w).1 w
unfolding statement answer tables
statement-SameTables w = by_faults w.faults
  where
    by_faults : (faults : List Bool) → SameTables (answer faults w).1 w
    by_faults [] = refl
    by_faults (true ∷ rest) = refl
    by_faults (false ∷ rest) = refl

-- The database runs a statement or refuses it; either way no table changes yet.
pub statement-cases :
    (w : World)
    → ((v : World) × (statement w ≡ (ok tt, v)) × SameTables v w)
      ⊎ ((v : World) × (statement w ≡ (err database, v)) × SameTables v w)
unfolding statement answer tables
statement-cases w = by_faults w.faults
  where
    by_faults :
        (faults : List Bool)
        → ((v : World) × (answer faults w ≡ (ok tt, v)) × SameTables v w)
          ⊎ ((v : World) × (answer faults w ≡ (err database, v)) × SameTables v w)
    by_faults [] = inl (w, refl, refl)
    by_faults (true ∷ rest) = inr (record w { faults = rest }, refl, refl)
    by_faults (false ∷ rest) = inl (record w { faults = rest }, refl, refl)

module _ {A : Type 0} where
  commit-SameTables :
      (before : World) (a : A) (p : Result (Unit {0}) × World) (e : Error)
      → (commit before a p).0 ≡ err e
      → SameTables (commit before a p).1 before
  unfolding commit roll_back tables
  commit-SameTables before a (ok _, after) e h = absurd (cc h)
  commit-SameTables before a (err x, after) e h = refl

  end_tx-SameTables :
      (before : World) (p : Result A × World) (e : Error)
      → (end_tx before p).0 ≡ err e
      → SameTables (end_tx before p).1 before
  unfolding end_tx roll_back tables
  end_tx-SameTables before (ok a, after) e h = commit-SameTables before a (statement after) e h
  end_tx-SameTables before (err x, after) e h = refl

  begin_tx-SameTables :
      (fn : Exec World A) (p : Result (Unit {0}) × World) (e : Error)
      → (begin_tx fn p).0 ≡ err e
      → SameTables (begin_tx fn p).1 p.1
  unfolding begin_tx
  begin_tx-SameTables fn (ok _, w) e h = end_tx-SameTables w (fn w) e h
  begin_tx-SameTables fn (err x, w) e h = refl

  -- Whatever runs inside the transaction, and whether its start, one of its statements or its
  -- commit is refused: if the transaction returns an error, no table has changed.
  pub with_tx-SameTables :
      (fn : Exec World A) (w : World) (e : Error)
      → (with_tx fn w).0 ≡ err e
      → SameTables (with_tx fn w).1 w
  unfolding with_tx
  with_tx-SameTables fn w e h = begin_tx-SameTables fn (statement w) e h ∙ statement-SameTables w

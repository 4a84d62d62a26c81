-- ===== src/Store/World/Reading.antt =====
-- Calls that read one world's tables, whatever statements the database refuses.
use task274_replaydivergence.Prelude.{◌≡◌, sym, ap, ◌∙◌}
use task274_replaydivergence.Store.World.{World, statement}
use task274_replaydivergence.Store.World.Atomic.{SameTables, tables}
use task274_replaydivergence.Model.Exec.{Exec, ◌>>=◌}
use task274_replaydivergence.Store.World.Holds.{
  Holds, >>=-Holds, statement-Holds, step-Holds, read-Holds,
}
use task274_replaydivergence.Model.Errors.{ok, Result}

module _ (start : World) where
  -- The tables are those of the start.
  abbrev pub Still : World → Type 0
  Still w = SameTables w start

  -- A reading from the tables of the start, and what follows it.
  pub then_reads :
      {A B : Type 0} {R : B → World → Type 0} (f : World → A) (k : A → Exec World B)
      → ((w : World) → f (tables w) ≡ f w)
      → ((a : A) → a ≡ f start → Holds Still (k a) R)
      → Holds Still ((statement >>= λ _. λ (w : World). (ok (f w), w)) >>= k) R
  then_reads f k by_tables next =
      >>=-Holds {Q = λ a w. Still w × (a ≡ f start)} _ k
        (>>=-Holds statement _ (statement-Holds Still λ v w same h. same ∙ h) λ _.
          step-Holds Still (λ a w. Still w × (a ≡ f start)) f (λ w. w)
            λ w h. (h, sym (by_tables w) ∙ ap f h ∙ by_tables start))
        λ a. record { after = λ w b v p e. (next a p.1).after w b v p.0 e }

  -- The same for a reading that may find nothing.
  pub then_finds :
      {A B : Type 0} {R : B → World → Type 0} (f : World → Result A) (k : A → Exec World B)
      → ((w : World) → f (tables w) ≡ f w)
      → ((a : A) → f start ≡ ok a → Holds Still (k a) R)
      → Holds Still ((statement >>= λ _. λ (w : World). (f w, w)) >>= k) R
  then_finds f k by_tables next =
      >>=-Holds {Q = λ a w. Still w × (f start ≡ ok a)} _ k
        (>>=-Holds statement _ (statement-Holds Still λ v w same h. same ∙ h) λ _.
          read-Holds (λ a w. Still w × (f start ≡ ok a)) f
            λ a w h e. (h, sym (by_tables start) ∙ sym (ap f h) ∙ by_tables w ∙ e))
        λ a. record { after = λ w b v p e. (next a p.1).after w b v p.0 e }

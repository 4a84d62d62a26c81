-- ===== src/Httpapi/Answers.antt =====
-- The answers: their status codes and what an error answer leaves.
pub mod Errors
pub mod Sealed
use task274_replaydivergence.Model.Errors.{
  not_found, conflict, invalid_state, sealed_batch, fingerprint_missing, dependency_cycle,
  range_locked, missing_opcode, bad_read, bad_write, negative_seq, out_of_order, missing_value,
  fingerprint_mismatch, empty_trails, invalid_side, names_required, bad_checkpoint, database,
  cancelled,
}
use task274_replaydivergence.Prelude.{
  ℕ, List, [], ◌∷◌, ◌≡◌, sym, refl, ap, inl, inr, Memᴰ, Option, some, none, ◌<◌, arith, ◌≤◌,
  eq_of_some,
}
use task274_replaydivergence.Store.World.{World}
use task274_replaydivergence.Httpapi.Router.{
  post_batches, get_batches, get_health, get_self_check, get_one_batch, post_sync, post_confirm,
  post_seal, get_stats, post_events, get_events, patch_exclude, post_checkpoints,
  post_mark_unreliable, get_checkpoints, post_scan, get_fingerprints, post_compare, get_divergences,
  post_trace, get_chain, post_publish, post_snapshots, get_snapshots, get_one_snapshot, Answer,
  status_of, Body, written, respond, write_json, write_err, error_of, parsed, write_malformed,
  Handler,
}
use task274_replaydivergence.Model.Errors.{Error, not_found, Result, ok, err}
use task274_replaydivergence.Model.Exec.{Exec}
use task274_replaydivergence.Store.World.Quiet.{IsAtomic}
use task274_replaydivergence.Store.World.Atomic.{SameTables}
use mathlib.Core.Path.{subst}

-- The codes of the answers.
abbrev pub answer_codes : List ℕ
answer_codes = 200 ∷ 201 ∷ 400 ∷ 404 ∷ 409 ∷ 422 ∷ 500 ∷ []

-- The codes of the answers that carry a result.
abbrev pub IsSuccess : ℕ → Type 0
IsSuccess status = Memᴰ status answer_codes × (status < 400)

pub created : IsSuccess 201
created = (Memᴰ.tail (Memᴰ.head refl), omega arith)

pub done : IsSuccess 200
done = (Memᴰ.head refl, omega arith)

abbrev pub IsFailure : ℕ → Type 0
IsFailure status = Memᴰ status answer_codes × (400 ≤ status)

unknown : IsFailure 404
unknown = (Memᴰ.tail (Memᴰ.tail (Memᴰ.tail (Memᴰ.head refl))), omega arith)

conflicting : IsFailure 409
conflicting = (Memᴰ.tail (Memᴰ.tail (Memᴰ.tail (Memᴰ.tail (Memᴰ.head refl)))), omega arith)

refused : IsFailure 422
refused = (Memᴰ.tail (Memᴰ.tail (Memᴰ.tail (Memᴰ.tail (Memᴰ.tail (Memᴰ.head refl))))), omega arith)

pub failed : IsFailure 500
failed = (
  Memᴰ.tail (Memᴰ.tail (Memᴰ.tail (Memᴰ.tail (Memᴰ.tail (Memᴰ.tail (Memᴰ.head refl)))))),
  omega arith,
)

pub status_of-IsFailure : (e : Error) → IsFailure (status_of e)
unfolding status_of
status_of-IsFailure not_found = unknown
status_of-IsFailure conflict = conflicting
status_of-IsFailure invalid_state = refused
status_of-IsFailure sealed_batch = refused
status_of-IsFailure fingerprint_missing = conflicting
status_of-IsFailure dependency_cycle = refused
status_of-IsFailure range_locked = refused
status_of-IsFailure (missing_opcode _) = failed
status_of-IsFailure (bad_read _ _ _) = failed
status_of-IsFailure (bad_write _ _ _) = failed
status_of-IsFailure (negative_seq _) = failed
status_of-IsFailure (out_of_order _ _) = failed
status_of-IsFailure (missing_value _ _) = failed
status_of-IsFailure (fingerprint_mismatch _) = failed
status_of-IsFailure empty_trails = failed
status_of-IsFailure invalid_side = failed
status_of-IsFailure names_required = failed
status_of-IsFailure bad_checkpoint = failed
status_of-IsFailure database = failed
status_of-IsFailure cancelled = failed

module _ {A : Type 0} (status : ℕ) (encode : A → Body) where
  -- An answer that a call ended by an error is written for.
  written-IsAtomic :
      (m : Exec World A) (w : World) (a : Answer) (r : Result A × World)
      → m w ≡ r
      → IsSuccess status
      → IsAtomic m
      → (written status encode r).0 ≡ some a
      → 400 ≤ a.status
      → SameTables (written status encode r).1 w
  unfolding written write_json write_err
  written-IsAtomic m w a (ok x, v) run s atomic given bad =
      absurd (omega (arith, s.1, bad, ap (λ (b : Answer). b.status) (eq_of_some given)))
  written-IsAtomic m w a (err e, v) run s atomic given bad =
      subst (λ p. SameTables p.1 w) run (atomic.same w e (ap (λ p. p.0) run))

  pub respond-IsAtomic :
      (m : Exec World A) (w : World) (a : Answer)
      → IsSuccess status
      → IsAtomic m
      → (respond status encode m w).0 ≡ some a
      → 400 ≤ a.status
      → SameTables (respond status encode m w).1 w
  unfolding respond
  respond-IsAtomic m w a s atomic given bad = written-IsAtomic m w a (m w) refl s atomic given bad

module _ {A : Type 0} where
  -- An id or a body that is missing is refused before any call.
  pub parsed_same :
      (x : Option A) (k : A → Handler) (w : World) (a : Answer)
      → ((b : A) → (k b w).0 ≡ some a → SameTables (k b w).1 w)
      → (parsed x k w).0 ≡ some a
      → SameTables (parsed x k w).1 w
  unfolding parsed write_malformed write_json
  parsed_same none k w a same given = refl
  parsed_same (some b) k w a same given = same b given

-- ===== src/Trace/Validator.antt =====
-- internal/trace/validator.go: which inputs of a fragment become events.
pub mod Judged
pub mod Accepted
use task274_replaydivergence.Prelude.{ℕ, String, Bool, List, [], ◌∷◌, ◌++◌, length, if◌then◌else◌}
use task274_replaydivergence.Prelude.Int.{ℤ, negsuc, leb_ℤ}
use task274_replaydivergence.Model.Errors.{Error, Result, ok, err}
use task274_replaydivergence.Model.Exec.{Exec, pure, ◌>>=◌}
use task274_replaydivergence.Model.Status.{TrailSide, EventStatus}
use task274_replaydivergence.Model.Event.{ExecEvent}
use task274_replaydivergence.Trace.Importer.{EventInput, to_model, dedupe_inputs}

pub data Reason : Type 0 where
  out_of_order duplicate : Reason
  refused : Error → Reason

pub record SkippedEvent : Type 0 where
  pub seq : ℤ
  pub opcode : String
  pub reason : Reason

-- "seq %d out of order", or the text of an error
pub data Warning : Type 0 where
  seq_out_of_order : ℤ → Warning
  conversion : Error → Warning

pub record ValidationResult : Type 0 where
  pub accepted : ℕ
  pub skipped : List SkippedEvent
  pub warnings : List Warning

-- What one round of the loop does with its input.
pub data Verdict : Type 0 where
  accept : ExecEvent → Verdict
  skip : SkippedEvent → List Warning → Verdict

pub verdict_of_model : EventInput → Result ExecEvent → Verdict
verdict_of_model input (ok e) = accept e
verdict_of_model input (err x) =
    skip (record { seq = input.seq; opcode = input.opcode; reason = refused x }) (conversion x ∷ [])

-- `append` to the result or to the events.
unfoldable pub add_verdict :
    Verdict → ValidationResult × List ExecEvent → ValidationResult × List ExecEvent
add_verdict (accept e) (res, events) = (res, e ∷ events)
add_verdict (skip s ws) (res, events) =
    (record res { skipped = s ∷ res.skipped; warnings = ws ++ res.warnings }, events)

-- `exists` is the validator's field: it asks the store, whose state is `S`.
module _ {S : Type 0} (exists : ℕ → TrailSide → ℤ → Exec S Bool) (batch_id : ℕ) (side : TrailSide)
    (status : EventStatus) where
  -- The round past the test for order.
  unfoldable pub examine : EventInput → Exec S Verdict
  unfolding verdict_of_model
  examine input = do
    found ← exists batch_id side input.seq
    pure (
        if found
        then skip (record { seq = input.seq; opcode = input.opcode; reason = duplicate }) []
        else verdict_of_model input (to_model input batch_id side status))

  -- The loop; what a round appends comes before what the later rounds append.
  unfoldable pub validate_loop : ℤ → List EventInput → Exec S (ValidationResult × List ExecEvent)
  unfolding examine add_verdict
  validate_loop last [] = pure (record { accepted = 0; skipped = []; warnings = [] }, [])
  validate_loop last (input ∷ rest) =
      let late = leb_ℤ input.seq last in
      do
        v ←
            (if late
              then pure (
                  skip (record { seq = input.seq; opcode = input.opcode; reason = out_of_order })
                    (seq_out_of_order input.seq ∷ []))
              else examine input)
        out ← validate_loop (if late then last else input.seq) rest
        pure (add_verdict v out)

  unfoldable pub validate : List EventInput → Exec S (ValidationResult × List ExecEvent)
  unfolding validate_loop
  validate inputs = do
    out ← validate_loop (negsuc 0) (dedupe_inputs inputs)
    pure (record out.0 { accepted = length out.1 }, out.1)

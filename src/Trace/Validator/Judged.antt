-- ===== src/Trace/Validator/Judged.antt =====
-- What becomes of each input of `Validate`.
use task274_replaydivergence.Prelude.{
  ℕ, ◌+◌, false, ◌≡◌, refl, List, [], ◌∷◌, arith, length, All, Bool, true, ◌++◌,
}
use task274_replaydivergence.Prelude.Int.{ℤ, negsuc, leb_ℤ, ◌≤ℤ◌, ◌<ℤ◌}
use task274_replaydivergence.Model.Errors.{ok, err, Error}
use task274_replaydivergence.Model.Status.{TrailSide, EventStatus}
use task274_replaydivergence.Model.Event.{ExecEvent}
use task274_replaydivergence.Trace.Importer.{EventInput, to_model, validate_from}
use task274_replaydivergence.Trace.Validator.{
  Reason, ValidationResult, accept, skip, add_verdict, SkippedEvent, Warning, duplicate,
  seq_out_of_order, conversion,
}
use task274_replaydivergence.Prelude.Order.{int_order}

seq-to_model :
    (i : EventInput) (b : ℕ) (side : TrailSide) (st : EventStatus) (e : ExecEvent)
    → to_model i b side st ≡ ok e
    → (e.seq ≡ i.seq) × (e.batch_id ≡ b) × (e.side ≡ side) × (e.status ≡ st)
unfolding to_model
seq-to_model i b side st e h = ground arith

validate_from-weaken :
    (a b : ℤ) (es : List ExecEvent)
    → b ≤ℤ a
    → validate_from a es ≡ ok tt
    → validate_from b es ≡ ok tt
unfolding validate_from
validate_from-weaken a b [] le h = refl
validate_from-weaken a b (e ∷ es) le h = ground arith

validate_from-cons :
    (last : ℤ) (e : ExecEvent) (es : List ExecEvent)
    → negsuc 0 ≤ℤ last
    → leb_ℤ e.seq last ≡ false
    → validate_from e.seq es ≡ ok tt
    → validate_from last (e ∷ es) ≡ ok tt
unfolding validate_from
validate_from-cons last e es low later h = ground arith

module _ (batch_id : ℕ) (side : TrailSide) (status : EventStatus) where
  -- The event carries what the call was given.
  pub record IsMarked (e : ExecEvent) : Type 0 where
    pub batch : e.batch_id ≡ batch_id
    pub on_side : e.side ≡ side
    pub at_status : e.status ≡ status

  -- What becomes of each input in turn, after the sequence number `last`: the skipped inputs with
  -- their reasons, the warnings and the events. `known` are the sequence numbers that are stored.
  pub data IsJudged (known : ℤ → Bool)
      : ℤ → List EventInput → List SkippedEvent → List Warning → List ExecEvent → Type 0 where
    none_left : {last : ℤ} → IsJudged known last [] [] [] []
    late :
        {last : ℤ} {i : EventInput} {rest : List EventInput} {ks : List SkippedEvent}
        {ws : List Warning} {es : List ExecEvent}
        → i.seq ≤ℤ last
        → IsJudged known last rest ks ws es
        → IsJudged known last
            (i ∷ rest)
            (record { seq = i.seq; opcode = i.opcode; reason = Reason.out_of_order } ∷ ks)
            (seq_out_of_order i.seq ∷ ws)
            es
    repeated :
        {last : ℤ} {i : EventInput} {rest : List EventInput} {ks : List SkippedEvent}
        {ws : List Warning} {es : List ExecEvent}
        → last <ℤ i.seq
        → known i.seq ≡ true
        → IsJudged known i.seq rest ks ws es
        → IsJudged known last
            (i ∷ rest)
            (record { seq = i.seq; opcode = i.opcode; reason = duplicate } ∷ ks)
            ws
            es
    malformed :
        {last : ℤ} {i : EventInput} {rest : List EventInput} {ks : List SkippedEvent}
        {ws : List Warning} {es : List ExecEvent} {x : Error}
        → last <ℤ i.seq
        → known i.seq ≡ false
        → to_model i batch_id side status ≡ err x
        → IsJudged known i.seq rest ks ws es
        → IsJudged known last
            (i ∷ rest)
            (record { seq = i.seq; opcode = i.opcode; reason = Reason.refused x } ∷ ks)
            (conversion x ∷ ws)
            es
    taken :
        {last : ℤ} {i : EventInput} {rest : List EventInput} {ks : List SkippedEvent}
        {ws : List Warning} {es : List ExecEvent} {e : ExecEvent}
        → last <ℤ i.seq
        → known i.seq ≡ false
        → to_model i batch_id side status ≡ ok e
        → IsJudged known i.seq rest ks ws es
        → IsJudged known last (i ∷ rest) ks ws (e ∷ es)

  pub record Sound (known : ℤ → Bool) (last : ℤ) (inputs : List EventInput)
      (out : ValidationResult × List ExecEvent) : Type 0 where
    pub ordered : validate_from last out.1 ≡ ok tt
    pub counted : length out.1 + length out.0.skipped ≡ length inputs
    pub marked : All IsMarked out.1
    pub judged : IsJudged known last inputs out.0.skipped out.0.warnings out.1

  module _ (known : ℤ → Bool) where
    pub Sound-nil :
        (last : ℤ) → Sound known last [] (record { accepted = 0; skipped = []; warnings = [] }, [])
    unfolding validate_from
    Sound-nil last = record {
      ordered = refl;
      counted = refl;
      marked = tt;
      judged = IsJudged.none_left;
    }

    pub Sound-skip :
        (last next : ℤ) (i : EventInput) (rest : List EventInput) (k : SkippedEvent)
        (ws : List Warning) (out : ValidationResult × List ExecEvent)
        → last ≤ℤ next
        → (IsJudged known next rest out.0.skipped out.0.warnings out.1
            → IsJudged known last (i ∷ rest) (k ∷ out.0.skipped) (ws ++ out.0.warnings) out.1)
        → Sound known next rest out
        → Sound known last (i ∷ rest) (add_verdict (skip k ws) out)
    unfolding add_verdict
    Sound-skip last next i rest k ws out le reason h = record {
      ordered = validate_from-weaken next last out.1 le h.ordered;
      counted = omega (arith, h.counted);
      marked = h.marked;
      judged = reason h.judged;
    }

    pub Sound-accept :
        (last : ℤ) (i : EventInput) (rest : List EventInput) (e : ExecEvent)
        (out : ValidationResult × List ExecEvent)
        → negsuc 0 ≤ℤ last
        → leb_ℤ i.seq last ≡ false
        → known i.seq ≡ false
        → to_model i batch_id side status ≡ ok e
        → Sound known i.seq rest out
        → Sound known last (i ∷ rest) (add_verdict (accept e) out)
    unfolding add_verdict
    Sound-accept last i rest e out low later unknown made h =
        let (seq, b, s, st) = seq-to_model i batch_id side status e made in
        record {
          ordered = validate_from-cons last e out.1 low (rw seq later) (rw seq h.ordered);
          counted = omega (arith, h.counted);
          marked = (record { batch = b; on_side = s; at_status = st }, h.marked);
          judged = IsJudged.taken (ground arith) unknown made h.judged;
        }

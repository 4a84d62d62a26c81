-- ===== src/Trace/Validator/Accepted.antt =====
-- What `Validate` lets through.
use task274_replaydivergence.Prelude.{
  ℕ, ◌+◌, false, ◌≡◌, refl, List, [], ◌∷◌, arith, length, All, Bool, if◌then◌else◌, ap, Bool-cases,
  true, inl, inr, ◌∙◌, sym,
}
use task274_replaydivergence.Prelude.Int.{ℤ, negsuc, leb_ℤ, ◌≤ℤ◌, ◌<ℤ◌}
use task274_replaydivergence.Model.Errors.{ok, Result, err, ok-injective}
use task274_replaydivergence.Model.Status.{TrailSide, EventStatus}
use task274_replaydivergence.Model.Event.{ExecEvent}
use task274_replaydivergence.Trace.Importer.{EventInput, to_model, validate_sequence, dedupe_inputs}
use task274_replaydivergence.Trace.Validator.{
  Reason, ValidationResult, skip, add_verdict, examine, validate_loop, Verdict, duplicate,
  verdict_of_model, validate, seq_out_of_order,
}
use task274_replaydivergence.Model.Exec.{Exec, >>=-eq-ok}
use mathlib.Core.Path.{subst}
use task274_replaydivergence.Prelude.Sort.{sort_on, length-sort_on, sort_on-perm}
use task274_replaydivergence.Prelude.Order.{int_order}
use mathlib.Core.List.{Perm}
use task274_replaydivergence.Trace.Validator.Judged.{
  Sound, IsJudged, Sound-skip, Sound-nil, IsMarked, Sound-accept,
}

module _ (batch_id : ℕ) (side : TrailSide) (status : EventStatus) where
  module _ {S : Type 0} (exists : ℕ → TrailSide → ℤ → Exec S Bool) (known : ℤ → Bool)
      (IsGood : S → Type 0)
      (tells : (q : ℤ) (s s' : S) (b : Bool)
        → IsGood s
        → exists batch_id side q s ≡ (ok b, s')
        → (b ≡ known q) × IsGood s') where
    examine-Sound :
        (last : ℤ) (i : EventInput) (rest : List EventInput) (s s' : S) (v : Verdict)
        (out : ValidationResult × List ExecEvent)
        → negsuc 0 ≤ℤ last
        → leb_ℤ i.seq last ≡ false
        → IsGood s
        → examine exists batch_id side status i s ≡ (ok v, s')
        → IsGood s'
          × (Sound batch_id side status known i.seq rest out
              → Sound batch_id side status known last (i ∷ rest) (add_verdict v out))
    unfolding examine
    examine-Sound last i rest s s' v out low later good h =
        let (found, s1, asked, made) = >>=-eq-ok (exists batch_id side i.seq) _ s s' v h in
        let (told, still) = tells i.seq s s1 found good asked in
        (
          subst IsGood (ap (λ p. p.1) made) still,
          verdict found (to_model i batch_id side status) told refl
              (ok-injective (ap (λ p. p.0) made)),
        )
      where
        up : last ≤ℤ i.seq
        up = ground arith

        after_last : last <ℤ i.seq
        after_last = ground arith

        verdict :
            (found : Bool) (r : Result ExecEvent)
            → found ≡ known i.seq
            → to_model i batch_id side status ≡ r
            → (if found
                then skip (record { seq = i.seq; opcode = i.opcode; reason = duplicate }) []
                else verdict_of_model i (to_model i batch_id side status))
              ≡ v
            → Sound batch_id side status known i.seq rest out
            → Sound batch_id side status known last (i ∷ rest) (add_verdict v out)
        verdict true r told m e sound = rw (← e) (
            Sound-skip batch_id side status known last i.seq i rest _ _ out up
              (IsJudged.repeated after_last (sym told)) sound)
        verdict false (ok made) told m e sound = rw (← e) (
            rw m (
              Sound-accept batch_id side status known last i rest made out low later (sym told) m
                sound))
        verdict false (err x) told m e sound = rw (← e) (
            rw m (
              Sound-skip batch_id side status known last i.seq i rest _ _ out up
                (IsJudged.malformed after_last (sym told) m) sound))

    loop-Sound :
        (inputs : List EventInput) (last : ℤ) (s s' : S) (out : ValidationResult × List ExecEvent)
        → negsuc 0 ≤ℤ last
        → IsGood s
        → validate_loop exists batch_id side status last inputs s ≡ (ok out, s')
        → Sound batch_id side status known last inputs out
    unfolding validate_loop
    loop-Sound [] last s s' out low good h =
        subst (Sound batch_id side status known last []) (ok-injective (ap (λ p. p.0) h))
          (Sound-nil batch_id side status known last)
    loop-Sound (i ∷ rest) last s s' out low good h =
        let (v, s1, judged, more) = >>=-eq-ok _ _ s s' out h in
        let (later, s2, rest_ok, joined) = >>=-eq-ok _ _ s1 s' out more in
        rw (← ok-injective (ap (λ p. p.0) joined)) (elim (Bool-cases (leb_ℤ i.seq last)) [
          | inl is_late ↦
              let passed = rw is_late at judged in
              rw (← ok-injective (ap (λ p. p.0) passed)) (
                Sound-skip batch_id side status known last last i rest
                  (record { seq = i.seq; opcode = i.opcode; reason = Reason.out_of_order })
                  (seq_out_of_order i.seq ∷ []) later (omega arith) (IsJudged.late (ground arith))
                  (loop-Sound rest last s1 s2 later low (subst IsGood (ap (λ p. p.1) passed) good)
                    (rw is_late at rest_ok)))
          | inr fresh ↦
              let (good1, step) =
                examine-Sound last i rest s s1 v later low fresh good (rw fresh at judged) in
              step (loop-Sound rest i.seq s1 s2 later (ground arith) good1 (rw fresh at rest_ok))
        ])

    -- Let the validator's `exists`, in every state of a set of states that it does not leave,
    -- tell of a sequence number, where it returns an answer, whether the number is known. If, from
    -- such a state, `Validate` returns, each of the inputs, put in order, is judged once:
    -- it is skipped as out of order if its number is not above the last one, otherwise as a
    -- duplicate if its number is known, otherwise with a warning if it cannot be converted, and
    -- otherwise its conversion is among the events, in the order of the inputs. The events are in
    -- strictly ascending order of non-negative sequence numbers, so `ValidateSequence` accepts
    -- them; the accepted and the skipped inputs are as many as the inputs; the count of accepted
    -- inputs is the number of events; and every event carries the batch, the side and the status of
    -- the call.
    pub validate_sound :
        (inputs : List EventInput) (s s' : S) (res : ValidationResult) (events : List ExecEvent)
        → IsGood s
        → validate exists batch_id side status inputs s ≡ (ok (res, events), s')
        → IsJudged batch_id side status known
            (negsuc 0)
            (dedupe_inputs inputs)
            res.skipped
            res.warnings
            events
          × Perm (dedupe_inputs inputs) inputs
          × (validate_sequence events ≡ ok tt)
          × (length events + length res.skipped ≡ length inputs)
          × (res.accepted ≡ length events)
          × All (IsMarked batch_id side status) events
    unfolding validate validate_sequence dedupe_inputs
    validate_sound inputs s s' res events good h =
        let (out, s1, looped, returned) = >>=-eq-ok _ _ s s' (res, events) h in
        let sound =
          loop-Sound (sort_on (λ i. i.seq) inputs) (negsuc 0) s s1 out (omega arith) good looped in
        let e = ok-injective (ap (λ p. p.0) returned) in
        let same_res = ap (λ (p : ValidationResult × List ExecEvent). p.0) e in
        let same_events = ap (λ (p : ValidationResult × List ExecEvent). p.1) e in
        rw (← same_events, ← same_res)
          (
            sound.judged,
            sort_on-perm (λ i. i.seq) inputs,
            sound.ordered,
            sound.counted ∙ length-sort_on (λ i. i.seq) inputs,
            refl,
            sound.marked,
          )

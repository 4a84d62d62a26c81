-- ===== src/Store/Events/UniqueRows.antt =====
-- The UNIQUE constraint of the table of events.
use task274_replaydivergence.Prelude.{
  ◌≡◌, refl, ◌∙◌, Bool, false, List, [], ◌∷◌, ◌++◌, arith, Bool-cases, inl, inr, eq_iff, map,
}
use task274_replaydivergence.Model.Event.{ExecEvent}
use task274_replaydivergence.Store.Events.{same_side, at_seq, any_row, on_side, insert_row}
use task274_replaydivergence.Store.World.{World}
use task274_replaydivergence.Model.Status.{TrailSide}
use task274_replaydivergence.Model.Status.{reference, under_test, unknown_side}

-- No two rows have the batch, the side and the seq in common.
abbrev pub IsUnique : List ExecEvent → Type 0
IsUnique [] = Unit
IsUnique (e ∷ es) = (any_row (at_seq e.batch_id e.side e.seq) es ≡ false) × IsUnique es

same_side_sym : (s t : TrailSide) → same_side s t ≡ same_side t s
unfolding same_side
same_side_sym reference reference = refl
same_side_sym reference under_test = refl
same_side_sym reference (unknown_side t) = refl
same_side_sym under_test reference = refl
same_side_sym under_test under_test = refl
same_side_sym under_test (unknown_side t) = refl
same_side_sym (unknown_side s) reference = refl
same_side_sym (unknown_side s) under_test = refl
same_side_sym (unknown_side s) (unknown_side t) = ground (arith, eq_iff s t, eq_iff t s)

at_seq_sym : (e f : ExecEvent) → at_seq e.batch_id e.side e.seq f ≡ at_seq f.batch_id f.side f.seq e
unfolding at_seq on_side
at_seq_sym e f = ground (arith, same_side_sym e.side f.side)

any_row-snoc :
    (p : ExecEvent → Bool) (es : List ExecEvent) (x : ExecEvent)
    → any_row p es ≡ false
    → p x ≡ false
    → any_row p (es ++ x ∷ []) ≡ false
unfolding any_row
any_row-snoc p [] x h k = ground arith
any_row-snoc p (e ∷ es) x h k = ground (arith, any_row-snoc p es x)

IsUnique-snoc :
    (es : List ExecEvent) (x : ExecEvent)
    → any_row (at_seq x.batch_id x.side x.seq) es ≡ false
    → IsUnique es
    → IsUnique (es ++ x ∷ [])
unfolding any_row
IsUnique-snoc [] x fresh u = (refl, tt)
IsUnique-snoc (e ∷ es) x fresh u = elim (Bool-cases (at_seq x.batch_id x.side x.seq e)) [
  | inl b ↦ absurd (cc (rw b at fresh))
  | inr b ↦ (
    any_row-snoc (at_seq e.batch_id e.side e.seq) es x u.0 (at_seq_sym e x ∙ b),
    IsUnique-snoc es x (rw b at fresh) u.1,
  )
]

pub insert_row-IsUnique :
    (e : ExecEvent) (w : World) → IsUnique w.events → IsUnique (insert_row e w).1.events
unfolding insert_row
insert_row-IsUnique e w u = elim (Bool-cases (any_row (at_seq e.batch_id e.side e.seq) w.events)) [
  | inl b ↦ rw b u
  | inr b ↦ rw b (IsUnique-snoc w.events (record e { id = w.next_event }) b u)
]

any_row-map :
    (p : ExecEvent → Bool) (f : ExecEvent → ExecEvent) (es : List ExecEvent)
    → ((e : ExecEvent) → p (f e) ≡ p e)
    → any_row p (map f es) ≡ any_row p es
unfolding any_row
any_row-map p f [] same = refl
any_row-map p f (e ∷ es) same = rw (same e, any_row-map p f es same) refl

-- An UPDATE that leaves the columns of the key as they are.
pub IsUnique-map :
    (f : ExecEvent → ExecEvent) (es : List ExecEvent)
    → ((e : ExecEvent)
        → ((f e).batch_id ≡ e.batch_id) × ((f e).side ≡ e.side) × ((f e).seq ≡ e.seq))
    → IsUnique es
    → IsUnique (map f es)
unfolding at_seq on_side
IsUnique-map f [] same u = tt
IsUnique-map f (e ∷ es) same u = (
  any_row-map (at_seq (f e).batch_id (f e).side (f e).seq) f es
        (λ x. rw ((same x).0, (same x).1, (same x).2) refl)
      ∙ rw ((same e).0, (same e).1, (same e).2) u.0,
  IsUnique-map f es same u.1,
)

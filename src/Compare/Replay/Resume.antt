-- ===== src/Compare/Replay/Resume.antt =====
-- `ScanFingerprints` replays each checkpoint's prefix over the state of the one before.
use task274_replaydivergence.Prelude.{
  String, ◌≡◌, refl, sym, ◌∙◌, inl, inr, List, [], ◌∷◌, Option, none, arith, ap, Bool-cases, true,
}
use task274_replaydivergence.Prelude.Int.{ℤ, ◌≤ℤ◌, ltb_ℤ}
use task274_replaydivergence.Prelude.StrMap.{StrMap, lookup, SameMap, or_else}
use task274_replaydivergence.Model.Errors.{ok}
use task274_replaydivergence.Model.Event.{ExecEvent}
use task274_replaydivergence.Compare.Replay.{replay, events_up_to}
use task274_replaydivergence.Compare.Replay.LastWrite.{
  last_write, lookup-replay, replay_succeeds_iff,
}

-- What an earlier limit lets through comes first for a later limit too, so a key that the longer
-- prefix does not write the shorter one does not write either.
pub last_write-earlier :
    (es : List ExecEvent) (a b : ℤ) (k : String) (o : Option String)
    → a ≤ℤ b
    → or_else (last_write (events_up_to es b) k) (or_else (last_write (events_up_to es a) k) o)
      ≡ or_else (last_write (events_up_to es b) k) o
unfolding events_up_to last_write
last_write-earlier [] a b k o h = refl
last_write-earlier (e ∷ es) a b k o h = elim (Bool-cases (ltb_ℤ b e.seq)) [
  | inl past ↦ let past_a : ltb_ℤ a e.seq ≡ true = ground arith in rw (past, past_a) refl
  | inr inside ↦ elim (Bool-cases (ltb_ℤ a e.seq)) [
    | inl past_a ↦ rw (inside, past_a) refl
    | inr inside_a ↦ rw (inside, inside_a) (ground (arith, last_write-earlier es a b k none h))
  ]
]

-- Replaying a longer prefix of a trail over the state that a shorter one left gives the state of
-- replaying the longer prefix from the empty state: that replay succeeds too, and no key tells the
-- two states apart.
pub replay_resumes :
    (es : List ExecEvent) (a b : ℤ) (s t : StrMap String)
    → a ≤ℤ b
    → replay [] (events_up_to es a) ≡ ok s
    → replay s (events_up_to es b) ≡ ok t
    → (u : StrMap String) × (replay [] (events_up_to es b) ≡ ok u) × SameMap t u
replay_resumes es a b s t h first second =
    let (u, fresh) =
      (replay_succeeds_iff (events_up_to es b) []).1
        ((replay_succeeds_iff (events_up_to es b) s).0 (t, second)) in
    (
      u,
      fresh,
      λ k.
          lookup-replay (events_up_to es b) s t k second
          ∙ ap (or_else (last_write (events_up_to es b) k))
              (lookup-replay (events_up_to es a) [] s k first)
          ∙ last_write-earlier es a b k (lookup k []) h
          ∙ sym (lookup-replay (events_up_to es b) [] u k fresh),
    )

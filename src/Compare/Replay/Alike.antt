-- ===== src/Compare/Replay/Alike.antt =====
-- Replays of one trail over different states.
use task274_replaydivergence.Prelude.{
  ◌≡◌, refl, ap, sym, ◌∙◌, List, String, ◌∷◌, Option-cases, none, [], inl, arith, inr, ◌⊎◌,
}
use task274_replaydivergence.Model.Errors.{◌>>=◌, Result, Error, err, ok, missing_value}
use task274_replaydivergence.Compare.Replay.{replay_writes, replay, events_up_to}
use task274_replaydivergence.Model.Event.{ExecEvent, ResourceAccess, key}
use task274_replaydivergence.Prelude.StrMap.{
  StrMap, or_else, SameMap, IsMap, lookup, insert, or_else-none,
}
use task274_replaydivergence.Prelude.Int.{ℤ, ◌≤ℤ◌}
use task274_replaydivergence.Compare.Replay.LastWrite.{
  last_write, lookup-replay, replay-last_write, replay-IsMap,
}
use task274_replaydivergence.Compare.Replay.Resume.{last_write-earlier}

-- Replaying any prefix from `q` on over `s` writes all that the earlier replays have left in it.
unfoldable pub IsCovered : List ExecEvent → ℤ → StrMap String → Type 0
IsCovered es q s =
    (p : ℤ) (k : String)
    → q ≤ℤ p
    → or_else (last_write (events_up_to es p) k) (lookup k s) ≡ last_write (events_up_to es p) k

-- Two replays of one trail fail alike or succeed alike.
pub data IsAlike : Result (StrMap String) → Result (StrMap String) → Type 0 where
  both_fail : (e : Error) → IsAlike (err e) (err e)
  both_end : (t u : StrMap String) → IsAlike (ok t) (ok u)

replay_writes-IsAlike :
    (e : ExecEvent) (ws : List ResourceAccess) (s u : StrMap String)
    → IsAlike (replay_writes e s ws) (replay_writes e u ws)
unfolding replay_writes
replay_writes-IsAlike e [] s u = both_end s u
replay_writes-IsAlike e (w ∷ ws) s u = elim (Option-cases (lookup (key w) e.values)) [
  | inl n ↦ rw (n, replay_writes) (both_fail (missing_value e.seq (key w)))
  | inr (v, found) ↦
      rw (found, replay_writes)
        (replay_writes-IsAlike e ws (insert (key w) v s) (insert (key w) v u))
]

bind-IsAlike :
    (x y : Result (StrMap String)) (es : List ExecEvent)
    → IsAlike x y
    → ((s u : StrMap String) → IsAlike (replay s es) (replay u es))
    → IsAlike (x >>= λ s. replay s es) (y >>= λ s. replay s es)
bind-IsAlike x y es (both_fail e) more = both_fail e
bind-IsAlike x y es (both_end t u) more = more t u

pub replay-IsAlike :
    (es : List ExecEvent) (s u : StrMap String) → IsAlike (replay s es) (replay u es)
unfolding replay
replay-IsAlike [] s u = both_end s u
replay-IsAlike (e ∷ es) s u =
    bind-IsAlike (replay_writes e s e.writes) (replay_writes e u e.writes) es
      (replay_writes-IsAlike e e.writes s u) (replay-IsAlike es)

-- What a replay of the prefix at `q` gives over a covered state, beside the one from the empty
-- state.
pub record SameState (es : List ExecEvent) (q : ℤ) (t u : StrMap String) : Type 0 where
  pub same : SameMap t u
  pub carried : IsMap t
  pub fresh : IsMap u
  pub covered : IsCovered es q t

pub replay_covered :
    (es : List ExecEvent) (q : ℤ) (s t u : StrMap String)
    → IsCovered es q s
    → IsMap s
    → replay s (events_up_to es q) ≡ ok t
    → replay [] (events_up_to es q) ≡ ok u
    → SameState es q t u
unfolding IsCovered
replay_covered es q s t u c m over fresh =
    let value =
      λ (k : String). lookup-replay (events_up_to es q) s t k over ∙ c q k (omega arith) in
    record {
      same = λ k. value k ∙ sym (replay-last_write (events_up_to es q) u k fresh);
      carried = replay-IsMap (events_up_to es q) s t m over;
      fresh = replay-IsMap (events_up_to es q) [] u tt fresh;
      covered = λ p k le.
          ap (or_else (last_write (events_up_to es p) k)) (value k)
          ∙ ap (or_else (last_write (events_up_to es p) k)) (sym (or_else-none _))
          ∙ last_write-earlier es q p k none le
          ∙ or_else-none _;
    }

-- The two ways in which replays over two states end.
pub replay-cases :
    (es : List ExecEvent) (s u : StrMap String)
    → ((e : Error) × (replay s es ≡ err e) × (replay u es ≡ err e))
      ⊎ ((t v : StrMap String) × (replay s es ≡ ok t) × (replay u es ≡ ok v))
replay-cases es s u = split (replay s es) (replay u es) (replay-IsAlike es s u)
  where
    split :
        (x y : Result (StrMap String))
        → IsAlike x y
        → ((e : Error) × (x ≡ err e) × (y ≡ err e))
          ⊎ ((t v : StrMap String) × (x ≡ ok t) × (y ≡ ok v))
    split x y (both_fail e) = inl (e, refl, refl)
    split x y (both_end t v) = inr (t, v, refl, refl)

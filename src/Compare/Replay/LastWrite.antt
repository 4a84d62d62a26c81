-- ===== src/Compare/Replay/LastWrite.antt =====
-- Replay against the last write to a resource.
use task274_replaydivergence.Prelude.{
  String, ◌≡◌, refl, ◌∙◌, ◌≢◌, ◌↔◌, inl, inr, List, [], ◌∷◌, Option, none, some, arith, str_eq,
  if◌then◌else◌, Option-cases, All,
}
use task274_replaydivergence.Prelude.StrMap.{
  StrMap, lookup, insert, lookup-insert, insert-IsMap, IsMap, or_else,
}
use task274_replaydivergence.Model.Errors.{ok, Result-cases, ok-injective}
use task274_replaydivergence.Model.Event.{ResourceAccess, ExecEvent, key}
use task274_replaydivergence.Compare.Replay.{replay_writes, replay}

-- The last value that the writes `ws` of `e` give to `k`.
unfoldable pub last_of_writes : ExecEvent → List ResourceAccess → String → Option String
last_of_writes e [] k = none
last_of_writes e (w ∷ ws) k =
    or_else (last_of_writes e ws k) (if str_eq (key w) k then lookup (key w) e.values else none)

-- The last value that the events give to `k`.
unfoldable pub last_write : List ExecEvent → String → Option String
unfolding last_of_writes
last_write [] k = none
last_write (e ∷ es) k = or_else (last_write es k) (last_of_writes e e.writes k)

or_else_assoc : (a b c : Option String) → or_else (or_else a b) c ≡ or_else a (or_else b c)
or_else_assoc none b c = refl
or_else_assoc (some v) b c = refl

lookup-replay_writes :
    (e : ExecEvent) (ws : List ResourceAccess) (s t : StrMap String) (k : String)
    → replay_writes e s ws ≡ ok t
    → lookup k t ≡ or_else (last_of_writes e ws k) (lookup k s)
unfolding replay_writes last_of_writes
lookup-replay_writes e [] s t k h = ground arith
lookup-replay_writes e (w ∷ ws) s t k h = elim (Option-cases (lookup (key w) e.values)) [
  | inl n ↦ ground arith
  | inr (v, found) ↦
      let rest =
        lookup-replay_writes e ws (insert (key w) v s) t k (rw (found, replay_writes) at h) in
      ground (arith, rest, lookup-insert (key w) k v s, found)
]

pub lookup-replay :
    (es : List ExecEvent) (s t : StrMap String) (k : String)
    → replay s es ≡ ok t
    → lookup k t ≡ or_else (last_write es k) (lookup k s)
unfolding replay last_write
lookup-replay [] s t k h = ground arith
lookup-replay (e ∷ es) s t k h = elim (Result-cases (replay_writes e s e.writes)) [
  | inl (x, bad) ↦ cc (bad, h)
  | inr (s', good) ↦
      lookup-replay es s' t k (rw good at h)
      ∙ ground (arith, lookup-replay_writes e e.writes s s' k good)
]

-- Replaying events from the empty state gives every resource the value of the last write to it in
-- the events, and no value to a resource that no event writes.
pub replay-last_write :
    (es : List ExecEvent) (t : StrMap String) (k : String)
    → replay [] es ≡ ok t
    → lookup k t ≡ last_write es k
unfolding lookup
replay-last_write es t k h = lookup-replay es [] t k h ∙ ground arith

replay_writes-IsMap :
    (e : ExecEvent) (ws : List ResourceAccess) (s t : StrMap String)
    → IsMap s
    → replay_writes e s ws ≡ ok t
    → IsMap t
unfolding replay_writes
replay_writes-IsMap e [] s t m h = rw (← ok-injective h) m
replay_writes-IsMap e (w ∷ ws) s t m h = elim (Option-cases (lookup (key w) e.values)) [
  | inl n ↦ cc (rw (n, replay_writes) at h)
  | inr (v, found) ↦
      replay_writes-IsMap e ws (insert (key w) v s) t (insert-IsMap (key w) v s m)
        (rw (found, replay_writes) at h)
]

pub replay-IsMap :
    (es : List ExecEvent) (s t : StrMap String) → IsMap s → replay s es ≡ ok t → IsMap t
unfolding replay
replay-IsMap [] s t m h = rw (← ok-injective h) m
replay-IsMap (e ∷ es) s t m h = elim (Result-cases (replay_writes e s e.writes)) [
  | inl (x, bad) ↦ cc (bad, h)
  | inr (s', good) ↦
      replay-IsMap es s' t (replay_writes-IsMap e e.writes s s' m good) (rw good at h)
]

-- Every write of the event has a value.
abbrev pub HasValues : ExecEvent → List ResourceAccess → Type 0
HasValues e ws = All (λ w. lookup (key w) e.values ≢ none) ws

replay_writes_total :
    (e : ExecEvent) (ws : List ResourceAccess) (s : StrMap String)
    → HasValues e ws
    → (t : StrMap String) × (replay_writes e s ws ≡ ok t)
unfolding replay_writes
replay_writes_total e [] s h = (s, refl)
replay_writes_total e (w ∷ ws) s h = elim (Option-cases (lookup (key w) e.values)) [
  | inl n ↦ absurd (h.0 n)
  | inr (v, found) ↦
      let (t, r) = replay_writes_total e ws (insert (key w) v s) h.1 in
      (t, rw (found, replay_writes) r)
]

replay_writes_needs :
    (e : ExecEvent) (ws : List ResourceAccess) (s t : StrMap String)
    → replay_writes e s ws ≡ ok t
    → HasValues e ws
unfolding replay_writes
replay_writes_needs e [] s t h = tt
replay_writes_needs e (w ∷ ws) s t h = elim (Option-cases (lookup (key w) e.values)) [
  | inl n ↦ cc (rw (n, replay_writes) at h)
  | inr (v, found) ↦ (
    λ n. cc (n, found),
    replay_writes_needs e ws (insert (key w) v s) t (rw (found, replay_writes) at h),
  )
]

replay_total :
    (es : List ExecEvent) (s : StrMap String)
    → All (λ e. HasValues e e.writes) es
    → (t : StrMap String) × (replay s es ≡ ok t)
unfolding replay
replay_total [] s h = (s, refl)
replay_total (e ∷ es) s h =
    let (s', first) = replay_writes_total e e.writes s h.0 in
    let (t, rest) = replay_total es s' h.1 in (t, rw first rest)

replay_needs :
    (es : List ExecEvent) (s t : StrMap String)
    → replay s es ≡ ok t
    → All (λ e. HasValues e e.writes) es
unfolding replay
replay_needs [] s t h = tt
replay_needs (e ∷ es) s t h = elim (Result-cases (replay_writes e s e.writes)) [
  | inl (x, bad) ↦ cc (bad, h)
  | inr (s', good) ↦ (replay_writes_needs e e.writes s s' good, replay_needs es s' t (rw good at h))
]

-- From any state the replay succeeds exactly if every write of every event has a value.
pub replay_succeeds_iff :
    (es : List ExecEvent) (s : StrMap String)
    → ((t : StrMap String) × (replay s es ≡ ok t)) ↔ All (λ e. HasValues e e.writes) es
replay_succeeds_iff es s = (λ r. replay_needs es s r.0 r.1, replay_total es s)

-- ===== src/Service/Scan/Carried.antt =====
-- The scan that replays from the empty state, and what the states that are carried amount to.
use task274_replaydivergence.Compare.Scope.{in_scope}
use task274_replaydivergence.Prelude.{
  ℕ, Bool, List, ◌∷◌, [], true, ◌+◌, false, ◌≡◌, arith, String, ◌⊎◌, inl, inr, refl, ◌∙◌, ap,
  if◌then◌else◌, none, sym,
}
use task274_replaydivergence.Model.Batch.{Time, ReplayBatch}
use task274_replaydivergence.Model.Event.{ExecEvent}
use task274_replaydivergence.Model.Checkpoint.{Checkpoint, is_unreliable, scope}
use task274_replaydivergence.Model.Errors.{cancelled, Error, err, ok}
use task274_replaydivergence.Model.Exec.{Exec, pure, ◌>>=◌, raise}
use task274_replaydivergence.Store.World.{World}
use task274_replaydivergence.Service.Scan.{replay_both, save_pair, States, fingerprint_of}
use task274_replaydivergence.Prelude.Int.{ℤ, ◌≤ℤ◌}
use task274_replaydivergence.Compare.Replay.Alike.{
  IsCovered, SameState, replay-cases, replay_covered,
}
use task274_replaydivergence.Model.Status.{FingerprintScope}
use task274_replaydivergence.Prelude.StrMap.{IsMap, lookup, StrMap, SameMap, or_else-none}
use task274_replaydivergence.Compare.Hash.{hash_state}
use task274_replaydivergence.Compare.Scope.{select_scope}
use task274_replaydivergence.Compare.Replay.{events_up_to}
use task274_replaydivergence.Compare.Hash.OrderFree.{hash_state_of_SameMap}
use task274_replaydivergence.Prelude.Order.{int_order}
use task274_replaydivergence.Compare.Scope.Lookup.{select_scope-IsMap, lookup-select_scope}

module _ (ctx : ℕ → Bool) (clock : ℕ → Time) (batch_id : ℕ) (b : ReplayBatch)
    (ref_events test_events : List ExecEvent) where
  -- The loop without the states that are carried over.
  unfoldable pub fresh_loop : ℕ → List Checkpoint → ℕ → Exec World ℕ
  fresh_loop n [] count = pure count
  fresh_loop n (cp ∷ cps) count = elim (ctx n) [
    | true ↦ raise cancelled
    | false ↦ elim (is_unreliable cp) [
      | true ↦ fresh_loop (n + 1) cps count
      | false ↦
          replay_both ref_events test_events cp.seq (record { ref_state = []; test_state = [] })
          >>= λ next.
              save_pair (clock n) batch_id b cp next >>= λ _. fresh_loop (n + 1) cps (count + 1)
    ]
  ]

abbrev pub none_yet : States
none_yet = record { ref_state = []; test_state = [] }

module _ (ref_events test_events : List ExecEvent) where
  -- The states are what earlier replays left behind.
  pub record IsCarried (q : ℤ) (s : States) : Type 0 where
    pub ref_map : IsMap s.ref_state
    pub test_map : IsMap s.test_state
    pub ref_covered : IsCovered ref_events q s.ref_state
    pub test_covered : IsCovered test_events q s.test_state

  pub none_yet-IsCarried : (q : ℤ) → IsCarried q none_yet
  unfolding IsCovered lookup
  none_yet-IsCarried q = record {
    ref_map = tt;
    test_map = tt;
    ref_covered = λ p k le. or_else-none _;
    test_covered = λ p k le. or_else-none _;
  }

  pub IsCarried-later : (q p : ℤ) (s : States) → q ≤ℤ p → IsCarried q s → IsCarried p s
  unfolding IsCovered
  IsCarried-later q p s le c = record {
    ref_map = c.ref_map;
    test_map = c.test_map;
    ref_covered = λ r k h. c.ref_covered r k (omega arith);
    test_covered = λ r k h. c.test_covered r k (omega arith);
  }

  -- The states after a round, and those of fresh replays.
  pub record IsRound (q : ℤ) (t u : States) : Type 0 where
    pub ref_same : SameState ref_events q t.ref_state u.ref_state
    pub test_same : SameState test_events q t.test_state u.test_state

  pub IsRound-IsCarried : (q : ℤ) (t u : States) → IsRound q t u → IsCarried q t
  IsRound-IsCarried q t u r = record {
    ref_map = r.ref_same.carried;
    test_map = r.test_same.carried;
    ref_covered = r.ref_same.covered;
    test_covered = r.test_same.covered;
  }

  pub replay_both-cases :
      (q : ℤ) (s : States) (w : World)
      → IsCarried q s
      → ((e : Error) × (replay_both ref_events test_events q s w ≡ (err e, w))
          × (replay_both ref_events test_events q none_yet w ≡ (err e, w)))
        ⊎ ((t u : States) × (replay_both ref_events test_events q s w ≡ (ok t, w))
            × (replay_both ref_events test_events q none_yet w ≡ (ok u, w))
            × IsRound q t u)
  unfolding replay_both ◌>>=◌
  replay_both-cases q s w c = elim (replay-cases (events_up_to ref_events q) s.ref_state []) [
    | inl (e, h, k) ↦ inl (e, rw h refl, rw k refl)
    | inr (rt, ru, h, k) ↦ elim (replay-cases (events_up_to test_events q) s.test_state []) [
      | inl (e, hh, kk) ↦ inl (e, rw h (rw hh refl), rw k (rw kk refl))
      | inr (tt', tu, hh, kk) ↦ inr (
        record { ref_state = rt; test_state = tt' },
        record { ref_state = ru; test_state = tu },
        rw h (rw hh refl),
        rw k (rw kk refl),
        record {
          ref_same = replay_covered ref_events q s.ref_state rt ru c.ref_covered c.ref_map h k;
          test_same =
              replay_covered test_events q s.test_state tt' tu c.test_covered c.test_map hh kk;
        },
      )
    ]
  ]

-- States that no key tells apart have one fingerprint in every scope.
hash_scope_of_SameMap :
    (sc : FingerprintScope) (t u : StrMap String)
    → IsMap t
    → IsMap u
    → SameMap t u
    → hash_state (select_scope t sc) ≡ hash_state (select_scope u sc)
hash_scope_of_SameMap sc t u mt mu same =
    hash_state_of_SameMap (select_scope t sc) (select_scope u sc) (select_scope-IsMap sc t)
      (select_scope-IsMap sc u)
      λ k.
        lookup-select_scope sc k t mt
        ∙ ap (λ o. if in_scope sc k then o else none) (same k)
        ∙ sym (lookup-select_scope sc k u mu)

pub save_pair_of_IsRound :
    (now : Time) (batch_id : ℕ) (b : ReplayBatch) (cp : Checkpoint)
    (ref_events test_events : List ExecEvent) (q : ℤ) (t u : States)
    → IsRound ref_events test_events q t u
    → save_pair now batch_id b cp t ≡ save_pair now batch_id b cp u
unfolding save_pair fingerprint_of
save_pair_of_IsRound now batch_id b cp ref_events test_events q t u r =
    let rh =
      hash_scope_of_SameMap (scope cp) t.ref_state u.ref_state r.ref_same.carried r.ref_same.fresh
        r.ref_same.same in
    let th =
      hash_scope_of_SameMap (scope cp) t.test_state u.test_state r.test_same.carried
        r.test_same.fresh r.test_same.same in
    rw (rh, th) refl

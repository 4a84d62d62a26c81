-- ===== src/Service/Scan/Fresh.antt =====
-- The scan against one that replays every checkpoint from the empty state.
use task274_replaydivergence.Prelude.{
  ℕ, Bool, List, ◌∷◌, [], ◌+◌, false, ◌≡◌, arith, All, Bool-cases, inl, inr, refl, ◌∙◌, ap,
  if◌then◌else◌, none, sym, All-map, not, ◌&&◌, All-of_mem,
}
use task274_replaydivergence.Model.Batch.{Time, ReplayBatch}
use task274_replaydivergence.Model.Event.{ExecEvent}
use task274_replaydivergence.Model.Checkpoint.{Checkpoint, is_unreliable}
use task274_replaydivergence.Model.Errors.{cancelled, database, invalid_state}
use task274_replaydivergence.Model.Exec.{Exec, ◌>>=◌, raise, >>=-of_err, >>=-of_ok, >>=-ext}
use task274_replaydivergence.Store.World.{World, statement}
use task274_replaydivergence.Service.Scan.{
  replay_both, save_pair, States, scan_loop, by_seq, scan_fingerprints,
}
use task274_replaydivergence.Prelude.Int.{ltb_ℤ}
use task274_replaydivergence.Model.Status.{same_status, syncing, pending_loc, reference, under_test}
use task274_replaydivergence.Prelude.Sort.{IsSorted, sort_on-IsSorted}
use task274_replaydivergence.Prelude.Order.{int_order}
use task274_replaydivergence.Store.Rows.{list_checkpoints, get_batch}
use task274_replaydivergence.Store.World.Atomic.{statement-cases}
use task274_replaydivergence.Store.Events.{list_by_side}
use task274_replaydivergence.Service.Scan.Carried.{
  IsCarried, fresh_loop, none_yet, IsCarried-later, replay_both-cases, none_yet-IsCarried,
  save_pair_of_IsRound, IsRound-IsCarried,
}

module _ (ctx : ℕ → Bool) (clock : ℕ → Time) (batch_id : ℕ) (b : ReplayBatch)
    (ref_events test_events : List ExecEvent) where
  IsCarried-in_order :
      (cp : Checkpoint) (cps : List Checkpoint) (t : States)
      → All (λ (c : Checkpoint). ltb_ℤ c.seq cp.seq ≡ false) cps
      → IsCarried ref_events test_events cp.seq t
      → All (λ (c : Checkpoint). IsCarried ref_events test_events c.seq t) cps
  IsCarried-in_order cp cps t order carried =
      All-map (λ (c : Checkpoint). ltb_ℤ c.seq cp.seq ≡ false)
        (λ (c : Checkpoint). IsCarried ref_events test_events c.seq t) cps
        (λ c h. IsCarried-later ref_events test_events cp.seq c.seq t (ground arith) carried) order

  -- One round over carried states and one over fresh ones, given that the rest of the loop agrees.
  rounds_agree :
      (now : Time) (cp : Checkpoint) (s : States) (w : World) (f : States → Exec World ℕ)
      (g : Exec World ℕ)
      → IsCarried ref_events test_events cp.seq s
      → ((t : States) (v : World) → IsCarried ref_events test_events cp.seq t → f t v ≡ g v)
      → (replay_both ref_events test_events cp.seq s >>= λ next.
            save_pair now batch_id b cp next >>= λ _. f next)
          w
        ≡ (replay_both ref_events test_events cp.seq none_yet >>= λ next.
              save_pair now batch_id b cp next >>= λ _. g)
            w
  rounds_agree now cp s w f g carried rest =
      elim (replay_both-cases ref_events test_events cp.seq s w carried) [
        | inl (e, h, k) ↦ >>=-of_err _ _ w w e h ∙ sym (>>=-of_err _ _ w w e k)
        | inr (t, u, h, k, r) ↦
            >>=-of_ok _ _ w w t h
            ∙ ap (λ (m : Exec World (Unit {0})). (m >>= λ _. f t) w)
                (save_pair_of_IsRound now batch_id b cp ref_events test_events cp.seq t u r)
            ∙ >>=-ext (save_pair now batch_id b cp u) (λ _. f t) (λ _. g) w
                (λ _ v. rest t v (IsRound-IsCarried ref_events test_events cp.seq t u r))
            ∙ sym (>>=-of_ok _ _ w w u k)
      ]

  loops_agree :
      (n : ℕ) (cps : List Checkpoint) (s : States) (count : ℕ) (w : World)
      → IsSorted (λ (c : Checkpoint). c.seq) cps
      → All (λ (c : Checkpoint). IsCarried ref_events test_events c.seq s) cps
      → scan_loop ctx clock batch_id b ref_events test_events n cps s count w
        ≡ fresh_loop ctx clock batch_id b ref_events test_events n cps count w
  unfolding scan_loop fresh_loop
  loops_agree n [] s count w order carried = refl
  loops_agree n (cp ∷ cps) s count w order carried = elim (Bool-cases (ctx n)) [
    | inl stop ↦ rw (stop, scan_loop, fresh_loop) refl
    | inr go ↦ elim (Bool-cases (is_unreliable cp)) [
      | inl skip ↦
          rw (go, skip, scan_loop, fresh_loop) (loops_agree (n + 1) cps s count w order.1 carried.1)
      | inr use_it ↦
          rw (go, use_it, scan_loop, fresh_loop)
            (rounds_agree (clock n) cp s w
              (λ t. scan_loop ctx clock batch_id b ref_events test_events (n + 1) cps t (count + 1))
              (fresh_loop ctx clock batch_id b ref_events test_events (n + 1) cps (count + 1))
              carried.0
              λ t v c.
                loops_agree (n + 1) cps t (count + 1) v order.1
                  (IsCarried-in_order cp cps t order.0 c))
    ]
  ]

-- The scan with the loop of this file.
unfoldable pub scan_afresh : (ℕ → Bool) → (ℕ → Time) → ℕ → Exec World ℕ
unfolding by_seq
scan_afresh ctx clock batch_id =
    if ctx 0
    then raise cancelled
    else get_batch batch_id >>= λ b.
        if not (same_status b.status syncing) && not (same_status b.status pending_loc)
        then raise invalid_state
        else list_checkpoints batch_id >>= λ cps.
            list_by_side batch_id reference none >>= λ ref_events.
            list_by_side batch_id under_test none >>= λ test_events.
            fresh_loop ctx clock batch_id b (by_seq ref_events) (by_seq test_events) 1 cps 0

-- What follows a listing of checkpoints may count on their order.
after_checkpoints :
    {A : Type 0} (batch_id : ℕ) (f g : List Checkpoint → Exec World A) (w : World)
    → ((cps : List Checkpoint) (v : World)
        → IsSorted (λ (c : Checkpoint). c.seq) cps
        → f cps v ≡ g cps v)
    → (list_checkpoints batch_id >>= f) w ≡ (list_checkpoints batch_id >>= g) w
unfolding list_checkpoints
after_checkpoints batch_id f g w agree = elim (statement-cases w) [
  | inl (v, e, same) ↦
      let listed = >>=-of_ok statement _ w v tt e in
      >>=-of_ok (list_checkpoints batch_id) f w v _ listed
      ∙ agree _ v (sort_on-IsSorted (λ (c : Checkpoint). c.seq) _)
      ∙ sym (>>=-of_ok (list_checkpoints batch_id) g w v _ listed)
  | inr (v, e, same) ↦
      let failed = >>=-of_err statement _ w v database e in
      >>=-of_err (list_checkpoints batch_id) f w v database failed
      ∙ sym (>>=-of_err (list_checkpoints batch_id) g w v database failed)
]

-- `ScanFingerprints` carries the replayed states from one checkpoint to the next. On every
-- database, whatever is stored, refused or cancelled, it returns the same result and leaves the
-- same tables as a scan that replays both trails from the start for every checkpoint.
pub scan_fingerprints-scan_afresh :
    (ctx : ℕ → Bool) (clock : ℕ → Time) (batch_id : ℕ) (w : World)
    → scan_fingerprints ctx clock batch_id w ≡ scan_afresh ctx clock batch_id w
unfolding scan_fingerprints scan_afresh
scan_fingerprints-scan_afresh ctx clock batch_id w = elim (Bool-cases (ctx 0)) [
  | inl stop ↦ rw (stop, scan_fingerprints, scan_afresh) refl
  | inr go ↦
      rw (go, scan_fingerprints, scan_afresh)
        (>>=-ext (get_batch batch_id) _ _ w λ b v.
          elim (Bool-cases
            (not (same_status b.status syncing) && not (same_status b.status pending_loc))) [
              | inl bad ↦ rw bad refl
              | inr good ↦ rw good (
                  after_checkpoints batch_id _ _ v λ cps u order.
                    >>=-ext (list_by_side batch_id reference none) _ _ u λ ref_events u'.
                      >>=-ext (list_by_side batch_id under_test none) _ _ u' λ test_events u''.
                        loops_agree ctx clock batch_id b (by_seq ref_events) (by_seq test_events) 1
                          cps none_yet 0 u'' order
                          (All-of_mem _ cps λ c _.
                            none_yet-IsCarried (by_seq ref_events) (by_seq test_events) c.seq))
            ])
]

-- ===== src/Service/Batches/Synced.antt =====
-- The fuel that a synchronisation needs.
use task274_replaydivergence.Prelude.{
  ℕ, List, [], ◌∷◌, ◌≡◌, ◌≢◌, refl, sym, ap, Memᴰ, Option, some, none, ◌+◌, ◌<◌, ◌≤◌, suc, zero,
  ◌^◌, ◌-◌, arith, Bool, if◌then◌else◌, true, eq_of_some, false, keep, mem-keep, Bool-cases, ltb,
  inl, inr,
}
use task274_replaydivergence.Prelude.Int.{ℤ, pos, ltb_ℤ}
use task274_replaydivergence.Sync.Aligner.{
  align, align_range, count_missing, SeqSet, Missing, min64, max64, finish, AlignResult,
  mark_aligned, align_result,
}
use task274_replaydivergence.Store.World.Holds.{
  Holds, >>=-Holds, any-Holds, pure-Holds, if-Holds, statement-Holds, step-Holds, raise-Holds,
  Holds-pre, IsTableFact, IsQuiet-Holds,
}
use task274_replaydivergence.Store.World.{World, statement}
use task274_replaydivergence.Store.Events.{range_of, seq_range, event_getter, on_side}
use task274_replaydivergence.Store.World.Atomic.{tables}
use task274_replaydivergence.Model.Event.{ExecEvent}
use mathlib.Core.Path.{subst}
use task274_replaydivergence.Model.Status.{TrailSide, reference, under_test, syncing}
use task274_replaydivergence.Service.Batches.{lock_synced, sync, SyncResult}
use task274_replaydivergence.Model.Batch.{Time, ReplayBatch, lock_range, transition}
use task274_replaydivergence.Model.Errors.{empty_trails, ok, invalid_state}
use task274_replaydivergence.Model.Exec.{lift}
use task274_replaydivergence.Store.Rows.{get_batch, update_batch}
use task274_replaydivergence.Service.Batches.Import.{get_batch-IsQuiet}
use task274_replaydivergence.Sync.Aligner.Counts.{count_missing_exact}

-- A sequence number that is none of the negative ones and at most the bound.
abbrev pub IsWithin : ℕ → ℤ → Type 0
IsWithin bound q = (k : ℕ) × (q ≡ pos k) × (k ≤ bound)

-- The loop ends with more fuel than there are numbers up to the bound.
count_missing_ends :
    (fuel bound : ℕ) (ref_seqs test_seqs : SeqSet) (lo hi : ℤ) (m : Missing)
    → bound + 1 < fuel
    → bound < 2 ^ 63 - 1
    → IsWithin bound lo
    → IsWithin bound hi
    → count_missing fuel ref_seqs test_seqs lo hi m ≢ none
unfolding count_missing
count_missing_ends zero bound ref_seqs test_seqs lo hi m enough small l h e =
    absurd (omega (arith, enough))
count_missing_ends (suc fuel) bound ref_seqs test_seqs lo hi m enough small (k, at, _) (top, to, le)
      e =
    elim (Bool-cases (ltb top k)) [
      | inl beyond ↦ absurd (cc (stops (ground (arith, beyond)), rw (at, to) at e))
      | inr within ↦
          let counted =
            count_missing_exact (top + 1 - k) (suc fuel) ref_seqs test_seqs (pos k) (pos top) m
              (omega (arith, enough, le)) (omega (arith, small, le)) (ground (arith, within)) in
          absurd (cc (counted, rw (at, to) at e))
    ]
  where
    stops : top < k → count_missing (suc fuel) ref_seqs test_seqs (pos k) (pos top) m ≡ some m
    stops beyond = ground (arith, beyond)

-- Every event of the batch has such a sequence number.
abbrev pub HasSeqsWithin : ℕ → ℕ → World → Type 0
HasSeqsWithin bound batch_id w =
    (e : ExecEvent) → Memᴰ e w.events → e.batch_id ≡ batch_id → IsWithin bound e.seq

module _ (bound : ℕ) where
  either :
      (b : Bool) (p q : ℤ)
      → IsWithin bound p
      → IsWithin bound q
      → IsWithin bound (if b then p else q)
  either true p q hp hq = hp
  either false p q hp hq = hq

  range_of-IsWithin :
      (so_far : Option (ℤ × ℤ)) (es : List ExecEvent)
      → ((r : ℤ × ℤ) → so_far ≡ some r → IsWithin bound r.0 × IsWithin bound r.1)
      → ((e : ExecEvent) → Memᴰ e es → IsWithin bound e.seq)
      → IsWithin bound (range_of so_far es).0 × IsWithin bound (range_of so_far es).1
  unfolding range_of
  range_of-IsWithin none [] known h = ((0, refl, omega arith), (0, refl, omega arith))
  range_of-IsWithin (some r) [] known h = known r refl
  range_of-IsWithin none (e ∷ es) known h =
      let here = h e (Memᴰ.head refl) in
      range_of-IsWithin (some (e.seq, e.seq)) es
        (λ r eq.
          subst (λ (x : ℤ × ℤ). IsWithin bound x.0 × IsWithin bound x.1) (eq_of_some eq)
            (here, here))
        λ x m. h x (Memᴰ.tail m)
  range_of-IsWithin (some (lo, hi)) (e ∷ es) known h =
      let here = h e (Memᴰ.head refl) in
      let (below, above) = known (lo, hi) refl in
      range_of-IsWithin _ es
        (λ r eq.
          subst (λ (x : ℤ × ℤ). IsWithin bound x.0 × IsWithin bound x.1) (eq_of_some eq)
            (
              either (ltb_ℤ e.seq lo) e.seq lo here below,
              either (ltb_ℤ hi e.seq) e.seq hi here above,
            ))
        λ x m. h x (Memᴰ.tail m)

module _ (bound batch_id : ℕ) where
  HasSeqsWithin-IsTableFact : IsTableFact (HasSeqsWithin bound batch_id)
  unfolding tables
  HasSeqsWithin-IsTableFact v w same h =
      subst (λ (u : World). HasSeqsWithin bound batch_id u) (sym same) h

  abbrev IsBounded : ℤ × ℤ → Type 0
  IsBounded r = IsWithin bound r.0 × IsWithin bound r.1

  seq_range-Holds :
      (side : TrailSide)
      → Holds
          (HasSeqsWithin bound batch_id)
          (seq_range batch_id side)
          (λ r w. HasSeqsWithin bound batch_id w × IsBounded r)
  unfolding seq_range on_side
  seq_range-Holds side = >>=-Holds statement _ (statement-Holds _ HasSeqsWithin-IsTableFact) λ _.
      step-Holds _ (λ r w. HasSeqsWithin bound batch_id w × IsBounded r) _ _
        λ w h. (
          h,
          range_of-IsWithin bound none (keep (on_side batch_id side) w.events)
              (λ r e. absurd (cc e))
              λ e m.
                let kept = (mem-keep e (on_side batch_id side) w.events).0 m in
                let here = kept.1 in h e kept.0 (ground (arith, here)),
        )

  finish_ends : (f : Missing → AlignResult) (m : Option Missing) → m ≢ none → finish f m ≢ none
  unfolding finish
  finish_ends f none ends e = ends refl
  finish_ends f (some m) ends e = absurd (cc e)

  align_range-Holds :
      (fuel : ℕ) (lo hi : ℤ)
      → bound + 1 < fuel
      → bound < 2 ^ 63 - 1
      → IsWithin bound lo
      → IsWithin bound hi
      → Holds (λ _. Unit {0}) (align_range fuel event_getter batch_id lo hi) (λ res _. res ≢ none)
  unfolding align_range
  align_range-Holds fuel lo hi enough small l h =
      >>=-Holds (event_getter.list_by_side batch_id reference none) _ (any-Holds _ _) λ refs.
        >>=-Holds (event_getter.list_by_side batch_id under_test none) _ (any-Holds _ _) λ tests.
          >>=-Holds (mark_aligned event_getter batch_id refs []) _ (any-Holds _ _) λ ref_seqs.
            >>=-Holds (mark_aligned event_getter batch_id tests []) _ (any-Holds _ _) λ test_seqs.
              Holds-pre _
                (λ w _. finish_ends (align_result refs tests lo hi) _ (
                  count_missing_ends fuel bound ref_seqs test_seqs lo hi
                    (record { missing_ref = 0; missing_test = 0 }) enough small l h))
                (pure-Holds (λ (res : Option AlignResult) (_ : World). res ≢ none) _)

  align-Holds :
      (fuel : ℕ)
      → bound + 1 < fuel
      → bound < 2 ^ 63 - 1
      → Holds
          (HasSeqsWithin bound batch_id)
          (align fuel event_getter batch_id)
          (λ res _. res ≢ none)
  unfolding align min64 max64 event_getter seq_range
  align-Holds fuel enough small =
      >>=-Holds {Q = λ r w. HasSeqsWithin bound batch_id w × IsBounded r}
        (event_getter.seq_range batch_id reference) _ (seq_range-Holds reference)
        λ r.
          >>=-Holds {Q = λ t _. IsBounded r × IsBounded t}
            (event_getter.seq_range batch_id under_test) _
            (record {
              after =
                  λ w t v (h, known) e. (known, ((seq_range-Holds under_test).after w t v h e).1);
            })
            λ t.
              if-Holds _ _ _ (λ _. raise-Holds _ _ empty_trails)
                λ _. record {
                  after = λ w a v (hr, ht) e.
                      (align_range-Holds fuel _ _ enough small
                          (either bound (ltb_ℤ r.0 t.0) r.0 t.0 hr.0 ht.0)
                          (either bound (ltb_ℤ t.1 r.1) r.1 t.1 hr.1 ht.1)).after
                        w a v tt e;
                }

  lock_synced-Holds :
      (now : Time) (b : ReplayBatch) (res : Option AlignResult)
      → Holds (λ _. res ≢ none) (lock_synced now b res) (λ out _. out ≢ none)
  unfolding lock_synced
  lock_synced-Holds now b none = record { after = λ w a v ends e. absurd (ends refl) }
  lock_synced-Holds now b (some res) =
      >>=-Holds _ _ (any-Holds _ (lift (lock_range now b res.seq_min res.seq_max))) λ locked.
        >>=-Holds _ _ (any-Holds _ (lift (transition now locked syncing))) λ moved.
          >>=-Holds _ _ (any-Holds _ (update_batch moved)) λ _.
            Holds-pre _ (λ w _ e. absurd (cc e))
              (pure-Holds (λ (out : Option SyncResult) (_ : World). out ≢ none) _)

-- If every event of the batch has a sequence number from 0 to the bound, the bound is below
-- 2^63 - 1 and the fuel is above the bound by two at least, then a synchronisation ends with an
-- error or with its result: its loop never runs out of fuel.
pub sync_ends :
    (fuel bound batch_id : ℕ) (now : Time) (w : World)
    → HasSeqsWithin bound batch_id w
    → bound < 2 ^ 63 - 1
    → bound + 1 < fuel
    → (sync fuel now batch_id w).0 ≢ ok none
unfolding sync
sync_ends fuel bound batch_id now w seqs small enough e =
    (>>=-Holds {Q = λ _ u. HasSeqsWithin bound batch_id u} (get_batch batch_id) _
        (IsQuiet-Holds _ _ (HasSeqsWithin-IsTableFact bound batch_id) (get_batch-IsQuiet batch_id))
        λ b.
          if-Holds {Q = λ out _. out ≢ none} _ _ _ (λ _. raise-Holds _ _ invalid_state)
            λ _.
              >>=-Holds _ _ (align-Holds bound batch_id fuel enough small)
                (lock_synced-Holds bound batch_id now b)).after
      w none (sync fuel now batch_id w).1 seqs (ap (λ r. (r, (sync fuel now batch_id w).1)) e) refl

-- ===== src/Service/Statistics/Totals.antt =====
-- The totals of the statistics.
use task274_replaydivergence.Prelude.{
  ℕ, List, [], ◌∷◌, ◌+◌, ◌≡◌, refl, length, inl, inr, Bool-cases, arith, keep, ◌∙◌, ◌==◌, ap,
}
use task274_replaydivergence.Model.Status.{EventStatus, reference, under_test}
use task274_replaydivergence.Store.Rows.{
  count_by_status, count_one, count_events_by_status, list_checkpoints, get_batch,
}
use task274_replaydivergence.Model.Event.{ExecEvent}
use task274_replaydivergence.Service.Statistics.{
  BatchStats, add_counts, count_sides, stats, blank_stats,
}
use task274_replaydivergence.Store.World.{World}
use task274_replaydivergence.Store.Events.{same_event_status, same_side, on_side}
use task274_replaydivergence.Store.World.Atomic.{tables}
use task274_replaydivergence.Model.Errors.{ok}
use task274_replaydivergence.Model.Checkpoint.{Checkpoint, StateFingerprint}
use task274_replaydivergence.Store.World.Holds.{
  Holds, Holds-pre, >>=-Holds, pure-Holds, IsQuiet-Holds,
}
use task274_replaydivergence.Store.Fingerprints.{count_fingerprints}
use task274_replaydivergence.Model.Batch.{ReplayBatch}
use task274_replaydivergence.Store.Dependencies.{count_dependencies}
use task274_replaydivergence.Store.Divergences.{list_divergences, divergences_of}
use task274_replaydivergence.Model.Divergence.{RwEdge, Divergence}
use task274_replaydivergence.Store.Snapshots.{list_snapshots, snapshots_of}
use task274_replaydivergence.Model.Snapshot.{LocSnapshot}
use task274_replaydivergence.Service.Batches.Import.{get_batch-IsQuiet}
use task274_replaydivergence.Prelude.Sort.{length-sort_on}
use task274_replaydivergence.Prelude.Order.{int_order}
use task274_replaydivergence.Store.World.Reading.{Still, then_reads}

-- The sum of the counts.
total : List (EventStatus × ℕ) → ℕ
total [] = 0
total ((_, n) ∷ counts) = n + total counts

total-count_one :
    (s : EventStatus) (counts : List (EventStatus × ℕ))
    → total (count_one s counts) ≡ 1 + total counts
unfolding total count_one
total-count_one s [] = refl
total-count_one s ((t, n) ∷ counts) = elim (Bool-cases (same_event_status s t)) [
  | inl b ↦ rw b (omega arith)
  | inr b ↦ rw b (omega (arith, total-count_one s counts))
]

total-count_by_status : (es : List ExecEvent) → total (count_by_status es) ≡ length es
unfolding count_by_status total
total-count_by_status [] = refl
total-count_by_status (e ∷ es) =
    omega (arith, total-count_one e.status (count_by_status es), total-count_by_status es)

-- What the statistics of a batch say of the tables.
pub record IsTallied (batch_id : ℕ) (st : BatchStats) (w : World) : Type 0 where
  pub ref_events : st.ref_events ≡ length (keep (on_side batch_id reference) w.events)
  pub test_events : st.test_events ≡ length (keep (on_side batch_id under_test) w.events)
  pub checkpoints :
      st.checkpoints ≡ length (keep (λ (c : Checkpoint). c.batch_id == batch_id) w.checkpoints)
  pub fingerprints :
      st.fingerprints
      ≡ length (keep (λ (f : StateFingerprint). f.batch_id == batch_id) w.fingerprints)
  pub dependencies :
      st.dependencies ≡ length (keep (λ (e : RwEdge). e.batch_id == batch_id) w.dependencies)
  pub divergences :
      st.divergences ≡ length (keep (λ (d : Divergence). d.batch_id == batch_id) w.divergences)
  pub snapshots :
      st.snapshots ≡ length (keep (λ (s : LocSnapshot). s.batch_id == batch_id) w.snapshots)

add_counts-reference :
    (counts : List (EventStatus × ℕ)) (st : BatchStats)
    → ((add_counts reference counts st).ref_events ≡ st.ref_events + total counts)
      × ((add_counts reference counts st).test_events ≡ st.test_events)
unfolding add_counts total same_side
add_counts-reference [] st = (omega arith, refl)
add_counts-reference ((s, n) ∷ counts) st =
    let rest = add_counts-reference counts _ in (rest.0 ∙ omega arith, rest.1)

add_counts-under_test :
    (counts : List (EventStatus × ℕ)) (st : BatchStats)
    → ((add_counts under_test counts st).ref_events ≡ st.ref_events)
      × ((add_counts under_test counts st).test_events ≡ st.test_events + total counts)
unfolding add_counts total same_side
add_counts-under_test [] st = (refl, omega arith)
add_counts-under_test ((s, n) ∷ counts) st =
    let rest = add_counts-under_test counts _ in (rest.0, rest.1 ∙ omega arith)

module _ (start : World) where
  -- The counts of the two sides.
  count_sides-Holds :
      (batch_id : ℕ) (b : ReplayBatch)
      → Holds
          (Still start)
          (count_sides batch_id (reference ∷ under_test ∷ []) (blank_stats batch_id b.status))
          (λ st w.
            Still start w
            × (st.ref_events ≡ length (keep (on_side batch_id reference) start.events))
            × (st.test_events ≡ length (keep (on_side batch_id under_test) start.events)))
  unfolding count_sides count_events_by_status tables blank_stats
  count_sides-Holds batch_id b =
      then_reads start (λ w. count_by_status (keep (on_side batch_id reference) w.events)) _
        (λ w. refl)
        λ refs is_refs.
          then_reads start (λ w. count_by_status (keep (on_side batch_id under_test) w.events)) _
            (λ w. refl)
            λ tests is_tests.
              let blank = blank_stats batch_id b.status in
              let one = add_counts-reference refs blank in
              let ref_sum =
                ap total is_refs
                ∙ total-count_by_status (keep (on_side batch_id reference) start.events) in
              let test_sum =
                ap total is_tests
                ∙ total-count_by_status (keep (on_side batch_id under_test) start.events) in
              let two = add_counts-under_test tests (add_counts reference refs blank) in
              Holds-pre _
                (λ w h.
                  (h, omega (arith, two.0, one.0, ref_sum), omega (arith, two.1, one.1, test_sum)))
                (pure-Holds _ _)

  stats-Holds :
      (batch_id : ℕ) → Holds (Still start) (stats batch_id) (λ st _. IsTallied batch_id st start)
  unfolding stats list_checkpoints count_fingerprints count_dependencies list_divergences
      list_snapshots tables divergences_of snapshots_of
  stats-Holds batch_id =
      >>=-Holds (get_batch batch_id) _
        (IsQuiet-Holds (Still start) _ (λ v w same h. same ∙ h) (get_batch-IsQuiet batch_id))
        λ b. >>=-Holds _ _ (count_sides-Holds batch_id b) λ st. record {
          after = λ w out v p e.
              (then_reads start _ _ (λ w. refl)
                  λ cps is_cps.
                    then_reads start _ _ (λ w. refl)
                      λ fps is_fps.
                        then_reads start _ _ (λ w. refl)
                          λ deps is_deps.
                            then_reads start _ _ (λ w. refl)
                              λ divs is_divs.
                                then_reads start _ _ (λ w. refl)
                                  λ snaps is_snaps.
                                    Holds-pre {P = λ _. IsTallied batch_id _ start} _
                                      (λ u _. record {
                                        ref_events = p.1;
                                        test_events = p.2;
                                        checkpoints = ap length is_cps ∙ length-sort_on _ _;
                                        fingerprints = is_fps;
                                        dependencies = is_deps;
                                        divergences = ap length is_divs ∙ length-sort_on _ _;
                                        snapshots = ap length is_snaps ∙ length-sort_on _ _;
                                      })
                                      (pure-Holds (λ out _. IsTallied batch_id out start) _)).after
                w out v p.0 e;
        }

-- If the statistics succeed, each total is the number of the batch's rows in its table, and the
-- events of a side are counted over all their statuses.
pub stats-IsTallied :
    (batch_id : ℕ) (w v : World) (st : BatchStats)
    → stats batch_id w ≡ (ok st, v)
    → IsTallied batch_id st w
stats-IsTallied batch_id w v st e = (stats-Holds w batch_id).after w st v refl e

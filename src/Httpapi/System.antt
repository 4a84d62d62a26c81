-- ===== src/Httpapi/System.antt =====
-- internal/httpapi/misc_handlers.go: a handler for each route.
use task274_replaydivergence.Prelude.{ℕ, List, [], ◌∷◌, Option, ◌+◌, length}
use task274_replaydivergence.Httpapi.Router.{
  Handler, write_json, healthy, SelfCheckReport, Answer, self_check, error_of,
}
use task274_replaydivergence.Model.Status.{EventStatus, reference, under_test, TrailSide}
use task274_replaydivergence.Model.Errors.{Result, ok, err}
use task274_replaydivergence.Model.Batch.{ReplayBatch}
use task274_replaydivergence.Model.Exec.{Exec, pure, ◌>>=◌}
use task274_replaydivergence.Store.World.{World}
use task274_replaydivergence.Store.Rows.{count_events_by_status, list_batches}

unfoldable pub handle_health : Handler
handle_health = write_json 200 healthy

-- The loop over the counts of one side.
unfoldable pub sum_counts : List (EventStatus × ℕ) → ℕ → ℕ
sum_counts [] n = n
sum_counts ((_, k) ∷ counts) n = sum_counts counts (n + k)

-- The counts of one side, and `continue` where they fail.
unfoldable pub or_skip : ℕ → Result (List (EventStatus × ℕ)) × World → Result ℕ × World
unfolding sum_counts
or_skip n (ok counts, w) = (ok (sum_counts counts n), w)
or_skip n (err e, w) = (ok n, w)

unfoldable pub count_side : ℕ → TrailSide → ℕ → Exec World ℕ
unfolding or_skip
count_side id side n w = or_skip n (count_events_by_status id side w)

-- The loop over the batches and, for each, the sides.
unfoldable pub count_batches : List ReplayBatch → ℕ → Exec World ℕ
unfolding count_side
count_batches [] n = pure n
count_batches (b ∷ bs) n =
    count_side b.id reference n >>= λ k. count_side b.id under_test k >>= λ m. count_batches bs m

unfoldable pub report_batches : Exec World SelfCheckReport
unfolding count_batches
report_batches = list_batches >>= λ bs. count_batches bs 0 >>= λ n. pure (record {
  status = "ok";
  batches = length bs;
  events = n;
  checkpoints = 0;
  fingerprints = 0;
  divergences = 0;
  snapshots = 0;
  message = "";
})

-- Every error of the listing is answered with 500.
unfoldable pub check_all : Result SelfCheckReport × World → Option Answer × World
check_all (ok report, w) = write_json 200 (self_check report) w
check_all (err e, w) = write_json 500 (error_of e) w

unfoldable pub handle_self_check : Handler
unfolding check_all report_batches
handle_self_check w = check_all (report_batches w)

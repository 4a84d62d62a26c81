-- ===== src/Store/Snapshots.antt =====
-- internal/store/snapshot_store.go, over the table of snapshots.
use task274_replaydivergence.Prelude.{
  ℕ, ◌==◌, List, [], ◌∷◌, ◌++◌, keep, map, ◌+◌, none, if◌then◌else◌,
}
use task274_replaydivergence.Prelude.Int.{pos}
use task274_replaydivergence.Model.Snapshot.{LocSnapshot}
use task274_replaydivergence.Store.World.{World, statement}
use task274_replaydivergence.Model.Exec.{Exec, ◌>>=◌}
use task274_replaydivergence.Model.Errors.{Result, err, ok, not_found}
use task274_replaydivergence.Prelude.Sort.{sort_on}
use task274_replaydivergence.Prelude.Order.{int_order}

-- The INSERT writes NULL as the time of publication; the caller's snapshot only gets its id.
unfoldable pub create_snapshot_row : LocSnapshot → Exec World LocSnapshot
create_snapshot_row s = statement >>= λ _. λ (w : World). (
  ok (record s { id = w.next_snapshot }),
  record w {
    snapshots = w.snapshots ++ record s { id = w.next_snapshot; published_at = none } ∷ [];
    next_snapshot = w.next_snapshot + 1;
  },
)

unfoldable pub find_snapshot : ℕ → List LocSnapshot → Result LocSnapshot
find_snapshot id [] = err not_found
find_snapshot id (s ∷ ss) = let rest = find_snapshot id ss in if s.id == id then ok s else rest

unfoldable pub get_snapshot : ℕ → Exec World LocSnapshot
unfolding find_snapshot
get_snapshot id = statement >>= λ _. λ (w : World). (find_snapshot id w.snapshots, w)

-- WHERE batch_id=? ORDER BY id
unfoldable pub snapshots_of : ℕ → List LocSnapshot → List LocSnapshot
snapshots_of batch_id ss =
    sort_on (λ (s : LocSnapshot). pos s.id) (keep (λ (s : LocSnapshot). s.batch_id == batch_id) ss)

unfoldable pub list_snapshots : ℕ → Exec World (List LocSnapshot)
unfolding snapshots_of
list_snapshots batch_id =
    statement >>= λ _. λ (w : World). (ok (snapshots_of batch_id w.snapshots), w)

-- The columns that the UPDATE sets.
unfoldable pub set_snapshot : LocSnapshot → LocSnapshot → LocSnapshot
set_snapshot s old = record old {
  status = s.status;
  summary = s.summary;
  published_at = s.published_at;
  superseded_by = s.superseded_by;
}

unfoldable pub update_snapshot_rows : LocSnapshot → List LocSnapshot → List LocSnapshot
unfolding set_snapshot
update_snapshot_rows s =
    map (λ (old : LocSnapshot). if old.id == s.id then set_snapshot s old else old)

unfoldable pub update_snapshot : LocSnapshot → Exec World (Unit {0})
unfolding update_snapshot_rows
update_snapshot s = statement >>= λ _.
    λ (w : World). (ok tt, record w { snapshots = update_snapshot_rows s w.snapshots })

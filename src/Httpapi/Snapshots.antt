-- ===== src/Httpapi/Snapshots.antt =====
-- internal/httpapi/snapshot_handlers.go: a handler for each route.
use task274_replaydivergence.Prelude.{ℕ, String, Option}
use task274_replaydivergence.Httpapi.Router.{
  Handler, respond, parsed, Setting, all_snapshots, snapshot_view, one_snapshot, SnapshotView,
}
use task274_replaydivergence.Model.Snapshot.{LocSnapshot}
use task274_replaydivergence.Store.Snapshots.{list_snapshots, get_snapshot}
use task274_replaydivergence.Service.Snapshots.{create_snapshot, publish_snapshot}

unfoldable pub handle_create_snapshot : Setting → Option ℕ → String → Handler
handle_create_snapshot s id name =
    parsed id λ i. respond 201 one_snapshot (create_snapshot (s.clock 0) s.stamp i name)

unfoldable pub handle_list_snapshots : Option ℕ → Handler
handle_list_snapshots id = parsed id λ i. respond 200 all_snapshots (list_snapshots i)

unfoldable pub handle_publish_snapshot : Setting → Option ℕ → Option ℕ → Handler
handle_publish_snapshot s id sid =
    parsed id
      λ i. parsed sid λ n. respond 200 one_snapshot (publish_snapshot (s.ctx 0) (s.clock 0) i n)

view_of : LocSnapshot → SnapshotView
view_of snap = record {
  id = snap.id;
  batch_id = snap.batch_id;
  name = snap.name;
  status = snap.status;
  config = snap.config;
  summary = snap.summary;
  created_at = snap.created_at;
}

unfoldable pub handle_get_snapshot : Option ℕ → Handler
unfolding view_of
handle_get_snapshot sid =
    parsed sid λ n. respond 200 (λ snap. snapshot_view (view_of snap)) (get_snapshot n)

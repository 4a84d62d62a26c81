-- ===== src/Service/Preserves/Consistent.antt =====
-- The tables stay consistent under every call of the service.
use task274_replaydivergence.Prelude.{ℕ, ◌≡◌, sym, Bool-cases, arith, inl, inr, refl}
use task274_replaydivergence.Prelude.Rows.{IsAlone-snoc, IsAlone}
use task274_replaydivergence.Service.Preserves.{Preserves}
use task274_replaydivergence.Service.Comparison.{propose}
use task274_replaydivergence.Store.World.{World, statement}
use task274_replaydivergence.Store.World.Keeps.{
  Keeps, write-Keeps, IsQuiet-Keeps, >>=-Keeps, if-Keeps, pure-Keeps,
}
use task274_replaydivergence.Store.Consistent.{
  IsSound, IsSingle, IsConsistent, SamePublished, IsSound-IsTableFact, IsSingle-IsTableFact,
}
use task274_replaydivergence.Model.Exec.{Exec, ◌>>=◌}
use task274_replaydivergence.Store.Events.{
  insert_row, any_row, update_status, at_seq, batch_update_status, update_rows,
}
use task274_replaydivergence.Store.Rows.{
  create_checkpoint, create_batch_row, update_batch, update_checkpoint,
}
use task274_replaydivergence.Store.Snapshots.{create_snapshot_row}
use task274_replaydivergence.Model.Event.{ExecEvent}
use task274_replaydivergence.Model.Checkpoint.{Checkpoint}
use task274_replaydivergence.Store.Divergences.{
  create_divergence, update_divergence, insert_node, delete_chain, list_divergences,
}
use task274_replaydivergence.Model.Snapshot.{LocSnapshot}
use task274_replaydivergence.Model.Status.{draft}
use mathlib.Core.Path.{subst}
use task274_replaydivergence.Store.Fingerprints.{upsert}
use task274_replaydivergence.Store.Dependencies.{insert_edge, delete_edges}
use task274_replaydivergence.Store.Consistent.Inserts.{
  create_batch_row-Keeps, create_checkpoint-Keeps, insert_row-Keeps, upsert-Keeps,
  insert_edge-Keeps, insert_node-Keeps, create_snapshot_row-Keeps,
}
use task274_replaydivergence.Store.Consistent.Updates.{
  update_batch-Keeps, update_checkpoint-Keeps, update_status-Keeps, batch_update_status-Keeps,
  delete_edges-Keeps, update_divergence-Keeps, delete_chain-Keeps,
}
use task274_replaydivergence.Service.Comparison.Single.{propose-Keeps}
use task274_replaydivergence.Service.Snapshots.Single.{publish_snapshot-Keeps}
use task274_replaydivergence.Model.Batch.{Time}
use task274_replaydivergence.Prelude.Int.{ℤ}
use task274_replaydivergence.Service.Snapshots.Lookups.{list_divergences-IsQuiet}

-- What keeps both parts of consistency keeps it.
both : {A : Type 0} (m : Exec World A) → Keeps IsSound m → Keeps IsSingle m → Keeps IsConsistent m
both m sound single = record {
  kept = λ w c. record { sound = sound.kept w c.sound; single = single.kept w c.single };
}

-- A call on other tables than the snapshots.
elsewhere :
    {A : Type 0} (k : Exec World A)
    → ((w : World) → (k w).1.snapshots ≡ w.snapshots)
    → Keeps IsSingle (statement >>= λ _. k)
elsewhere k same =
    write-Keeps k IsSingle-IsTableFact λ w h. subst (IsAlone SamePublished) (sym (same w)) h

insert_row-IsSingle : (e : ExecEvent) → Keeps IsSingle (insert_row e)
unfolding insert_row
insert_row-IsSingle e = record {
  kept = λ w h. elim (Bool-cases (any_row (at_seq e.batch_id e.side e.seq) w.events)) [
    | inl taken ↦ rw taken h
    | inr fresh ↦ rw fresh h
  ];
}

create_checkpoint-IsSingle : (c : Checkpoint) → Keeps IsSingle (create_checkpoint c)
unfolding create_checkpoint
create_checkpoint-IsSingle c = elsewhere _ λ w. ground arith

propose-IsSingle : (now : Time) (batch_id : ℕ) (seq : ℤ) → Keeps IsSingle (propose now batch_id seq)
unfolding propose create_divergence
propose-IsSingle now batch_id seq =
    >>=-Keeps (list_divergences batch_id) _
      (IsQuiet-Keeps _ IsSingle-IsTableFact (list_divergences-IsQuiet batch_id))
      λ existing.
        if-Keeps _ _ _ (pure-Keeps IsSingle tt)
          (>>=-Keeps _ _ (elsewhere _ λ w. refl) λ _. pure-Keeps IsSingle tt)

-- A draft publishes nothing.
create_draft-IsSingle :
    (s : LocSnapshot) → s.status ≡ draft → Keeps IsSingle (create_snapshot_row s)
unfolding create_snapshot_row
create_draft-IsSingle s is_draft = write-Keeps _ IsSingle-IsTableFact λ w h.
    IsAlone-snoc SamePublished w.snapshots _ (λ x m r. absurd (cc (is_draft, r.2)))
      (λ x m r. absurd (cc (is_draft, r.1))) h

-- Consistency is a fact that every write keeps.
pub IsConsistent-Preserves : Preserves IsConsistent
unfolding create_batch_row update_batch update_checkpoint update_status batch_update_status
    update_rows upsert insert_edge delete_edges update_divergence insert_node delete_chain
IsConsistent-Preserves = record {
  fact = λ v w same c. record {
    sound = IsSound-IsTableFact v w same c.sound;
    single = IsSingle-IsTableFact v w same c.single;
  };
  create_batch_row = λ b. both _ (create_batch_row-Keeps b) (elsewhere _ λ w. refl);
  update_batch = λ b. both _ (update_batch-Keeps b) (elsewhere _ λ w. refl);
  create_checkpoint = λ c. both _ (create_checkpoint-Keeps c) (create_checkpoint-IsSingle c);
  update_checkpoint = λ c. both _ (update_checkpoint-Keeps c) (elsewhere _ λ w. refl);
  insert_row = λ e. both _ (insert_row-Keeps e) (insert_row-IsSingle e);
  update_status = λ batch_id id status note.
      both _ (update_status-Keeps batch_id id status note) (elsewhere _ λ w. refl);
  batch_update_status = λ batch_id side status.
      both _ (batch_update_status-Keeps batch_id side status) (elsewhere _ λ w. refl);
  upsert = λ f. both _ (upsert-Keeps f) (elsewhere _ λ w. refl);
  insert_edge = λ e. both _ (insert_edge-Keeps e) (elsewhere _ λ w. refl);
  delete_edges = λ id. both _ (delete_edges-Keeps id) (elsewhere _ λ w. refl);
  propose = λ now batch_id seq.
      both _ (propose-Keeps now batch_id seq) (propose-IsSingle now batch_id seq);
  update_divergence =
      λ d decided. both _ (update_divergence-Keeps d decided) (elsewhere _ λ w. refl);
  insert_node = λ n. both _ (insert_node-Keeps n) (elsewhere _ λ w. refl);
  delete_chain = λ id. both _ (delete_chain-Keeps id) (elsewhere _ λ w. refl);
  create_draft =
      λ s is_draft. both _ (create_snapshot_row-Keeps s) (create_draft-IsSingle s is_draft);
  publish_snapshot =
      λ stopped now batch_id snap_id. publish_snapshot-Keeps now batch_id snap_id stopped;
}

-- ===== src/Service/Snapshots/Lookups.antt =====
-- What the calls that read leave, and what the calls that change a row make of it.
use task274_replaydivergence.Prelude.{
  ◌≡◌, refl, ap, sym, ◌∙◌, inl, inr, ℕ, List, Memᴰ, ◌==◌, [], ◌∷◌, Bool-cases, arith, Option, some,
  none,
}
use task274_replaydivergence.Store.Snapshots.{find_snapshot, get_snapshot}
use task274_replaydivergence.Model.Snapshot.{set_summary, publish, LocSnapshot, SnapshotSummary}
use task274_replaydivergence.Store.Divergences.{list_divergences, max_depth}
use task274_replaydivergence.Service.Snapshots.{summary_of, or_zero, located_depth}
use task274_replaydivergence.Store.World.Atomic.{tables}
use task274_replaydivergence.Model.Batch.{Time}
use task274_replaydivergence.Store.World.Quiet.{
  IsQuiet, >>=-IsQuiet, statement-IsQuiet, pure-IsQuiet, read-IsQuiet,
}
use task274_replaydivergence.Store.World.{World, statement}
use task274_replaydivergence.Model.Errors.{ok, Result, ok-injective, err}
use task274_replaydivergence.Model.Status.{published}
use task274_replaydivergence.Model.Divergence.{Divergence}

pub find_snapshot-Memᴰ :
    (id : ℕ) (ss : List LocSnapshot) (s : LocSnapshot)
    → find_snapshot id ss ≡ ok s
    → Memᴰ s ss × (s.id ≡ id)
unfolding find_snapshot
find_snapshot-Memᴰ id [] s h = absurd (cc h)
find_snapshot-Memᴰ id (x ∷ xs) s h = elim (Bool-cases (x.id == id)) [
  | inl b ↦
      let e = ok-injective (rw b at h) in
      (Memᴰ.head (sym e), sym (ap (λ (y : LocSnapshot). y.id) e) ∙ ground (arith, b))
  | inr b ↦ let rest = find_snapshot-Memᴰ id xs s (rw b at h) in (Memᴰ.tail rest.0, rest.1)
]

pub set_summary-id :
    (s t : LocSnapshot) (sum : SnapshotSummary) → set_summary s sum ≡ ok t → t.id ≡ s.id
unfolding set_summary
set_summary-id s t sum h = ground (arith, h)

pub publish-status :
    (now : Time) (s t : LocSnapshot) → publish now s ≡ ok t → (t.id ≡ s.id) × (t.status ≡ published)
unfolding publish
publish-status now s t h = ground (arith, h)

pub list_divergences-IsQuiet : (batch_id : ℕ) → IsQuiet (list_divergences batch_id)
unfolding list_divergences
list_divergences-IsQuiet batch_id = >>=-IsQuiet statement _ statement-IsQuiet λ _. read-IsQuiet _

pub get_snapshot-IsQuiet : (id : ℕ) → IsQuiet (get_snapshot id)
unfolding get_snapshot
get_snapshot-IsQuiet id = >>=-IsQuiet statement _ statement-IsQuiet λ _. read-IsQuiet _

max_depth-IsQuiet : (div_id : ℕ) → IsQuiet (max_depth div_id)
unfolding max_depth
max_depth-IsQuiet div_id = >>=-IsQuiet statement _ statement-IsQuiet λ _. read-IsQuiet _

or_zero_world : (p : Result ℕ × World) → (or_zero p).1 ≡ p.1
unfolding or_zero
or_zero_world (ok depth, w) = refl
or_zero_world (err e, w) = refl

pub summary_of-IsQuiet : (count : ℕ) (d : Option Divergence) → IsQuiet (summary_of count d)
unfolding summary_of located_depth
summary_of-IsQuiet count none = pure-IsQuiet _
summary_of-IsQuiet count (some d) =
    >>=-IsQuiet (located_depth d.id) _
      (record {
        same = λ w. ap tables (or_zero_world (max_depth d.id w)) ∙ (max_depth-IsQuiet d.id).same w;
      })
      λ depth. pure-IsQuiet _

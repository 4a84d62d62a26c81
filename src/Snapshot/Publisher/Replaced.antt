-- ===== src/Snapshot/Publisher/Replaced.antt =====
-- What `SupersedePrevious` leaves behind.
use task274_replaydivergence.Prelude.{ℕ, ◌≡◌, refl, ◌≢◌, List, [], ◌∷◌, map}
use task274_replaydivergence.Model.Status.{SnapshotStatus, published, superseded, draft}
use task274_replaydivergence.Model.Snapshot.{LocSnapshot, supersede}
use task274_replaydivergence.Snapshot.Publisher.{
  Replacement, supersede_previous, replace_one, replace, settle,
}

-- The published snapshots of a list, in their order.
published_or_not : SnapshotStatus → LocSnapshot → List LocSnapshot → List LocSnapshot
published_or_not published s rest = s ∷ rest
published_or_not _ s rest = rest

unfoldable pub published_of : List LocSnapshot → List LocSnapshot
unfolding published_or_not
published_of [] = []
published_of (s ∷ rest) = published_or_not s.status s (published_of rest)

-- The snapshot after its replacement by the snapshot `new_id`: all else is as it was.
abbrev pub replaced_by : ℕ → LocSnapshot → LocSnapshot
replaced_by new_id s = record s { status = superseded; superseded_by = new_id }

-- A published snapshot is replaced, any other one stays as it is.
abbrev pub IsFateOf : ℕ → LocSnapshot → LocSnapshot → Type 0
IsFateOf new_id s t =
    (s.status ≡ published → t ≡ replaced_by new_id s) × (s.status ≢ published → t ≡ s)

-- The lists correspond one to one.
abbrev pub Each₂ :
    (LocSnapshot → LocSnapshot → Type 0) → List LocSnapshot → List LocSnapshot → Type 0
Each₂ R [] [] = Unit
Each₂ R (s ∷ ss) (t ∷ ts) = R s t × Each₂ R ss ts
Each₂ R [] (t ∷ ts) = ⊥
Each₂ R (s ∷ ss) [] = ⊥

-- What the calls on the rest of the list have left is carried over one snapshot.
pub record IsExact (new_id : ℕ) (ss : List LocSnapshot) (r : Replacement) : Type 0 where
  pub none_public : published_of r.existing ≡ []
  pub reported : r.updated ≡ map (replaced_by new_id) (published_of ss)
  pub fates : Each₂ (IsFateOf new_id) ss r.existing

replace_one-IsExact :
    (new_id : ℕ) (s : LocSnapshot) (ss : List LocSnapshot) (status : SnapshotStatus)
    (r : Replacement)
    → s.status ≡ status
    → IsExact new_id ss r
    → IsExact new_id (s ∷ ss) (replace_one new_id s status r)
unfolding replace_one replace settle supersede published_of published_or_not
replace_one-IsExact new_id s ss published r e h = record {
  none_public = rw e h.none_public;
  reported = rw e (rw h.reported refl);
  fates = ((λ p. rw e refl, λ n. absurd (n e)), h.fates);
}
replace_one-IsExact new_id s ss draft r e h = record {
  none_public = rw e h.none_public;
  reported = rw e h.reported;
  fates = ((λ p. cc (p, e), λ n. refl), h.fates);
}
replace_one-IsExact new_id s ss superseded r e h = record {
  none_public = rw e h.none_public;
  reported = rw e h.reported;
  fates = ((λ p. cc (p, e), λ n. refl), h.fates);
}

-- After the loop no snapshot of the list is published; the list of updates holds exactly the ones
-- that were, replaced by the new one; every other snapshot is unchanged.
pub supersede_previous-IsExact :
    (ss : List LocSnapshot) (new_id : ℕ) → IsExact new_id ss (supersede_previous ss new_id)
unfolding supersede_previous published_of
supersede_previous-IsExact [] new_id = record { none_public = refl; reported = refl; fates = tt }
supersede_previous-IsExact (s ∷ ss) new_id =
    replace_one-IsExact new_id s ss s.status (supersede_previous ss new_id) refl
      (supersede_previous-IsExact ss new_id)

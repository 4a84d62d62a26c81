-- ===== src/Model/Status.antt =====
-- internal/model/errors.go: the status types, and the table of legal moves of a batch. A type that
-- a request may fill with any text has a constructor for the texts that the code does not name.
use task274_replaydivergence.Prelude.{String, Bool, true, false, ◌||◌, List, [], ◌∷◌}

pub data BatchStatus : Type 0 where
  receiving syncing pending_loc confirmed sealed : BatchStatus

pub data TrailSide : Type 0 where
  reference under_test : TrailSide
  unknown_side : String → TrailSide

pub data EventStatus : Type 0 where
  raw aligned divergent missing excluded : EventStatus

pub data FingerprintScope : Type 0 where
  register memory full : FingerprintScope
  other_scope : String → FingerprintScope

pub data DivergenceStatus : Type 0 where
  candidate first_divergence dependency_propagated insufficient_evidence : DivergenceStatus
  confirmed : DivergenceStatus

pub data SnapshotStatus : Type 0 where
  draft published superseded : SnapshotStatus

-- `==` on the statuses.
unfoldable pub same_status : BatchStatus → BatchStatus → Bool
same_status receiving receiving = true
same_status syncing syncing = true
same_status pending_loc pending_loc = true
same_status BatchStatus.confirmed BatchStatus.confirmed = true
same_status sealed sealed = true
same_status _ _ = false

unfoldable pub valid_trail_sides : List TrailSide
valid_trail_sides = reference ∷ under_test ∷ []

unfoldable pub is_valid_trail_side : TrailSide → Bool
is_valid_trail_side reference = true
is_valid_trail_side under_test = true
is_valid_trail_side (unknown_side _) = false

unfoldable pub batch_transitions : BatchStatus → List BatchStatus
batch_transitions receiving = syncing ∷ []
batch_transitions syncing = pending_loc ∷ receiving ∷ []
batch_transitions pending_loc = BatchStatus.confirmed ∷ receiving ∷ []
batch_transitions BatchStatus.confirmed = sealed ∷ receiving ∷ []
batch_transitions sealed = []

-- The loop of `CanTransitionBatch`.
any_status : BatchStatus → List BatchStatus → Bool
any_status to [] = false
any_status to (next ∷ rest) = same_status next to || any_status to rest

unfoldable pub can_transition_batch : BatchStatus → BatchStatus → Bool
unfolding any_status same_status batch_transitions
can_transition_batch from to = any_status to (batch_transitions from)

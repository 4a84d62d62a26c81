-- ===== src/Model/Checkpoint.antt =====
-- internal/model/checkpoint.go and fingerprint.go.
use task274_replaydivergence.Prelude.{ℕ, String, Bool, not, ◌&&◌, str_eq}
use task274_replaydivergence.Prelude.Int.{ℤ}
use task274_replaydivergence.Prelude.StrMap.{StrMap}
use task274_replaydivergence.Model.Batch.{Time}
use task274_replaydivergence.Model.Status.{
  TrailSide, FingerprintScope, register, memory, full, other_scope,
}

pub data CheckpointKind : Type 0 where
  register_kind memory_kind full_kind : CheckpointKind
  other_kind : String → CheckpointKind

pub record Checkpoint : Type 0 where
  pub id : ℕ
  pub batch_id : ℕ
  pub seq : ℤ
  pub kind : CheckpointKind
  pub values : StrMap String
  pub status : String
  pub reason : String
  pub created_at : Time

unfoldable pub is_unreliable : Checkpoint → Bool
is_unreliable c = str_eq c.status "unreliable"

scope_of_kind : CheckpointKind → FingerprintScope
scope_of_kind register_kind = register
scope_of_kind memory_kind = memory
scope_of_kind full_kind = full
scope_of_kind (other_kind s) = other_scope s

unfoldable pub scope : Checkpoint → FingerprintScope
unfolding scope_of_kind
scope c = scope_of_kind c.kind

unfoldable pub mark_unreliable : Checkpoint → String → Checkpoint
mark_unreliable c reason = record c { status = "unreliable"; reason = reason }

unfoldable pub trusted : Checkpoint → Checkpoint
trusted c = record c { status = "trusted"; reason = "" }

pub record StateFingerprint : Type 0 where
  pub id : ℕ
  pub batch_id : ℕ
  pub side : TrailSide
  pub seq : ℤ
  pub scope : FingerprintScope
  pub hash : String
  pub algo : String
  pub created_at : Time

pub record FingerprintPair : Type 0 where
  pub seq : ℤ
  pub scope : FingerprintScope
  pub ref_hash : String
  pub test_hash : String
  pub matched : Bool

unfoldable pub is_match : FingerprintPair → Bool
is_match p = str_eq p.ref_hash p.test_hash && not (str_eq p.ref_hash "")

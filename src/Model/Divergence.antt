-- ===== src/Model/Divergence.antt =====
-- internal/model/divergence.go: dependency edges, divergences and the nodes of a chain.
use task274_replaydivergence.Prelude.{ℕ, String}
use task274_replaydivergence.Prelude.Int.{ℤ}
use task274_replaydivergence.Model.Batch.{Time}
use task274_replaydivergence.Model.Status.{TrailSide, DivergenceStatus}

pub record RwEdge : Type 0 where
  pub id : ℕ
  pub batch_id : ℕ
  pub resource : String
  pub writer_seq : ℤ
  pub writer_pc : String
  pub writer_op : String
  pub reader_seq : ℤ
  pub reader_pc : String
  pub reader_op : String

-- The texts that the tracer writes; the last is formatted from its three values.
pub data RootCause : Type 0 where
  blank no_resources never_written : RootCause
  first_instruction : ℤ → String → String → RootCause

-- The `Evidence` texts of `TraceDivergence`.
pub data Evidence : Type 0 where
  no_evidence no_difference : Evidence
  diff_resources : ℕ → ℤ → String → String → Evidence

pub record Divergence : Type 0 where
  pub id : ℕ
  pub batch_id : ℕ
  pub checkpoint_seq : ℤ
  pub status : DivergenceStatus
  pub first_divergent_seq : ℤ
  pub first_divergent_pc : String
  pub first_divergent_op : String
  pub root_cause : RootCause
  pub evidence : Evidence
  pub created_at : Time
  pub updated_at : Time

pub data Role : Type 0 where
  writer reader : Role

pub record ChainEdge : Type 0 where
  pub id : ℕ
  pub divergence_id : ℕ
  pub depth : ℕ
  pub side : TrailSide
  pub seq : ℤ
  pub pc : String
  pub opcode : String
  pub resource : String
  pub role : Role

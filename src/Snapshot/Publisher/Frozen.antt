-- ===== src/Snapshot/Publisher/Frozen.antt =====
-- What `Build` freezes.
use mathlib.Core.List.{Perm, append-nil, append_assoc}
use task274_replaydivergence.Prelude.{◌≡◌, refl, List, [], ◌∷◌, ◌++◌, sym, ap, ◌∙◌}
use task274_replaydivergence.Prelude.Int.{ℤ}
use task274_replaydivergence.Prelude.Order.{int_order}
use task274_replaydivergence.Prelude.Sort.{IsSorted, sort_on-IsSorted, sort_on-perm, sort_on}
use task274_replaydivergence.Prelude.Unique.{itself}
use task274_replaydivergence.Model.Batch.{ReplayBatch}
use task274_replaydivergence.Model.Snapshot.{SnapshotConfig}
use task274_replaydivergence.Snapshot.Publisher.{
  ConfigAssembler, new_config_assembler, add_checkpoint, add_unreliable, add_excluded, build,
}
use mathlib.Core.Path.{subst}

-- One registration.
pub data Entry : Type 0 where
  trusted doubted dropped : ℤ → Entry

pub register : ConfigAssembler → List Entry → ConfigAssembler
unfolding add_checkpoint add_unreliable add_excluded
register a [] = a
register a (trusted q ∷ es) = register (add_checkpoint a q) es
register a (doubted q ∷ es) = register (add_unreliable a q) es
register a (dropped q ∷ es) = register (add_excluded a q) es

pub trusted_of : List Entry → List ℤ
trusted_of [] = []
trusted_of (trusted q ∷ es) = q ∷ trusted_of es
trusted_of (doubted q ∷ es) = trusted_of es
trusted_of (dropped q ∷ es) = trusted_of es

pub doubted_of : List Entry → List ℤ
doubted_of [] = []
doubted_of (trusted q ∷ es) = doubted_of es
doubted_of (doubted q ∷ es) = q ∷ doubted_of es
doubted_of (dropped q ∷ es) = doubted_of es

pub dropped_of : List Entry → List ℤ
dropped_of [] = []
dropped_of (trusted q ∷ es) = dropped_of es
dropped_of (doubted q ∷ es) = dropped_of es
dropped_of (dropped q ∷ es) = q ∷ dropped_of es

record IsCollected (a : ConfigAssembler) (es : List Entry) (b : ConfigAssembler) : Type 0 where
  pub batch : b.batch ≡ a.batch
  pub trusted_seqs : b.checkpoint_seqs ≡ a.checkpoint_seqs ++ trusted_of es
  pub doubted_seqs : b.unreliable ≡ a.unreliable ++ doubted_of es
  pub dropped_seqs : b.excluded ≡ a.excluded ++ dropped_of es

register-IsCollected : (a : ConfigAssembler) (es : List Entry) → IsCollected a es (register a es)
unfolding register trusted_of doubted_of dropped_of add_checkpoint add_unreliable add_excluded
register-IsCollected a [] = record {
  batch = refl;
  trusted_seqs = sym (append-nil _);
  doubted_seqs = sym (append-nil _);
  dropped_seqs = sym (append-nil _);
}
register-IsCollected a (trusted q ∷ es) =
    let h = register-IsCollected (add_checkpoint a q) es in
    record {
      batch = h.batch;
      trusted_seqs = h.trusted_seqs ∙ append_assoc a.checkpoint_seqs (q ∷ []) (trusted_of es);
      doubted_seqs = h.doubted_seqs;
      dropped_seqs = h.dropped_seqs;
    }
register-IsCollected a (doubted q ∷ es) =
    let h = register-IsCollected (add_unreliable a q) es in
    record {
      batch = h.batch;
      doubted_seqs = h.doubted_seqs ∙ append_assoc a.unreliable (q ∷ []) (doubted_of es);
      trusted_seqs = h.trusted_seqs;
      dropped_seqs = h.dropped_seqs;
    }
register-IsCollected a (dropped q ∷ es) =
    let h = register-IsCollected (add_excluded a q) es in
    record {
      batch = h.batch;
      dropped_seqs = h.dropped_seqs ∙ append_assoc a.excluded (q ∷ []) (dropped_of es);
      trusted_seqs = h.trusted_seqs;
      doubted_seqs = h.doubted_seqs;
    }

-- What a configuration must be for the registrations of a batch.
pub record IsFrozen (b : ReplayBatch) (es : List Entry) (c : SnapshotConfig) : Type 0 where
  pub range : (c.seq_min ≡ b.seq_min) × (c.seq_max ≡ b.seq_max) × (c.hash_algo ≡ b.hash_algo)
  pub trusted_order : IsSorted itself c.checkpoint_seqs
  pub trusted_same : Perm c.checkpoint_seqs (trusted_of es)
  pub doubted_order : IsSorted itself c.unreliable_seqs
  pub doubted_same : Perm c.unreliable_seqs (doubted_of es)
  pub dropped_order : IsSorted itself c.excluded_seqs
  pub dropped_same : Perm c.excluded_seqs (dropped_of es)

-- However the registrations are interleaved, the configuration has the range and the algorithm of
-- the batch, and each of its three lists is in order and holds exactly the numbers registered for
-- it.
pub build-IsFrozen :
    (b : ReplayBatch) (es : List Entry)
    → IsFrozen b es (build (register (new_config_assembler b) es))
unfolding build new_config_assembler
build-IsFrozen b es =
    let h = register-IsCollected (new_config_assembler b) es in
    let a = register (new_config_assembler b) es in
    record {
      range =
          (ap (λ x. x.seq_min) h.batch, ap (λ x. x.seq_max) h.batch, ap (λ x. x.hash_algo) h.batch);
      trusted_order = sort_on-IsSorted itself a.checkpoint_seqs;
      trusted_same =
          subst (λ l. Perm (sort_on itself a.checkpoint_seqs) l) h.trusted_seqs
            (sort_on-perm itself a.checkpoint_seqs);
      doubted_order = sort_on-IsSorted itself a.unreliable;
      doubted_same =
          subst (λ l. Perm (sort_on itself a.unreliable) l) h.doubted_seqs
            (sort_on-perm itself a.unreliable);
      dropped_order = sort_on-IsSorted itself a.excluded;
      dropped_same =
          subst (λ l. Perm (sort_on itself a.excluded) l) h.dropped_seqs
            (sort_on-perm itself a.excluded);
    }

-- ===== src/Store/Rows/Written.antt =====
-- The row of a batch: its reading and its UPDATE.
use task274_replaydivergence.Prelude.{
  ℕ, List, [], ◌∷◌, ◌≡◌, ap, Bool-cases, map, ◌∙◌, ◌==◌, if◌then◌else◌, inl, sym, inr, refl, arith,
}
use task274_replaydivergence.Store.Rows.{find_batch, get_batch, update_batch, set_batch}
use task274_replaydivergence.Model.Status.{BatchStatus}
use task274_replaydivergence.Store.World.Atomic.{tables}
use task274_replaydivergence.Model.Batch.{ReplayBatch}
use task274_replaydivergence.Store.World.Holds.{
  Holds, IsTableFact, >>=-Holds, any-Holds, statement-Holds, read-Holds, rows-IsTableFact,
  step-Holds,
}
use task274_replaydivergence.Store.World.{World, statement}
use task274_replaydivergence.Model.Errors.{ok, ok-injective}

pub find_batch-id :
    (id : ℕ) (bs : List ReplayBatch) (b : ReplayBatch) → find_batch id bs ≡ ok b → b.id ≡ id
unfolding find_batch
find_batch-id id [] b h = absurd (cc h)
find_batch-id id (x ∷ xs) b h = elim (Bool-cases (x.id == id)) [
  | inl c ↦ sym (ap (λ (y : ReplayBatch). y.id) (ok-injective (rw c at h))) ∙ ground (arith, c)
  | inr c ↦ find_batch-id id xs b (rw c at h)
]

-- The row of a batch after its UPDATE has the status that was written.
pub find_batch-set :
    (moved : ReplayBatch) (bs : List ReplayBatch) (b : ReplayBatch)
    → find_batch moved.id bs ≡ ok b
    → (b' : ReplayBatch) × (find_batch moved.id
          (map (λ (old : ReplayBatch). if old.id == moved.id then set_batch moved old else old) bs)
        ≡ ok b')
      × (b'.status ≡ moved.status)
unfolding find_batch set_batch
find_batch-set moved [] b h = absurd (cc h)
find_batch-set moved (x ∷ xs) b h = elim (Bool-cases (x.id == moved.id)) [
  | inl c ↦ (set_batch moved x, rw c (rw c refl), refl)
  | inr c ↦ let (b', found, e) = find_batch-set moved xs b (rw c at h) in (b', rw c (rw c found), e)
]

-- The batch that a reading returns is stored.
pub get_batch-Holds :
    (id : ℕ) → Holds (λ _. Unit {0}) (get_batch id) (λ b w. find_batch id w.batches ≡ ok b)
unfolding get_batch
get_batch-Holds id = >>=-Holds statement _ (any-Holds _ statement) λ _.
    read-Holds (λ b w. find_batch id w.batches ≡ ok b) (λ w. find_batch id w.batches) λ b w _ e. e

-- Once a batch has moved and the move is stored, the stored row has the new status.
pub record IsStoredAs (id : ℕ) (status : BatchStatus) (w : World) : Type 0 where
  pub batch : ReplayBatch
  pub found : find_batch id w.batches ≡ ok batch
  pub has : batch.status ≡ status

pub IsStoredAs-IsTableFact : (id : ℕ) (status : BatchStatus) → IsTableFact (IsStoredAs id status)
unfolding tables
IsStoredAs-IsTableFact id status v w same h = record {
  batch = h.batch;
  found = ap (λ (u : World). find_batch id u.batches) same ∙ h.found;
  has = h.has;
}

pub update_batch-Holds :
    (id : ℕ) (b moved : ReplayBatch)
    → moved.id ≡ id
    → Holds
        (λ w. find_batch id w.batches ≡ ok b)
        (update_batch moved)
        (λ _. IsStoredAs id moved.status)
unfolding update_batch
update_batch-Holds id b moved own =
    >>=-Holds statement _ (statement-Holds _ (rows-IsTableFact λ _ bs. find_batch id bs ≡ ok b))
      λ _.
        step-Holds _ (λ _. IsStoredAs id moved.status) _ _
          λ w h.
            let set = find_batch-set moved w.batches b (rw own h) in
            record { batch = set.0; found = rw⁻¹ own set.1; has = set.2 }

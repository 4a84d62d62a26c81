-- ===== src/Model/Batch/Lifecycle.antt =====
-- The life of a batch (README.md): what `Transition` allows, over any list of requests.
use task274_replaydivergence.Prelude.{
  ◌≡◌, refl, ◌↔◌, inl, inr, true, List, [], ◌∷◌, arith, Bool-cases, sym, ap,
}
use task274_replaydivergence.Model.Errors.{Result, ok, err, invalid_state, ok-injective}
use task274_replaydivergence.Model.Status.{
  BatchStatus, receiving, syncing, pending_loc, confirmed, sealed, can_transition_batch,
}
use task274_replaydivergence.Model.Batch.{Time, ReplayBatch, transition}

-- The diagram of the README, with the way back to `receiving` of an unfinished batch.
infix 40 ◌⟶◌
pub data ◌⟶◌ : BatchStatus → BatchStatus → Type 0 where
  start_sync : receiving ⟶ syncing
  compared : syncing ⟶ pending_loc
  located : pending_loc ⟶ confirmed
  seal : confirmed ⟶ sealed
  reopen_syncing : syncing ⟶ receiving
  reopen_pending : pending_loc ⟶ receiving
  reopen_confirmed : confirmed ⟶ receiving

ruleset moves =
    (start_sync, compared, located, seal, reopen_syncing, reopen_pending, reopen_confirmed)

move_sound : (s t : BatchStatus) → can_transition_batch s t ≡ true → s ⟶ t
unfolding can_transition_batch
move_sound s t h = grind (arith, moves)

move_complete : {s t : BatchStatus} → s ⟶ t → can_transition_batch s t ≡ true
unfolding can_transition_batch
move_complete start_sync = refl
move_complete compared = refl
move_complete located = refl
move_complete seal = refl
move_complete reopen_syncing = refl
move_complete reopen_pending = refl
move_complete reopen_confirmed = refl

-- The transition table is exactly the diagram.
can_transition_batch_iff : (s t : BatchStatus) → (can_transition_batch s t ≡ true) ↔ s ⟶ t
can_transition_batch_iff s t = (move_sound s t, move_complete)

-- A list of requested targets; a refused one changes nothing.
accept : ReplayBatch → Result ReplayBatch → ReplayBatch
accept b (ok b') = b'
accept b (err e) = b

unfoldable pub requests : Time → ReplayBatch → List BatchStatus → ReplayBatch
unfolding accept
requests now b [] = b
requests now b (to ∷ rest) = requests now (accept b (transition now b to)) rest

-- `Subseq xs ys`: `xs` is `ys` with some elements left out.
pub data Subseq : List BatchStatus → List BatchStatus → Type 0 where
  done : {ys : List BatchStatus} → Subseq [] ys
  skip : {xs ys : List BatchStatus} {y : BatchStatus} → Subseq xs ys → Subseq xs (y ∷ ys)
  take : {xs ys : List BatchStatus} {x : BatchStatus} → Subseq xs ys → Subseq (x ∷ xs) (x ∷ ys)

-- What is left of the way to `sealed`.
abbrev pub way_to_sealed : BatchStatus → List BatchStatus
way_to_sealed receiving = syncing ∷ pending_loc ∷ confirmed ∷ sealed ∷ []
way_to_sealed syncing = pending_loc ∷ confirmed ∷ sealed ∷ []
way_to_sealed pending_loc = confirmed ∷ sealed ∷ []
way_to_sealed confirmed = sealed ∷ []
way_to_sealed sealed = []

drop_head : {x : BatchStatus} {xs ys : List BatchStatus} → Subseq (x ∷ xs) ys → Subseq xs ys
drop_head (skip s) = skip (drop_head s)
drop_head (take s) = skip s

-- One accepted move uses up at most the head of what is left.
move-way :
    {s t : BatchStatus} {rest : List BatchStatus}
    → s ⟶ t
    → Subseq (way_to_sealed t) rest
    → Subseq (way_to_sealed s) (t ∷ rest)
move-way start_sync h = take h
move-way compared h = take h
move-way located h = take h
move-way seal h = take h
move-way reopen_syncing h = skip (drop_head h)
move-way reopen_pending h = skip (drop_head (drop_head h))
move-way reopen_confirmed h = skip (drop_head (drop_head (drop_head h)))

module _ (now : Time) where
  request-way :
      (b : ReplayBatch) (to : BatchStatus) (rest : List BatchStatus)
      → Subseq (way_to_sealed (accept b (transition now b to)).status) rest
      → Subseq (way_to_sealed b.status) (to ∷ rest)
  unfolding accept transition
  request-way b to rest h = elim (Bool-cases (can_transition_batch b.status to)) [
    | inl p ↦ move-way (move_sound b.status to p) (rw p at h)
    | inr p ↦ skip (rw p at h)
  ]

  -- A batch that any list of requested transitions leaves sealed was asked for every stage
  -- between its own status and sealed, in the order of the diagram.
  pub sealed_needs_all_stages :
      (reqs : List BatchStatus) (b : ReplayBatch)
      → (requests now b reqs).status ≡ sealed
      → Subseq (way_to_sealed b.status) reqs
  unfolding requests
  sealed_needs_all_stages [] b h = rw h done
  sealed_needs_all_stages (to ∷ rest) b h =
      request-way b to rest (sealed_needs_all_stages rest (accept b (transition now b to)) h)

  sealed_refuses :
      (b : ReplayBatch) (to : BatchStatus)
      → b.status ≡ sealed
      → transition now b to ≡ err invalid_state
  unfolding transition can_transition_batch
  sealed_refuses b to h = rw h

  -- A sealed batch refuses every transition, so no list of requests changes any of its fields.
  sealed_is_final :
      (reqs : List BatchStatus) (b : ReplayBatch) → b.status ≡ sealed → requests now b reqs ≡ b
  unfolding requests accept
  sealed_is_final [] b h = refl
  sealed_is_final (to ∷ rest) b h = rw (sealed_refuses b to h) (sealed_is_final rest b h)

-- A transition that succeeds sets the status and keeps the id.
pub transition-status :
    (now : Time) (b moved : ReplayBatch) (to : BatchStatus)
    → transition now b to ≡ ok moved
    → (moved.status ≡ to) × (moved.id ≡ b.id)
unfolding transition
transition-status now b moved to h = elim (Bool-cases (can_transition_batch b.status to)) [
  | inl p ↦
      let e = ok-injective (rw p at h) in
      (sym (ap (λ (x : ReplayBatch). x.status) e), sym (ap (λ (x : ReplayBatch). x.id) e))
  | inr p ↦ absurd (cc (rw p at h))
]

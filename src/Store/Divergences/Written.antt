-- ===== src/Store/Divergences/Written.antt =====
-- The row of a divergence after its UPDATE.
use task274_replaydivergence.Store.Divergences.{find_divergence, set_divergence}
use task274_replaydivergence.Prelude.{
  ℕ, List, ◌≡◌, ◌∷◌, map, Bool-cases, if◌then◌else◌, ◌==◌, ◌&&◌, inl, sym, ap, ◌∙◌, arith, inr, [],
}
use task274_replaydivergence.Model.Divergence.{Divergence}
use task274_replaydivergence.Model.Errors.{ok, ok-injective}

pub find_divergence-id :
    (batch_id id : ℕ) (ds : List Divergence) (d : Divergence)
    → find_divergence batch_id id ds ≡ ok d
    → d.id ≡ id
unfolding find_divergence
find_divergence-id batch_id id [] d h = absurd (cc h)
find_divergence-id batch_id id (x ∷ xs) d h =
    elim (Bool-cases ((x.batch_id == batch_id) && (x.id == id))) [
      | inl c ↦ sym (ap (λ (y : Divergence). y.id) (ok-injective (rw c at h))) ∙ ground (arith, c)
      | inr c ↦ find_divergence-id batch_id id xs d (rw c at h)
    ]

-- A row that is overwritten in its columns is found as it was written.
pub find_divergence-set :
    (batch_id : ℕ) (d old : Divergence) (ds : List Divergence)
    → set_divergence d old ≡ d
    → find_divergence batch_id d.id ds ≡ ok old
    → find_divergence batch_id d.id
        (map (λ (x : Divergence). if x.id == d.id then set_divergence d x else x) ds)
      ≡ ok d
unfolding find_divergence set_divergence
find_divergence-set batch_id d old [] same h = absurd (cc h)
find_divergence-set batch_id d old (x ∷ xs) same h = elim (Bool-cases (x.id == d.id)) [
  | inl c ↦ elim (Bool-cases (x.batch_id == batch_id)) [
    | inl b ↦
        let here : x ≡ old = ok-injective (rw (b, c) at h) in
        rw c (rw (b, c) (ap ok (ap (set_divergence d) here ∙ same)))
    | inr b ↦ rw c (rw b (find_divergence-set batch_id d old xs same (rw b at h)))
  ]
  | inr c ↦ elim (Bool-cases (x.batch_id == batch_id)) [
    | inl b ↦ rw c (rw (b, c) (find_divergence-set batch_id d old xs same (rw (b, c) at h)))
    | inr b ↦ rw c (rw b (find_divergence-set batch_id d old xs same (rw b at h)))
  ]
]

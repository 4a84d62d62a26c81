-- ===== src/Service/Comparison/Counted.antt =====
-- The verdicts of the pairs and the counters.
use task274_replaydivergence.Prelude.{
  ◌≡◌, All, List, ◌++◌, ◌∷◌, [], arith, length-append, if◌then◌else◌, Bool, not, true, eq_iff,
  length, ◌↔◌, keep, ◌≢◌, ◌+◌,
}
use task274_replaydivergence.Service.Comparison.{Tally, add_pair}
use task274_replaydivergence.Model.Checkpoint.{FingerprintPair, is_match}
use task274_replaydivergence.Prelude.Order.{int_order}
use task274_replaydivergence.Service.Comparison.Proposals.{IsCounted}

-- The verdict: the two hashes are the same and not empty.
abbrev pub IsVerdict : FingerprintPair → Type 0
IsVerdict p = (p.matched ≡ true) ↔ ((p.ref_hash ≡ p.test_hash) × (p.ref_hash ≢ ""))

pub is_match-IsVerdict : (p : FingerprintPair) → IsVerdict (record p { matched = is_match p })
unfolding is_match
is_match-IsVerdict p = ground (arith, eq_iff p.ref_hash p.test_hash, eq_iff p.ref_hash "")

length-keep-append {ℓ} :
    {A : Type ℓ} (q : A → Bool) (xs : List A) (x : A)
    → length (keep q (xs ++ x ∷ [])) ≡ (if q x then length (keep q xs) + 1 else length (keep q xs))
length-keep-append q [] x = ground arith
length-keep-append q (y ∷ ys) x = ground (arith, length-keep-append q ys x)

pub IsCounted-add_pair :
    (pair : FingerprintPair) (t : Tally) → IsCounted t → IsCounted (add_pair pair t)
unfolding add_pair
IsCounted-add_pair pair t c =
    let judged_pair : FingerprintPair = record pair { matched = is_match pair } in
    let hits = length-keep-append (λ (p : FingerprintPair). p.matched) t.pairs judged_pair in
    let misses = length-keep-append (λ (p : FingerprintPair). not p.matched) t.pairs judged_pair in
    record {
      all = omega (arith, c.all, length-append t.pairs (judged_pair ∷ []));
      matched = ground (arith, c.matched, hits);
      divergent = ground (arith, c.divergent, misses);
    }

pub All-snoc {ℓ κ} :
    {A : Type ℓ} (P : A → Type κ) (xs : List A) (x : A) → All P xs → P x → All P (xs ++ x ∷ [])
All-snoc P [] x h p = (p, tt)
All-snoc P (y ∷ ys) x h p = (h.0, All-snoc P ys x h.1 p)

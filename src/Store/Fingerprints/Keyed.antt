-- ===== src/Store/Fingerprints/Keyed.antt =====
-- The table of fingerprints by its key.
use task274_replaydivergence.Prelude.{
  ℕ, String, Bool, true, ◌&&◌, List, [], ◌∷◌, Option, none, some, if◌then◌else◌, ◌≡◌, refl, ap,
  arith, eq_iff,
}
use task274_replaydivergence.Prelude.Int.{ℤ, eq_of_parts}
use task274_replaydivergence.Model.Status.{
  TrailSide, FingerprintScope, unknown_side, other_scope, reference, register, under_test, memory,
  full,
}
use task274_replaydivergence.Model.Checkpoint.{StateFingerprint}
use task274_replaydivergence.Store.Fingerprints.{same_scope, at_point}
use task274_replaydivergence.Store.Events.{same_side}
use mathlib.Core.Path.{subst}

pub record FingerprintKey : Type 0 where
  pub batch_id : ℕ
  pub side : TrailSide
  pub seq : ℤ
  pub scope : FingerprintScope

-- The key of a row.
abbrev pub key_of : StateFingerprint → FingerprintKey
key_of f = record { batch_id = f.batch_id; side = f.side; seq = f.seq; scope = f.scope }

unfoldable pub has_key : FingerprintKey → StateFingerprint → Bool
has_key k f = at_point k.batch_id k.seq k.scope f && same_side f.side k.side

-- The hash that the table has for a key.
unfoldable pub hash_at : FingerprintKey → List StateFingerprint → Option String
unfolding has_key
hash_at k [] = none
hash_at k (f ∷ fs) = let rest = hash_at k fs in if has_key k f then some f.hash else rest

-- No two rows have one key.
abbrev pub IsKeyed : List StateFingerprint → Type 0
IsKeyed [] = Unit
IsKeyed (f ∷ fs) = (hash_at (key_of f) fs ≡ none) × IsKeyed fs

same_scope-eq : (a b : FingerprintScope) → same_scope a b ≡ true → a ≡ b
unfolding same_scope
same_scope-eq register register h = refl
same_scope-eq memory memory h = refl
same_scope-eq full full h = refl
same_scope-eq (other_scope s) (other_scope t) h = ap other_scope ((eq_iff s t).0 h)
same_scope-eq _ _ h = absurd (cc h)

same_scope_refl : (a : FingerprintScope) → same_scope a a ≡ true
unfolding same_scope
same_scope_refl register = refl
same_scope_refl memory = refl
same_scope_refl full = refl
same_scope_refl (other_scope s) = (eq_iff s s).1 refl

same_side-eq : (a b : TrailSide) → same_side a b ≡ true → a ≡ b
unfolding same_side
same_side-eq reference reference h = refl
same_side-eq under_test under_test h = refl
same_side-eq (unknown_side s) (unknown_side t) h = ap unknown_side ((eq_iff s t).0 h)
same_side-eq _ _ h = absurd (cc h)

pub same_side_refl : (a : TrailSide) → same_side a a ≡ true
unfolding same_side
same_side_refl reference = refl
same_side_refl under_test = refl
same_side_refl (unknown_side s) = (eq_iff s s).1 refl

pub has_key-eq : (k : FingerprintKey) (f : StateFingerprint) → has_key k f ≡ true → key_of f ≡ k
unfolding has_key at_point
has_key-eq k f h =
    let b : f.batch_id ≡ k.batch_id = ground (arith, h) in
    let q : f.seq ≡ k.seq = eq_of_parts f.seq k.seq (ground (arith, h)) in
    let c : f.scope ≡ k.scope = same_scope-eq f.scope k.scope (ground (arith, h)) in
    let s : f.side ≡ k.side = same_side-eq f.side k.side (ground (arith, h)) in cc (b, q, c, s)

has_key-own : (f : StateFingerprint) → has_key (key_of f) f ≡ true
unfolding has_key at_point
has_key-own f = rw (same_scope_refl f.scope) (rw (same_side_refl f.side) (ground arith))

pub has_key-of : (k : FingerprintKey) (f : StateFingerprint) → key_of f ≡ k → has_key k f ≡ true
has_key-of k f e = subst (λ j. has_key j f ≡ true) e (has_key-own f)

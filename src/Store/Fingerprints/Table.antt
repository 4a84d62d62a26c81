-- ===== src/Store/Fingerprints/Table.antt =====
-- The table of fingerprints against a map from keys to hashes: a write, and the reading of a pair.
use task274_replaydivergence.Prelude.{
  ℕ, String, List, [], ◌∷◌, Option, some, if◌then◌else◌, ◌≡◌, refl, sym, ◌∙◌, inl, inr, Bool-cases,
  true, keep, none,
}
use task274_replaydivergence.Store.Fingerprints.Keyed.{
  FingerprintKey, hash_at, has_key, IsKeyed, key_of, has_key-of, has_key-eq, same_side_refl,
}
use task274_replaydivergence.Model.Checkpoint.{StateFingerprint}
use task274_replaydivergence.Store.Fingerprints.{upsert_rows, same_key, sides_of, at_point}
use task274_replaydivergence.Prelude.Int.{ℤ}
use task274_replaydivergence.Model.Status.{
  FingerprintScope, TrailSide, reference, under_test, unknown_side,
}
use task274_replaydivergence.Prelude.StrMap.{or_else}
use task274_replaydivergence.Store.Events.{same_side}
use mathlib.Core.Path.{subst}

-- What the component promises: every key has a hash or none, and a write replaces one of them.
abbrev pub HashMap : Type 0
HashMap = FingerprintKey → Option String

unfoldable pub put : StateFingerprint → HashMap → HashMap
put f m k = if has_key k f then some f.hash else m k

-- The table has one row for each key of the map, with its hash.
pub record IsTableOf (m : HashMap) (fs : List StateFingerprint) : Type 0 where
  pub keyed : IsKeyed fs
  pub agrees : (k : FingerprintKey) → hash_at k fs ≡ m k

-- The UPDATE keeps the key of its row.
has_key-alike :
    (k : FingerprintKey) (f g : StateFingerprint) → key_of f ≡ key_of g → has_key k f ≡ has_key k g
has_key-alike k f g e = elim (Bool-cases (has_key k f)) [
  | inl h ↦ h ∙ sym (has_key-of k g (sym e ∙ has_key-eq k f h))
  | inr h ↦ elim (Bool-cases (has_key k g)) [
    | inl j ↦ absurd (cc (h, has_key-of k f (e ∙ has_key-eq k g j)))
    | inr j ↦ h ∙ sym j
  ]
]

pub hash_at-upsert_rows :
    (k : FingerprintKey) (id : ℕ) (f : StateFingerprint) (fs : List StateFingerprint)
    → hash_at k (upsert_rows id f fs) ≡ (if has_key k f then some f.hash else hash_at k fs)
unfolding hash_at upsert_rows has_key
hash_at-upsert_rows k id f [] = refl
hash_at-upsert_rows k id f (old ∷ rest) = elim (Bool-cases (same_key f old)) [
  | inl hit ↦
      let alike = has_key-alike k old f (has_key-eq (key_of f) old hit) in
      elim (Bool-cases (has_key k f)) [
        | inl h ↦ rw hit (rw h (rw (alike ∙ h) refl))
        | inr h ↦ rw hit (rw h (rw (alike ∙ h) refl))
      ]
  | inr miss ↦ elim (Bool-cases (has_key k old)) [
    | inl h ↦ elim (Bool-cases (has_key k f)) [
      | inl j ↦
          absurd
            (cc (miss, has_key-of (key_of f) old (has_key-eq k old h ∙ sym (has_key-eq k f j))))
      | inr j ↦ rw miss (rw h (rw j refl))
    ]
    | inr h ↦ rw miss (rw h (hash_at-upsert_rows k id f rest))
  ]
]

pub upsert_rows-IsKeyed :
    (id : ℕ) (f : StateFingerprint) (fs : List StateFingerprint)
    → IsKeyed fs
    → IsKeyed (upsert_rows id f fs)
unfolding upsert_rows hash_at
upsert_rows-IsKeyed id f [] h = (refl, tt)
upsert_rows-IsKeyed id f (old ∷ rest) h = elim (Bool-cases (same_key f old)) [
  | inl hit ↦ rw hit h
  | inr miss ↦ rw miss (elim (Bool-cases (has_key (key_of old) f)) [
    | inl j ↦ absurd (cc (miss, has_key-of (key_of f) old (sym (has_key-eq (key_of old) f j))))
    | inr j ↦
        (hash_at-upsert_rows (key_of old) id f rest ∙ rw j h.0, upsert_rows-IsKeyed id f rest h.1)
  ])
]

pub upsert_rows-IsTableOf :
    (m : HashMap) (id : ℕ) (f : StateFingerprint) (fs : List StateFingerprint)
    → IsTableOf m fs
    → IsTableOf (put f m) (upsert_rows id f fs)
unfolding put
upsert_rows-IsTableOf m id f fs t = record {
  keyed = upsert_rows-IsKeyed id f fs t.keyed;
  agrees = λ k. rw⁻¹ (t.agrees k) (hash_at-upsert_rows k id f fs);
}

-- The two keys of a point.
abbrev pub at_side : ℕ → ℤ → FingerprintScope → TrailSide → FingerprintKey
at_side batch_id seq scope side = record {
  batch_id = batch_id;
  side = side;
  seq = seq;
  scope = scope;
}

module _ (batch_id : ℕ) (seq : ℤ) (scope : FingerprintScope) where
  -- The hashes that the loop of `GetPair` finds.
  abbrev pub hashes_found :
      Option String × Option String → List StateFingerprint → Option String × Option String
  hashes_found found fs = (
    or_else (hash_at (at_side batch_id seq scope reference) fs) found.0,
    or_else (hash_at (at_side batch_id seq scope under_test) fs) found.1,
  )

  -- A row of the point is the only one of its side.
  alone :
      (f : StateFingerprint) (fs : List StateFingerprint) (side : TrailSide)
      → at_point batch_id seq scope f ≡ true
      → f.side ≡ side
      → hash_at (key_of f) fs ≡ none
      → hash_at (at_side batch_id seq scope side) fs ≡ none
  unfolding has_key
  alone f fs side here is_side fresh =
      let e = has_key-eq (at_side batch_id seq scope f.side) f (rw here (same_side_refl f.side)) in
      subst (λ s. hash_at (at_side batch_id seq scope s) fs ≡ none) is_side
        (subst (λ k. hash_at k fs ≡ none) e fresh)

  pub sides_of-keep :
      (found : Option String × Option String) (fs : List StateFingerprint)
      → IsKeyed fs
      → sides_of found (keep (at_point batch_id seq scope) fs) ≡ hashes_found found fs
  unfolding sides_of hash_at has_key same_side
  sides_of-keep found [] h = refl
  sides_of-keep found (f ∷ fs) h = elim (Bool-cases (at_point batch_id seq scope f)) [
    | inl here ↦ by_side (λ g. sides_of-keep g fs h.1) f.side refl here
    | inr away ↦ rw away (sides_of-keep found fs h.1)
  ]
    where
      by_side :
          ((g : Option String × Option String)
            → sides_of g (keep (at_point batch_id seq scope) fs) ≡ hashes_found g fs)
          → (side : TrailSide) → f.side ≡ side
          → at_point batch_id seq scope f ≡ true
          → sides_of found (keep (at_point batch_id seq scope) (f ∷ fs))
            ≡ hashes_found found (f ∷ fs)
      by_side ih reference e here =
          let none_left = alone f fs reference here e h.0 in
          rw here (rw e (ih (some f.hash, found.1) ∙ rw none_left refl))
      by_side ih under_test e here =
          let none_left = alone f fs under_test here e h.0 in
          rw here (rw e (ih (found.0, some f.hash) ∙ rw none_left refl))
      by_side ih (unknown_side s) e here = rw here (rw e (ih found))

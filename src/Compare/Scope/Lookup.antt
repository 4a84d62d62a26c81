-- ===== src/Compare/Scope/Lookup.antt =====
-- What a scope keeps of a state.
use task274_replaydivergence.Prelude.{
  String, ◌≡◌, inl, inr, [], ◌∷◌, none, arith, eq_iff, if◌then◌else◌, Bool-cases,
}
use task274_replaydivergence.Prelude.StrMap.{
  StrMap, lookup, insert, lookup-insert, lookup_of_fresh, insert-IsMap, IsMap, or_else,
}
use task274_replaydivergence.Model.Status.{FingerprintScope}
use task274_replaydivergence.Compare.Scope.{in_scope, select_into, select_scope}

lookup-select_into :
    (s : FingerprintScope) (k : String) (m out : StrMap String)
    → IsMap m
    → lookup k (select_into s out m)
      ≡ (if in_scope s k then or_else (lookup k m) (lookup k out) else lookup k out)
unfolding select_into lookup
lookup-select_into s k [] out h = ground arith
lookup-select_into s k ((j, v) ∷ m) out h =
    let out' = if in_scope s j then insert j v out else out in
    rw (lookup-select_into s k m out' h.1)
      (ground (arith, lookup-insert j k v out, lookup_of_fresh j m h.0, eq_iff j k))

-- A key that the loop keeps has the value that it had.
pub lookup-select_scope :
    (s : FingerprintScope) (k : String) (m : StrMap String)
    → IsMap m
    → lookup k (select_scope m s) ≡ (if in_scope s k then lookup k m else none)
unfolding select_scope lookup
lookup-select_scope s k m h = rw (lookup-select_into s k m [] h) (ground arith)

select_into-IsMap :
    (s : FingerprintScope) (m out : StrMap String) → IsMap out → IsMap (select_into s out m)
unfolding select_into
select_into-IsMap s [] out h = h
select_into-IsMap s ((j, v) ∷ m) out h = elim (Bool-cases (in_scope s j)) [
  | inl b ↦ rw b (select_into-IsMap s m (insert j v out) (insert-IsMap j v out h))
  | inr b ↦ rw b (select_into-IsMap s m out h)
]

pub select_scope-IsMap : (s : FingerprintScope) (m : StrMap String) → IsMap (select_scope m s)
unfolding select_scope
select_scope-IsMap s m = select_into-IsMap s m [] tt

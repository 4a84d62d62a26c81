-- ===== src/Compare/Scope.antt =====
-- internal/compare/hash.go, `SelectScope`.
pub mod Kinds
pub mod Lookup
use Prim.Native.Char.{code}
use task274_replaydivergence.Prelude.{
  String, Bool, true, [], ◌∷◌, Option, none, some, ◌==◌, str_eq, if◌then◌else◌,
}
use task274_replaydivergence.Prelude.StrMap.{StrMap, insert}
use task274_replaydivergence.Model.Status.{FingerprintScope, register, memory, full, other_scope}

-- k[:i] at the first ':', if there is one
before_colon : String → Option String
before_colon String.[] = none
before_colon (String.◌∷◌ c s) =
    let rest = before_colon s in
    if code c == b':' then some "" else elim rest [ none ↦ none | some p ↦ some (String.◌∷◌ c p) ]

-- `kind` starts as "reg" and keeps that where no ':' is found.
unfoldable pub kind_of : String → String
unfolding before_colon
kind_of k = elim (before_colon k) [ none ↦ "reg" | some kind ↦ kind ]

-- The `switch`.
unfoldable pub in_scope : FingerprintScope → String → Bool
unfolding kind_of
in_scope register k = str_eq (kind_of k) "reg"
in_scope memory k = str_eq (kind_of k) "mem"
in_scope full k = true
in_scope (other_scope s) k = true

-- The loop, with `out` as accumulator.
select_into : FingerprintScope → StrMap String → StrMap String → StrMap String
select_into scope out [] = out
select_into scope out ((k, v) ∷ state) =
    select_into scope (if in_scope scope k then insert k v out else out) state

unfoldable pub select_scope : StrMap String → FingerprintScope → StrMap String
unfolding select_into in_scope
select_scope state scope = select_into scope [] state

-- ===== src/Compare/Diff.antt =====
-- internal/compare/compare.go, `DiffState`.
pub mod Exact
use task274_replaydivergence.Prelude.{
  String, Bool, true, List, [], ◌∷◌, ◌++◌, str_eq, if◌then◌else◌,
}
use task274_replaydivergence.Prelude.Order.{text_order}
use task274_replaydivergence.Prelude.Sort.{sort_on}
use task274_replaydivergence.Prelude.StrMap.{StrMap, insert, index}
use task274_replaydivergence.Prelude.Unique.{itself}

-- for k := range m { keys[k] = true }
add_keys : StrMap Bool → StrMap String → StrMap Bool
add_keys set [] = set
add_keys set ((k, v) ∷ m) = add_keys (insert k true set) m

-- The loop over the set of keys, with `diff` as accumulator.
collect : StrMap String → StrMap String → List String → StrMap Bool → List String
collect ref test diff [] = diff
collect ref test diff ((k, b) ∷ set) =
    collect ref test (if str_eq (index ref k) (index test k) then diff else diff ++ k ∷ []) set

unfoldable pub diff_state : StrMap String → StrMap String → List String
unfolding add_keys collect
diff_state ref test = sort_on itself (collect ref test [] (add_keys (add_keys [] ref) test))

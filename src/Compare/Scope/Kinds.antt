-- ===== src/Compare/Scope/Kinds.antt =====
-- The kinds of resources that a scope covers.
use task274_replaydivergence.Prelude.{String, ◌≡◌, ◌⊎◌, inl, inr, true, false, none, refl, sym, ◌∙◌}
use task274_replaydivergence.Prelude.StrMap.{StrMap, lookup, IsMap}
use task274_replaydivergence.Model.Status.{FingerprintScope, register, memory, full, other_scope}
use task274_replaydivergence.Model.Event.{ResourceAccess, key, join}
use task274_replaydivergence.Trace.Importer.Resource.{IsResource}
use task274_replaydivergence.Compare.Scope.{in_scope, select_scope}
use task274_replaydivergence.Compare.Scope.Lookup.{lookup-select_scope}
use mathlib.Core.Path.{subst}

-- The registers, the memory, or every resource.
pub data Covers : FingerprintScope → String → Type 0 where
  of_register : Covers register "reg"
  of_memory : Covers memory "mem"
  of_full : {kind : String} → Covers full kind
  of_other : {s kind : String} → Covers (other_scope s) kind

register_kind :
    (s : FingerprintScope) (name : String)
    → (Covers s "reg" × (in_scope s (key (record { kind = "reg"; name = name })) ≡ true))
      ⊎ ((¬ Covers s "reg") × (in_scope s (key (record { kind = "reg"; name = name })) ≡ false))
unfolding in_scope key join
register_kind register name = inl (Covers.of_register, refl)
register_kind memory name = inr ((λ c. elim c [ ]), refl)
register_kind full name = inl (Covers.of_full, refl)
register_kind (other_scope s) name = inl (Covers.of_other, refl)

memory_kind :
    (s : FingerprintScope) (name : String)
    → (Covers s "mem" × (in_scope s (key (record { kind = "mem"; name = name })) ≡ true))
      ⊎ ((¬ Covers s "mem") × (in_scope s (key (record { kind = "mem"; name = name })) ≡ false))
unfolding in_scope key join
memory_kind register name = inr ((λ c. elim c [ ]), refl)
memory_kind memory name = inl (Covers.of_memory, refl)
memory_kind full name = inl (Covers.of_full, refl)
memory_kind (other_scope s) name = inl (Covers.of_other, refl)

in_scope-Covers :
    (s : FingerprintScope) (r : ResourceAccess)
    → IsResource r
    → (Covers s r.kind × (in_scope s (key r) ≡ true))
      ⊎ ((¬ Covers s r.kind) × (in_scope s (key r) ≡ false))
in_scope-Covers s r h =
    let Judged = λ (kind : String).
      (let k = key (record { kind = kind; name = r.name }) in
        (Covers s kind × (in_scope s k ≡ true)) ⊎ ((¬ Covers s kind) × (in_scope s k ≡ false))) in
    elim h.known_kind [
      | inl reg ↦ subst Judged (sym reg) (register_kind s r.name)
      | inr mem ↦ subst Judged (sym mem) (memory_kind s r.name)
    ]

-- For a named register or memory cell: if the scope covers its kind, the selected state has at its
-- key what the state had, and nothing otherwise. The scope of the registers covers the kind "reg",
-- the scope of the memory covers "mem", and any other scope covers both.
pub select_scope-Covers :
    (s : FingerprintScope) (r : ResourceAccess) (m : StrMap String)
    → IsMap m
    → IsResource r
    → (Covers s r.kind → lookup (key r) (select_scope m s) ≡ lookup (key r) m)
      × ((¬ Covers s r.kind) → lookup (key r) (select_scope m s) ≡ none)
select_scope-Covers s r m h named = elim (in_scope-Covers s r named) [
  | inl (covered, e) ↦
      ((λ _. lookup-select_scope s (key r) m h ∙ rw e refl), λ apart. absurd (apart covered))
  | inr (apart, e) ↦
      ((λ covered. absurd (apart covered)), λ _. lookup-select_scope s (key r) m h ∙ rw e refl)
]

-- ===== src/Trace/Importer/Resource.antt =====
-- `parseResource` and `Key` undo one another.
use Prim.Native.Char.{Char, code}
use task274_replaydivergence.Prelude.{
  String, true, false, ◌≡◌, refl, ◌≢◌, ◌⊎◌, inl, inr, ◌∙◌, sym, ap, arith, str_eq, eq_iff,
  Bool-cases, ◌==◌, ◌&&◌, ◌||◌,
}
use task274_replaydivergence.Model.Event.{ResourceAccess, key, join}
use task274_replaydivergence.Trace.Importer.{access, parse_resource, parse_loop, push}
use text.Mathlib.TextEquality.{Char-path}
use mathlib.Core.Path.{subst}

-- What `parseResource` accepts.
pub record IsResource (r : ResourceAccess) : Type 0 where
  pub known_kind : (r.kind ≡ "reg") ⊎ (r.kind ≡ "mem")
  pub named : r.name ≢ ""

join-push :
    (s : String) (c : Char) (t : String)
    → join (push s (String.◌∷◌ c "")) t ≡ join s (String.◌∷◌ c t)
unfolding join push
join-push String.[] c t = refl
join-push (String.◌∷◌ d s) c t = ap (String.◌∷◌ d) (join-push s c t)

access-injective : {r q : ResourceAccess} → access r ≡ access q → r ≡ q
access-injective e = cc e

is_colon : (c : Char) → (code c == b':') ≡ true → c ≡ ":"
is_colon c e = Char-path c ":" (ground arith)

accepted :
    (c : Char) (after before : String) (r : ResourceAccess)
    → (code c == b':' && (str_eq before "reg" || str_eq before "mem")) ≡ true
    → str_eq after "" ≡ false
    → record { kind = before; name = after } ≡ r
    → (key r ≡ join before (String.◌∷◌ c after)) × IsResource r
unfolding key join
accepted c after before r here some_name e = rw (← e) (
  rw (is_colon c (ground arith)) refl,
  record {
    known_kind = ground (arith, eq_iff before "reg", eq_iff before "mem");
    named = λ p. cc ((eq_iff after "").1 p, some_name);
  },
)

-- The text that is parsed is the key of the access that comes out.
parse_loop_sound :
    (s before : String) (r : ResourceAccess)
    → parse_loop before s ≡ access r
    → (key r ≡ join before s) × IsResource r
unfolding parse_loop key
parse_loop_sound String.[] before r h = cc h
parse_loop_sound (String.◌∷◌ c after) before r h =
    let colon = code c == b':' && (str_eq before "reg" || str_eq before "mem") in
    elim (Bool-cases colon) [
      | inl here ↦ elim (Bool-cases (str_eq after "")) [
        | inl no_name ↦ cc (rw (here, no_name) at h)
        | inr some_name ↦
            let e : access (record { kind = before; name = after }) ≡ access r =
              rw (here, some_name) at h in
            accepted c after before r here some_name (access-injective e)
      ]
      | inr later ↦
          let (text, good) =
            parse_loop_sound after (push before (String.◌∷◌ c "")) r (rw later at h) in
          (text ∙ join-push before c after, good)
    ]

-- A text that `parseResource` accepts is the key of the access that it returns, which names a
-- register or a memory cell by a text that is not empty.
pub parse_resource_sound :
    (s : String) (r : ResourceAccess) → parse_resource s ≡ access r → (key r ≡ s) × IsResource r
unfolding parse_resource join
parse_resource_sound s r h = parse_loop_sound s "" r h

has_name : (name : String) → name ≢ "" → str_eq name "" ≡ false
has_name name n = elim (Bool-cases (str_eq name "")) [
  | inl e ↦ absurd (n ((eq_iff name "").0 e))
  | inr e ↦ e
]

register_key :
    (name : String)
    → name ≢ ""
    → parse_resource (key (record { kind = "reg"; name = name }))
      ≡ access (record { kind = "reg"; name = name })
unfolding parse_resource key join
register_key name n = rw (has_name name n) refl

memory_key :
    (name : String)
    → name ≢ ""
    → parse_resource (key (record { kind = "mem"; name = name }))
      ≡ access (record { kind = "mem"; name = name })
unfolding parse_resource key join
memory_key name n = rw (has_name name n) refl

-- The key of a named register or memory cell parses back to it.
parse_resource-key : (r : ResourceAccess) → IsResource r → parse_resource (key r) ≡ access r
parse_resource-key r h =
    let RoundTrip = λ (kind : String).
      (let q : ResourceAccess = record { kind = kind; name = r.name } in
        parse_resource (key q) ≡ access q) in
    elim h.known_kind [
      | inl reg ↦ subst RoundTrip (sym reg) (register_key r.name h.named)
      | inr mem ↦ subst RoundTrip (sym mem) (memory_key r.name h.named)
    ]

-- ===== src/Prelude/Text.antt =====
-- Texts: the order of `sort.Strings` and the bytes that a hash reads.
use Prim.Native.Nat.{ℕ, ◌+◌, ◌/◌, ◌%◌}
use Prim.Native.Char.{code}
use Prim.Native.String.{String}
use mathlib.Core.Path.{◌≡◌, refl}
use mathlib.Core.Bool.{Bool, true, false}
use mathlib.Core.List.{List, [], ◌∷◌, ◌++◌}
use native.Mathlib.Omega.{arith}
use text.Mathlib.TextEquality.{Char-path}
use task274_replaydivergence.Prelude.Tests.{ltb, if◌then◌else◌}

-- Go orders strings by their bytes; in UTF-8 that is the order of the code points.
abbrev pub text_lt : String → String → Bool
text_lt String.[] String.[] = false
text_lt String.[] (String.◌∷◌ d t) = true
text_lt (String.◌∷◌ c s) String.[] = false
text_lt (String.◌∷◌ c s) (String.◌∷◌ d t) =
    let rest = text_lt s t in
    if ltb (code c) (code d) then true else if ltb (code d) (code c) then false else rest

pub text_lt_trans : (a b c : String) → text_lt a b ≡ true → text_lt b c ≡ true → text_lt a c ≡ true
text_lt_trans (String.[]) (String.[]) c h k = ground arith
text_lt_trans (String.[]) (String.◌∷◌ y t) String.[] h k = ground arith
text_lt_trans (String.[]) (String.◌∷◌ y t) (String.◌∷◌ z u) h k = refl
text_lt_trans (String.◌∷◌ x s) (String.[]) c h k = ground arith
text_lt_trans (String.◌∷◌ x s) (String.◌∷◌ y t) String.[] h k = ground arith
text_lt_trans (String.◌∷◌ x s) (String.◌∷◌ y t) (String.◌∷◌ z u) h k =
    ground (arith, text_lt_trans s t u)

pub text_lt_asymm : (a b : String) → text_lt a b ≡ true → text_lt b a ≡ false
text_lt_asymm (String.[]) (String.[]) h = refl
text_lt_asymm (String.[]) (String.◌∷◌ y t) h = refl
text_lt_asymm (String.◌∷◌ x s) (String.[]) h = ground arith
text_lt_asymm (String.◌∷◌ x s) (String.◌∷◌ y t) h = ground (arith, text_lt_asymm s t)

pub text_lt_connex : (a b : String) → text_lt a b ≡ false → text_lt b a ≡ false → a ≡ b
text_lt_connex (String.[]) (String.[]) h k = refl
text_lt_connex (String.[]) (String.◌∷◌ y t) h k = ground arith
text_lt_connex (String.◌∷◌ x s) (String.[]) h k = ground arith
text_lt_connex (String.◌∷◌ x s) (String.◌∷◌ y t) h k =
    ground (arith, text_lt_connex s t, Char-path x y)

-- The UTF-8 bytes of a code point, and of a text.
abbrev pub utf8 : ℕ → List ℕ
utf8 n =
    if ltb n 128
    then n ∷ []
    else if ltb n 2048
    then (192 + n / 64) ∷ (128 + n % 64) ∷ []
    else if ltb n 65536
    then (224 + n / 4096) ∷ (128 + n / 64 % 64) ∷ (128 + n % 64) ∷ []
    else (240 + n / 262144) ∷ (128 + n / 4096 % 64) ∷ (128 + n / 64 % 64) ∷ (128 + n % 64) ∷ []

abbrev pub bytes : String → List ℕ
bytes String.[] = []
bytes (String.◌∷◌ c s) = utf8 (code c) ++ bytes s

-- ===== src/Base/Strings.antt =====
-- Whole texts: a decision of equality, and `std::string::empty`.
use Prim.Native.String.{String, ◌++◌}
use mathlib.Core.Path.{◌≡◌, refl}
use mathlib.Core.Logic.{inl, inr}
use mathlib.Core.Bool.{Bool, true, false}
use text.Mathlib.Text.{◌==◌ as str_eq}
use text.Mathlib.TextEquality.{eq_iff}
use ris.Base.Tests.{Bool-cases}

str_ne : (s t : String) → str_eq s t ≡ false → ¬ (s ≡ t)
str_ne s t e p = cc (e, (eq_iff s t).1 p)

unfoldable pub str_dec : Discrete String
unfolding Bool-cases str_ne
str_dec s t = elim (Bool-cases (str_eq s t)) [
  | inl e ↦ yes ((eq_iff s t).0 e)
  | inr e ↦ no (str_ne s t e)
]

unfoldable pub is_empty : String → Bool
is_empty String.[] = true
is_empty (String.◌∷◌ c s) = false

pub is_empty→eq : (s : String) → is_empty s ≡ true → s ≡ String.[]
unfolding is_empty
is_empty→eq String.[] h = refl
is_empty→eq (String.◌∷◌ c s) h = cc

-- `s + t`
abbrev pub concat : String → String → String
concat s t = s ++ t

-- ===== src/Common/Strings.antt =====
-- `strcmp` on texts.
use Prim.Native.String.{String}
use mathlib.Core.Path.{◌≡◌, refl}
use mathlib.Core.Logic.{◌≢◌, ◌↔◌, ◌⊎◌, inl, inr}
use mathlib.Core.Bool.{Bool, true, false}
use text.Mathlib.Text.{◌==◌}
use text.Mathlib.TextEquality.{eq_iff}

-- strcmp(s, t) == 0.
abbrev pub str_eq : String → String → Bool
str_eq s t = s == t

pub str_eq_iff : (s t : String) → (str_eq s t ≡ true) ↔ (s ≡ t)
str_eq_iff s t = eq_iff s t

pub String-cases : (s t : String) → (s ≡ t) ⊎ (s ≢ t)
String-cases s t = by_test (str_eq s t) refl
  where
    by_test : (b : Bool) → str_eq s t ≡ b → (s ≡ t) ⊎ (s ≢ t)
    by_test true e = inl ((str_eq_iff s t).0 e)
    by_test false e = inr λ z. cc (e, (str_eq_iff s t).1 z)

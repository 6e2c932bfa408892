-- ===== src/Prelude/Texts.antt =====
-- Texts as the lists of their code points, for code that walks their characters.
use Prim.Native.Nat.{ℕ}
use Prim.Native.Char.{code}
use Prim.Native.String.{String}
use mathlib.Core.Path.{◌≡◌, refl}
use mathlib.Core.Bool.{Bool, true, false, ◌&&◌, ◌||◌}
use mathlib.Core.List.{List, [], ◌∷◌}
use native.Mathlib.Omega.{arith}
use codex_feishu.Prelude.Tests.{◌==◌, leb}

abbrev pub Codes : Type 0
Codes = List ℕ

-- The code points of a text.
abbrev pub codes : String → Codes
codes String.[] = []
codes (String.◌∷◌ c s) = code c ∷ codes s

unfoldable pub codes_eq : Codes → Codes → Bool
codes_eq [] [] = true
codes_eq [] (d ∷ t) = false
codes_eq (c ∷ s) [] = false
codes_eq (c ∷ s) (d ∷ t) = (c == d) && codes_eq s t

pub codes_eq_lem : (s t : Codes) → codes_eq s t ≡ true → s ≡ t
unfolding codes_eq
codes_eq_lem [] [] e = refl
codes_eq_lem [] (d ∷ t) e = cc
codes_eq_lem (c ∷ s) [] e = cc
codes_eq_lem (c ∷ s) (d ∷ t) e = ground (arith, e, codes_eq_lem s t)

module _ {A : Type 0} where
  -- `any(test(x) for x in xs)` and `all(...)`.
  unfoldable pub any : (A → Bool) → List A → Bool
  any test [] = false
  any test (x ∷ xs) = test x || any test xs

  unfoldable pub every : (A → Bool) → List A → Bool
  every test [] = true
  every test (x ∷ xs) = test x && every test xs

-- `[a-z]`, `[A-Z]` and `[0-9]`.
abbrev pub is_lower : ℕ → Bool
is_lower c = leb b'a' c && leb c b'z'

abbrev pub is_upper : ℕ → Bool
is_upper c = leb b'A' c && leb c b'Z'

abbrev pub is_digit : ℕ → Bool
is_digit c = leb b'0' c && leb c b'9'

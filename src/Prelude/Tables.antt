-- ===== src/Prelude/Tables.antt =====
-- SQL tables by primary key. A table is the function that a SELECT by key computes; an UPDATE or
-- an INSERT of one row is `put`.
use Prim.Native.Nat.{ℕ}
use Prim.Native.String.{String}
use mathlib.Core.Path.{◌≡◌}
use mathlib.Core.Logic.{◌⊎◌, ◌≢◌}
use mathlib.Core.Option.{Option, some}
use native.Mathlib.Omega.{arith}
use text.Mathlib.Text.{◌==◌ as str_eq}
use text.Mathlib.TextEquality.{eq_iff}
use codex_feishu.Prelude.Tests.{◌==◌, if◌then◌else◌, ==_refl, str_eq_refl}

abbrev pub Dict {ℓ} : Type ℓ → Type ℓ
Dict V = String → Option V

abbrev pub Rows {ℓ} : Type ℓ → Type ℓ
Rows V = ℕ → Option V

module _ {ℓ} {V : Type ℓ} where
  -- The row with this text key is written.
  abbrev pub put : String → V → Dict V → Dict V
  put k v d j = if str_eq k j then some v else d j

  -- The row with this number is written.
  abbrev pub put_row : ℕ → V → Rows V → Rows V
  put_row k v d j = if k == j then some v else d j

  pub put_self : (k : String) (v : V) (d : Dict V) → put k v d k ≡ some v
  put_self k v d = rw str_eq_refl

  pub put_row_self : (k : ℕ) (v : V) (d : Rows V) → put_row k v d k ≡ some v
  put_row_self k v d = rw ==_refl

  -- What stands in a table after a write was written or was there.
  pub put_cases :
      (k j : String) (v w : V) (d : Dict V)
      → put k v d j ≡ some w
      → ((k ≡ j) × (v ≡ w)) ⊎ ((k ≢ j) × (d j ≡ some w))
  put_cases k j v w d e = ground (arith, eq_iff k j)

module _ {V : Type 0} where
  pub put_row_cases :
      (k j : ℕ) (v w : V) (d : Rows V)
      → put_row k v d j ≡ some w
      → ((k ≡ j) × (v ≡ w)) ⊎ ((k ≢ j) × (d j ≡ some w))
  put_row_cases k j v w d e = ground arith

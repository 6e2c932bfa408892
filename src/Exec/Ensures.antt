-- ===== src/Exec/Ensures.antt =====
-- What a method ensures: one property of its result and its database where it returns, another one
-- of the database where it raises.
use codex_feishu.Prelude.{◌≡◌, refl, Bool, true, false, Option, none, some}
use codex_feishu.Exec.{Error, Result, ok, err, Exec, continue_with, require, or_raise}

module _ {κ μ} {S : Type κ} (E : S → Type μ) where
  abbrev pub Ensures {ℓ} : {A : Type ℓ} → (A → S → Type μ) → Result A × S → Type μ
  Ensures Q (ok a, s) = Q a s
  Ensures Q (err e, s) = E s

  pub continue-Ensures {ℓ ν} :
      {A : Type ℓ} {B : Type ν} (Q : A → S → Type μ) (R : B → S → Type μ) (f : A → Exec S B)
      (x : Result A × S)
      → Ensures Q x
      → ((a : A) (s : S) → Q a s → Ensures R (f a s))
      → Ensures R (continue_with f x)
  continue-Ensures Q R f (ok a, s) h k = k a s h
  continue-Ensures Q R f (err e, s) h k = h

  pub or_raise-Ensures {ℓ ν} :
      {A : Type ℓ} {B : Type ν} (R : B → S → Type μ) (o : Option A) (e : Error) (f : A → Exec S B)
      (s : S)
      → E s
      → ((a : A) → o ≡ some a → Ensures R (f a s))
      → Ensures R (continue_with f (or_raise o e s))
  or_raise-Ensures R none e f s h k = h
  or_raise-Ensures R (some a) e f s h k = k a refl

  pub require-Ensures :
      (R : Unit {0} → S → Type μ) (b : Bool) (e : Error) (s : S)
      → E s
      → R tt s
      → Ensures R (require b e s)
  require-Ensures R true e s h k = k
  require-Ensures R false e s h k = h

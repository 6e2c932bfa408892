-- ===== src/Exec/Keeps.antt =====
-- Relations between the database before a method and after it: what the parts of a method respect,
-- the method respects, also when it raises or is rolled back.
use codex_feishu.Prelude.{◌≡◌, refl, Bool, true, false, Option, none, some}
use codex_feishu.Exec.{Error, Result, ok, err, Exec, settle, continue_with, require, or_raise}

module _ {κ μ} {S : Type κ} (R : S → S → Type μ) where
  abbrev pub Keeps {ℓ} : {A : Type ℓ} → Exec S A → Type (κ ⊔ μ)
  Keeps m = (s : S) → R s (m s).1

  pub settle-Keeps {ℓ} :
      ((s : S) → R s s) → {A : Type ℓ} (s : S) (x : Result A × S) → R s x.1 → R s (settle s x).1
  settle-Keeps same s (ok a, after) r = r
  settle-Keeps same s (err e, after) r = same s

  pub continue-Keeps {ℓ ν} :
      ((a b c : S) → R a b → R b c → R a c)
      → {A : Type ℓ} {B : Type ν} (f : A → Exec S B) (s : S) (x : Result A × S) → R s x.1
      → ((a : A) → Keeps (f a))
      → R s (continue_with f x).1
  continue-Keeps chain f s (ok a, t) r k = chain s t (f a t).1 r (k a t)
  continue-Keeps chain f s (err e, t) r k = r

-- What holds before a method, and after it if the tests on its way pass, holds after it.
module _ {κ μ} {S : Type κ} (P : S → Type μ) where
  pub settle_state {ℓ} : {A : Type ℓ} (s : S) (x : Result A × S) → P s → P x.1 → P (settle s x).1
  settle_state s (ok a, after) before h = h
  settle_state s (err e, after) before h = before

  pub or_raise_state {ℓ ν} :
      {A : Type ℓ} {B : Type ν} (o : Option A) (e : Error) (f : A → Exec S B) (s : S)
      → P s
      → ((a : A) → o ≡ some a → P (f a s).1)
      → P (continue_with f (or_raise o e s)).1
  or_raise_state none e f s before h = before
  or_raise_state (some a) e f s before h = h a refl

  pub require_state {ν} :
      {B : Type ν} (b : Bool) (e : Error) (f : Unit {0} → Exec S B) (s : S)
      → P s
      → (b ≡ true → P (f tt s).1)
      → P (continue_with f (require b e s)).1
  require_state true e f s before h = h refl
  require_state false e f s before h = before

  pub continue_state {ℓ ν} :
      {A : Type ℓ} {B : Type ν} (f : A → Exec S B) (x : Result A × S)
      → P x.1
      → ((a : A) (s : S) → P s → P (f a s).1)
      → P (continue_with f x).1
  continue_state f (ok a, s) h k = k a s h
  continue_state f (err e, s) h k = h

-- A method by cases of the tests on its way: its result and the database together.
module _ {κ μ ν} {S : Type κ} {B : Type ν} (P : Result B × S → Type μ) where
  pub or_raise_cases {ℓ} :
      {A : Type ℓ} (o : Option A) (e : Error) (f : A → Exec S B) (s : S)
      → (o ≡ none → P (err e, s))
      → ((a : A) → o ≡ some a → P (f a s))
      → P (continue_with f (or_raise o e s))
  or_raise_cases none e f s raised h = raised refl
  or_raise_cases (some a) e f s raised h = h a refl

  pub require_cases :
      (b : Bool) (e : Error) (f : Unit {0} → Exec S B) (s : S)
      → (b ≡ false → P (err e, s))
      → (b ≡ true → P (f tt s))
      → P (continue_with f (require b e s))
  require_cases true e f s raised h = h refl
  require_cases false e f s raised h = raised refl

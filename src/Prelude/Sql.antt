-- ===== src/Prelude/Sql.antt =====
-- SQL tables as the lists of their rows: the first row that a WHERE clause picks, UPDATE of the rows
-- that it picks, and the number of those rows.
use Prim.Native.Nat.{ℕ, ◌+◌}
use mathlib.Core.Path.{◌≡◌, refl, sym, ap, subst}
use mathlib.Core.Bool.{Bool, true, false}
use mathlib.Core.Logic.{inl, inr}
use mathlib.Core.Option.{Option, none, some, none-ne-some, some-injective}
use mathlib.Core.List.{List, [], ◌∷◌, ◌++◌}
use native.Mathlib.Omega.{arith}
use codex_feishu.Prelude.Lists.{All}
use codex_feishu.Prelude.Tests.{if◌then◌else◌, Bool-cases}

module _ {ℓ} {A : Type ℓ} where
  unfoldable pub find : (A → Bool) → List A → Option A
  find test [] = none
  find test (x ∷ xs) = if test x then some x else find test xs

  unfoldable pub update_where : (A → Bool) → (A → A) → List A → List A
  update_where test f [] = []
  update_where test f (x ∷ xs) = (if test x then f x else x) ∷ update_where test f xs

  unfoldable pub row_count : (A → Bool) → List A → ℕ
  row_count test [] = 0
  row_count test (x ∷ xs) = (if test x then 1 else 0) + row_count test xs

  unfoldable pub delete_where : (A → Bool) → List A → List A
  delete_where test [] = []
  delete_where test (x ∷ xs) = if test x then delete_where test xs else x ∷ delete_where test xs

  -- What an UPDATE makes of the row that a key finds, if it leaves the key alone.
  unfoldable pub updated : (A → Bool) → (A → A) → Option A → Option A
  updated test f none = none
  updated test f (some x) = some (if test x then f x else x)

  pub find-update_where :
      (key test : A → Bool) (f : A → A) (xs : List A)
      → ((x : A) → key (f x) ≡ key x)
      → find key (update_where test f xs) ≡ updated test f (find key xs)
  unfolding find update_where updated
  find-update_where key test f [] same = refl
  find-update_where key test f (x ∷ xs) same = elim (Bool-cases (test x)) [
    | inl t ↦ elim (Bool-cases (key x)) [
      | inl k ↦ rw (t, same x, k) (ap some (rw t refl))
      | inr k ↦ rw (t, same x, k) (find-update_where key test f xs same)
    ]
    | inr t ↦ elim (Bool-cases (key x)) [
      | inl k ↦ rw (t, k) (ap some (rw t refl))
      | inr k ↦ rw (t, k) (find-update_where key test f xs same)
    ]
  ]

  -- A row that is found is found after more rows were inserted.
  pub find-append :
      (key : A → Bool) (x : A) (xs ys : List A)
      → find key xs ≡ some x
      → find key (xs ++ ys) ≡ some x
  unfolding find
  find-append key x [] ys e = absurd (none-ne-some x e)
  find-append key x (y ∷ xs) ys e = elim (Bool-cases (key y)) [
    | inl k ↦ rw k (rw k at e)
    | inr k ↦ rw k (find-append key x xs ys (rw k at e))
  ]

  -- The row that is found passes the test.
  pub find-holds : (key : A → Bool) (x : A) (xs : List A) → find key xs ≡ some x → key x ≡ true
  unfolding find
  find-holds key x [] e = absurd (none-ne-some x e)
  find-holds key x (y ∷ xs) e = elim (Bool-cases (key y)) [
    | inl k ↦ subst (λ z. key z ≡ true) (some-injective y x (rw k at e)) k
    | inr k ↦ find-holds key x xs (rw k at e)
  ]

  -- A row that is found is one of the rows.
  pub find-All {κ} :
      (P : A → Type κ) (key : A → Bool) (x : A) (xs : List A)
      → All P xs
      → find key xs ≡ some x
      → P x
  unfolding find
  find-All P key x [] h e = absurd (none-ne-some x e)
  find-All P key x (y ∷ xs) h e = elim (Bool-cases (key y)) [
    | inl k ↦ subst P (some-injective y x (rw k at e)) h.0
    | inr k ↦ find-All P key x xs h.1 (rw k at e)
  ]

  -- After an UPDATE every row was rewritten or was not picked.
  pub All-update_where {κ} :
      (P : A → Type κ) (test : A → Bool) (f : A → A) (xs : List A)
      → ((x : A) → P (f x))
      → ((x : A) → test x ≡ false → P x)
      → All P (update_where test f xs)
  unfolding update_where
  All-update_where P test f [] done left = tt
  All-update_where P test f (x ∷ xs) done left = elim (Bool-cases (test x)) [
    | inl t ↦ (rw t (done x), All-update_where P test f xs done left)
    | inr t ↦ (rw t (left x t), All-update_where P test f xs done left)
  ]

  pub row_count-none :
      (test : A → Bool) (xs : List A) → All (λ x. test x ≡ false) xs → row_count test xs ≡ 0
  unfolding row_count
  row_count-none test [] h = refl
  row_count-none test (x ∷ xs) h = rw h.0 (omega (arith, row_count-none test xs h.1))

  -- No row passes a test that finds none.
  pub find-none : (key : A → Bool) (xs : List A) → find key xs ≡ none → All (λ x. key x ≡ false) xs
  unfolding find
  find-none key [] e = tt
  find-none key (x ∷ xs) e = elim (Bool-cases (key x)) [
    | inl k ↦ absurd (none-ne-some x (sym (rw k at e)))
    | inr k ↦ (k, find-none key xs (rw k at e))
  ]

  -- An UPDATE leaves what it cannot change.
  pub update_where-All {κ} :
      (P : A → Type κ) (test : A → Bool) (f : A → A) (xs : List A)
      → ((x : A) → P x → P (f x))
      → All P xs
      → All P (update_where test f xs)
  unfolding update_where
  update_where-All P test f [] keeps h = tt
  update_where-All P test f (x ∷ xs) keeps h = elim (Bool-cases (test x)) [
    | inl t ↦ (rw t (keeps x h.0), update_where-All P test f xs keeps h.1)
    | inr t ↦ (rw t h.0, update_where-All P test f xs keeps h.1)
  ]

  -- Behind rows that do not pass the test.
  pub find-after :
      (key : A → Bool) (xs ys : List A)
      → All (λ x. key x ≡ false) xs
      → find key (xs ++ ys) ≡ find key ys
  unfolding find
  find-after key [] ys h = refl
  find-after key (x ∷ xs) ys h = rw h.0 (find-after key xs ys h.1)

  -- An UPDATE row by row.
  pub update_where-each {κ μ} :
      (P : A → Type κ) (Q : A → Type μ) (test : A → Bool) (f : A → A) (xs : List A)
      → ((x : A) → test x ≡ true → P x → Q (f x))
      → ((x : A) → P x → Q x)
      → All P xs
      → All Q (update_where test f xs)
  unfolding update_where
  update_where-each P Q test f [] done left h = tt
  update_where-each P Q test f (x ∷ xs) done left h = elim (Bool-cases (test x)) [
    | inl t ↦ (rw t (done x t h.0), update_where-each P Q test f xs done left h.1)
    | inr t ↦ (rw t (left x h.0), update_where-each P Q test f xs done left h.1)
  ]

-- ===== src/Audit/Binding.antt =====
-- The last HMAC of a chain that `verify` accepts binds every row of it.
use codex_feishu.Prelude.{
  ℕ, ◌+◌, String, ◌≡◌, sym, ◌∙◌, ◌⊎◌, inl, inr, Option, none, some, [], ◌∷◌, str_eq, opt_str_eq,
  length, Bool-cases, eq_iff, opt_str_eq_iff, arith,
}
use codex_feishu.Exec.{ok}
use codex_feishu.Audit.{Hashing, AuditRow, Chain, link, verify}
use codex_feishu.Audit.Chain.{IsLinked, hmac_after, verify-IsLinked}

-- At some place the rows of the two chains have different links with one signature.
abbrev pub Clash : Hashing → Chain → Chain → Type 0
Clash z [] ys = ⊥
Clash z (x ∷ xs) [] = ⊥
Clash z (x ∷ xs) (y ∷ ys) =
    (¬ ((x.previous_hmac ≡ y.previous_hmac) × (x.record_hash ≡ y.record_hash))
      × (z.sign (link x.previous_hmac x.record_hash) ≡ z.sign (link y.previous_hmac y.record_hash)))
    ⊎ Clash z xs ys

-- The two chains agree in all columns that `verify` reads.
abbrev pub Agree : Chain → Chain → Type 0
Agree [] [] = Unit
Agree [] (y ∷ ys) = ⊥
Agree (x ∷ xs) [] = ⊥
Agree (x ∷ xs) (y ∷ ys) =
    ((x.sequence ≡ y.sequence)
      × (x.previous_hmac ≡ y.previous_hmac)
      × (x.record_hash ≡ y.record_hash)
      × (x.record_hmac ≡ y.record_hmac))
    × Agree xs ys

some_injective : (a b : String) → some a ≡ some b → a ≡ b
some_injective a b e = cc e

same_link : (p q : Option String) (g h : String) → ((p ≡ q) × (g ≡ h)) ⊎ ¬ ((p ≡ q) × (g ≡ h))
same_link p q g h = elim (Bool-cases (opt_str_eq p q)) [
  | inr d ↦ inr (λ k. ground (arith, k.0, d, opt_str_eq_iff p q))
  | inl a ↦ elim (Bool-cases (str_eq g h)) [
    | inr d ↦ inr (λ k. ground (arith, k.1, d, eq_iff g h))
    | inl b ↦ inl ground (arith, a, b, opt_str_eq_iff p q, eq_iff g h)
  ]
]

same_signature :
    (z : Hashing) (x y : AuditRow) (p q : Option String)
    → x.previous_hmac ≡ p
    → y.previous_hmac ≡ q
    → z.sign (link p x.record_hash) ≡ z.sign (link q y.record_hash)
    → z.sign (link x.previous_hmac x.record_hash) ≡ z.sign (link y.previous_hmac y.record_hash)
same_signature z x y p q e f h = rw (e, f) h

IsLinked-Agree :
    (z : Hashing) (n : ℕ) (p q : Option String) (xs ys : Chain)
    → IsLinked z n p xs
    → IsLinked z n q ys
    → length xs ≡ length ys
    → hmac_after p xs ≡ hmac_after q ys
    → ((p ≡ q) × Agree xs ys) ⊎ Clash z xs ys
IsLinked-Agree z n p q [] [] hx hy l e = inl (e, tt)
IsLinked-Agree z n p q [] (y ∷ ys) hx hy l e = absurd (omega (arith, l))
IsLinked-Agree z n p q (x ∷ xs) [] hx hy l e = absurd (omega (arith, l))
IsLinked-Agree z n p q (x ∷ xs) (y ∷ ys) ((sx, px, gx), hx) ((sy, py, gy), hy) l e =
    elim (IsLinked-Agree z (n + 1) (some x.record_hmac) (some y.record_hmac) xs ys hx hy
      (omega (arith, l)) e) [
        | inr c ↦ inr (inr c)
        | inl (m, a) ↦
            let k = some_injective x.record_hmac y.record_hmac m in
            elim (same_link x.previous_hmac y.previous_hmac x.record_hash y.record_hash) [
              | inr d ↦ inr (inl (d, same_signature z x y p q px py (gx ∙ k ∙ sym gy)))
              | inl (r, s) ↦ inl (sym px ∙ r ∙ py, ((sx ∙ sym sy, r, s, k), a))
            ]
      ]

-- Two chains that `verify` accepts, of the same number of rows and with the same last HMAC, agree in
-- every row and in every column that `verify` reads; or at one place their rows have different links,
-- which are signed alike.
pub verify-Agree :
    (z : Hashing) (xs ys : Chain) (n : ℕ)
    → verify z xs ≡ ok n
    → verify z ys ≡ ok n
    → hmac_after none xs ≡ hmac_after none ys
    → Agree xs ys ⊎ Clash z xs ys
verify-Agree z xs ys n hx hy e =
    let (lx, nx) = (verify-IsLinked z xs n).0 hx in
    let (ly, ny) = (verify-IsLinked z ys n).0 hy in
    elim (IsLinked-Agree z 0 none none xs ys lx ly (sym nx ∙ ny) e) [
      | inl (_, a) ↦ inl a
      | inr c ↦ inr c
    ]

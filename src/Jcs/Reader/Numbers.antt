-- ===== src/Jcs/Reader/Numbers.antt =====
-- Decimal notations are read back.
use codex_feishu.Prelude.{
  ℕ, zero, suc, ◌+◌, ◌-◌, ◌*◌, ◌/◌, ◌%◌, ◌<◌, true, false, [], ◌∷◌, ◌++◌, ◌≡◌, refl, arith, inl,
  inr, ltb, Codes, is_digit, Bool-cases,
}
use codex_feishu.Jcs.{decimal_loop, decimal}
use codex_feishu.Jcs.Reader.{read_digits}

-- The text goes on with no digit.
abbrev pub Stops : Codes → Type 0
Stops [] = Unit
Stops (c ∷ s) = is_digit c ≡ false

is_digit-digit : (n : ℕ) → n < 10 → is_digit (b'0' + n) ≡ true
is_digit-digit n h = ground (arith, h)

read_digit :
    (m n : ℕ) (s : Codes) → n < 10 → read_digits m ((b'0' + n) ∷ s) ≡ read_digits (m * 10 + n) s
unfolding read_digits
read_digit m n s h = let e : b'0' + n - b'0' ≡ n = omega arith in rw (is_digit-digit n h, e) refl

read_digits-decimal_loop :
    (fuel n : ℕ) (digits rest : Codes)
    → n < fuel
    → read_digits 0 (decimal_loop fuel n digits ++ rest) ≡ read_digits n (digits ++ rest)
unfolding decimal_loop
read_digits-decimal_loop zero n digits rest h = absurd (omega arith)
read_digits-decimal_loop (suc fuel) n digits rest h = elim (Bool-cases (ltb n 10)) [
  | inl e ↦
      let start : 0 * 10 + n ≡ n = omega arith in
      rw (e, read_digit 0 n (digits ++ rest) (ground (arith, e)), start) refl
  | inr e ↦
      let big : 9 < n = ground (arith, e) in
      let split : n / 10 * 10 + n % 10 ≡ n = omega arith in
      rw
        (
          e,
          read_digits-decimal_loop fuel (n / 10) ((b'0' + n % 10) ∷ digits) rest (omega arith),
          read_digit (n / 10) (n % 10) (digits ++ rest) (omega arith),
          split,
        )
        refl
]

read_digits-Stops : (n : ℕ) (rest : Codes) → Stops rest → read_digits n rest ≡ (n, rest)
unfolding read_digits
read_digits-Stops n [] h = refl
read_digits-Stops n (c ∷ s) h = rw h refl

pub read_digits-decimal :
    (n : ℕ) (rest : Codes) → Stops rest → read_digits 0 (decimal n ++ rest) ≡ (n, rest)
unfolding decimal
read_digits-decimal n rest h =
    rw (read_digits-decimal_loop (suc n) n [] rest (omega arith)) (read_digits-Stops n rest h)

decimal_loop-head :
    (fuel n : ℕ) (digits : Codes)
    → n < fuel
    → (c : ℕ) × (s : Codes) × (decimal_loop fuel n digits ≡ c ∷ s) × (is_digit c ≡ true)
unfolding decimal_loop
decimal_loop-head zero n digits h = absurd (omega arith)
decimal_loop-head (suc fuel) n digits h = elim (Bool-cases (ltb n 10)) [
  | inl e ↦ (b'0' + n, digits, rw e refl, is_digit-digit n (ground (arith, e)))
  | inr e ↦
      let big : 9 < n = ground (arith, e) in
      let (c, s, p, q) = decimal_loop-head fuel (n / 10) ((b'0' + n % 10) ∷ digits) (omega arith) in
      (c, s, rw e p, q)
]

-- A decimal notation starts with a digit.
pub decimal-head : (n : ℕ) → (c : ℕ) × (s : Codes) × (decimal n ≡ c ∷ s) × (is_digit c ≡ true)
unfolding decimal
decimal-head n = decimal_loop-head (suc n) n [] (omega arith)

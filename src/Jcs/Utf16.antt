-- ===== src/Jcs/Utf16.antt =====
-- Texts without surrogates have different sort keys unless they are one text.
use codex_feishu.Prelude.{
  ℕ, ◌+◌, ◌-◌, ◌*◌, ◌/◌, ◌%◌, ◌<◌, ◌≤◌, ◌≡◌, refl, sym, ◌∙◌, Bool, true, false, inl, inr, [], ◌∷◌,
  ◌++◌, arith, All, Codes, Bool-cases, if◌then◌else◌, ltb, leb, ◌&&◌, ap,
}
use codex_feishu.Jcs.{utf_16_be, char_utf_16_be}
use codex_feishu.Jcs.Success.{IsScalar}

-- The code points of Python texts that are no surrogates.
abbrev pub IsCharacter : ℕ → Type 0
IsCharacter c = IsScalar c × (c < 0x110000)

-- A decoder: the first code point that bytes stand for, before the bytes that are left.
abbrev is_high : ℕ → Bool
is_high u = leb 0xd800 u && leb u 0xdbff

abbrev from_units : ℕ → ℕ → ℕ
from_units u l = (u - 0xd800) * 0x400 + (l - 0xdc00) + 0x10000

decode_high : ℕ → Codes → Codes
decode_high u [] = []
decode_high u (a ∷ []) = []
decode_high u (a ∷ b ∷ s) = from_units u (a * 256 + b) ∷ s

decode_unit : ℕ → Codes → Codes
unfolding decode_high
decode_unit u s = if is_high u then decode_high u s else u ∷ s

decode : Codes → Codes
unfolding decode_unit
decode [] = []
decode (a ∷ []) = []
decode (a ∷ b ∷ s) = decode_unit (a * 256 + b) s

split_unit : (u : ℕ) → u / 256 * 256 + u % 256 ≡ u
split_unit u = omega arith

IsScalar-is_high : (c : ℕ) → IsScalar c → is_high c ≡ false
IsScalar-is_high c (inl h) = ground (arith, h)
IsScalar-is_high c (inr h) = ground (arith, h)

high_unit : (n : ℕ) → n < 0x100000 → is_high (0xd800 + n / 0x400) ≡ true
high_unit n h =
    let a : 0xd800 ≤ 0xd800 + n / 0x400 = omega arith in
    let b : 0xd800 + n / 0x400 ≤ 0xdbff = omega arith in ground (arith, a, b)

decode-char : (c : ℕ) (s : Codes) → IsCharacter c → decode (char_utf_16_be c ++ s) ≡ c ∷ s
unfolding decode char_utf_16_be
decode-char c s (h, b) = elim (Bool-cases (ltb c 0x10000)) [
  | inl e ↦ rw (e, split_unit c, IsScalar-is_high c h) refl
  | inr e ↦
      let long : 0xffff < c = ground (arith, e) in
      let n : ℕ = c - 0x10000 in
      let back : from_units (0xd800 + (c - 0x10000) / 0x400) (0xdc00 + (c - 0x10000) % 0x400) ≡ c =
        omega arith in
      rw
        (
          e,
          split_unit (0xd800 + (c - 0x10000) / 0x400),
          high_unit (c - 0x10000) (omega arith),
          split_unit (0xdc00 + (c - 0x10000) % 0x400),
          back,
        )
        refl
]

no_empty : (c : ℕ) (s : Codes) → [] ≡ char_utf_16_be c ++ s → ⊥
unfolding char_utf_16_be
no_empty c s e = elim (Bool-cases (ltb c 0x10000)) [
  | inl b ↦ let e' : [] ≡ c / 256 ∷ c % 256 ∷ s = rw b at e in cc
  | inr b ↦
      let e' : []
          ≡ (0xd800 + (c - 0x10000) / 0x400) / 256
            ∷ (0xd800 + (c - 0x10000) / 0x400) % 256
            ∷ (0xdc00 + (c - 0x10000) % 0x400) / 256
            ∷ (0xdc00 + (c - 0x10000) % 0x400) % 256
            ∷ s =
        rw b at e in
      cc
]

-- Two texts whose code points are below 0x110000 and no surrogates have one sort key only if they
-- are equal.
pub utf_16_be-injective :
    (s t : Codes) → All IsCharacter s → All IsCharacter t → utf_16_be s ≡ utf_16_be t → s ≡ t
unfolding utf_16_be
utf_16_be-injective [] [] hs ht e = refl
utf_16_be-injective [] (d ∷ t) hs ht e = absurd (no_empty d (utf_16_be t) e)
utf_16_be-injective (c ∷ s) [] hs ht e = absurd (no_empty c (utf_16_be s) (sym e))
utf_16_be-injective (c ∷ s) (d ∷ t) hs ht e =
    let both : c ∷ utf_16_be s ≡ d ∷ utf_16_be t =
      sym (decode-char c (utf_16_be s) hs.0) ∙ (ap decode e ∙ decode-char d (utf_16_be t) ht.0) in
    let tails : utf_16_be s ≡ utf_16_be t = cc in
    let ih = utf_16_be-injective s t hs.1 ht.1 tails in cc

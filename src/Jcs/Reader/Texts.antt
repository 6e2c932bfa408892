-- ===== src/Jcs/Reader/Texts.antt =====
-- Quoted texts are read back.
use mathlib.Core.List.{append_assoc}
use codex_feishu.Prelude.{
  ℕ, ◌+◌, ◌*◌, ◌<◌, ◌/◌, ◌%◌, false, none, some, [], ◌∷◌, ◌++◌, ◌≡◌, refl, arith, inl, inr, ◌==◌,
  leb, Codes, Bool-cases, Option-cases,
}
use codex_feishu.Jcs.{
  escapes, unicode_escape, hex_digit, quote_plain, quote_escaped, quote_char, quote_chars, quote,
  validate_unicode,
}
use codex_feishu.Jcs.Reader.{with_code, with_letter, unescape, hex_value, read_text, read_escape}

escapes-some : (c e : ℕ) → escapes c ≡ some e → (unescape e ≡ some c) × ((e == b'u') ≡ false)
unfolding escapes unescape
escapes-some c e h = ground (arith, h)

escapes-none : (c : ℕ) → escapes c ≡ none → ((c == 0x22) ≡ false) × ((c == 0x5c) ≡ false)
unfolding escapes
escapes-none c h = ground (arith, h)

hex_value-digit : (n : ℕ) → n < 16 → hex_value (hex_digit n) ≡ n
hex_value-digit n h = ground (arith, h)

hex_value-digits :
    (c : ℕ)
    → c < 65536
    → hex_value (hex_digit (c / 4096 % 16)) * 4096
        + hex_value (hex_digit (c / 256 % 16)) * 256
        + hex_value (hex_digit (c / 16 % 16)) * 16
        + hex_value (hex_digit (c % 16))
      ≡ c
hex_value-digits c h =
    rw
      (
        hex_value-digit (c / 4096 % 16) (omega arith),
        hex_value-digit (c / 256 % 16) (omega arith),
        hex_value-digit (c / 16 % 16) (omega arith),
        hex_value-digit (c % 16) (omega arith),
      )
      (omega arith)

read_text_ordinary :
    (c : ℕ) (s : Codes)
    → (c == 0x22) ≡ false
    → (c == 0x5c) ≡ false
    → read_text (c ∷ s) ≡ with_code c (read_text s)
unfolding read_text
read_text_ordinary c s p q = rw (read_text, p, q) refl

read_escape_letter :
    (d c : ℕ) (s : Codes)
    → (d == b'u') ≡ false
    → unescape d ≡ some c
    → read_escape (d ∷ s) ≡ with_code c (read_text s)
unfolding read_text with_letter
read_escape_letter d c s p q = rw (read_escape, p, q) refl

read_text-quote_plain :
    (c : ℕ) (s : Codes)
    → escapes c ≡ none
    → read_text (quote_plain c ++ s) ≡ with_code c (read_text s)
unfolding quote_plain unicode_escape read_text
read_text-quote_plain c s h = elim (Bool-cases (leb c 0x1f)) [
  | inl e ↦ rw (e, hex_value-digits c (ground (arith, e))) refl
  | inr e ↦ rw e (read_text_ordinary c s (escapes-none c h).0 (escapes-none c h).1)
]

read_text-quote_char :
    (c : ℕ) (s : Codes) → read_text (quote_char c ++ s) ≡ with_code c (read_text s)
unfolding quote_char quote_escaped read_text with_letter
read_text-quote_char c s = elim (Option-cases (escapes c)) [
  | inl e ↦ rw e (read_text-quote_plain c s e)
  | inr (d, e) ↦ rw e (read_escape_letter d c s (escapes-some c d e).1 (escapes-some c d e).0)
]

read_text-quote_chars : (s rest : Codes) → read_text (quote_chars s ++ 0x22 ∷ rest) ≡ some (s, rest)
unfolding quote_chars read_text with_code
read_text-quote_chars [] rest = refl
read_text-quote_chars (c ∷ s) rest =
    rw
      (
        append_assoc (quote_char c) (quote_chars s) (0x22 ∷ rest),
        read_text-quote_char c (quote_chars s ++ 0x22 ∷ rest),
        read_text-quote_chars s rest,
      )
      refl

-- A quoted text is a quote and what reads back as the text.
pub read_text-quote :
    (s t rest : Codes)
    → quote s ≡ some t
    → (u : Codes) × (t ++ rest ≡ 0x22 ∷ u) × (read_text u ≡ some (s, rest))
unfolding quote
read_text-quote s t rest h = elim (Bool-cases (validate_unicode s)) [
  | inr v ↦ let h' : none ≡ some t = rw v at h in cc
  | inl v ↦
      let h' : some (0x22 ∷ quote_chars s ++ 0x22 ∷ []) ≡ some t = rw v at h in
      let e : t ≡ 0x22 ∷ quote_chars s ++ 0x22 ∷ [] = cc in
      (
        quote_chars s ++ 0x22 ∷ rest,
        rw (e, append_assoc (quote_chars s) (0x22 ∷ []) rest) refl,
        read_text-quote_chars s rest,
      )
]

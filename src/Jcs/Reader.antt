-- ===== src/Jcs/Reader.antt =====
-- A reader of JSON texts, for what security/jcs.py writes: it reads back every plain text.

mod Texts
mod Numbers
pub mod Rounds
pub mod RoundTrip
use codex_feishu.Prelude.{
  ℕ, zero, suc, ◌+◌, ◌-◌, ◌*◌, Bool, true, false, Option, none, some, List, [], ◌∷◌, if◌then◌else◌,
  ◌==◌, ◌&&◌, Codes, is_digit,
}
use codex_feishu.Json.{pos, negsuc}
use codex_feishu.Jcs.{
  Value, null, boolean, integer, text, array, object, Items, no_items, item, Fields, no_fields,
  field, ◌>>=◌,
}

-- What was read, and the rest of the text.
abbrev pub Reading : Type 0 → Type 0
Reading A = Option (A × Codes)

unfoldable pub read_digits : ℕ → Codes → ℕ × Codes
read_digits m [] = (m, [])
read_digits m (c ∷ s) = if is_digit c then read_digits (m * 10 + (c - b'0')) s else (m, c ∷ s)

unfoldable pub read_positive : ℕ × Codes → Reading Value
read_positive (n, rest) = some (integer (pos n), rest)

unfoldable pub read_negative : ℕ × Codes → Reading Value
read_negative (zero, rest) = none
read_negative (suc n, rest) = some (integer (negsuc n), rest)

unfoldable pub with_code : ℕ → Reading Codes → Reading Codes
with_code c none = none
with_code c (some (s, rest)) = some (c ∷ s, rest)

unfoldable pub with_letter : Option ℕ → Reading Codes → Reading Codes
with_letter none r = none
with_letter (some c) r = with_code c r

-- The code point that a letter after a backslash stands for.
unfoldable pub unescape : ℕ → Option ℕ
unescape c =
    if c == 0x22
    then some 0x22
    else if c == 0x5c
    then some 0x5c
    else if c == b'b'
    then some 8
    else if c == b't'
    then some 9
    else if c == b'n'
    then some 10
    else if c == b'f'
    then some 12
    else if c == b'r'
    then some 13
    else none

abbrev pub hex_value : ℕ → ℕ
hex_value c = if is_digit c then c - b'0' else c - b'W'

unfoldable mutual
  -- A text after its opening quote.
  pub read_text : Codes → Reading Codes
  read_text [] = none
  read_text (c ∷ s) = elim (c == 0x22) [
    | true ↦ some ([], s)
    | false ↦ elim (c == 0x5c) [ true ↦ read_escape s | false ↦ with_code c (read_text s) ]
  ]

  pub read_escape : Codes → Reading Codes
  read_escape [] = none
  read_escape (c ∷ s) = elim (c == b'u') [
    | true ↦ read_unicode s
    | false ↦ with_letter (unescape c) (read_text s)
  ]

  pub read_unicode : Codes → Reading Codes
  read_unicode (a ∷ b ∷ c ∷ d ∷ s) =
      with_code (hex_value a * 4096 + hex_value b * 256 + hex_value c * 16 + hex_value d)
        (read_text s)
  read_unicode (a ∷ b ∷ c ∷ []) = none
  read_unicode (a ∷ b ∷ []) = none
  read_unicode (a ∷ []) = none
  read_unicode [] = none

-- The text goes on with the given code.
unfoldable pub expect : {A : Type 0} → ℕ → A → Codes → Reading A
expect d a [] = none
expect d a (c ∷ s) = if c == d then some (a, s) else none

unfoldable pub read_keyword : ℕ → Codes → Reading Value
read_keyword c (x ∷ y ∷ z ∷ s) =
    if (c == b'n') && (x == b'u') && (y == b'l') && (z == b'l')
    then some (null, s)
    else if (c == b't') && (x == b'r') && (y == b'u') && (z == b'e')
    then some (boolean true, s)
    else if (c == b'f') && (x == b'a') && (y == b'l') && (z == b's')
    then expect b'e' (boolean false) s
    else none
read_keyword c (x ∷ y ∷ []) = none
read_keyword c (x ∷ []) = none
read_keyword c [] = none

unfoldable pub read_string : Reading Codes → Reading Value
read_string none = none
read_string (some (s, rest)) = some (text s, rest)

unfoldable pub read_array : Reading Items → Reading Value
read_array none = none
read_array (some (items, rest)) = some (array items, rest)

unfoldable pub read_object : Reading Fields → Reading Value
read_object none = none
read_object (some (fields, rest)) = some (object fields, rest)

unfoldable pub with_item : Value → Reading Items → Reading Items
with_item v none = none
with_item v (some (items, rest)) = some (item v items, rest)

unfoldable pub with_field : Codes → Value → Reading Fields → Reading Fields
with_field k v none = none
with_field k v (some (fields, rest)) = some (field (some k) v fields, rest)

-- A key, its quotes and its colon.
unfoldable pub read_key_text : Reading Codes → Reading Codes
read_key_text none = none
read_key_text (some (k, rest)) = expect b':' k rest

unfoldable pub read_key : Codes → Reading Codes
read_key [] = none
read_key (c ∷ s) = if c == 0x22 then read_key_text (read_text s) else none

unfoldable mutual
  pub read_value : ℕ → Codes → Reading Value
  read_value zero s = none
  read_value (suc fuel) [] = none
  read_value (suc fuel) (c ∷ s) = elim (c == b'[') [
    | true ↦ read_array (read_items fuel s)
    | false ↦ elim (c == b'{') [
      | true ↦ read_object (read_fields fuel s)
      | false ↦
          if is_digit c
          then read_positive (read_digits 0 (c ∷ s))
          else if c == b'-'
          then read_negative (read_digits 0 s)
          else if c == 0x22
          then read_string (read_text s)
          else read_keyword c s
    ]
  ]

  -- The items of an array after its bracket, and those after the first one.
  pub read_items : ℕ → Codes → Reading Items
  read_items zero s = none
  read_items (suc fuel) s = elim (read_value fuel s) [
    | none ↦ expect b']' no_items s
    | some (v, rest) ↦ with_item v (read_more_items fuel rest)
  ]

  pub read_more_items : ℕ → Codes → Reading Items
  read_more_items zero s = none
  read_more_items (suc fuel) [] = none
  read_more_items (suc fuel) (c ∷ s) = elim (c == b',') [
    | false ↦ expect b']' no_items (c ∷ s)
    | true ↦ elim (read_value fuel s) [
      | none ↦ none
      | some (v, rest) ↦ with_item v (read_more_items fuel rest)
    ]
  ]

  pub read_fields : ℕ → Codes → Reading Fields
  read_fields zero s = none
  read_fields (suc fuel) s = elim (read_key s) [
    | none ↦ expect b'}' no_fields s
    | some (k, rest) ↦ elim (read_value fuel rest) [
      | none ↦ none
      | some (v, rest') ↦ with_field k v (read_more_fields fuel rest')
    ]
  ]

  pub read_more_fields : ℕ → Codes → Reading Fields
  read_more_fields zero s = none
  read_more_fields (suc fuel) [] = none
  read_more_fields (suc fuel) (c ∷ s) = elim (c == b',') [
    | false ↦ expect b'}' no_fields (c ∷ s)
    | true ↦ elim (read_key s) [
      | none ↦ none
      | some (k, rest) ↦ elim (read_value fuel rest) [
        | none ↦ none
        | some (v, rest') ↦ with_field k v (read_more_fields fuel rest')
      ]
    ]
  ]

-- ===== src/Jcs.antt =====
-- Canonical JSON: codex_feishu_bridge/security/jcs.py. A Python text is the list of its code points,
-- which may be lone surrogates; a key that is no text is `none`, and `unsupported` is a value of a
-- type that JSON does not have. Floats are left out. A raised `CanonicalizationError` is `none`.
pub mod Normal
pub mod Order
pub mod Injective
pub mod Success
pub mod Domain
pub mod Utf16
pub mod Reader
use codex_feishu.Prelude.{
  ℕ, zero, suc, ◌+◌, ◌-◌, ◌/◌, ◌%◌, Bool, true, false, Option, none, some, List, [], ◌∷◌, ◌++◌,
  if◌then◌else◌, ltb, leb, ◌==◌, ◌&&◌, ◌||◌, Codes,
}
use codex_feishu.Json.{ℤ, pos, negsuc}

infixl 5 ◌>>=◌
abbrev pub ◌>>=◌ : {A B : Type 0} → Option A → (A → Option B) → Option B
none >>= f = none
some a >>= f = f a

mutual
  pub data Value : Type 0 where
    null : Value
    boolean : Bool → Value
    integer : ℤ → Value
    text : Codes → Value
    array : Items → Value
    object : Fields → Value
    unsupported : Value

  pub data Items : Type 0 where
    no_items : Items
    item : Value → Items → Items

  pub data Fields : Type 0 where
    no_fields : Fields
    field : Option Codes → Value → Fields → Fields

-- `_MAX_SAFE_INTEGER`
abbrev pub max_safe_integer : ℕ
max_safe_integer = 9007199254740991

abbrev pub is_surrogate : ℕ → Bool
is_surrogate c = leb 0xd800 c && leb c 0xdfff

unfoldable pub validate_unicode : Codes → Bool
validate_unicode [] = true
validate_unicode (c ∷ s) = if is_surrogate c then false else validate_unicode s

-- The lower-case hexadecimal digit of a number below sixteen.
abbrev pub hex_digit : ℕ → ℕ
hex_digit n = if ltb n 10 then b'0' + n else b'a' + (n - 10)

-- `f"\\u{c:04x}"`, for a code point of at most four digits.
unfoldable pub unicode_escape : ℕ → Codes
unicode_escape c =
    b'\\'
    ∷ b'u'
    ∷ hex_digit (c / 4096 % 16)
    ∷ hex_digit (c / 256 % 16)
    ∷ hex_digit (c / 16 % 16)
    ∷ hex_digit (c % 16)
    ∷ []

-- The dict `escapes`: the letter after the backslash.
unfoldable pub escapes : ℕ → Option ℕ
escapes c =
    if c == 0x22
    then some 0x22
    else if c == 0x5c
    then some 0x5c
    else if c == 8
    then some b'b'
    else if c == 9
    then some b't'
    else if c == 10
    then some b'n'
    else if c == 12
    then some b'f'
    else if c == 13
    then some b'r'
    else none

unfoldable pub quote_plain : ℕ → Codes
quote_plain c = if leb c 0x1f then unicode_escape c else c ∷ []

unfoldable pub quote_escaped : ℕ → Option ℕ → Codes
quote_escaped c (some e) = 0x5c ∷ e ∷ []
quote_escaped c none = quote_plain c

unfoldable pub quote_char : ℕ → Codes
quote_char c = quote_escaped c (escapes c)

unfoldable pub quote_chars : Codes → Codes
quote_chars [] = []
quote_chars (c ∷ s) = quote_char c ++ quote_chars s

-- `_quote(value)`
unfoldable pub quote : Codes → Option Codes
quote s = if validate_unicode s then some (0x22 ∷ quote_chars s ++ 0x22 ∷ []) else none

-- The digits of `n` before `digits`; the last digit of a number is written first.
unfoldable pub decimal_loop : ℕ → ℕ → Codes → Codes
decimal_loop zero n digits = digits
decimal_loop (suc fuel) n digits =
    let more = decimal_loop fuel (n / 10) ((b'0' + n % 10) ∷ digits) in
    if ltb n 10 then (b'0' + n) ∷ digits else more

-- `str(n)`; every round divides by ten.
unfoldable pub decimal : ℕ → Codes
decimal n = decimal_loop (suc n) n []

-- `_number(value)` of an integer.
unfoldable pub number : ℤ → Option Codes
number (pos n) = if ltb max_safe_integer n then none else some (decimal n)
number (negsuc n) = if ltb max_safe_integer (suc n) then none else some (b'-' ∷ decimal (suc n))

-- The bytes of a sixteen-bit unit, the high one first, and those of a code point.
abbrev pub unit_bytes : ℕ → Codes
unit_bytes u = u / 256 ∷ u % 256 ∷ []

unfoldable pub char_utf_16_be : ℕ → Codes
char_utf_16_be c =
    if ltb c 0x10000
    then unit_bytes c
    else unit_bytes (0xd800 + (c - 0x10000) / 0x400) ++ unit_bytes (0xdc00 + (c - 0x10000) % 0x400)

-- `value.encode("utf-16-be")`
unfoldable pub utf_16_be : Codes → Codes
utf_16_be [] = []
utf_16_be (c ∷ s) = char_utf_16_be c ++ utf_16_be s

-- `a < b` of Python's bytes.
unfoldable pub bytes_ltb : Codes → Codes → Bool
bytes_ltb s [] = false
bytes_ltb [] (d ∷ t) = true
bytes_ltb (c ∷ s) (d ∷ t) = ltb c d || ((c == d) && bytes_ltb s t)

-- `_utf16_sort_key(value)`
unfoldable pub utf16_sort_key : Codes → Option Codes
utf16_sort_key s = if validate_unicode s then some (utf_16_be s) else none

-- A key of an object: its sort key, the key itself, and the canonical text of its value.
pub record Entry : Type 0 where
  pub sort_key : Codes
  pub key : Codes
  pub canonical : Codes

-- `sorted(…, key=…)`: stable, by the sort keys.
unfoldable pub insert_sorted : Entry → List Entry → List Entry
insert_sorted e [] = e ∷ []
insert_sorted e (f ∷ rest) =
    if bytes_ltb f.sort_key e.sort_key then f ∷ insert_sorted e rest else e ∷ f ∷ rest

unfoldable pub sorted : List Entry → List Entry
sorted [] = []
sorted (e ∷ rest) = insert_sorted e (sorted rest)

-- `",".join(…)`, the first text apart from those with a comma before them.
unfoldable pub comma_each : List Codes → Codes
comma_each [] = []
comma_each (t ∷ rest) = b',' ∷ t ++ comma_each rest

unfoldable pub comma_join : List Codes → Codes
comma_join [] = []
comma_join (t ∷ rest) = t ++ comma_each rest

-- `_quote(key) + ":" + canonicalize_text(value[key])`
unfoldable pub members : List Entry → Option (List Codes)
members [] = some []
members (e ∷ rest) = do
  quoted ← quote e.key
  more ← members rest
  some ((quoted ++ b':' ∷ e.canonical) ∷ more)

-- `sorted` of the keys and the join of the members in that order.
unfoldable pub object_text : List Entry → Option Codes
object_text entries = do
  texts ← members (sorted entries)
  some (b'{' ∷ comma_join texts ++ b'}' ∷ [])

unfoldable mutual
  pub canonicalize_text : Value → Option Codes
  canonicalize_text null = some (b'n' ∷ b'u' ∷ b'l' ∷ b'l' ∷ [])
  canonicalize_text (boolean true) = some (b't' ∷ b'r' ∷ b'u' ∷ b'e' ∷ [])
  canonicalize_text (boolean false) = some (b'f' ∷ b'a' ∷ b'l' ∷ b's' ∷ b'e' ∷ [])
  canonicalize_text (integer n) = number n
  canonicalize_text (text s) = quote s
  canonicalize_text (array items) = do
    texts ← item_texts items
    some (b'[' ∷ comma_join texts ++ b']' ∷ [])
  canonicalize_text (object fields) = do entries ← field_entries fields; object_text entries
  canonicalize_text unsupported = none

  pub item_texts : Items → Option (List Codes)
  item_texts no_items = some []
  item_texts (item v rest) = do t ← canonicalize_text v; more ← item_texts rest; some (t ∷ more)

  -- The keys in the order of the dict, each with the text of its value.
  pub field_entries : Fields → Option (List Entry)
  field_entries no_fields = some []
  field_entries (field none v rest) = none
  field_entries (field (some k) v rest) = do
    sort_key ← utf16_sort_key k
    t ← canonicalize_text v
    more ← field_entries rest
    some (record { sort_key = sort_key; key = k; canonical = t } ∷ more)

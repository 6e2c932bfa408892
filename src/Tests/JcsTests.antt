-- ===== src/Tests/JcsTests.antt =====
-- Canonical texts of concrete values, and the theorems at them.
use codex_feishu.Prelude.{◌≡◌, ◌↔◌, refl, true, none, some, [], ◌∷◌, Codes, codes, arith}
use codex_feishu.Json.{pos, negsuc}
use codex_feishu.Jcs.{
  Value, null, boolean, integer, text, array, object, no_items, item, no_fields, field, utf_16_be,
  canonicalize_text, quote, number, decimal, utf16_sort_key, members, object_text, comma_join,
  validate_unicode, sorted, insert_sorted, bytes_ltb, char_utf_16_be, quote_chars, quote_char,
  quote_escaped, escapes, quote_plain, comma_each, decimal_loop,
}
use codex_feishu.Jcs.Normal.{normal, insert_field, key_ltb}
use codex_feishu.Jcs.Order.{Same}
use codex_feishu.Jcs.Injective.{canonicalize_text-Same_iff}
use codex_feishu.Jcs.Reader.{read_value}
use codex_feishu.Jcs.Reader.Rounds.{cost}
use codex_feishu.Jcs.Reader.RoundTrip.{read_value-canonicalize_text}
use codex_feishu.Jcs.Domain.{InDomain, canonicalize_text-InDomain_iff}

-- `{"b": -12, "a": [true, null, "\n"]}`, and the same dict in the other order.
abbrev list_value : Value
list_value = array (item (boolean true) (item null (item (text (10 ∷ [])) no_items)))

abbrev request : Value
request =
    object (
      field (some (codes "b")) (integer (negsuc 11))
        (field (some (codes "a")) list_value no_fields))

abbrev reordered : Value
reordered =
    object (
      field (some (codes "a")) list_value
        (field (some (codes "b")) (integer (negsuc 11)) no_fields))

abbrev request_text : Codes
request_text = codes "{\"a\":[true,null,\"\\n\"],\"b\":-12}"

request_canonical : canonicalize_text request ≡ some request_text
unfolding canonicalize_text quote number decimal utf16_sort_key members object_text comma_join
    validate_unicode sorted insert_sorted bytes_ltb utf_16_be char_utf_16_be quote_chars quote_char
    quote_escaped escapes quote_plain comma_each decimal_loop
request_canonical = refl

-- A key beyond the sixteen-bit range stands before a private-use key.
emoji_first : bytes_ltb (utf_16_be (0x1f600 ∷ [])) (utf_16_be (0xfb33 ∷ [])) ≡ true
unfolding bytes_ltb utf_16_be char_utf_16_be
emoji_first = refl

-- A lone surrogate and an unsafe integer have no text.
lone_surrogate : canonicalize_text (text (0xd800 ∷ [])) ≡ none
unfolding canonicalize_text quote validate_unicode
lone_surrogate = refl

unsafe_integer : canonicalize_text (integer (pos 9007199254740992)) ≡ none
unfolding canonicalize_text number
unsafe_integer = refl

canonicalize_text-Same_iff_example :
    (canonicalize_text request ≡ canonicalize_text reordered) ↔ Same request reordered
canonicalize_text-Same_iff_example =
    canonicalize_text-Same_iff request reordered request_text request_canonical

read_value-canonicalize_text_example : read_value 20 request_text ≡ some (normal request, [])
unfolding cost normal insert_field key_ltb bytes_ltb utf_16_be char_utf_16_be
read_value-canonicalize_text_example =
    read_value-canonicalize_text request request_text 20 request_canonical (omega arith)

canonicalize_text-InDomain_iff_example :
    InDomain request ↔ ((t : Codes) × (canonicalize_text request ≡ some t))
canonicalize_text-InDomain_iff_example = canonicalize_text-InDomain_iff request

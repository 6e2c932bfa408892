-- ===== src/Json.antt =====
-- Python values of the JSON data model, as codex_feishu_bridge/security/jcs.py accepts them: `None`,
-- booleans, integers, texts, lists and dicts with text keys. Floats do not occur in what is signed
-- here and are left out.
use codex_feishu.Prelude.{
  true, false, not, ◌==◌, ℕ, String, Bool, Option, none, some, str_eq, if◌then◌else◌,
}

pub data ℤ : Type 0 where
  pos negsuc : ℕ → ℤ

mutual
  pub data Json : Type 0 where
    null : Json
    boolean : Bool → Json
    integer : ℤ → Json
    text : String → Json
    array : Items → Json
    object : Fields → Json

  pub data Items : Type 0 where
    no_items : Items
    item : Json → Items → Items

  pub data Fields : Type 0 where
    no_fields : Fields
    field : String → Json → Fields → Fields

-- `value.get(key)`
unfoldable pub lookup : String → Fields → Option Json
lookup k no_fields = none
lookup k (field j v rest) = if str_eq k j then some v else lookup k rest

-- A text or `None`.
abbrev pub optional_text : Option String → Json
optional_text none = null
optional_text (some s) = text s

-- Python's `not value`.
unfoldable pub is_falsy : Json → Bool
is_falsy null = true
is_falsy (boolean b) = not b
is_falsy (integer (pos n)) = n == 0
is_falsy (integer (negsuc n)) = false
is_falsy (text s) = str_eq s ""
is_falsy (array no_items) = true
is_falsy (array (item v rest)) = false
is_falsy (object no_fields) = true
is_falsy (object (field k v rest)) = false

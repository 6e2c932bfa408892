-- ===== src/Worker/Payload.antt =====
-- feishu/outbound.py, `OutboxWorker.run_once`: the kind of a message, and the keys of uploaded
-- images inside the body of a rich message.
use codex_feishu.Prelude.{
  ℕ, String, Bool, true, false, ◌&&◌, ◌||◌, Option, none, some, List, [], ◌∷◌, str_eq, holds_str,
  ◌==◌, if◌then◌else◌,
}
use codex_feishu.Json.{
  Json, null, text, array, object, Items, no_items, item, Fields, no_fields, field, lookup,
}
use codex_feishu.Outbox.{Row, RichImage}
use codex_feishu.Worker.{truthy}

unfoldable pub text_of : Option Json → Option String
text_of none = none
text_of (some v) = elim v [ text s ↦ some s | _ ↦ none ]

-- `body.get("_cfb_message_type")`, if it is a text.
unfoldable pub internal_message_type : Fields → Option String
internal_message_type body = text_of (lookup "_cfb_message_type" body)

-- A list or a dict, which no set contains: the test `in {"interactive", "post"}` raises TypeError. It
-- is not reached for another message type.
abbrev pub is_unhashable : Option Json → Bool
is_unhashable none = false
is_unhashable (some v) = elim v [ array _ ↦ true | object _ ↦ true | _ ↦ false ]

unfoldable pub is_untyped : Row → Fields → Bool
is_untyped r body =
    str_eq r.message_type "interactive" && is_unhashable (lookup "_cfb_message_type" body)

pub data Kind : Type 0 where
  plain image file rich : Kind

-- `is_rich_content` and `is_file_content`
unfoldable pub is_rich_content : Row → Option String → Bool
is_rich_content r internal =
    str_eq r.message_type "interactive"
    && (holds_str internal "interactive" || holds_str internal "post")

unfoldable pub is_file_content : Row → Option String → Bool
is_file_content r internal = str_eq r.message_type "interactive" && holds_str internal "file"

unfoldable pub internal_or : Option String → String → String
internal_or none t = t
internal_or (some i) t = i

unfoldable pub msg_type : Row → Option String → String
msg_type r internal =
    if str_eq r.operation "approval"
    then "interactive"
    else if is_rich_content r internal || is_file_content r internal
    then internal_or internal r.message_type
    else r.message_type

-- The branch that prepares the body.
unfoldable pub kind_of : Row → Option String → Kind
kind_of r internal =
    if str_eq (msg_type r internal) "image"
    then Kind.image
    else if is_file_content r internal
    then Kind.file
    else if is_rich_content r internal
    then Kind.rich
    else Kind.plain

-- `dict.pop(key)` and `dict[key] = value`
unfoldable pub remove_field : String → Fields → Fields
remove_field key no_fields = no_fields
remove_field key (field k v rest) = if str_eq key k then rest else field k v (remove_field key rest)

unfoldable pub set_field : String → Json → Fields → Fields
set_field key v no_fields = field key v no_fields
set_field key v (field k w rest) =
    if str_eq key k then field k v rest else field k w (set_field key v rest)

-- The elements with the keys of their images; or an image without a key; or a body of another
-- shape, which raises.
pub data Filling (A : Type 0) : Type 0 where
  filled : A → Filling A
  key_missing malformed : Filling A

-- `image_keys.get(ordinal)`, if it is true.
unfoldable pub image_key : ℕ → List RichImage → Option String
image_key ordinal [] = none
image_key ordinal (i ∷ rest) =
    if i.ordinal == ordinal then truthy i.image.key else image_key ordinal rest

-- `if internal_message_type == "post"`
abbrev pub key_field : Bool → String
key_field is_post = if is_post then "image_key" else "img_key"

abbrev pub ordinal_field : String
ordinal_field = "_cfb_image_ordinal"

unfoldable pub with_image_key : Bool → Fields → Option String → Filling Json
with_image_key is_post element none = key_missing
with_image_key is_post element (some key) =
    filled (object (set_field (key_field is_post) (text key) element))

unfoldable pub with_ordinal : Bool → List RichImage → Fields → Option ℕ → Filling Json
with_ordinal is_post images element none = malformed
with_ordinal is_post images element (some n) = with_image_key is_post element (image_key n images)

unfoldable pub fill_popped :
    (Json → Option ℕ) → Bool → List RichImage → Fields → Option Json → Filling Json
fill_popped int is_post images element none = filled (object element)
fill_popped int is_post images element (some null) = filled (object element)
fill_popped int is_post images element (some v) = with_ordinal is_post images element (int v)

-- One round of the loop over `rich_elements`.
unfoldable pub fill_element : (Json → Option ℕ) → Bool → List RichImage → Json → Filling Json
fill_element int is_post images (object element) =
    fill_popped int is_post images (remove_field ordinal_field element)
      (lookup ordinal_field element)
fill_element int is_post images v = filled v

unfoldable pub filled_items : Filling Json → Filling Items → Filling Items
filled_items key_missing rest = key_missing
filled_items malformed rest = malformed
filled_items (filled v) key_missing = key_missing
filled_items (filled v) malformed = malformed
filled_items (filled v) (filled rest) = filled (item v rest)

unfoldable pub fill_items : (Json → Filling Json) → Items → Filling Items
fill_items fill no_items = filled no_items
fill_items fill (item v rest) = filled_items (fill v) (fill_items fill rest)

unfoldable pub filled_array : Filling Items → Filling Json
filled_array key_missing = key_missing
filled_array malformed = malformed
filled_array (filled items) = filled (array items)

-- The elements of a list; iteration over an object or a text meets texts, which stay.
unfoldable pub fill_list : (Json → Filling Json) → Json → Filling Json
fill_list fill (array items) = filled_array (fill_items fill items)
fill_list fill (object fields) = filled (object fields)
fill_list fill (text s) = filled (text s)
fill_list fill v = malformed

unfoldable pub filled_field : String → Fields → Filling Json → Filling Fields
filled_field key body key_missing = key_missing
filled_field key body malformed = malformed
filled_field key body (filled v) = filled (set_field key v body)

-- `body.get(key, [])`, filled in its place.
unfoldable pub fill_at : String → Fields → (Json → Filling Json) → Option Json → Filling Fields
fill_at key body fill none = filled body
fill_at key body fill (some v) = filled_field key body (fill v)

unfoldable pub filled_object : Filling Fields → Filling Json
filled_object key_missing = key_missing
filled_object malformed = malformed
filled_object (filled fields) = filled (object fields)

-- `zh_cn["content"]`: the paragraphs, each a list of elements.
unfoldable pub fill_content : (Json → Filling Json) → Json → Filling Json
fill_content fill (object zh) =
    filled_object (fill_at "content" zh (fill_list (fill_list fill)) (lookup "content" zh))
fill_content fill v = malformed

-- The body that the provider gets.
unfoldable pub fill_body : (Json → Option ℕ) → Bool → List RichImage → Fields → Filling Fields
fill_body int true images body =
    fill_at "zh_cn" body (fill_content (fill_element int true images)) (lookup "zh_cn" body)
fill_body int false images body =
    fill_at "elements" body (fill_list (fill_element int false images)) (lookup "elements" body)

-- ===== src/Inbound/Events.antt =====
-- feishu/inbound.py, the first half of `ingest`: what a provider event must hold before the database
-- is read.
use codex_feishu.Prelude.{
  String, Bool, not, ◌&&◌, ◌||◌, Option, none, some, str_eq, ltb, leb, ◌==◌, if◌then◌else◌, length,
  Codes, codes, any, every, is_lower, is_upper, is_digit,
}
use codex_feishu.Json.{is_falsy, Json, Fields, text, object, lookup}
use codex_feishu.Commands.{Unicode, ControlCommand, parse_command}
use codex_feishu.Inbound.{Binding, Capabilities}

-- SHA-256 of a text; the hash of the canonical event, none if the event has no canonical text;
-- `json.loads`, none on a decoding error; `json.dumps({"text": …})`; and the Unicode data.
pub record Tools : Type 0 where
  pub sha256 : String → String
  pub raw_hash : Json → Option String
  pub loads : String → Option Json
  pub dump_text : String → String
  pub unicode : Unicode

-- The part of an event that is an object, and `_require_string`: a text that is not empty.
abbrev pub get_object : String → Fields → Option Fields
get_object k fields = elim (lookup k fields) [ some (object o) ↦ some o | _ ↦ none ]

abbrev pub get_text : String → Fields → Option String
get_text k fields = elim (lookup k fields) [ some (text s) ↦ some s | _ ↦ none ]

abbrev pub require_string : String → Fields → Option String
require_string k fields = elim (get_text k fields) [
  | none ↦ none
  | some s ↦ if str_eq s "" then none else some s
]

-- What the envelope of a message event identifies.
pub record Envelope : Type 0 where
  pub tenant : String
  pub app_id : String
  pub event_id : String
  pub open_id : String
  pub sender_type : String
  pub sender_tenant : String
  pub message_id : String
  pub chat_id : String
  pub chat_type : String
  pub message_type : String
  pub message : Fields

infixl 5 ◌>>=◌
abbrev ◌>>=◌ {ℓ κ} : {A : Type ℓ} {B : Type κ} → Option A → (A → Option B) → Option B
none >>= f = none
some a >>= f = f a

infixl 5 ◌>>◌
abbrev ◌>>◌ {ℓ} : {B : Type ℓ} → Option (Unit {0}) → Option B → Option B
m >> n = m >>= λ _. n

abbrev pure {ℓ} : {A : Type ℓ} → A → Option A
pure a = some a

abbrev guard : Bool → Option (Unit {0})
guard b = if b then some tt else none

-- The tests up to the event's identity; each refusal is `IngressRejected`.
unfoldable pub read_envelope : Fields → Option Envelope
read_envelope event = do
  header ← get_object "header" event
  payload ← get_object "event" event
  tenant ← require_string "tenant_key" header
  app_id ← require_string "app_id" header
  event_id ← require_string "event_id" header
  message ← get_object "message" payload
  sender ← get_object "sender" payload
  sender_id ← get_object "sender_id" sender
  open_id ← require_string "open_id" sender_id
  sender_type ← require_string "sender_type" sender
  sender_tenant ← require_string "tenant_key" sender
  message_id ← require_string "message_id" message
  chat_id ← require_string "chat_id" message
  chat_type ← require_string "chat_type" message
  message_type ← require_string "message_type" message
  pure (record {
    tenant = tenant;
    app_id = app_id;
    event_id = event_id;
    open_id = open_id;
    sender_type = sender_type;
    sender_tenant = sender_tenant;
    message_id = message_id;
    chat_id = chat_id;
    chat_type = chat_type;
    message_type = message_type;
    message = message;
  })

-- The event is of this tenant and app, from a user of it, in a chat of the bound type.
unfoldable pub is_bound : Binding → Envelope → Bool
is_bound b e =
    str_eq e.tenant b.tenant_key
    && str_eq e.app_id b.app_id
    && str_eq e.sender_type "user"
    && str_eq e.sender_tenant b.tenant_key
    && str_eq e.chat_type b.target_chat_type

-- The content of a message: its text, its command, and the resource of an attachment.
pub record Content : Type 0 where
  pub text : String
  pub command : Option ControlCommand
  pub resource : Option (String × Option String)

abbrev pub is_enabled : Capabilities → Option ControlCommand → Bool
is_enabled c none = c.text
is_enabled c (some command) = c.controls

unfoldable pub read_text : Tools → Capabilities → String → Option Content
read_text z c content = do
  decoded ← z.loads content
  fields ← elim decoded [ object o ↦ some o | _ ↦ none ]
  t ← get_text "text" fields
  guard (is_enabled c (parse_command z.unicode "text" (codes t)))
  pure (record { text = t; command = parse_command z.unicode "text" (codes t); resource = none })

-- `[A-Za-z0-9._-]{1,512}`
unfoldable pub is_resource_key : Codes → Bool
is_resource_key key =
    every (λ c. is_lower c || is_upper c || is_digit c || (c == b'.') || (c == b'_') || (c == b'-'))
      key
    && ltb 0 (length key)
    && leb (length key) 512

-- The tests on the name of a file.
unfoldable pub is_file_name : Unicode → Codes → Bool
is_file_name u name =
    not (every u.is_space name) && leb (length name) 255 && not (any (λ c. ltb c 32) name)

unfoldable pub read_file_name : Tools → String → Fields → Option (Option String)
read_file_name z message_type fields =
    if str_eq message_type "file"
    then (do
      name ← get_text "file_name" fields
      guard (is_file_name z.unicode (codes name))
      pure (some name))
    else some none

unfoldable pub read_attachment : Tools → Capabilities → String → String → Option Content
read_attachment z c message_type content = do
  guard (if str_eq message_type "image" then c.images else c.files)
  decoded ← z.loads content
  fields ← elim decoded [ object o ↦ some o | _ ↦ none ]
  key ← get_text (if str_eq message_type "image" then "image_key" else "file_key") fields
  guard (is_resource_key (codes key))
  name ← read_file_name z message_type fields
  pure (record { text = ""; command = none; resource = some (key, name) })

unfoldable pub read_content : Tools → Capabilities → String → String → Option Content
read_content z c message_type content =
    if str_eq message_type "text"
    then read_text z c content
    else if str_eq message_type "image" || str_eq message_type "file"
    then read_attachment z c message_type content
    else none

abbrev pub as_text : Json → Option (Option String)
as_text (text s) = some (some s)
as_text v = none

-- `message.get(k) or None`, used as a text. A value of another type is refused: by the test for
-- `thread_id`, by the database for a list or a dict. Numbers do not occur in the provider's events.
unfoldable pub read_reference : String → Fields → Option (Option String)
read_reference k message = elim (lookup k message) [
  | none ↦ some none
  | some v ↦ if is_falsy v then some none else as_text v
]

-- A message that passed all tests that need no database.
pub record Message : Type 0 where
  pub envelope : Envelope
  pub content : Content
  pub content_hash : String
  pub raw_hash : String
  pub root_id : Option String
  pub parent_id : Option String
  pub provider_thread_id : Option String

unfoldable pub read_event : Tools → Binding → Capabilities → Fields → Option Message
read_event z b c event = do
  e ← read_envelope event
  guard (is_bound b e)
  content ← get_text "content" e.message
  read ← read_content z c e.message_type content
  raw ← z.raw_hash (object event)
  root ← read_reference "root_id" e.message
  parent ← read_reference "parent_id" e.message
  thread ← read_reference "thread_id" e.message
  pure (record {
    envelope = e;
    content = read;
    content_hash = z.sha256 content;
    raw_hash = raw;
    root_id = root;
    parent_id = parent;
    provider_thread_id = thread;
  })

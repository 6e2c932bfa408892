-- ===== src/Worker/Send.antt =====
-- feishu/outbound.py, `OutboxWorker.run_once`: the call of the provider, or of the sender of the
-- user's own messages.
use Prim.Native.String.{◌++◌ as join}
use codex_feishu.Prelude.{
  true, false, ℕ, String, Bool, ◌&&◌, ◌||◌, Option, none, some, put_row, str_eq, if◌then◌else◌,
  is_none,
}
use codex_feishu.Exec.{Exec, Done, pure, write, or_raise, ◌>>=◌, ◌>>◌, provider_error}
use codex_feishu.Json.{Json, text, object, no_fields, field, lookup}
use codex_feishu.Outbox
use codex_feishu.Outbox.{Row, is_leased_by}
use codex_feishu.Worker.{
  Tools, Provider, ProviderResult, ProviderOutcome, Request, UserReply, Db, on_outbox, truthy,
}
use codex_feishu.Worker.Reply.{Target}
use codex_feishu.Worker.Payload.{text_of}

-- The UPDATE of `body_hash`.
unfoldable pub put_hash : ℕ → String → String → Option Row → Outbox.Db → Outbox.Db
put_hash id instance_id hash none db = db
put_hash id instance_id hash (some r) db =
    if is_leased_by instance_id r
    then record db { rows = put_row id (record r { body_hash = hash }) db.rows }
    else db

unfoldable pub record_hash : Tools → ℕ → Bool → String → Exec Db Done
record_hash z id is_staged content =
    if is_staged
    then on_outbox
        (write (λ o. put_hash id z.instance_id (z.serializer.sha256 content) (o.rows id) o))
    else pure tt

-- `body.get("text")`, if it is a text.
unfoldable pub body_text : Json → Option String
body_text v = elim v [ object fields ↦ text_of (lookup "text" fields) | _ ↦ none ]

-- The text with the name of the owner before it.
unfoldable pub named_text : Tools → String → String
named_text z s =
    z.dumps
      (object (field "text" (text (join "👤 " (join z.owner_display_name (join "：" s)))) no_fields))

unfoldable pub is_user_message : Row → Bool
is_user_message r = str_eq r.operation "user_message"

-- Without a sender the user's message goes out under the name of the owner.
unfoldable pub outbound_text : Tools → Provider → Row → String → String → Option String → String
outbound_text z p r msg_type content none = content
outbound_text z p r msg_type content (some s) =
    if is_user_message r && str_eq msg_type "text" && is_none p.user_message_sender
    then named_text z s
    else content

unfoldable pub call_request : Row → Target → String → String → Request
call_request r target msg_type content =
    if str_eq r.endpoint_name "send_message"
    then record {
      endpoint_name = r.endpoint_name;
      target_message_id = none;
      chat_id = target.chat_id;
      content = content;
      msg_type = msg_type;
      reply_in_thread = none;
      uuid = some r.stable_uuid;
    }
    else if str_eq r.endpoint_name "update_message"
    then record {
      endpoint_name = r.endpoint_name;
      target_message_id = r.target_message_id;
      chat_id = target.chat_id;
      content = content;
      msg_type = msg_type;
      reply_in_thread = none;
      uuid = none;
    }
    else record {
      endpoint_name = r.endpoint_name;
      target_message_id = r.target_message_id;
      chat_id = target.chat_id;
      content = content;
      msg_type = msg_type;
      reply_in_thread = some r.reply_in_thread;
      uuid = some r.stable_uuid;
    }

unfoldable pub call_provider : Provider → Row → Target → String → String → Exec Db ProviderResult
call_provider p r target msg_type content =
    or_raise (p.call (call_request r target msg_type content)) provider_error

-- A refused message of the user is sent by the client instead; the refusal is noted.
unfoldable pub fall_back :
    Tools → Provider → Row → Target → String → String → String → Exec Db ProviderResult
fall_back z p r target msg_type s code = do
  write (λ db. record db { user_cli_last_fallback = some code })
  call_provider p r target msg_type (named_text z s)

unfoldable pub is_permanent : ProviderOutcome → Bool
is_permanent ProviderOutcome.permanent = true
is_permanent o = false

unfoldable pub after_sender :
    Tools → Provider → Row → Target → String → String → ProviderResult → Exec Db ProviderResult
after_sender z p r target msg_type s a =
    if is_permanent a.outcome && is_user_message r
    then fall_back z p r target msg_type s a.code
    else pure a

unfoldable pub user_reply : Row → String → String → UserReply
user_reply r message_id s = record {
  message_id = message_id;
  text = s;
  reply_in_thread = r.reply_in_thread;
  idempotency_key = r.stable_uuid;
}

-- The sender of the user's messages takes text replies of two operations.
unfoldable pub goes_to_sender : Row → String → Bool
goes_to_sender r msg_type =
    (is_user_message r || str_eq r.operation "subscription")
    && str_eq msg_type "text"
    && str_eq r.endpoint_name "reply_message"

unfoldable pub send_by_sender :
    Tools
    → Provider
    → Row
    → Target
    → String
    → String
    → Option ProviderResult
    → Exec Db ProviderResult
send_by_sender z p r target msg_type s answer = do
  a ← or_raise answer provider_error
  after_sender z p r target msg_type s a

unfoldable pub send_through :
    Tools
    → Provider
    → Row
    → Target
    → String
    → String
    → Option (UserReply → Option ProviderResult)
    → Option String
    → Option String
    → Exec Db ProviderResult
send_through z p r target msg_type content none id s = call_provider p r target msg_type content
send_through z p r target msg_type content (some sender) none s =
    call_provider p r target msg_type content
send_through z p r target msg_type content (some sender) (some id) none =
    call_provider p r target msg_type content
send_through z p r target msg_type content (some sender) (some id) (some s) =
    if goes_to_sender r msg_type
    then send_by_sender z p r target msg_type s (sender (user_reply r id s))
    else call_provider p r target msg_type content

unfoldable pub send :
    Tools → Provider → ℕ → Row → Target → String → Bool → Json → Exec Db ProviderResult
send z p id r target msg_type is_staged body = do
  record_hash z id is_staged (z.dumps body)
  send_through z p r target msg_type (outbound_text z p r msg_type (z.dumps body) (body_text body))
      p.user_message_sender (truthy r.target_message_id) (body_text body)

-- ===== src/Receipts.antt =====
-- feishu/receipts.py: a status for a message of the owner, queued once.
pub mod Once
use Prim.Native.String.{◌++◌ as join}
use codex_feishu.Prelude.{
  ℕ, zero, suc, String, ◌≡◌, refl, sym, ap, subst, ◌∙◌, ◌<◌, inl, inr, Bool, true, false, not, ◌&&◌,
  ◌||◌, Option, none, some, Dict, str_eq, if◌then◌else◌, put_row, arith, eq_iff, Bool-cases,
  false-true, ◌==◌,
}
use codex_feishu.Exec.{
  Error, Exec, Result, ok, err, continue_with, pure, require, write, get_state, ◌>>=◌, ◌>>◌,
  value_error,
}
use codex_feishu.Exec.Keeps.{require_cases}
use codex_feishu.Outbox.{Row, Db, exists_below}
use codex_feishu.Outbox.Queue.{
  Message, new_row, is_queued, enqueue_provider_message, ensure_writable_sink, is_message_type,
}
use codex_feishu.Inbound.{Task, Binding}
use codex_feishu.Inbound.Selection.{Writer, stable_uuid, conversation_mode, first_chars}

unfoldable pub is_status : String → Bool
is_status s =
    str_eq s "control" || str_eq s "pending" || str_eq s "unconfirmed" || str_eq s "submitted"

abbrev pub receipt_id : String → String → String
receipt_id status message_id = join status (join "-ack:" message_id)

-- Where the receipt goes: the chat, its mode, and whether it is a reply in the thread.
pub record Place : Type 0 where
  pub chat_id : String
  pub mode : String
  pub is_reply : Bool

abbrev pub or_none : Option String → String
or_none none = "None"
or_none (some s) = s

abbrev pub place_of : Binding → Option Task → Place
place_of b none = record {
  chat_id = b.target_chat_id;
  mode = conversation_mode b;
  is_reply = false;
}
place_of b (some t) =
    if t.opted_in
    then record {
      chat_id = or_none t.chat_id;
      mode = t.conversation_mode;
      is_reply = str_eq t.conversation_mode "topic_group";
    }
    else record { chat_id = b.target_chat_id; mode = conversation_mode b; is_reply = false }

abbrev pub find_task : Dict Task → Option String → Option Task
find_task tasks none = none
find_task tasks (some t) = tasks t

abbrev pub receipt : Writer → Place → String → Option String → String → String → ℕ → Message
receipt w p message_id target status text priority = record {
  logical_message_id = receipt_id status message_id;
  operation = "control";
  message_type = "text";
  endpoint_name = if p.is_reply then "reply_message" else "send_message";
  stable_uuid = stable_uuid w (receipt_id status message_id) p.chat_id p.mode;
  marker = join status (join ":" (first_chars 20 message_id));
  body_json = w.tools.dump_text text;
  body_hash = w.tools.sha256 (w.tools.dump_text text);
  priority = priority;
  thread_id = target;
  turn_id = none;
  item_id = some message_id;
  target_message_id = if p.is_reply then some message_id else none;
  reply_in_thread = p.is_reply;
}

unfoldable pub enqueue_once : Message → ℕ → Bool → Exec Db (Option ℕ)
enqueue_once m now true = pure none
enqueue_once m now false = do id ← enqueue_provider_message m now; pure (some id)

-- `queue_ingress_status`; `tasks` are the rows of `task_bindings`.
unfoldable pub queue_ingress_status :
    Writer
    → Binding
    → Dict Task
    → String
    → Option String
    → String
    → String
    → ℕ
    → ℕ
    → Exec Db (Option ℕ)
queue_ingress_status w b tasks message_id target status text priority now = do
  require (is_status status) value_error
  db ← get_state
  enqueue_once
      (receipt w (place_of b (find_task tasks target)) message_id target status text priority) now
      (is_queued (receipt_id status message_id) db)

-- ===== src/Worker/Anchor.antt =====
-- feishu/outbound.py, `OutboxWorker.run_once`: the branches of a confirmed anchor and of a confirmed
-- approval card.
use Prim.Native.String.{◌++◌ as join}
use codex_feishu.Prelude.{
  suc, String, Bool, true, not, ◌&&◌, Option, none, some, put, put_row, str_eq, if◌then◌else◌,
  is_some, find, update_where,
}
use codex_feishu.Exec.{
  Exec, Done, pure, write, require, get_state, or_raise, ◌>>=◌, ◌>>◌, integrity_error, type_error,
}
use codex_feishu.Json.{text, object, no_fields, field}
use codex_feishu.Outbox
use codex_feishu.Outbox.{Row, OutboxState, TitleBinding, exists_below}
use codex_feishu.Outbox.Queue.{is_queued}
use codex_feishu.Inbound.Selection.{first_chars}
use codex_feishu.Worker.{Tools, Provider, ProviderResult, TaskColumns, Card, Db, on_outbox}
use codex_feishu.Worker.Reply.{Target}
use codex_feishu.Worker.Confirm.{put_ancestry}

-- `WHERE thread_id=? AND anchor_state='pending'`: the two halves of the row.
abbrev pub confirmed_columns : ProviderResult → TaskColumns → TaskColumns
confirmed_columns a c = record c {
  anchor_message_id = a.message_id;
  provider_thread_id = a.thread_id;
  anchor_state = "confirmed";
}

abbrev pub confirmed_title_hash : TitleBinding → TitleBinding
confirmed_title_hash b = record b {
  anchor_title_hash = b.pending_title_hash;
  pending_title_hash = none;
}

unfoldable pub put_anchor :
    String → ProviderResult → Option TitleBinding → Option TaskColumns → Db → Db
put_anchor t a none c s = s
put_anchor t a (some b) none s = s
put_anchor t a (some b) (some c) s =
    if str_eq c.anchor_state "pending"
    then record s {
      outbox = record s.outbox {
        task_bindings = put t (confirmed_title_hash b) s.outbox.task_bindings;
      };
      task_columns = put t (confirmed_columns a c) s.task_columns;
    }
    else s

unfoldable pub confirm_anchor : String → ProviderResult → Exec Db Done
confirm_anchor t a = do
  write (λ s. put_anchor t a (s.outbox.task_bindings t) (s.task_columns t) s)
  s ← get_state
  b ← or_raise (s.outbox.task_bindings t) type_error
  c ← or_raise (s.task_columns t) type_error
  chat_id ← or_raise b.chat_id integrity_error
  write (
      put_ancestry (record {
        message_id = a.message_id;
        root_id = none;
        parent_id = none;
        thread_id = t;
        chat_id = chat_id;
        provider_thread_id = c.provider_thread_id;
        source = "anchor";
      }))

abbrev pub subscription_body : Tools → String
subscription_body z = z.dumps (object (field "text" (text "🔔 已订阅任务更新") no_fields))

-- `str` of an optional column.
abbrev pub str_of : Option String → String
str_of none = "None"
str_of (some s) = s

unfoldable pub subscription_row : Tools → String → Target → Option String → Row
subscription_row z t target message_id =
    let logical_id = join "subscription:" t in
    record {
      logical_message_id = logical_id;
      thread_id = some t;
      turn_id = none;
      item_id = none;
      operation = "subscription";
      message_type = "text";
      endpoint_name = "reply_message";
      target_message_id = message_id;
      reply_in_thread = true;
      stable_uuid = z.stable_uuid logical_id (str_of target.chat_id) target.conversation_mode;
      marker = z.invisible_marker (join "cfb:" (first_chars 24 (z.serializer.sha256 logical_id)));
      body_json = subscription_body z;
      body_hash = z.serializer.sha256 (subscription_body z);
      priority = 90;
      state = OutboxState.pending;
      attempt_count = 0;
      next_attempt_at = z.clock.now;
      lease_owner = none;
      lease_expires_at = none;
      provider_message_id = none;
      first_attempt_at = none;
      last_error_code = none;
      created_at = z.clock.now;
    }

-- `INSERT … ON CONFLICT(logical_message_id) DO NOTHING`
unfoldable pub insert_new : Row → Outbox.Db → Outbox.Db
insert_new r o =
    if is_queued r.logical_message_id o
    then o
    else record o { rows = put_row o.next_id r o.rows; next_id = suc o.next_id }

unfoldable pub subscribe : Tools → Provider → String → Target → Option String → Exec Db Done
subscribe z p t target message_id =
    if is_some p.user_message_sender && str_eq target.conversation_mode "topic_group"
    then on_outbox (write (insert_new (subscription_row z t target message_id)))
    else pure tt

unfoldable pub follow_anchor : Tools → Provider → Row → Target → ProviderResult → Exec Db Done
follow_anchor z p r target a = do
  t ← or_raise r.thread_id type_error
  confirm_anchor t a
  subscribe z p t target a.message_id

-- `removeprefix`
unfoldable pub after_prefix : String → String → Option String
after_prefix String.[] s = some s
after_prefix (String.◌∷◌ c rest) String.[] = none
after_prefix (String.◌∷◌ c rest) (String.◌∷◌ d s) =
    let tail = after_prefix rest s in
    if str_eq (String.◌∷◌ c String.[]) (String.◌∷◌ d String.[]) then tail else none

unfoldable pub remove_prefix : String → String → String
remove_prefix prefix s = elim (after_prefix prefix s) [ none ↦ s | some rest ↦ rest ]

abbrev pub is_undelivered_card : String → Card → Bool
is_undelivered_card logical_id c =
    str_eq c.approval_id (remove_prefix "approval-card:" logical_id)
    && str_eq c.card_message_id logical_id

-- The card's column is NOT NULL.
unfoldable pub bind_card : Row → Option String → Exec Db Done
bind_card r (some m) = write (λ s. record s {
  approval_actions =
      update_where (is_undelivered_card r.logical_message_id)
        (λ c. record c { card_message_id = m }) s.approval_actions;
})
bind_card r none = do
  s ← get_state
  require (not (is_some (find (is_undelivered_card r.logical_message_id) s.approval_actions)))
      integrity_error

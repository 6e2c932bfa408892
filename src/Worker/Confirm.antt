-- ===== src/Worker/Confirm.antt =====
-- feishu/outbound.py, `OutboxWorker.run_once`: the row of a confirmed message, its
-- ancestry, and the transient messages of its turn.
use codex_feishu.Prelude.{
  ℕ, String, Bool, false, ◌&&◌, Option, none, some, [], ◌∷◌, ◌++◌, str_eq, holds_str, if◌then◌else◌,
  is_some, find, update_where, delete_where, coalesce,
}
use codex_feishu.Exec.{
  Exec, Done, pure, write, or_raise, ◌>>=◌, assertion_error, runtime_error, lost_compare_and_swap,
  integrity_error,
}
use codex_feishu.Outbox
use codex_feishu.Outbox.{Row, OutboxState, TitleBinding, exists_below}
use codex_feishu.Outbox.Queue.{finish_outbox}
use codex_feishu.Outbox.Titles.{confirm_task_title_update}
use codex_feishu.Worker.{Tools, ProviderResult, Ancestry, TransientMessage, Db, on_outbox, truthy}
use codex_feishu.Worker.Reply.{Target, ReplyParent, is_message}

-- Python's `a or b` of optional texts.
unfoldable pub or_else : Option String → Option String → Option String
or_else a b = coalesce (truthy a) b

abbrev pub is_title : Row → Bool
is_title r = str_eq r.operation "anchor_title"

unfoldable pub confirm_title : Tools → ℕ → Row → Exec Db Done
confirm_title z id r = do
  title_hash ← or_raise (truthy r.item_id) runtime_error
  thread_id ← or_raise r.thread_id lost_compare_and_swap
  on_outbox (confirm_task_title_update id z.instance_id thread_id title_hash)

-- The row itself: confirmed, for a title together with its task.
unfoldable pub confirm_row : Tools → ℕ → Row → Option String → Exec Db Done
confirm_row z id r message_id =
    if is_title r
    then confirm_title z id r
    else on_outbox (finish_outbox id z.instance_id OutboxState.confirmed message_id none none)

-- `INSERT OR REPLACE INTO message_ancestry`; the columns of the task and the chat are NOT NULL.
unfoldable pub replaces : Option String → Ancestry → Bool
replaces none a = false
replaces (some id) a = is_message id a

abbrev pub put_ancestry : Ancestry → Db → Db
put_ancestry a s = record s {
  message_ancestry = delete_where (replaces a.message_id) s.message_ancestry ++ (a ∷ []);
}

unfoldable pub record_reply :
    Row → Target → Option ReplyParent → ProviderResult → String → String → Exec Db Done
record_reply r target parent a message_id target_id = do
  p ← or_raise parent assertion_error
  thread_id ← or_raise r.thread_id integrity_error
  chat_id ← or_raise target.chat_id integrity_error
  write (
      put_ancestry (record {
        message_id = some message_id;
        root_id = or_else p.root_id (some target_id);
        parent_id = some target_id;
        thread_id = thread_id;
        chat_id = chat_id;
        provider_thread_id =
            or_else a.thread_id (or_else p.provider_thread_id target.provider_thread_id);
        source = "outbound";
      }))

unfoldable pub extend_ancestry :
    Row
    → Target
    → Option ReplyParent
    → ProviderResult
    → Option String
    → Option String
    → Exec Db Done
extend_ancestry r target parent a none t = pure tt
extend_ancestry r target parent a (some m) none = pure tt
extend_ancestry r target parent a (some m) (some t) =
    if str_eq r.endpoint_name "reply_message" then record_reply r target parent a m t else pure tt

-- `operation == "final"`: the transient messages of the turn may be cleaned up.
abbrev pub is_active_of : Option String → TransientMessage → Bool
is_active_of turn_id t = holds_str turn_id t.turn_id && str_eq t.lifecycle_state "transient_active"

unfoldable pub queue_cleanup : Row → Exec Db Done
queue_cleanup r = write (λ s. record s {
  transient_messages =
      update_where (is_active_of r.turn_id) (λ t. record t { lifecycle_state = "cleanup_queued" })
        s.transient_messages;
})

-- `WHERE thread_id=? AND turn_id=? AND item_id=? AND operation='final'`
unfoldable pub same_text : Option String → Option String → Bool
same_text none b = false
same_text (some a) b = holds_str b a

abbrev pub is_final_of : Row → Row → Bool
is_final_of r e =
    same_text e.thread_id r.thread_id
    && same_text e.turn_id r.turn_id
    && same_text e.item_id r.item_id
    && str_eq e.operation "final"

unfoldable pub has_final : Row → Outbox.Db → Bool
has_final r o = exists_below (λ _ e. is_final_of r e) o.rows o.next_id

abbrev pub is_transient : String → TransientMessage → Bool
is_transient id t = str_eq t.message_id id

-- `INSERT OR IGNORE INTO transient_messages`; the turn is NOT NULL.
unfoldable pub add_transient : String → String → Option String → Db → Db
add_transient message_id msg_type none s = s
add_transient message_id msg_type (some turn_id) s =
    if is_some (find (is_transient message_id) s.transient_messages) then s else record s {
      transient_messages =
          s.transient_messages
          ++ (record {
            message_id = message_id;
            turn_id = turn_id;
            message_type = msg_type;
            lifecycle_state = "transient_active";
          }
              ∷ []);
    }

unfoldable pub keep_transient : Row → String → Option String → Exec Db Done
keep_transient r msg_type none = pure tt
keep_transient r msg_type (some m) =
    write (λ s. if has_final r s.outbox then s else add_transient m msg_type r.turn_id s)

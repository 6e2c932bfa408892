-- ===== src/Inbound/Selection.antt =====
-- The choice of the current task: the second half of feishu/inbound.py, and the branch of
-- feishu/outbound.py that acts on a delivered selection message.
pub mod Delivery
use Prim.Native.String.{◌++◌ as join}
use codex_feishu.Prelude.{
  ℕ, zero, suc, ◌+◌, String, Bool, true, false, not, ◌&&◌, Option, none, some, List, [], ◌∷◌, ◌++◌,
  str_eq, holds_str, ◌==◌, if◌then◌else◌, is_none, find, update_where,
}
use codex_feishu.Exec.{
  Exec, Done, Result, ok, err, pure, require, write, get_state, or_raise, transaction, ◌>>=◌, ◌>>◌,
  ingress_rejected, integrity_error, lost_compare_and_swap,
}
use codex_feishu.Outbox.{OutboxState, Row}
use codex_feishu.Inbound.{
  SelectionState, Sequence, Task, Confirmation, Db, Binding, is_active, is_pending,
}
use codex_feishu.Inbound.Events.{Tools}

-- The decimal notation of a number, and `str(uuid.uuid5(_NAMESPACE, …))`.
pub record Writer : Type 0 where
  pub tools : Tools
  pub str : ℕ → String
  pub uuid5 : String → String

-- `opted_in=1 AND anchor_state='confirmed'`
unfoldable pub is_selectable : Option Task → Bool
is_selectable none = false
is_selectable (some t) = t.opted_in && str_eq t.anchor_state "confirmed"

abbrev pub choose : String → Sequence → Sequence
choose target s = record s {
  pending_task_id = some target;
  pending_binding_epoch = some (s.active_binding_epoch + 1);
  selection_state = SelectionState.selection_pending;
}

unfoldable pub begin_selection : String → Exec Db ℕ
begin_selection target = transaction (do
  db ← get_state
  s ← or_raise db.sequence ingress_rejected
  require (is_active s.selection_state) ingress_rejected
  require (is_selectable (db.task_bindings target)) ingress_rejected
  write (λ t. record t { sequence = some (choose target s) })
  pure (s.active_binding_epoch + 1))

-- `text[:count]`
unfoldable pub first_chars : ℕ → String → String
first_chars zero text = ""
first_chars (suc n) String.[] = ""
first_chars (suc n) (String.◌∷◌ c rest) = String.◌∷◌ c (first_chars n rest)

abbrev pub selection_id : Writer → String → ℕ → String
selection_id w target epoch = join "selection:" (join (w.str epoch) (join ":" target))

abbrev pub selection_body : Writer → String → ℕ → String
selection_body w target epoch =
    w.tools.dump_text (join "已选择任务 " (join (first_chars 8 target) (join "，绑定版本 " (w.str epoch))))

abbrev pub conversation_mode : Binding → String
conversation_mode b = if b.is_topic_group then "topic_group" else "p2p"

-- `stable_uuid`
unfoldable pub stable_uuid : Writer → String → String → String → String
stable_uuid w material chat_id mode =
    w.uuid5 (join mode (join "\u{1f}" (join chat_id (join "\u{1f}" material))))

abbrev pub new_confirmation : Writer → String → ℕ → Confirmation
new_confirmation w target epoch = record {
  logical_message_id = selection_id w target epoch;
  target_thread_id = target;
  binding_epoch = epoch;
  state = "pending";
}

unfoldable pub selection_row : Writer → Binding → String → ℕ → ℕ → Row
selection_row w b target epoch now = record {
  logical_message_id = selection_id w target epoch;
  thread_id = some target;
  turn_id = none;
  item_id = none;
  operation = "selection";
  message_type = "text";
  endpoint_name = "send_message";
  target_message_id = none;
  reply_in_thread = false;
  stable_uuid = stable_uuid w (selection_id w target epoch) b.target_chat_id (conversation_mode b);
  marker = join "selection:" (w.str epoch);
  body_json = selection_body w target epoch;
  body_hash = w.tools.sha256 (selection_body w target epoch);
  priority = 200;
  state = OutboxState.pending;
  attempt_count = 0;
  next_attempt_at = now;
  lease_owner = none;
  lease_expires_at = none;
  provider_message_id = none;
  first_attempt_at = none;
  last_error_code = none;
  created_at = now;
}

-- `WHERE logical_message_id=?`
abbrev pub has_id : String → Confirmation → Bool
has_id id c = str_eq c.logical_message_id id

abbrev pub is_row : String → Row → Bool
is_row id r = str_eq r.logical_message_id id

unfoldable pub queue_selection_confirmation : Writer → Binding → String → ℕ → ℕ → Exec Db String
queue_selection_confirmation w b target epoch now = transaction (do
  db ← get_state
  require (is_none (find (has_id (selection_id w target epoch)) db.selection_confirmations))
      integrity_error
  require (is_none (find (is_row (selection_id w target epoch)) db.provider_outbox)) integrity_error
  write (λ s. record s {
    selection_confirmations = s.selection_confirmations ++ (new_confirmation w target epoch ∷ []);
    provider_outbox = s.provider_outbox ++ (selection_row w b target epoch now ∷ []);
  })
  pure (selection_id w target epoch))

-- `pending_binding_epoch=?`
unfoldable pub holds_epoch : Option ℕ → ℕ → Bool
holds_epoch none epoch = false
holds_epoch (some e) epoch = e == epoch

-- `selection_state='selection_pending' AND pending_task_id=? AND pending_binding_epoch=?`
unfoldable pub awaits : Sequence → String → ℕ → Bool
awaits s target epoch =
    is_pending s.selection_state
    && holds_str s.pending_task_id target
    && holds_epoch s.pending_binding_epoch epoch

abbrev pub promote : String → ℕ → Sequence → Sequence
promote target epoch s = record s {
  current_task_id = some target;
  active_binding_epoch = epoch;
  pending_task_id = none;
  pending_binding_epoch = none;
  selection_state = SelectionState.active;
}

unfoldable pub confirm_selection : String → ℕ → Exec Db Done
confirm_selection target epoch = do
  db ← get_state
  s ← or_raise db.sequence ingress_rejected
  require (awaits s target epoch) ingress_rejected
  write (λ t. record t { sequence = some (promote target epoch s) })

-- `state='pending'` of a confirmation.
abbrev pub is_open : String → Confirmation → Bool
is_open id c = str_eq c.logical_message_id id && str_eq c.state "pending"

abbrev pub set_epoch : ℕ → Task → Task
set_epoch epoch t = record t { current_binding_epoch = epoch }

-- The transaction of the outbound worker for a selection message that was delivered.
unfoldable pub promote_selection : String → Confirmation → Exec Db Done
promote_selection id c = transaction (do
  db ← get_state
  s ← or_raise db.sequence lost_compare_and_swap
  require (awaits s c.target_thread_id c.binding_epoch) lost_compare_and_swap
  write (λ t. record t {
    sequence = some (promote c.target_thread_id c.binding_epoch s);
    task_bindings = λ k. elim (t.task_bindings k) [
      | none ↦ none
      | some task ↦
          some (if str_eq k c.target_thread_id then set_epoch c.binding_epoch task else task)
    ];
    selection_confirmations =
        update_where (is_open id) (λ x. record x { state = "confirmed" }) t.selection_confirmations;
  }))

unfoldable pub apply_found : String → Option Confirmation → Exec Db Done
apply_found id none = pure tt
apply_found id (some c) = promote_selection id c

-- That branch of the worker, where the confirmation may be gone.
unfoldable pub apply_selection : String → Exec Db Done
apply_selection id db = apply_found id (find (is_open id) db.selection_confirmations) db

abbrev pub lose : Sequence → Sequence
lose s =
    if is_pending s.selection_state
    then record s { selection_state = SelectionState.selection_indeterminate }
    else s

unfoldable pub lose_row : Option Sequence → Option Sequence
lose_row none = none
lose_row (some s) = some (lose s)

unfoldable pub mark_selection_indeterminate : Exec Db Done
mark_selection_indeterminate = write (λ db. record db { sequence = lose_row db.sequence })

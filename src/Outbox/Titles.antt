-- ===== src/Outbox/Titles.antt =====
-- runtime_storage.py: `confirm_task_title_update` and `fail_task_title_update`, which settle an
-- outbox row and the title of its task in one transaction.
use codex_feishu.Prelude.{
  ℕ, String, Bool, true, false, ◌&&◌, none, some, put, put_row, str_eq, holds_str,
}
use codex_feishu.Exec.{
  Exec, Done, require, write, get_state, or_raise, transaction, ◌>>=◌, ◌>>◌, value_error,
  lost_compare_and_swap,
}
use codex_feishu.Outbox.{OutboxState, Row, TitleBinding, Db, is_leased_by, release}

-- `state='leased' AND lease_owner=? AND operation='anchor_title' AND thread_id=? AND item_id=?`
abbrev pub is_title_lease : String → String → String → Row → Bool
is_title_lease instance_id thread_id title_hash r =
    is_leased_by instance_id r
    && str_eq r.operation "anchor_title"
    && holds_str r.thread_id thread_id
    && holds_str r.item_id title_hash

-- What the two UPDATE statements of a confirmation write.
abbrev pub confirmed_title : Row → Row
confirmed_title r = release (record r { state = OutboxState.confirmed; last_error_code = none })

abbrev pub confirmed_binding : String → String → TitleBinding → TitleBinding
confirmed_binding title_hash marker b = record b {
  anchor_title_hash = some title_hash;
  anchor_marker = some marker;
  pending_title_hash = none;
  blocked_title_hash = none;
  title_sync_error = none;
}

-- What the two UPDATE statements of a failure write.
abbrev pub failed_title : OutboxState → String → Row → Row
failed_title state error_code r =
    release (record r { state = state; last_error_code = some error_code })

abbrev pub failed_binding : String → String → TitleBinding → TitleBinding
failed_binding title_hash error_code b = record b {
  pending_title_hash = none;
  blocked_title_hash = some title_hash;
  title_sync_error = some error_code;
}

unfoldable pub confirm_task_title_update : ℕ → String → String → String → Exec Db Done
confirm_task_title_update outbox_id instance_id thread_id title_hash = transaction (do
  db ← get_state
  r ← or_raise (db.rows outbox_id) lost_compare_and_swap
  require (is_title_lease instance_id thread_id title_hash r) lost_compare_and_swap
  write (λ s. record s { rows = put_row outbox_id (confirmed_title r) s.rows })
  b ← or_raise (db.task_bindings thread_id) lost_compare_and_swap
  require (holds_str b.pending_title_hash title_hash) lost_compare_and_swap
  write (λ s. record s {
    task_bindings = put thread_id (confirmed_binding title_hash r.marker b) s.task_bindings;
  }))

unfoldable pub is_title_failure : OutboxState → Bool
is_title_failure OutboxState.permanent = true
is_title_failure OutboxState.delivery_indeterminate = true
is_title_failure _ = false

unfoldable pub fail_task_title_update :
    ℕ → String → String → String → OutboxState → String → Exec Db Done
fail_task_title_update outbox_id instance_id thread_id title_hash state error_code = do
  require (is_title_failure state) value_error
  transaction (do
    db ← get_state
    r ← or_raise (db.rows outbox_id) lost_compare_and_swap
    require (is_title_lease instance_id thread_id title_hash r) lost_compare_and_swap
    write (λ s. record s { rows = put_row outbox_id (failed_title state error_code r) s.rows })
    b ← or_raise (db.task_bindings thread_id) lost_compare_and_swap
    require (holds_str b.pending_title_hash title_hash) lost_compare_and_swap
    write (λ s. record s {
      task_bindings = put thread_id (failed_binding title_hash error_code b) s.task_bindings;
    }))

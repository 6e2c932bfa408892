-- ===== src/Outbox/Queue.antt =====
-- runtime_storage.py: `ensure_writable_sink`, `enqueue_provider_message`, `lease_outbox` and
-- `finish_outbox`; the suppression of queued rows of service.py and feishu/outbound.py; the
-- statements of feishu/reconciliation.py that settle a row of unknown outcome.
use codex_feishu.Prelude.{
  ℕ, zero, suc, ◌+◌, String, Bool, true, false, not, ◌&&◌, ◌||◌, Option, none, some, Rows, put_row,
  str_eq, opt_str_eq, ltb, leb, if◌then◌else◌, is_some, coalesce,
}
use codex_feishu.Exec.{
  Exec, Done, pure, require, write, get_state, or_raise, transaction, ◌>>=◌, ◌>>◌, value_error,
  permission_error, integrity_error, lost_compare_and_swap,
}
use codex_feishu.Outbox.{
  OutboxState, Row, Db, is_closed, is_waiting, is_leased, is_unknown, exists_below, is_leased_by,
  release,
}

-- `shadow_only` storage raises; so does storage that was never initialised.
unfoldable pub ensure_writable_sink : Exec Db Done
ensure_writable_sink = do
  db ← get_state
  mode ← or_raise db.sink_mode value_error
  require (not (str_eq mode "shadow_only")) permission_error

-- The arguments of `enqueue_provider_message`.
pub record Message : Type 0 where
  pub logical_message_id : String
  pub operation : String
  pub message_type : String
  pub endpoint_name : String
  pub stable_uuid : String
  pub marker : String
  pub body_json : String
  pub body_hash : String
  pub priority : ℕ
  pub thread_id : Option String
  pub turn_id : Option String
  pub item_id : Option String
  pub target_message_id : Option String
  pub reply_in_thread : Bool

unfoldable pub new_row : Message → ℕ → Row
new_row m now = record {
  logical_message_id = m.logical_message_id;
  thread_id = m.thread_id;
  turn_id = m.turn_id;
  item_id = m.item_id;
  operation = m.operation;
  message_type = m.message_type;
  endpoint_name = m.endpoint_name;
  target_message_id = m.target_message_id;
  reply_in_thread = m.reply_in_thread;
  stable_uuid = m.stable_uuid;
  marker = m.marker;
  body_json = m.body_json;
  body_hash = m.body_hash;
  priority = m.priority;
  state = OutboxState.pending;
  attempt_count = 0;
  next_attempt_at = now;
  lease_owner = none;
  lease_expires_at = none;
  provider_message_id = none;
  first_attempt_at = none;
  last_error_code = none;
  created_at = now;
}

-- The UNIQUE constraint on `logical_message_id`.
unfoldable pub is_queued : String → Db → Bool
is_queued id db = exists_below (λ _ r. str_eq r.logical_message_id id) db.rows db.next_id

unfoldable pub is_message_type : String → Bool
is_message_type t = str_eq t "text" || str_eq t "image" || str_eq t "interactive"

unfoldable pub enqueue_provider_message : Message → ℕ → Exec Db ℕ
enqueue_provider_message m now = do
  ensure_writable_sink
  require (is_message_type m.message_type) value_error
  db ← get_state
  require (not (is_queued m.logical_message_id db)) integrity_error
  write (λ s. record s { rows = put_row s.next_id (new_row m now) s.rows; next_id = suc s.next_id })
  pure db.next_id

-- `lease_expires_at IS NOT NULL AND lease_expires_at<=?`
unfoldable pub is_overdue : Row → ℕ → Bool
is_overdue r now = elim r.lease_expires_at [ none ↦ false | some t ↦ leb t now ]

-- The first UPDATE of `lease_outbox`: a lease that ran out has an unknown outcome.
unfoldable pub expire : ℕ → Row → Row
expire now r =
    if is_leased r.state && is_overdue r now
    then release (record r { state = OutboxState.unknown; last_error_code = some "lease_expired" })
    else r

abbrev pub expire_all : ℕ → Rows Row → Rows Row
expire_all now rows i = elim (rows i) [ none ↦ none | some r ↦ some (expire now r) ]

-- `earlier.turn_id=provider_outbox.turn_id AND earlier.turn_id IS NOT NULL`
abbrev pub same_turn : Row → Row → Bool
same_turn a b = is_some a.turn_id && opt_str_eq a.turn_id b.turn_id

-- The NOT EXISTS clause fails for a row whose identifier is `id`.
unfoldable pub is_blocked : Rows Row → ℕ → Row → Bool
is_blocked rows id r = exists_below (λ _ e. same_turn e r && not (is_closed e.state)) rows id

unfoldable pub is_ready : Rows Row → ℕ → ℕ → Row → Bool
is_ready rows now id r =
    is_waiting r.state && leb r.next_attempt_at now && not (is_blocked rows id r)

-- Of two ready rows the one of higher priority, and the older one at equal priority.
unfoldable pub prefer : ℕ → Row → Option (ℕ × Row) → Option (ℕ × Row)
prefer id r none = some (id, r)
prefer id r (some (k, b)) = if ltb b.priority r.priority then some (id, r) else some (k, b)

unfoldable pub consider : Rows Row → ℕ → ℕ → Option Row → Option (ℕ × Row) → Option (ℕ × Row)
consider rows now id none best = best
consider rows now id (some r) best = if is_ready rows now id r then prefer id r best else best

-- `ORDER BY priority DESC, outbox_id LIMIT 1` over the rows with an identifier below `n`.
unfoldable pub best_ready : Rows Row → ℕ → ℕ → Option (ℕ × Row)
best_ready rows now zero = none
best_ready rows now (suc n) = consider rows now n (rows n) (best_ready rows now n)

unfoldable pub leased_row : String → ℕ → ℕ → Row → Row
leased_row instance_id lease_until now r = record r {
  state = OutboxState.leased;
  lease_owner = some instance_id;
  lease_expires_at = some lease_until;
  attempt_count = r.attempt_count + 1;
  first_attempt_at = coalesce r.first_attempt_at (some now);
}

-- The UPDATE of the chosen row, and the SELECT of it that is returned.
unfoldable pub take_lease : String → ℕ → ℕ → Option (ℕ × Row) → Exec Db (Option (ℕ × Row))
take_lease instance_id lease_until now none = pure none
take_lease instance_id lease_until now (some (id, r)) = do
  require (is_waiting r.state) lost_compare_and_swap
  write (λ s. record s { rows = put_row id (leased_row instance_id lease_until now r) s.rows })
  pure (some (id, leased_row instance_id lease_until now r))

unfoldable pub lease_outbox : String → ℕ → ℕ → Exec Db (Option (ℕ × Row))
lease_outbox instance_id lease_until now = do
  ensure_writable_sink
  transaction (do
    write (λ s. record s { rows = expire_all now s.rows })
    db ← get_state
    take_lease instance_id lease_until now (best_ready db.rows now db.next_id))

-- The states that `finish_outbox` accepts: all but `pending` and `leased`.
unfoldable pub is_outcome : OutboxState → Bool
is_outcome OutboxState.pending = false
is_outcome OutboxState.leased = false
is_outcome _ = true

-- The row that the UPDATE of `finish_outbox` writes.
abbrev pub finished_row : OutboxState → Option String → Option String → Option ℕ → Row → Row
finished_row state provider_message_id error_code next_attempt_at r = release (record r {
  state = state;
  provider_message_id = coalesce provider_message_id r.provider_message_id;
  last_error_code = error_code;
  next_attempt_at = elim next_attempt_at [ none ↦ r.next_attempt_at | some t ↦ t ];
})

unfoldable pub finish_outbox :
    ℕ → String → OutboxState → Option String → Option String → Option ℕ → Exec Db Done
finish_outbox outbox_id instance_id state provider_message_id error_code next_attempt_at = do
  require (is_outcome state) value_error
  db ← get_state
  r ← or_raise (db.rows outbox_id) lost_compare_and_swap
  require (is_leased_by instance_id r) lost_compare_and_swap
  write (λ s. record s {
    rows =
        put_row outbox_id (finished_row state provider_message_id error_code next_attempt_at r)
          s.rows;
  })

-- `suppress_queued_internal_user_notifications`, once the identifiers are chosen, and the last
-- statement of `_suppress_internal_task_bindings`: waiting rows that the test picks are retired.
unfoldable pub suppress_waiting : (ℕ → Row → Bool) → String → Db → Db
suppress_waiting picked code db = record db {
  rows = λ i. elim (db.rows i) [
    | none ↦ none
    | some r ↦
        if picked i r && is_waiting r.state
        then some
            (release (record r { state = OutboxState.permanent; last_error_code = some code }))
        else some r
  ];
}

-- `UPDATE … WHERE outbox_id=? AND state='unknown'`
abbrev pub settle_unknown : ℕ → (Row → Row) → Db → Db
settle_unknown outbox_id f db = elim (db.rows outbox_id) [
  | none ↦ db
  | some r ↦ if is_unknown r.state then record db { rows = put_row outbox_id (f r) db.rows } else db
]

-- `SendReconciler._mark_indeterminate`
unfoldable pub mark_indeterminate : ℕ → String → Db → Db
mark_indeterminate outbox_id reason =
    settle_unknown outbox_id
      λ r. record r { state = OutboxState.delivery_indeterminate; last_error_code = some reason }

-- The UPDATE of `reconcile` inside the provider's idempotency window.
unfoldable pub retry_with_same_uuid : ℕ → ℕ → Db → Db
retry_with_same_uuid outbox_id now =
    settle_unknown outbox_id λ r. record r { state = OutboxState.retryable; next_attempt_at = now }

-- The UPDATE of `reconcile` for a unique match in the provider's history.
unfoldable pub confirm_match : ℕ → String → Db → Db
confirm_match outbox_id message_id =
    settle_unknown outbox_id
      λ r. record r { state = OutboxState.confirmed; provider_message_id = some message_id }

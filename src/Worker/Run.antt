-- ===== src/Worker/Run.antt =====
-- feishu/outbound.py, `OutboxWorker.run_once`: one queued message from its lease to its outcome.
use codex_feishu.Prelude.{
  ℕ, String, Bool, true, false, not, ◌||◌, Option, none, some, str_eq, if◌then◌else◌,
}
use codex_feishu.Exec.{
  Exec, Done, pure, or_raise, require, type_error, ◌>>=◌, ◌>>◌, value_error, lost_compare_and_swap,
}
use codex_feishu.Json.{Json, object, Fields}
use codex_feishu.Outbox.{Row, OutboxState}
use codex_feishu.Outbox.Queue.{lease_outbox, finish_outbox}
use codex_feishu.Outbox.Titles.{fail_task_title_update}
use codex_feishu.Worker.{
  Tools, Provider, ProviderResult, ProviderOutcome, Db, on_outbox, terminal_state, trip,
}
use codex_feishu.Worker.Reply.{
  Target, ReplyParent, binding_of, reply_parent, is_refused, refuse_reply, trip_final,
}
use codex_feishu.Worker.Payload.{
  internal_message_type, is_untyped, msg_type, kind_of, is_rich_content, is_file_content,
}
use codex_feishu.Worker.Upload.{prepare, retry_later}
use codex_feishu.Worker.Send.{send}
use codex_feishu.Worker.Confirm.{is_title}
use codex_feishu.Worker.Follow.{confirm}

unfoldable pub end_row : Tools → ℕ → OutboxState → String → Exec Db Done
end_row z id state code = on_outbox (finish_outbox id z.instance_id state none (some code) none)

-- A title whose update failed is released together with its task.
unfoldable pub fail_title : Tools → ℕ → Row → OutboxState → String → Exec Db Done
fail_title z id r state code = do
  thread_id ← or_raise r.thread_id lost_compare_and_swap
  title_hash ← or_raise r.item_id lost_compare_and_swap
  on_outbox (fail_task_title_update id z.instance_id thread_id title_hash state code)

unfoldable pub give_up_row : Tools → ℕ → Row → String → Exec Db Done
give_up_row z id r code =
    if is_title r
    then fail_title z id r OutboxState.permanent code
    else end_row z id (terminal_state r) code

unfoldable pub trip_auth : String → Exec Db Done
trip_auth code =
    if str_eq code "http_401" || str_eq code "http_403" then trip "provider_auth" code else pure tt

unfoldable pub give_up : Tools → ℕ → Row → String → Exec Db Done
give_up z id r code = do give_up_row z id r code; trip_final r; trip_auth code

unfoldable pub leave_unknown : Tools → ℕ → Row → String → Exec Db Done
leave_unknown z id r code =
    if is_title r
    then fail_title z id r OutboxState.delivery_indeterminate code
    else end_row z id OutboxState.unknown code

unfoldable pub settle_by :
    Tools
    → Provider
    → ℕ
    → Row
    → Target
    → Option ReplyParent
    → String
    → ProviderResult
    → ProviderOutcome
    → Exec Db Done
settle_by z p id r target parent msg_type a ProviderOutcome.confirmed =
    confirm z p id r target parent msg_type a
settle_by z p id r target parent msg_type a ProviderOutcome.retryable =
    retry_later z id a.code a.retry_after_seconds r.attempt_count
settle_by z p id r target parent msg_type a ProviderOutcome.unknown = leave_unknown z id r a.code
settle_by z p id r target parent msg_type a ProviderOutcome.permanent = give_up z id r a.code

unfoldable pub settle_answer :
    Tools
    → Provider
    → ℕ
    → Row
    → Target
    → Option ReplyParent
    → String
    → ProviderResult
    → Exec Db Done
settle_answer z p id r target parent msg_type a =
    settle_by z p id r target parent msg_type a a.outcome

unfoldable pub deliver :
    Tools
    → Provider
    → ℕ
    → Row
    → Target
    → Option ReplyParent
    → Option String
    → Option Json
    → Exec Db Done
deliver z p id r target parent internal none = pure tt
deliver z p id r target parent internal (some body) = do
  a ←
      send z p id r target (msg_type r internal)
        (is_rich_content r internal || is_file_content r internal) body
  settle_answer z p id r target parent (msg_type r internal) a

unfoldable pub process_reply :
    Tools → Provider → ℕ → Row → Target → Option ReplyParent → Option String → Fields → Exec Db Done
process_reply z p id r target parent internal body = do
  require (not (is_untyped r body)) type_error
  ready ← prepare z p id r internal body (kind_of r internal)
  deliver z p id r target parent internal ready

unfoldable pub process : Tools → Provider → ℕ → Row → Target → Fields → Exec Db Done
process z p id r target body db =
    if is_refused r target db
    then refuse_reply z id r db
    else process_reply z p id r target (reply_parent r db) (internal_message_type body) body db

unfoldable pub address : Tools → Provider → ℕ → Row → Fields → Option Target → Exec Db Done
address z p id r body none = end_row z id OutboxState.permanent "binding_missing"
address z p id r body (some target) = process z p id r target body

unfoldable pub run_row : Tools → Provider → ℕ → Row → Json → Exec Db Done
run_row z p id r (object body) db = address z p id r body (binding_of r db) db
run_row z p id r v db = end_row z id OutboxState.permanent "invalid_body" db

unfoldable pub run_leased : Tools → Provider → Option (ℕ × Row) → Exec Db Bool
run_leased z p none = pure false
run_leased z p (some (id, r)) = do
  body ← or_raise (z.loads r.body_json) value_error
  run_row z p id r body
  pure true

unfoldable pub run_once : Tools → Provider → Exec Db Bool
run_once z p = do
  leased ← on_outbox (lease_outbox z.instance_id z.clock.lease_until z.clock.now)
  run_leased z p leased

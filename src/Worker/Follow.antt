-- ===== src/Worker/Follow.antt =====
-- feishu/outbound.py, `OutboxWorker.run_once`: what follows a message that the provider confirmed, by
-- its operation.
use codex_feishu.Prelude.{ℕ, String, Option, str_eq, if◌then◌else◌}
use codex_feishu.Exec.{Exec, Done, pure, ◌>>◌}
use codex_feishu.Outbox.{Row}
use codex_feishu.Inbound.Selection.{apply_selection}
use codex_feishu.Worker.{Tools, Provider, ProviderResult, Db, on_selection, truthy}
use codex_feishu.Worker.Reply.{Target, ReplyParent}
use codex_feishu.Worker.Confirm.{confirm_row, extend_ancestry, queue_cleanup, keep_transient}
use codex_feishu.Worker.Anchor.{follow_anchor, bind_card}

unfoldable pub follow : Tools → Provider → Row → Target → String → ProviderResult → Exec Db Done
follow z p r target msg_type a =
    if str_eq r.operation "final"
    then queue_cleanup r
    else if str_eq r.operation "commentary"
    then keep_transient r msg_type (truthy a.message_id)
    else if str_eq r.operation "anchor"
    then follow_anchor z p r target a
    else if str_eq r.operation "approval"
    then bind_card r a.message_id
    else if str_eq r.operation "selection"
    then on_selection (apply_selection r.logical_message_id)
    else pure tt

unfoldable pub confirm :
    Tools
    → Provider
    → ℕ
    → Row
    → Target
    → Option ReplyParent
    → String
    → ProviderResult
    → Exec Db Done
confirm z p id r target parent msg_type a = do
  confirm_row z id r a.message_id
  extend_ancestry r target parent a (truthy a.message_id) (truthy r.target_message_id)
  follow z p r target msg_type a

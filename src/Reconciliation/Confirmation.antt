-- ===== src/Reconciliation/Confirmation.antt =====
-- What `reconcile` returns, and when it confirms a message.
use codex_feishu.Prelude.{ℕ, String, ◌≡◌, true, Option, none, some, [], ◌∷◌}
use codex_feishu.Exec.{Error, Result, ok, err}
use codex_feishu.Outbox.{Row, Db, TitleBinding}
use codex_feishu.Outbox.Queue.{mark_indeterminate, retry_with_same_uuid, confirm_match}
use codex_feishu.Reconciliation.{
  Provider, Endpoint, Reconciled, indeterminate, binding_of, is_in_window, enabled_endpoint,
  keep_unknown,
}
use codex_feishu.Reconciliation.Matches.{IsRead}

-- What `reconcile` may do with the row `id`: raise and change nothing; schedule it again with its
-- UUID, inside the provider's window; confirm it by the only match of a history of its chat that was
-- read to the end; or mark it as indeterminate.
pub data Outcome (z : Provider) (id now : ℕ) (db : Db) : Result Reconciled × Db → Type 0 where
  raised : (e : Error) → Outcome z id now db (err e, db)
  retried :
      (r : Row) (first_attempt : ℕ) (e : Endpoint)
      → keep_unknown (db.rows id) ≡ some r
      → r.first_attempt_at ≡ some first_attempt
      → enabled_endpoint (z.endpoints r.endpoint_name) ≡ some e
      → is_in_window z first_attempt e.uuid_window_seconds ≡ true
      → Outcome z id now db (
        ok (record { state = "retry_with_same_uuid"; message_id = none; matches = 0 }),
        retry_with_same_uuid id now db,
      )
  matched :
      (r : Row) (b : TitleBinding) (m : String)
      → keep_unknown (db.rows id) ≡ some r
      → binding_of r.thread_id db ≡ some b
      → IsRead z r b.chat_id 0 none (m ∷ [])
      → Outcome z id now db (
        ok (record { state = "confirmed"; message_id = some m; matches = 1 }),
        confirm_match id m db,
      )
  unresolved :
      (r : Row) (reason : String) (count : ℕ)
      → keep_unknown (db.rows id) ≡ some r
      → Outcome z id now db (ok (indeterminate count), mark_indeterminate id reason db)

module _ (z : Provider) (fuel id now : ℕ) (db : Db) (r : Row)
    (unknown : keep_unknown (db.rows id) ≡ some r) where
  abbrev Ends : Option (Result Reconciled × Db) → Type 0
  Ends x = (y : Result Reconciled × Db) → x ≡ some y → Outcome z id now db y

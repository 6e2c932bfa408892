-- ===== src/Tasks/History.antt =====
-- Histories of the calls of `TaskAnchorManager`.
use codex_feishu.Prelude.{ℕ, String, Option, find, List, [], ◌∷◌, Codes}
use codex_feishu.Exec.Keeps.{settle_state}
use codex_feishu.Tasks.{Db, is_binding}
use codex_feishu.Tasks.Anchors.{
  Tools, opt_in, sync_title, is_opted_in, archive, reactivate, confirm,
}
use codex_feishu.Tasks.Carried.{
  AreCarried, opt_in-AreCarried, sync_found-AreCarried, archive_found-AreCarried,
  reactivate-AreCarried, confirm-AreCarried,
}

pub data Call : Type 0 where
  opted_in : (thread_id root chat_id mode : String) (title name : Option Codes) (now : ℕ) → Call
  synced : (thread_id : String) (title : Codes) (name : Option Codes) (now : ℕ) → Call
  archived : (thread_id : String) (now : ℕ) → Call
  reactivated : (thread_id : String) → Call
  confirmed : (thread_id message_id : String) → Call

-- The database after a call, whether it returns or raises.
unfoldable pub after : Tools → Call → Db → Db
after w (Call.opted_in thread_id root chat_id mode title name now) db =
    (opt_in w thread_id root chat_id mode title name now db).1
after w (Call.synced thread_id title name now) db = (sync_title w thread_id title name now db).1
after w (Call.archived thread_id now) db = (archive w thread_id now db).1
after w (Call.reactivated thread_id) db = (reactivate thread_id db).1
after w (Call.confirmed thread_id message_id) db = (confirm thread_id message_id db).1

unfoldable pub after_all : Tools → List Call → Db → Db
after_all w [] db = db
after_all w (call ∷ calls) db = after_all w calls (after w call db)

after-AreCarried :
    (w : Tools) (call : Call) (db : Db) → AreCarried w db → AreCarried w (after w call db)
unfolding after sync_title archive
after-AreCarried w (Call.opted_in thread_id root chat_id mode title name now) db h =
    opt_in-AreCarried w thread_id root chat_id mode title name now db h
after-AreCarried w (Call.synced thread_id title name now) db h =
    settle_state (AreCarried w) db _ h
      (sync_found-AreCarried w title name now (find (is_opted_in thread_id) db.task_bindings) db h)
after-AreCarried w (Call.archived thread_id now) db h =
    settle_state (AreCarried w) db _ h
      (archive_found-AreCarried w now (find (is_binding thread_id) db.task_bindings) db h)
after-AreCarried w (Call.reactivated thread_id) db h = reactivate-AreCarried w thread_id db h
after-AreCarried w (Call.confirmed thread_id message_id) db h =
    confirm-AreCarried w thread_id message_id db h

-- If every title that a binding waits for has its row in the outbox, that of the binding's anchor or
-- that of the title under its revision, then this is so after any history of the manager's calls,
-- whichever raise.
pub after_all-AreCarried :
    (w : Tools) (calls : List Call) (db : Db)
    → AreCarried w db
    → AreCarried w (after_all w calls db)
unfolding after_all
after_all-AreCarried w [] db h = h
after_all-AreCarried w (call ∷ calls) db h =
    after_all-AreCarried w calls (after w call db) (after-AreCarried w call db h)

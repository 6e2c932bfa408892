-- ===== src/Approvals/Emergency.antt =====
-- codex_feishu_bridge/security/emergency.py: `soft_quiesce` and `hard_stop`.
use codex_feishu.Prelude.{
  ℕ, ◌+◌, String, Bool, ◌||◌, Option, none, some, [], str_eq, is_none, put, length, update_where,
  row_count,
}
use codex_feishu.Exec.{
  Error, Exec, Done, pure, write, get_state, raise, raise_if, transaction, ◌>>=◌, ◌>>◌, value_error,
}
use codex_feishu.Models.{ApprovalState, approval_eq}
use codex_feishu.Approvals.{Action, Request, ServiceState, TaskGrant, Db, with_state}

pub record StopResult : Type 0 where
  pub kill_generation : ℕ
  pub grants_revoked : ℕ
  pub approvals_cancelled : ℕ

-- `UPDATE service_state SET process_state=? WHERE singleton=1`
unfoldable pub set_process_state : String → Db → Db
set_process_state state db = record db {
  service_state = elim db.service_state [
    | none ↦ none
    | some s ↦ some (record s { process_state = state })
  ];
}

-- The INSERT with ON CONFLICT DO UPDATE.
unfoldable pub open_breaker : String → String → Db → Db
open_breaker name reason db = record db {
  circuit_breakers = put name (record { state = "open"; reason = some reason }) db.circuit_breakers;
}

unfoldable pub soft_quiesce : String → Exec Db Done
soft_quiesce reason =
    transaction (do write (set_process_state "quiescing"); write (open_breaker "ingress" reason))

-- `state IN ('issued','action_committed')`
abbrev pub is_open : Request → Bool
is_open r =
    approval_eq r.state ApprovalState.issued || approval_eq r.state ApprovalState.action_committed

abbrev pub is_active : TaskGrant → Bool
is_active g = str_eq g.state "active"

abbrev pub revoke : TaskGrant → TaskGrant
revoke g = record g { state = "revoked" }

abbrev pub spend : ℕ → Action → Action
spend now a = record a { consumed_at = some now }

-- All the UPDATE and DELETE statements of the transaction.
unfoldable pub fence : ℕ → String → ℕ → Db → Db
fence generation reason now db = open_breaker "global" reason (record db {
  service_state = some (record { kill_generation = generation; process_state = "hard_stopping" });
  active_grants = [];
  remote_task_grants = update_where is_active revoke db.remote_task_grants;
  approval_requests =
      update_where is_open (with_state ApprovalState.cancelled) db.approval_requests;
  approval_actions = update_where (λ a. is_none a.consumed_at) (spend now) db.approval_actions;
})

-- The transaction of `hard_stop`, after its SELECT from `service_state`.
unfoldable pub fence_from : String → ℕ → Option ServiceState → Exec Db StopResult
fence_from reason now none = raise value_error
fence_from reason now (some s) = do
  db ← get_state
  write (fence (s.kill_generation + 1) reason now)
  pure (record {
    kill_generation = s.kill_generation + 1;
    grants_revoked = length db.active_grants;
    approvals_cancelled = row_count is_open db.approval_requests;
  })

unfoldable pub raise_fence : String → ℕ → Exec Db StopResult
raise_fence reason now = do db ← get_state; fence_from reason now db.service_state

-- The callback `terminate_workers`, which returns or raises the given exception, and what follows.
unfoldable pub finish_stop : Option Error → StopResult → Exec Db StopResult
finish_stop terminate_workers r = do
  raise_if terminate_workers
  write (set_process_state "stopped")
  pure r

unfoldable pub hard_stop : String → ℕ → Option Error → Exec Db StopResult
hard_stop reason now terminate_workers = do
  r ← transaction (raise_fence reason now)
  finish_stop terminate_workers r

-- ===== src/Approvals.antt =====
-- The tables behind approvals (codex_feishu_bridge/storage.py, runtime_storage.py) and the queries
-- on them. `Approvals.Broker` holds security/approvals.py and `Approvals.Emergency`
-- security/emergency.py. A time is a number of seconds; the columns `updated_at` are not modelled.
pub mod Broker
pub mod Emergency
mod Cases
pub mod Steps
pub mod SingleUse
pub mod Fence
pub mod Commit
pub mod Outcome
mod Evolution
use codex_feishu.Prelude.{
  ℕ, String, Bool, true, false, ◌&&◌, ◌||◌, Option, none, some, List, Dict, str_eq, opt_str_eq,
  ◌==◌, is_none,
}
use codex_feishu.Models.{ApprovalState, approval_eq}
use codex_feishu.Audit.{Chain}

-- `ApprovalContext` without its `approval_id`; the same columns of `approval_actions`.
pub record Context : Type 0 where
  pub server_request_id : String
  pub server_method : String
  pub thread_id : String
  pub turn_id : Option String
  pub tenant_key : String
  pub app_id : String
  pub chat_id : String
  pub card_message_id : String
  pub operator_open_id : String
  pub binding_epoch : ℕ
  pub identity_binding_epoch : ℕ
  pub kill_generation : ℕ
  pub server_epoch : String
  pub connection_epoch : String
  pub session_id : String
  pub service_fencing_token : ℕ

-- A row of `approval_actions`.
pub record Action : Type 0 where
  pub token_hash : String
  pub approval_id : String
  pub context : Context
  pub decision_map_json : String
  pub expires_at : ℕ
  pub consumed_decision : Option String
  pub consumed_at : Option ℕ

-- A row of `approval_requests`.
pub record Request : Type 0 where
  pub approval_id : String
  pub state : ApprovalState
  pub request_hash : String
  pub response_hash : Option String

pub record ServiceState : Type 0 where
  pub kill_generation : ℕ
  pub process_state : String

-- A row of `remote_task_grants`.
pub record TaskGrant : Type 0 where
  pub thread_id : String
  pub state : String

pub record Breaker : Type 0 where
  pub state : String
  pub reason : Option String

pub record Db : Type 0 where
  pub approval_requests : List Request
  pub approval_actions : List Action
  pub audit_chain : Chain
  pub service_state : Option ServiceState
  pub active_grants : List String
  pub remote_task_grants : List TaskGrant
  pub circuit_breakers : Dict Breaker

-- `WHERE approval_id=?`
abbrev pub is_request : String → Request → Bool
is_request id r = str_eq r.approval_id id

-- `WHERE approval_id=? AND state=?`
abbrev pub is_request_in : String → ApprovalState → Request → Bool
is_request_in id state r = str_eq r.approval_id id && approval_eq r.state state

-- `WHERE token_hash=?`
abbrev pub has_token : String → Action → Bool
has_token h a = str_eq a.token_hash h

-- `WHERE token_hash=? AND consumed_at IS NULL`
abbrev pub is_unspent : String → Action → Bool
is_unspent h a = str_eq a.token_hash h && is_none a.consumed_at

abbrev pub with_state : ApprovalState → Request → Request
with_state state r = record r { state = state }

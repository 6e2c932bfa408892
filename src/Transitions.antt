-- ===== src/Transitions.antt =====
-- codex_feishu_bridge/storage.py: the transition tables, and the methods of `BridgeStorage` that
-- create rows and move their state by compare-and-swap. The columns `created_at` and `updated_at`
-- are not modelled: no query of these tables reads them.
mod Cases
pub mod History
pub mod Lifecycle
pub mod Responses
use codex_feishu.Prelude.{
  ℕ, String, Bool, true, false, not, ◌&&◌, ◌||◌, Option, none, some, Dict, Rows, put, put_row,
  str_eq, is_none, is_some, if◌then◌else◌,
}
use codex_feishu.Exec.{
  Error, Exec, Done, require, raise_if, write, get_state, or_raise, ◌>>=◌, ◌>>◌,
  forbidden_transition, lost_compare_and_swap, hash_not_committed, hash_changed, integrity_error,
}
use codex_feishu.Models.{
  OwnershipState, DispatchState, TurnState, DeliveryState, ApprovalState, ownership_eq, dispatch_eq,
  turn_eq, delivery_eq, approval_eq,
}

-- _DISPATCH_TRANSITIONS
pub allowed_dispatch : DispatchState → DispatchState → Bool
allowed_dispatch DispatchState.received DispatchState.claimed = true
allowed_dispatch DispatchState.claimed DispatchState.dispatching = true
allowed_dispatch DispatchState.dispatching DispatchState.accepted = true
allowed_dispatch DispatchState.dispatching DispatchState.outcome_unknown = true
allowed_dispatch DispatchState.accepted DispatchState.completed = true
allowed_dispatch DispatchState.accepted DispatchState.outcome_unknown = true
allowed_dispatch DispatchState.outcome_unknown DispatchState.completed = true
allowed_dispatch _ _ = false

-- _APPROVAL_TRANSITIONS
pub allowed_approval : ApprovalState → ApprovalState → Bool
allowed_approval ApprovalState.issued ApprovalState.action_committed = true
allowed_approval ApprovalState.issued ApprovalState.rejected = true
allowed_approval ApprovalState.issued ApprovalState.expired = true
allowed_approval ApprovalState.issued ApprovalState.cancelled = true
allowed_approval ApprovalState.action_committed ApprovalState.response_sending = true
allowed_approval ApprovalState.action_committed ApprovalState.cancelled = true
allowed_approval ApprovalState.response_sending ApprovalState.resolved = true
allowed_approval ApprovalState.response_sending ApprovalState.rejected = true
allowed_approval ApprovalState.response_sending ApprovalState.outcome_unknown = true
allowed_approval ApprovalState.outcome_unknown ApprovalState.resolved = true
allowed_approval ApprovalState.outcome_unknown ApprovalState.rejected = true
allowed_approval _ _ = false

-- _OWNERSHIP_TRANSITIONS
pub allowed_ownership : OwnershipState → OwnershipState → Bool
allowed_ownership OwnershipState.bridge_idle OwnershipState.bridge_owned = true
allowed_ownership OwnershipState.bridge_idle OwnershipState.unknown = true
allowed_ownership OwnershipState.bridge_owned OwnershipState.bridge_idle = true
allowed_ownership OwnershipState.bridge_owned OwnershipState.unknown = true
allowed_ownership OwnershipState.unknown OwnershipState.bridge_idle = true
allowed_ownership _ _ = false

-- _TURN_TRANSITIONS
pub allowed_turn : TurnState → TurnState → Bool
allowed_turn TurnState.created TurnState.running = true
allowed_turn TurnState.created TurnState.outcome_unknown = true
allowed_turn TurnState.running TurnState.completed = true
allowed_turn TurnState.running TurnState.failed = true
allowed_turn TurnState.running TurnState.interrupted = true
allowed_turn TurnState.running TurnState.outcome_unknown = true
allowed_turn TurnState.outcome_unknown TurnState.running = true
allowed_turn TurnState.outcome_unknown TurnState.completed = true
allowed_turn TurnState.outcome_unknown TurnState.failed = true
allowed_turn TurnState.outcome_unknown TurnState.interrupted = true
allowed_turn _ _ = false

-- _DELIVERY_TRANSITIONS
pub allowed_delivery : DeliveryState → DeliveryState → Bool
allowed_delivery DeliveryState.pending DeliveryState.pending = false
allowed_delivery DeliveryState.pending _ = true
allowed_delivery DeliveryState.retryable DeliveryState.pending = false
allowed_delivery DeliveryState.retryable _ = true
allowed_delivery DeliveryState.unknown DeliveryState.confirmed = true
allowed_delivery DeliveryState.unknown DeliveryState.permanent = true
allowed_delivery DeliveryState.unknown DeliveryState.final_undelivered = true
allowed_delivery _ _ = false

pub record Turn : Type 0 where
  pub thread_id : String
  pub turn_state : TurnState
  pub delivery_state : DeliveryState

pub record Approval : Type 0 where
  pub state : ApprovalState
  pub request_hash : String
  pub response_hash : Option String

-- The tables of the database that these methods use.
pub record Bridge : Type 0 where
  pub thread_bindings : Dict OwnershipState
  pub turns : Dict Turn
  pub dispatch_attempts : Dict DispatchState
  pub approval_requests : Dict Approval
  pub outbox : Rows String

-- `UPDATE … WHERE key=? AND test`: `none` if no row was changed.
abbrev pub update_where {ℓ} :
    {V : Type ℓ} → (V → Bool) → (V → V) → String → Dict V → Option (Dict V)
update_where test f k d = elim (d k) [
  | none ↦ none
  | some v ↦ if test v then some (put k (f v) d) else none
]

-- `INSERT` of a new primary key: `none` if the key is there.
abbrev pub insert_new {ℓ} : {V : Type ℓ} → String → V → Dict V → Option (Dict V)
insert_new k v d = if is_none (d k) then some (put k v d) else none

pub create_thread : String → OwnershipState → Exec Bridge Done
create_thread thread_id ownership = do
  db ← get_state
  rows ← or_raise (insert_new thread_id ownership db.thread_bindings) integrity_error
  write (λ s. record s { thread_bindings = rows })

pub transition_ownership : String → OwnershipState → OwnershipState → Exec Bridge Done
transition_ownership thread_id expected target = do
  require (allowed_ownership expected target) forbidden_transition
  db ← get_state
  rows ←
      or_raise
        (update_where (λ s. ownership_eq s expected) (λ _. target) thread_id db.thread_bindings)
        lost_compare_and_swap
  write (λ s. record s { thread_bindings = rows })

-- `thread_id` references `thread_bindings`, and foreign keys are enforced.
pub create_turn : String → String → Exec Bridge Done
create_turn turn_id thread_id = do
  db ← get_state
  require (is_some (db.thread_bindings thread_id)) integrity_error
  rows ←
      or_raise
        (insert_new turn_id
          (record {
            thread_id = thread_id;
            turn_state = TurnState.created;
            delivery_state = DeliveryState.pending;
          })
          db.turns)
        integrity_error
  write (λ s. record s { turns = rows })

pub transition_turn : String → TurnState → TurnState → Exec Bridge Done
transition_turn turn_id expected target = do
  require (allowed_turn expected target) forbidden_transition
  db ← get_state
  rows ←
      or_raise
        (update_where (λ t. turn_eq t.turn_state expected) (λ t. record t { turn_state = target })
          turn_id db.turns)
        lost_compare_and_swap
  write (λ s. record s { turns = rows })

pub transition_delivery : String → DeliveryState → DeliveryState → Exec Bridge Done
transition_delivery turn_id expected target = do
  require (allowed_delivery expected target) forbidden_transition
  db ← get_state
  rows ←
      or_raise
        (update_where (λ t. delivery_eq t.delivery_state expected)
          (λ t. record t { delivery_state = target }) turn_id db.turns)
        lost_compare_and_swap
  write (λ s. record s { turns = rows })

pub create_dispatch_attempt : String → Exec Bridge Done
create_dispatch_attempt attempt_id = do
  db ← get_state
  rows ←
      or_raise (insert_new attempt_id DispatchState.received db.dispatch_attempts) integrity_error
  write (λ s. record s { dispatch_attempts = rows })

pub transition_dispatch : String → DispatchState → DispatchState → Exec Bridge Done
transition_dispatch attempt_id expected target = do
  require (allowed_dispatch expected target) forbidden_transition
  db ← get_state
  rows ←
      or_raise
        (update_where (λ s. dispatch_eq s expected) (λ _. target) attempt_id db.dispatch_attempts)
        lost_compare_and_swap
  write (λ s. record s { dispatch_attempts = rows })

pub create_approval : String → String → Exec Bridge Done
create_approval approval_id request_hash = do
  db ← get_state
  rows ←
      or_raise
        (insert_new approval_id
          (record {
            state = ApprovalState.issued;
            request_hash = request_hash;
            response_hash = none;
          })
          db.approval_requests)
        integrity_error
  write (λ s. record s { approval_requests = rows })

-- `not response_hash` holds of `None` and of the empty text.
abbrev pub is_empty_hash : Option String → Bool
is_empty_hash none = true
is_empty_hash (some h) = str_eq h ""

-- The `UPDATE` of `transition_approval`: into `response_sending` it also commits the hash.
pub approval_update : ApprovalState → ApprovalState → Option String → Approval → Option Approval
approval_update expected ApprovalState.response_sending response_hash a =
    if approval_eq a.state expected && is_none a.response_hash
    then some (record a { state = ApprovalState.response_sending; response_hash = response_hash })
    else none
approval_update expected target response_hash a =
    if approval_eq a.state expected then some (record a { state = target }) else none

-- The exception of the test on `response_hash` that stands before the `UPDATE`.
pub approval_refusal : ApprovalState → ApprovalState → Option String → Option Error
approval_refusal expected ApprovalState.response_sending response_hash =
    if approval_eq expected ApprovalState.action_committed && not (is_empty_hash response_hash)
    then none
    else some hash_not_committed
approval_refusal expected target response_hash =
    if is_none response_hash then none else some hash_changed

pub transition_approval : String → ApprovalState → ApprovalState → Option String → Exec Bridge Done
transition_approval approval_id expected target response_hash = do
  require (allowed_approval expected target) forbidden_transition
  raise_if (approval_refusal expected target response_hash)
  db ← get_state
  old ← or_raise (db.approval_requests approval_id) lost_compare_and_swap
  row ← or_raise (approval_update expected target response_hash old) lost_compare_and_swap
  write (λ s. record s { approval_requests = put approval_id row s.approval_requests })

-- The table inside `transition_outbox`, on texts.
pub allowed_outbox : String → String → Bool
allowed_outbox expected target =
    if str_eq expected "pending" || str_eq expected "retryable"
    then str_eq target "confirmed"
      || str_eq target "retryable"
      || str_eq target "permanent"
      || str_eq target "unknown"
      || str_eq target "final_undelivered"
    else if str_eq expected "unknown"
    then str_eq target "confirmed" || str_eq target "permanent" || str_eq target "final_undelivered"
    else false

pub transition_outbox : ℕ → String → String → Exec Bridge Done
transition_outbox outbox_id expected target = do
  require (allowed_outbox expected target) forbidden_transition
  db ← get_state
  state ← or_raise (db.outbox outbox_id) lost_compare_and_swap
  require (str_eq state expected) lost_compare_and_swap
  write (λ s. record s { outbox = put_row outbox_id target s.outbox })

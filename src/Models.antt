-- ===== src/Models.antt =====
-- The state enumerations of codex_feishu_bridge/models.py, each with the comparison that `=` makes
-- on its stored text.
use codex_feishu.Prelude.{◌≡◌, Bool, true, false, arith}

pub data EventKind : Type 0 where
  commentary final_answer : EventKind

pub data OwnershipState : Type 0 where
  desktop_mirror_only bridge_idle bridge_owned unknown : OwnershipState

pub data DispatchState : Type 0 where
  received claimed dispatching accepted outcome_unknown completed : DispatchState

pub data TurnState : Type 0 where
  created running completed failed interrupted outcome_unknown : TurnState

pub data DeliveryState : Type 0 where
  pending confirmed retryable permanent unknown final_undelivered : DeliveryState

pub data ApprovalState : Type 0 where
  issued action_committed response_sending resolved : ApprovalState
  rejected expired cancelled outcome_unknown : ApprovalState

unfoldable pub event_kind_eq : EventKind → EventKind → Bool
event_kind_eq EventKind.commentary EventKind.commentary = true
event_kind_eq EventKind.final_answer EventKind.final_answer = true
event_kind_eq _ _ = false

unfoldable pub ownership_eq : OwnershipState → OwnershipState → Bool
ownership_eq OwnershipState.desktop_mirror_only OwnershipState.desktop_mirror_only = true
ownership_eq OwnershipState.bridge_idle OwnershipState.bridge_idle = true
ownership_eq OwnershipState.bridge_owned OwnershipState.bridge_owned = true
ownership_eq OwnershipState.unknown OwnershipState.unknown = true
ownership_eq _ _ = false

unfoldable pub dispatch_eq : DispatchState → DispatchState → Bool
dispatch_eq DispatchState.received DispatchState.received = true
dispatch_eq DispatchState.claimed DispatchState.claimed = true
dispatch_eq DispatchState.dispatching DispatchState.dispatching = true
dispatch_eq DispatchState.accepted DispatchState.accepted = true
dispatch_eq DispatchState.outcome_unknown DispatchState.outcome_unknown = true
dispatch_eq DispatchState.completed DispatchState.completed = true
dispatch_eq _ _ = false

unfoldable pub turn_eq : TurnState → TurnState → Bool
turn_eq TurnState.created TurnState.created = true
turn_eq TurnState.running TurnState.running = true
turn_eq TurnState.completed TurnState.completed = true
turn_eq TurnState.failed TurnState.failed = true
turn_eq TurnState.interrupted TurnState.interrupted = true
turn_eq TurnState.outcome_unknown TurnState.outcome_unknown = true
turn_eq _ _ = false

unfoldable pub delivery_eq : DeliveryState → DeliveryState → Bool
delivery_eq DeliveryState.pending DeliveryState.pending = true
delivery_eq DeliveryState.confirmed DeliveryState.confirmed = true
delivery_eq DeliveryState.retryable DeliveryState.retryable = true
delivery_eq DeliveryState.permanent DeliveryState.permanent = true
delivery_eq DeliveryState.unknown DeliveryState.unknown = true
delivery_eq DeliveryState.final_undelivered DeliveryState.final_undelivered = true
delivery_eq _ _ = false

unfoldable pub approval_eq : ApprovalState → ApprovalState → Bool
approval_eq ApprovalState.issued ApprovalState.issued = true
approval_eq ApprovalState.action_committed ApprovalState.action_committed = true
approval_eq ApprovalState.response_sending ApprovalState.response_sending = true
approval_eq ApprovalState.resolved ApprovalState.resolved = true
approval_eq ApprovalState.rejected ApprovalState.rejected = true
approval_eq ApprovalState.expired ApprovalState.expired = true
approval_eq ApprovalState.cancelled ApprovalState.cancelled = true
approval_eq ApprovalState.outcome_unknown ApprovalState.outcome_unknown = true
approval_eq _ _ = false

pub turn_eq_sound : (a b : TurnState) → turn_eq a b ≡ true → a ≡ b
unfolding turn_eq
turn_eq_sound a b h = ground arith

pub delivery_eq_sound : (a b : DeliveryState) → delivery_eq a b ≡ true → a ≡ b
unfolding delivery_eq
delivery_eq_sound a b h = ground arith

pub dispatch_eq_sound : (a b : DispatchState) → dispatch_eq a b ≡ true → a ≡ b
unfolding dispatch_eq
dispatch_eq_sound a b h = ground arith

pub approval_eq_sound : (a b : ApprovalState) → approval_eq a b ≡ true → a ≡ b
unfolding approval_eq
approval_eq_sound a b h = ground arith

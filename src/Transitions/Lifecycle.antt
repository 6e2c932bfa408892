-- ===== src/Transitions/Lifecycle.antt =====
-- What no sequence of calls can undo: a final state, and the progress of a dispatch.
use codex_feishu.Prelude.{
  ℕ, String, ◌≡◌, ◌↔◌, ◌⊎◌, ◌∙◌, sym, ap, refl, ◌≤◌, ◌<◌, Bool, str_eq, true, inl, inr, Bool-cases,
  false, Option, none, some, List, arith, eq_iff,
}
use codex_feishu.Models.{DispatchState, TurnState, DeliveryState, turn_eq, delivery_eq, dispatch_eq}
use codex_feishu.Transitions.{
  Bridge, create_thread, transition_ownership, create_turn, transition_turn, transition_delivery,
  create_dispatch_attempt, transition_dispatch, create_approval, transition_outbox, allowed_turn,
  allowed_delivery, allowed_dispatch, allowed_outbox,
}
use codex_feishu.Transitions.Cases.{
  transition_turn_cases, transition_delivery_cases, transition_dispatch_cases,
  transition_approval_cases,
}
use codex_feishu.Transitions.History.{
  Call, thread, ownership, turn, turn_state, delivery, attempt, dispatch, approval, approval_state,
  outbox, call, run, run_induction,
}

-- A turn that has come to its end.
abbrev pub is_final_turn : TurnState → Bool
is_final_turn TurnState.completed = true
is_final_turn TurnState.failed = true
is_final_turn TurnState.interrupted = true
is_final_turn _ = false

-- A delivery that has come to its end.
abbrev pub is_final_delivery : DeliveryState → Bool
is_final_delivery DeliveryState.confirmed = true
is_final_delivery DeliveryState.permanent = true
is_final_delivery DeliveryState.final_undelivered = true
is_final_delivery _ = false

-- How far a dispatch has come; both ends of the provider's answer count as one step.
abbrev pub progress : DispatchState → ℕ
progress DispatchState.received = 0
progress DispatchState.claimed = 1
progress DispatchState.dispatching = 2
progress DispatchState.accepted = 3
progress DispatchState.outcome_unknown = 4
progress DispatchState.completed = 5

-- The state of a row, if the row is there.
abbrev pub turn_state_of : Bridge → String → Option TurnState
turn_state_of db u = elim (db.turns u) [ none ↦ none | some t ↦ some t.turn_state ]

final_turn_stays :
    (s a b : TurnState) → is_final_turn s ≡ true → allowed_turn a b ≡ true → turn_eq s a ≡ false
unfolding allowed_turn turn_eq
final_turn_stays s a b f g = ground arith

call-final_turn :
    (u : String) (s : TurnState)
    → is_final_turn s ≡ true
    → (c : Call) (db : Bridge) → turn_state_of db u ≡ some s
    → turn_state_of (call c db).1 u ≡ some s
unfolding call
call-final_turn u s f (thread t o) db h = unfold create_thread in ground arith
call-final_turn u s f (ownership t a b) db h = unfold transition_ownership in ground arith
call-final_turn u s f (turn v t) db h = unfold create_turn in ground (arith, eq_iff v u)
call-final_turn u s f (turn_state v a b) db h =
    transition_turn_cases (λ x. turn_state_of x u ≡ some s) v a b db h
      λ t e g k. ground (arith, eq_iff v u, final_turn_stays t.turn_state a b)
call-final_turn u s f (delivery v a b) db h =
    unfold transition_delivery in ground (arith, eq_iff v u)
call-final_turn u s f (attempt d) db h = unfold create_dispatch_attempt in ground arith
call-final_turn u s f (dispatch d a b) db h = unfold transition_dispatch in ground arith
call-final_turn u s f (approval p q) db h = unfold create_approval in ground arith
call-final_turn u s f (approval_state p a b q) db h =
    transition_approval_cases (λ x. turn_state_of x u ≡ some s) p a b q db h (λ _ _ _ _ _ _. h)
call-final_turn u s f (outbox n a b) db h = unfold transition_outbox in ground arith

final_delivery_stays :
    (s a b : DeliveryState)
    → is_final_delivery s ≡ true
    → allowed_delivery a b ≡ true
    → delivery_eq s a ≡ false
unfolding allowed_delivery delivery_eq
final_delivery_stays s a b f g = ground arith

abbrev pub delivery_state_of : Bridge → String → Option DeliveryState
delivery_state_of db u = elim (db.turns u) [ none ↦ none | some t ↦ some t.delivery_state ]

call-final_delivery :
    (u : String) (s : DeliveryState)
    → is_final_delivery s ≡ true
    → (c : Call) (db : Bridge) → delivery_state_of db u ≡ some s
    → delivery_state_of (call c db).1 u ≡ some s
unfolding call
call-final_delivery u s f (thread t o) db h = unfold create_thread in ground arith
call-final_delivery u s f (ownership t a b) db h = unfold transition_ownership in ground arith
call-final_delivery u s f (turn v t) db h = unfold create_turn in ground (arith, eq_iff v u)
call-final_delivery u s f (turn_state v a b) db h =
    unfold transition_turn in ground (arith, eq_iff v u)
call-final_delivery u s f (delivery v a b) db h =
    transition_delivery_cases (λ x. delivery_state_of x u ≡ some s) v a b db h
      λ t e g k. ground (arith, eq_iff v u, final_delivery_stays t.delivery_state a b)
call-final_delivery u s f (attempt d) db h = unfold create_dispatch_attempt in ground arith
call-final_delivery u s f (dispatch d a b) db h = unfold transition_dispatch in ground arith
call-final_delivery u s f (approval p q) db h = unfold create_approval in ground arith
call-final_delivery u s f (approval_state p a b q) db h =
    transition_approval_cases (λ x. delivery_state_of x u ≡ some s) p a b q db h (λ _ _ _ _ _ _. h)
call-final_delivery u s f (outbox n a b) db h = unfold transition_outbox in ground arith

-- A turn that is completed, failed or interrupted keeps that state, whatever calls follow.
pub run-final_turn :
    (db : Bridge) (cs : List Call) (u : String) (s : TurnState)
    → is_final_turn s ≡ true
    → turn_state_of db u ≡ some s
    → turn_state_of (run db cs) u ≡ some s
run-final_turn db cs u s f h =
    run_induction (λ b. turn_state_of b u ≡ some s) (call-final_turn u s f) db cs h

-- A delivery that is confirmed, permanently failed or undelivered keeps that state, whatever calls
-- follow.
pub run-final_delivery :
    (db : Bridge) (cs : List Call) (u : String) (s : DeliveryState)
    → is_final_delivery s ≡ true
    → delivery_state_of db u ≡ some s
    → delivery_state_of (run db cs) u ≡ some s
run-final_delivery db cs u s f h =
    run_induction (λ b. delivery_state_of b u ≡ some s) (call-final_delivery u s f) db cs h

-- Every step that the table allows from the state of a row goes forward.
dispatch_goes_on :
    (s a b : DispatchState)
    → allowed_dispatch a b ≡ true
    → dispatch_eq s a ≡ true
    → progress s < progress b
unfolding allowed_dispatch dispatch_eq
dispatch_goes_on s a b g e = ground arith

-- The dispatch `d` is there and has come as far as `n`.
abbrev pub HasReached : String → ℕ → Bridge → Type 0
HasReached d n db = (s : DispatchState) × (db.dispatch_attempts d ≡ some s) × (n ≤ progress s)

dispatch-HasReached :
    (d : String) (n : ℕ) (v : String) (a b : DispatchState) (db : Bridge)
    → HasReached d n db
    → HasReached d n (transition_dispatch v a b db).1
dispatch-HasReached d n v a b db h =
    transition_dispatch_cases (HasReached d n) v a b db h λ t e g k.
      elim (Bool-cases (str_eq v d)) [
        | inl same ↦ (b, ground arith, ground (arith, eq_iff v d, dispatch_goes_on t a b))
        | inr other ↦ (h.0, ground arith, h.2)
      ]

call-HasReached :
    (d : String) (n : ℕ) (c : Call) (db : Bridge) → HasReached d n db → HasReached d n (call c db).1
unfolding call
call-HasReached d n (thread t o) db h = (h.0, unfold create_thread in ground (arith, h.1), h.2)
call-HasReached d n (ownership t a b) db h =
    (h.0, unfold transition_ownership in ground (arith, h.1), h.2)
call-HasReached d n (turn v t) db h = (h.0, unfold create_turn in ground (arith, h.1), h.2)
call-HasReached d n (turn_state v a b) db h =
    transition_turn_cases (HasReached d n) v a b db h λ _ _ _ _. h
call-HasReached d n (delivery v a b) db h =
    transition_delivery_cases (HasReached d n) v a b db h λ _ _ _ _. h
call-HasReached d n (attempt v) db h =
    (h.0, unfold create_dispatch_attempt in ground (arith, h.1, eq_iff v d), h.2)
call-HasReached d n (dispatch v a b) db h = dispatch-HasReached d n v a b db h
call-HasReached d n (approval p q) db h = (h.0, unfold create_approval in ground (arith, h.1), h.2)
call-HasReached d n (approval_state p a b q) db h =
    transition_approval_cases (HasReached d n) p a b q db h λ _ _ _ _ _ _. h
call-HasReached d n (outbox m a b) db h =
    (h.0, unfold transition_outbox in ground (arith, h.1), h.2)

-- Whatever calls of the ten methods of `BridgeStorage` follow, a dispatch attempt does not go back:
-- from `received` over `claimed`, `dispatching`, `accepted` and `outcome_unknown` to `completed` it
-- only goes forward. The UPDATE statements outside these methods are not among the calls.
pub run-dispatch_progress :
    (db : Bridge) (cs : List Call) (d : String) (s : DispatchState)
    → db.dispatch_attempts d ≡ some s
    → (t : DispatchState) × ((run db cs).dispatch_attempts d ≡ some t) × (progress s ≤ progress t)
run-dispatch_progress db cs d s e =
    run_induction (HasReached d (progress s)) (call-HasReached d (progress s)) db cs
      (s, e, omega arith)

-- The texts of `DeliveryState`.
abbrev pub delivery_text : DeliveryState → String
delivery_text DeliveryState.pending = "pending"
delivery_text DeliveryState.confirmed = "confirmed"
delivery_text DeliveryState.retryable = "retryable"
delivery_text DeliveryState.permanent = "permanent"
delivery_text DeliveryState.unknown = "unknown"
delivery_text DeliveryState.final_undelivered = "final_undelivered"

-- On the texts of two states the tables agree.
allowed_outbox-delivery_text :
    (a b : DeliveryState)
    → allowed_outbox (delivery_text a) (delivery_text b) ≡ allowed_delivery a b
unfolding allowed_outbox allowed_delivery
allowed_outbox-delivery_text DeliveryState.pending b = row b
  where
    row :
        (b : DeliveryState)
        → allowed_outbox "pending" (delivery_text b) ≡ allowed_delivery DeliveryState.pending b
    row DeliveryState.pending = refl
    row _ = refl
allowed_outbox-delivery_text DeliveryState.retryable b = row b
  where
    row :
        (b : DeliveryState)
        → allowed_outbox "retryable" (delivery_text b) ≡ allowed_delivery DeliveryState.retryable b
    row DeliveryState.pending = refl
    row _ = refl
allowed_outbox-delivery_text DeliveryState.unknown b = row b
  where
    row :
        (b : DeliveryState)
        → allowed_outbox "unknown" (delivery_text b) ≡ allowed_delivery DeliveryState.unknown b
    row DeliveryState.pending = refl
    row _ = refl
allowed_outbox-delivery_text DeliveryState.confirmed b = refl
allowed_outbox-delivery_text DeliveryState.permanent b = refl
allowed_outbox-delivery_text DeliveryState.final_undelivered b = refl

-- The text is that of a state.
abbrev IsText : String → Type 0
IsText t = (a : DeliveryState) × (t ≡ delivery_text a)

IsText-or :
    {P : Type 0} (t : String) (a : DeliveryState)
    → (str_eq t (delivery_text a) ≡ false → IsText t ⊎ P)
    → IsText t ⊎ P
IsText-or t a other = elim (Bool-cases (str_eq t (delivery_text a))) [
  | inl e ↦ inl (a, (eq_iff t (delivery_text a)).0 e)
  | inr e ↦ other e
]

-- A text that is allowed on either side is that of a state.
texts_are_known :
    (expected target : String)
    → allowed_outbox expected target ≡ true
    → IsText expected × IsText target
unfolding allowed_outbox
texts_are_known expected target h = (
  elim (IsText-or {P = ⊥} expected DeliveryState.pending λ p.
      IsText-or expected DeliveryState.retryable
        λ r. IsText-or expected DeliveryState.unknown λ u. absurd (ground (arith, h, p, r, u))) [
          | inl k ↦ k
          | inr f ↦ absurd f
        ],
  elim (IsText-or {P = ⊥} target DeliveryState.confirmed λ c.
      IsText-or target DeliveryState.retryable λ r. IsText-or target DeliveryState.permanent λ m.
        IsText-or target DeliveryState.unknown λ u.
          IsText-or target DeliveryState.final_undelivered
            λ f. absurd (ground (arith, h, c, r, m, u, f))) [ inl k ↦ k | inr f ↦ absurd f ],
)

allowed_texts :
    (a b : DeliveryState) (expected target : String)
    → expected ≡ delivery_text a
    → target ≡ delivery_text b
    → allowed_delivery a b ≡ allowed_outbox expected target
allowed_texts a b expected target e f = sym (
    ap (λ t. allowed_outbox t target) e
    ∙ ap (allowed_outbox (delivery_text a)) f
    ∙ allowed_outbox-delivery_text a b)

-- The table of texts inside `transition_outbox` allows a step from one text to another exactly when
-- these are the texts of two states between which `_DELIVERY_TRANSITIONS` allows the step.
pub allowed_outbox-allowed_delivery :
    (expected target : String)
    → (allowed_outbox expected target ≡ true) ↔ (
        (a : DeliveryState) × (b : DeliveryState) × (expected ≡ delivery_text a)
        × (target ≡ delivery_text b)
        × (allowed_delivery a b ≡ true))
allowed_outbox-allowed_delivery expected target = (
  (λ h.
      let ((a, e), (b, f)) = texts_are_known expected target h in
      (a, b, e, f, allowed_texts a b expected target e f ∙ h)),
  λ (a, b, e, f, k). sym (allowed_texts a b expected target e f) ∙ k,
)

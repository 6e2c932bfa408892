-- ===== src/Transitions/Cases.antt =====
-- The two outcomes of each compare-and-swap: nothing is written, or one row moves.
use codex_feishu.Prelude.{
  String, ◌≡◌, true, none, some, Option, put, inl, inr, Bool-cases, Option-cases,
}
use codex_feishu.Models.{
  DispatchState, TurnState, DeliveryState, ApprovalState, turn_eq, delivery_eq, dispatch_eq,
}
use codex_feishu.Transitions.{
  Bridge, Turn, Approval, transition_turn, transition_delivery, transition_dispatch,
  transition_approval, allowed_turn, allowed_delivery, allowed_dispatch, allowed_approval,
  approval_refusal, approval_update,
}

pub transition_turn_cases {ℓ} :
    (P : Bridge → Type ℓ) (v : String) (a b : TurnState) (db : Bridge)
    → P db
    → ((t : Turn)
        → db.turns v ≡ some t
        → allowed_turn a b ≡ true
        → turn_eq t.turn_state a ≡ true
        → P (record db { turns = put v (record t { turn_state = b }) db.turns }))
    → P (transition_turn v a b db).1
unfolding transition_turn
transition_turn_cases P v a b db failed moved = elim (Bool-cases (allowed_turn a b)) [
  | inr e ↦ rw (e, transition_turn) failed
  | inl e ↦ elim (Option-cases (db.turns v)) [
    | inl n ↦ rw (e, n, transition_turn) failed
    | inr (t, f) ↦ elim (Bool-cases (turn_eq t.turn_state a)) [
      | inr g ↦ rw (e, f, g, transition_turn) failed
      | inl g ↦ rw (e, f, g, transition_turn) (moved t f e g)
    ]
  ]
]

pub transition_delivery_cases {ℓ} :
    (P : Bridge → Type ℓ) (v : String) (a b : DeliveryState) (db : Bridge)
    → P db
    → ((t : Turn)
        → db.turns v ≡ some t
        → allowed_delivery a b ≡ true
        → delivery_eq t.delivery_state a ≡ true
        → P (record db { turns = put v (record t { delivery_state = b }) db.turns }))
    → P (transition_delivery v a b db).1
unfolding transition_delivery
transition_delivery_cases P v a b db failed moved = elim (Bool-cases (allowed_delivery a b)) [
  | inr e ↦ rw (e, transition_delivery) failed
  | inl e ↦ elim (Option-cases (db.turns v)) [
    | inl n ↦ rw (e, n, transition_delivery) failed
    | inr (t, f) ↦ elim (Bool-cases (delivery_eq t.delivery_state a)) [
      | inr g ↦ rw (e, f, g, transition_delivery) failed
      | inl g ↦ rw (e, f, g, transition_delivery) (moved t f e g)
    ]
  ]
]

pub transition_dispatch_cases {ℓ} :
    (P : Bridge → Type ℓ) (v : String) (a b : DispatchState) (db : Bridge)
    → P db
    → ((s : DispatchState)
        → db.dispatch_attempts v ≡ some s
        → allowed_dispatch a b ≡ true
        → dispatch_eq s a ≡ true
        → P (record db { dispatch_attempts = put v b db.dispatch_attempts }))
    → P (transition_dispatch v a b db).1
unfolding transition_dispatch
transition_dispatch_cases P v a b db failed moved = elim (Bool-cases (allowed_dispatch a b)) [
  | inr e ↦ rw (e, transition_dispatch) failed
  | inl e ↦ elim (Option-cases (db.dispatch_attempts v)) [
    | inl n ↦ rw (e, n, transition_dispatch) failed
    | inr (s, f) ↦ elim (Bool-cases (dispatch_eq s a)) [
      | inr g ↦ rw (e, f, g, transition_dispatch) failed
      | inl g ↦ rw (e, f, g, transition_dispatch) (moved s f e g)
    ]
  ]
]

pub transition_approval_cases {ℓ} :
    (P : Bridge → Type ℓ) (p : String) (a b : ApprovalState) (q : Option String) (db : Bridge)
    → P db
    → ((old row : Approval)
        → db.approval_requests p ≡ some old
        → allowed_approval a b ≡ true
        → approval_refusal a b q ≡ none
        → approval_update a b q old ≡ some row
        → P (record db { approval_requests = put p row db.approval_requests }))
    → P (transition_approval p a b q db).1
unfolding transition_approval
transition_approval_cases P p a b q db failed moved = elim (Bool-cases (allowed_approval a b)) [
  | inr e ↦ rw (e, transition_approval) failed
  | inl e ↦ elim (Option-cases (approval_refusal a b q)) [
    | inr (x, r) ↦ rw (e, r, transition_approval) failed
    | inl r ↦ elim (Option-cases (db.approval_requests p)) [
      | inl n ↦ rw (e, r, n, transition_approval) failed
      | inr (old, f) ↦ elim (Option-cases (approval_update a b q old)) [
        | inl n ↦ rw (e, r, f, n, transition_approval) failed
        | inr (row, g) ↦ rw (e, r, f, g, transition_approval) (moved old row f e r g)
      ]
    ]
  ]
]

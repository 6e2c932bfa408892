-- ===== src/Transitions/Responses.antt =====
-- The hash of an approval's response is written once, before the response can be sent, and never
-- changes.
use mathlib.Core.Bool.{false≢true}
use codex_feishu.Prelude.{
  sym, ◌∙◌, subst, String, ◌≡◌, refl, Bool, true, false, Option, none, some, List, arith, eq_iff,
  str_eq, put, is_some, inl, inr, put_cases, Option-cases, Bool-cases,
}
use codex_feishu.Models.{ApprovalState, approval_eq, approval_eq_sound}
use codex_feishu.Transitions.{
  Bridge, Approval, create_thread, transition_ownership, create_turn, create_dispatch_attempt,
  create_approval, transition_outbox, approval_refusal, approval_update, allowed_approval,
}
use codex_feishu.Transitions.Cases.{
  transition_turn_cases, transition_delivery_cases, transition_dispatch_cases,
  transition_approval_cases,
}
use codex_feishu.Transitions.History.{
  Call, thread, ownership, turn, turn_state, delivery, attempt, dispatch, approval, approval_state,
  outbox, call, run, run_induction,
}

-- The states in which a response has been, or is being, sent.
abbrev pub needs_hash : ApprovalState → Bool
needs_hash ApprovalState.response_sending = true
needs_hash ApprovalState.resolved = true
needs_hash ApprovalState.outcome_unknown = true
needs_hash _ = false

-- A state before the response is sent.
abbrev pub forbids_hash : ApprovalState → Bool
forbids_hash ApprovalState.issued = true
forbids_hash ApprovalState.action_committed = true
forbids_hash ApprovalState.expired = true
forbids_hash ApprovalState.cancelled = true
forbids_hash _ = false

pub record IsSealed (a : Approval) : Type 0 where
  pub present : needs_hash a.state ≡ true → is_some a.response_hash ≡ true
  pub absent : forbids_hash a.state ≡ true → is_some a.response_hash ≡ false

is_sending : ApprovalState → Bool
is_sending ApprovalState.response_sending = true
is_sending _ = false

needs_before :
    (a b : ApprovalState)
    → allowed_approval a b ≡ true
    → is_sending b ≡ false
    → needs_hash b ≡ true
    → needs_hash a ≡ true
unfolding allowed_approval is_sending
needs_before a b e s h = ground arith

forbids_before :
    (a b : ApprovalState)
    → allowed_approval a b ≡ true
    → forbids_hash b ≡ true
    → forbids_hash a ≡ true
unfolding allowed_approval
forbids_before a b e h = ground arith

-- What the `UPDATE` writes: the new state, and in `response_sending` the given hash.
approval_update_row :
    (a b : ApprovalState) (q : Option String) (old row : Approval)
    → approval_update a b q old ≡ some row
    → (row.state ≡ b)
      × (approval_eq old.state a ≡ true)
      × (is_sending b ≡ true → row.response_hash ≡ q)
      × (is_sending b ≡ false → row.response_hash ≡ old.response_hash)
unfolding approval_update is_sending
approval_update_row a b q old row g = ground arith

sending_has_hash :
    (a b : ApprovalState) (q : Option String)
    → approval_refusal a b q ≡ none
    → is_sending b ≡ true
    → is_some q ≡ true
unfolding approval_refusal is_sending
sending_has_hash a b q r s = ground arith

sending_not_forbidden : (b : ApprovalState) → is_sending b ≡ true → forbids_hash b ≡ false
unfolding is_sending
sending_not_forbidden b s = ground arith

approval_update-IsSealed :
    (a b : ApprovalState) (q : Option String) (old row : Approval)
    → allowed_approval a b ≡ true
    → approval_refusal a b q ≡ none
    → approval_update a b q old ≡ some row
    → IsSealed old
    → IsSealed row
approval_update-IsSealed a b q old row e r g v =
    let (st, eq, sent, unsent) = approval_update_row a b q old row g in
    let was : old.state ≡ a = approval_eq_sound old.state a eq in
    elim (Bool-cases (is_sending b)) [
      | inl s ↦ record {
        present = λ _. rw (sent s) (sending_has_hash a b q r s);
        absent = λ f. absurd (false≢true (sym (sending_not_forbidden b s) ∙ rw (← st) f));
      }
      | inr s ↦ record {
        present = λ n.
            rw (unsent s)
              (v.present (rw was (needs_before a b e s (subst (λ x. needs_hash x ≡ true) st n))));
        absent = λ f.
            rw (unsent s)
              (v.absent (rw was (forbids_before a b e (subst (λ x. forbids_hash x ≡ true) st f))));
      }
    ]

abbrev pub AllSealed : Bridge → Type 0
AllSealed db = (p : String) (a : Approval) → db.approval_requests p ≡ some a → IsSealed a

approval_update_keeps :
    (a b : ApprovalState) (q : Option String) (old row : Approval) (h : String)
    → approval_update a b q old ≡ some row
    → old.response_hash ≡ some h
    → row.response_hash ≡ some h
unfolding approval_update
approval_update_keeps a b q old row h g e = ground arith

put-AllSealed :
    (p : String) (row : Approval) (db : Bridge)
    → IsSealed row
    → AllSealed db
    → AllSealed (record db { approval_requests = put p row db.approval_requests })
put-AllSealed p row db v h k a e = elim (put_cases p k row a db.approval_requests e) [
  | inl (_, same) ↦ subst IsSealed same v
  | inr (_, old) ↦ h k a old
]

create_approval-AllSealed :
    (p q : String) (db : Bridge) → AllSealed db → AllSealed (create_approval p q db).1
unfolding create_approval
create_approval-AllSealed p q db h = elim (Option-cases (db.approval_requests p)) [
  | inr (a, e) ↦ rw (e, create_approval) h
  | inl e ↦
      rw (e, create_approval)
        (put-AllSealed p _ db (record { present = λ n. cc; absent = λ _. refl }) h)
]

call-AllSealed : (c : Call) (db : Bridge) → AllSealed db → AllSealed (call c db).1
unfolding call
call-AllSealed (thread t o) db h = λ p a e. h p a (unfold create_thread in ground (arith, e))
call-AllSealed (ownership t a b) db h =
    λ p x e. h p x (unfold transition_ownership in ground (arith, e))
call-AllSealed (turn v t) db h = λ p a e. h p a (unfold create_turn in ground (arith, e))
call-AllSealed (turn_state v a b) db h = transition_turn_cases AllSealed v a b db h λ _ _ _ _. h
call-AllSealed (delivery v a b) db h = transition_delivery_cases AllSealed v a b db h λ _ _ _ _. h
call-AllSealed (attempt v) db h =
    λ p a e. h p a (unfold create_dispatch_attempt in ground (arith, e))
call-AllSealed (dispatch v a b) db h = transition_dispatch_cases AllSealed v a b db h λ _ _ _ _. h
call-AllSealed (approval p q) db h = create_approval-AllSealed p q db h
call-AllSealed (approval_state p a b q) db h =
    transition_approval_cases AllSealed p a b q db h λ old row e f r g.
      put-AllSealed p row db (approval_update-IsSealed a b q old row f r g (h p old e)) h
call-AllSealed (outbox n a b) db h = λ p x e. h p x (unfold transition_outbox in ground (arith, e))

-- From a database in which it holds, after any calls: an approval whose response is being sent, is
-- resolved or has an unknown outcome has a response hash, and an approval that is issued,
-- committed, expired or cancelled has none.
pub run-AllSealed : (db : Bridge) (cs : List Call) → AllSealed db → AllSealed (run db cs)
run-AllSealed = run_induction AllSealed call-AllSealed

abbrev HasHash : String → String → Bridge → Type 0
HasHash p h db = (a : Approval) × (db.approval_requests p ≡ some a) × (a.response_hash ≡ some h)

approval_update-HasHash :
    (k p : String) (h : String) (a b : ApprovalState) (q : Option String) (old row : Approval)
    (db : Bridge)
    → db.approval_requests p ≡ some old
    → approval_update a b q old ≡ some row
    → HasHash k h db
    → HasHash k h (record db { approval_requests = put p row db.approval_requests })
approval_update-HasHash k p h a b q old row db e g (x, f, y) = elim (Bool-cases (str_eq p k)) [
  | inl same ↦
      (row, ground arith, approval_update_keeps a b q old row h g (ground (arith, eq_iff p k)))
  | inr other ↦ (x, ground arith, y)
]

call-HasHash : (k h : String) (c : Call) (db : Bridge) → HasHash k h db → HasHash k h (call c db).1
unfolding call
call-HasHash k h (thread t o) db (x, e, y) = (x, unfold create_thread in ground (arith, e), y)
call-HasHash k h (ownership t a b) db (x, e, y) =
    (x, unfold transition_ownership in ground (arith, e), y)
call-HasHash k h (turn v t) db (x, e, y) = (x, unfold create_turn in ground (arith, e), y)
call-HasHash k h (turn_state v a b) db w =
    transition_turn_cases (HasHash k h) v a b db w λ _ _ _ _. w
call-HasHash k h (delivery v a b) db w =
    transition_delivery_cases (HasHash k h) v a b db w λ _ _ _ _. w
call-HasHash k h (attempt v) db (x, e, y) =
    (x, unfold create_dispatch_attempt in ground (arith, e), y)
call-HasHash k h (dispatch v a b) db w =
    transition_dispatch_cases (HasHash k h) v a b db w λ _ _ _ _. w
call-HasHash k h (approval p q) db (x, e, y) =
    (x, unfold create_approval in ground (arith, e, eq_iff p k), y)
call-HasHash k h (approval_state p a b q) db w =
    transition_approval_cases (HasHash k h) p a b q db w
      λ old row e _ _ g. approval_update-HasHash k p h a b q old row db e g w
call-HasHash k h (outbox n a b) db (x, e, y) = (x, unfold transition_outbox in ground (arith, e), y)

-- A response hash that has been written is never changed or removed, whatever calls follow.
pub run-response_hash :
    (db : Bridge) (cs : List Call) (p h : String) (a : Approval)
    → db.approval_requests p ≡ some a
    → a.response_hash ≡ some h
    → (b : Approval) × ((run db cs).approval_requests p ≡ some b) × (b.response_hash ≡ some h)
run-response_hash db cs p h a e f = run_induction (HasHash p h) (call-HasHash p h) db cs (a, e, f)

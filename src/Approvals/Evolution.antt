-- ===== src/Approvals/Evolution.antt =====
-- The rows of `approval_actions` under every call: a token stays, and a consumed one stays as it was
-- consumed.
use codex_feishu.Prelude.{
  ℕ, String, ◌≡◌, refl, ap, ◌∙◌, inl, inr, Bool, true, not, ◌+◌, ◌==◌, row_count, Option, none,
  some, List, [], ◌∷◌, str_eq, is_none, is_some, find, update_where, updated, find-update_where,
  find-append, Bool-cases, Option-cases, arith,
}
use codex_feishu.Exec.{Error, Result, ok, err, pure}
use codex_feishu.Exec.Keeps.{Keeps, settle-Keeps, continue-Keeps}
use codex_feishu.Models.{ApprovalState}
use codex_feishu.Json.{ℤ, Json, Fields}
use codex_feishu.Audit.{Hashing, Chain, AuditRow, append}
use codex_feishu.Approvals.{ServiceState, Context, Action, Request, Db, has_token, is_unspent}
use codex_feishu.Approvals.Broker.{
  Broker, IssuedApproval, register, fresh_action, find_existing, with_chain, record_event,
  reuse_or_insert, insert_approval, issue, record_issue, issued_event, is_exact_identity, is_taken,
  positive, is_empty, set_request, set_consumed, consume, commit_card_action, record_commit,
  committed_event, awaits_response, set_response, prepared_event, record_response,
  commit_exact_response, awaits_result, set_result, record_response_result, bind_delivered_card,
  set_card, awaits_card, with_card,
}
use codex_feishu.Approvals.Emergency.{
  StopResult, set_process_state, open_breaker, fence, spend, raise_fence, fence_from, finish_stop,
  soft_quiesce, hard_stop,
}
use codex_feishu.Approvals.Cases.{committed, commit_action_cases}
use codex_feishu.Approvals.Steps.{
  Step, issued, card_action, exact_response, response_result, delivered_card, quiesced, stopped,
  step, run,
}

-- The row is of the same approval, and a consumed one stays as it was consumed.
abbrev pub Later : Action → Action → Type 0
Later a z =
    (z.approval_id ≡ a.approval_id)
    × (is_some a.consumed_at ≡ true
        → (z.consumed_at ≡ a.consumed_at) × (z.consumed_decision ≡ a.consumed_decision))

-- Every token of the table before is in the table after.
abbrev pub Grown : List Action → List Action → Type 0
Grown rows after =
    (h : String) (a : Action)
    → find (has_token h) rows ≡ some a
    → (z : Action) × (find (has_token h) after ≡ some z) × Later a z

abbrev pub Kept : Db → Db → Type 0
Kept db after = Grown db.approval_actions after.approval_actions

pub Kept-refl : (db : Db) → Kept db db
Kept-refl db h a e = (a, e, (refl, λ _. (refl, refl)))

Later-trans : (a y z : Action) → Later a y → Later y z → Later a z
Later-trans a y z (p, f) (q, g) =
    (q ∙ p, λ s. let (u, v) = f s in let (u', v') = g (ap is_some u ∙ s) in (u' ∙ u, v' ∙ v))

pub Kept-trans : (x y z : Db) → Kept x y → Kept y z → Kept x z
Kept-trans x y z f g h a e =
    let (b, e', l) = f h a e in let (c, e'', l') = g h b e' in (c, e'', Later-trans a b c l l')

-- An UPDATE that leaves the token alone, and consumed rows as they were consumed.
update_where-Grown :
    (test : Action → Bool) (f : Action → Action) (rows : List Action)
    → ((a : Action) → (f a).token_hash ≡ a.token_hash)
    → ((a : Action) → test a ≡ true → Later a (f a))
    → Grown rows (update_where test f rows)
unfolding updated
update_where-Grown test f rows key later h a e =
    let found =
      find-update_where (has_token h) test f rows (λ x. ap (λ t. str_eq t h) (key x))
      ∙ ap (updated test f) e in
    elim (Bool-cases (test a)) [
      | inl t ↦ (f a, found ∙ rw t refl, later a t)
      | inr t ↦ (a, found ∙ rw t refl, (refl, λ _. (refl, refl)))
    ]

with_chain-actions :
    (x : Result AuditRow × Chain) (db : Db)
    → (with_chain x db).1.approval_actions ≡ db.approval_actions
with_chain-actions (ok r, c) db = refl
with_chain-actions (err e, c) db = refl

Kept-of : (db after : Db) → after.approval_actions ≡ db.approval_actions → Kept db after
Kept-of db after e h a f = (a, ap (find (has_token h)) e ∙ f, (refl, λ _. (refl, refl)))

record_event-Kept :
    (z : Option Hashing) (event : Fields) (stamp : String) → Keeps Kept (record_event z event stamp)
unfolding record_event
record_event-Kept none event stamp db = Kept-refl db
record_event-Kept (some z) event stamp db =
    Kept-of db (with_chain (append z event stamp db.audit_chain) db).1
      (with_chain-actions (append z event stamp db.audit_chain) db)

pub spent-open : (a : Action) → is_none a.consumed_at ≡ true → is_some a.consumed_at ≡ true → ⊥
spent-open a p q = ground (arith, p, q, Option-cases a.consumed_at)

set_consumed-Kept : (h d : String) (now : ℕ) (db : Db) → Kept db (set_consumed h d now db)
unfolding set_consumed
set_consumed-Kept h d now db =
    update_where-Grown (is_unspent h) (consume now d) db.approval_actions (λ _. refl)
      λ a t. (refl, λ s. absurd (spent-open a ground (arith, t) s))

insert_approval-Kept : (r : Request) (a : Action) (db : Db) → Kept db (insert_approval r a db)
unfolding insert_approval
insert_approval-Kept r a db h x e =
    (x, find-append (has_token h) x db.approval_actions (a ∷ []) e, (refl, λ _. (refl, refl)))

set_request-Kept : (id : String) (s t : ApprovalState) (db : Db) → Kept db (set_request id s t db)
unfolding set_request
set_request-Kept id s t db = Kept-refl db

reuse_or_insert-Kept :
    (id : String) (c : Context) (q : String) (fresh : Action) (token : Option String)
    (existing : Option (Action × Request))
    → Keeps Kept (reuse_or_insert id c q fresh token existing)
unfolding reuse_or_insert
reuse_or_insert-Kept id c q fresh token (some (a, r)) db =
    elim (Bool-cases (is_exact_identity id c q a r)) [
      | inl e ↦ rw e (Kept-refl db)
      | inr e ↦ rw e (Kept-refl db)
    ]
reuse_or_insert-Kept id c q fresh token none db =
    elim (Bool-cases (not (is_taken id fresh.token_hash c db))) [
      | inl e ↦ rw e (insert_approval-Kept _ fresh db)
      | inr e ↦ rw e (Kept-refl db)
    ]

record_issue-Kept :
    (b : Broker) (id : String) (c : Context) (stamp : String) (i : IssuedApproval)
    → Keeps Kept (record_issue b id c stamp i)
unfolding record_issue
record_issue-Kept b id c stamp i db = elim (Bool-cases i.created) [
  | inr e ↦ rw e (Kept-refl db)
  | inl e ↦ rw e (
      continue-Keeps Kept Kept-trans _ db _
        (record_event-Kept b.audit (issued_event id c i) stamp db) λ _ s. Kept-refl s)
]

register-Kept :
    (b : Broker) (id : String) (c : Context) (q : Json) (fresh : Action) (token : String)
    → Keeps Kept (register b id c q fresh token)
unfolding register
register-Kept b id c q fresh token db =
    reuse_or_insert-Kept id c (b.digest q) fresh (some token) (find_existing c db) db

issue-Kept :
    (b : Broker) (id : String) (c : Context) (q : Json) (m : Fields) (ttl : ℤ) (token : String)
    (now : ℕ) (stamp : String)
    → Keeps Kept (issue b id c q m ttl token now stamp)
unfolding issue
issue-Kept b id c q m ttl token now stamp db = elim (Option-cases (positive ttl)) [
  | inl e ↦ rw e (Kept-refl db)
  | inr (n, e) ↦ elim (Bool-cases (not (is_empty m))) [
    | inr f ↦ rw (e, f) (Kept-refl db)
    | inl f ↦ elim (Option-cases (b.token_hash token)) [
      | inl g ↦ rw (e, f, g) (Kept-refl db)
      | inr (h, g) ↦
          rw (e, f, g)
            (continue-Keeps Kept Kept-trans (record_issue b id c stamp) db _
              (settle-Keeps Kept Kept-refl db
                (register b id c q (fresh_action b id c m h (now + n)) token db)
                (register-Kept b id c q (fresh_action b id c m h (now + n)) token db))
              λ i. record_issue-Kept b id c stamp i)
    ]
  ]
]

committed-Kept : (h d : String) (now : ℕ) (a : Action) (db : Db) → Kept db (committed h d now a db)
committed-Kept h d now a db =
    Kept-trans db (set_consumed h d now db) (committed h d now a db) (set_consumed-Kept h d now db)
      (set_request-Kept a.approval_id ApprovalState.issued ApprovalState.action_committed
        (set_consumed h d now db))

pub record_commit-Kept :
    (b : Broker) (d stamp : String) (r : String × Fields) → Keeps Kept (record_commit b d stamp r)
unfolding record_commit
record_commit-Kept b d stamp r db =
    continue-Keeps Kept Kept-trans _ db _
      (record_event-Kept b.audit (committed_event r.0 d) stamp db) λ _ s. Kept-refl s

commit_card_action-Kept :
    (b : Broker) (token d : String) (c : Context) (now : ℕ) (stamp : String)
    → Keeps Kept (commit_card_action b token d c now stamp)
unfolding commit_card_action
commit_card_action-Kept b token d c now stamp db = elim (Option-cases (b.token_hash token)) [
  | inl e ↦ rw e (Kept-refl db)
  | inr (h, e) ↦ rw e (
      continue-Keeps Kept Kept-trans (record_commit b d stamp) db _
        (commit_action_cases b h d c now db (λ x. Kept db x.1) (λ _. Kept-refl db)
          λ a _ _ _. committed-Kept h d now a db)
        λ r. record_commit-Kept b d stamp r)
]

set_response-Kept : (id h : String) (db : Db) → Kept db (set_response id h db)
unfolding set_response
set_response-Kept id h db = Kept-refl db

commit_exact_response-Kept :
    (b : Broker) (id : String) (r : Json) (stamp : String)
    → Keeps Kept (commit_exact_response b id r stamp)
unfolding commit_exact_response record_response
commit_exact_response-Kept b id r stamp db =
    elim (Bool-cases (row_count (awaits_response id) db.approval_requests == 1)) [
      | inr e ↦ rw e (Kept-refl db)
      | inl e ↦
          let s = set_response id (b.digest r) db in
          rw e (
            continue-Keeps Kept Kept-trans (λ _. pure (b.digest r)) db _
              (Kept-trans db s (record_event b.audit (prepared_event id (b.digest r)) stamp s).1
                (set_response-Kept id (b.digest r) db)
                (record_event-Kept b.audit (prepared_event id (b.digest r)) stamp s))
              λ _ t. Kept-refl t)
    ]

record_response_result-Kept :
    (id : String) (accepted : Option Bool) → Keeps Kept (record_response_result id accepted)
unfolding record_response_result set_result
record_response_result-Kept id accepted db =
    elim (Bool-cases (row_count (awaits_result id) db.approval_requests == 1)) [
      | inl e ↦ rw e (Kept-refl db)
      | inr e ↦ rw e (Kept-refl db)
    ]

set_card-Kept : (id p m : String) (db : Db) → Kept db (set_card id p m db)
unfolding set_card
set_card-Kept id p m db =
    update_where-Grown (awaits_card id p) (with_card m) db.approval_actions (λ _. refl)
      λ a _. (refl, λ _. (refl, refl))

bind_delivered_card-Kept : (id p m : String) → Keeps Kept (bind_delivered_card id p m)
unfolding bind_delivered_card
bind_delivered_card-Kept id p m db =
    elim (Bool-cases (row_count (awaits_card id p) db.approval_actions == 1)) [
      | inl e ↦ rw e (set_card-Kept id p m db)
      | inr e ↦ rw e (Kept-refl db)
    ]

soft_quiesce-Kept : (reason : String) → Keeps Kept (soft_quiesce reason)
unfolding soft_quiesce set_process_state open_breaker
soft_quiesce-Kept reason db = Kept-refl db

fence-Kept : (g : ℕ) (reason : String) (now : ℕ) (db : Db) → Kept db (fence g reason now db)
unfolding fence open_breaker
fence-Kept g reason now db =
    update_where-Grown (λ a. is_none a.consumed_at) (spend now) db.approval_actions (λ _. refl)
      λ a t. (refl, λ s. absurd (spent-open a t s))

fence_from-Kept :
    (reason : String) (now : ℕ) (o : Option ServiceState) → Keeps Kept (fence_from reason now o)
unfolding fence_from
fence_from-Kept reason now none db = Kept-refl db
fence_from-Kept reason now (some s) db = fence-Kept (s.kill_generation + 1) reason now db

raise_fence-Kept : (reason : String) (now : ℕ) → Keeps Kept (raise_fence reason now)
unfolding raise_fence
raise_fence-Kept reason now db = fence_from-Kept reason now db.service_state db

finish_stop-Kept : (workers : Option Error) (r : StopResult) → Keeps Kept (finish_stop workers r)
unfolding finish_stop set_process_state
finish_stop-Kept none r db = Kept-refl db
finish_stop-Kept (some e) r db = Kept-refl db

hard_stop-Kept :
    (reason : String) (now : ℕ) (workers : Option Error) → Keeps Kept (hard_stop reason now workers)
unfolding hard_stop
hard_stop-Kept reason now workers db =
    continue-Keeps Kept Kept-trans (finish_stop workers) db _
      (settle-Keeps Kept Kept-refl db (raise_fence reason now db) (raise_fence-Kept reason now db))
      λ r. finish_stop-Kept workers r

step-Kept : (b : Broker) (s : Step) (db : Db) → Kept db (step b s db)
unfolding step
step-Kept b (issued id c q m ttl token now stamp) = issue-Kept b id c q m ttl token now stamp
step-Kept b (card_action token d c now stamp) = commit_card_action-Kept b token d c now stamp
step-Kept b (exact_response id r stamp) = commit_exact_response-Kept b id r stamp
step-Kept b (response_result id accepted) = record_response_result-Kept id accepted
step-Kept b (delivered_card id p m) = bind_delivered_card-Kept id p m
step-Kept b (quiesced reason) = soft_quiesce-Kept reason
step-Kept b (stopped reason now workers) = hard_stop-Kept reason now workers

pub run-Kept : (b : Broker) (db : Db) (steps : List Step) → Kept db (run b db steps)
unfolding run
run-Kept b db [] = Kept-refl db
run-Kept b db (s ∷ rest) =
    Kept-trans db (step b s db) (run b (step b s db) rest) (step-Kept b s db)
      (run-Kept b (step b s db) rest)

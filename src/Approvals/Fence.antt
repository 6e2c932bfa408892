-- ===== src/Approvals/Fence.antt =====
-- The emergency stop: after it nothing that was granted before can be used.
use codex_feishu.Prelude.{
  ℕ, ◌+◌, String, ◌≡◌, refl, sym, subst, inl, inr, Bool, true, false, Option, none, some, List, [],
  ◌∷◌, All, is_none, row_count-none, All-update_where, find-All, put_self, arith,
}
use codex_feishu.Exec.{Error, err, settle, continue_with, lost_compare_and_swap}
use codex_feishu.Models.{ApprovalState, approval_eq}
use codex_feishu.Json.{Json}
use codex_feishu.Approvals.{Context, Request, ServiceState, Db, has_token, with_state}
use codex_feishu.Approvals.Broker.{
  Broker, commit_card_action, awaits_response, commit_exact_response,
}
use codex_feishu.Approvals.Emergency.{
  StopResult, is_open, is_active, revoke, spend, fence, open_breaker, set_process_state,
  raise_fence, fence_from, finish_stop, hard_stop,
}
use codex_feishu.Approvals.Commit.{commit_card_action-CommitOutcome}

-- No approval is open, no token unused, no grant in force.
abbrev pub IsFenced : Db → Type 0
IsFenced db =
    All (λ r. is_open r ≡ false) db.approval_requests
    × All (λ a. is_none a.consumed_at ≡ false) db.approval_actions
    × All (λ g. is_active g ≡ false) db.remote_task_grants
    × (db.active_grants ≡ [])

-- The stop is recorded: the generation, the state of the process and the global breaker.
abbrev pub IsStopped : ℕ → String → Db → Type 0
IsStopped generation reason db =
    (s : ServiceState) × (db.service_state ≡ some s)
    × (s.kill_generation ≡ generation)
    × (db.circuit_breakers "global" ≡ some (record { state = "open"; reason = some reason }))

cancelled_closed : (r : Request) → is_open (with_state ApprovalState.cancelled r) ≡ false
unfolding approval_eq
cancelled_closed r = refl

fence-IsFenced : (g : ℕ) (reason : String) (now : ℕ) (db : Db) → IsFenced (fence g reason now db)
unfolding fence open_breaker
fence-IsFenced g reason now db = (
  All-update_where (λ r. is_open r ≡ false) is_open (with_state ApprovalState.cancelled)
      db.approval_requests cancelled_closed (λ _ e. e),
  All-update_where (λ a. is_none a.consumed_at ≡ false) (λ a. is_none a.consumed_at) (spend now)
      db.approval_actions (λ _. refl) (λ _ e. e),
  All-update_where (λ r. is_active r ≡ false) is_active revoke db.remote_task_grants (λ _. refl)
      (λ _ e. e),
  refl,
)

fence-IsStopped :
    (g : ℕ) (reason : String) (now : ℕ) (db : Db) → IsStopped g reason (fence g reason now db)
unfolding fence open_breaker
fence-IsStopped g reason now db = (_, refl, refl, put_self "global" _ db.circuit_breakers)

finish_stop-Fenced :
    (g : ℕ) (reason : String) (workers : Option Error) (r : StopResult) (db : Db)
    → IsFenced db
    → IsStopped g reason db
    → IsFenced (finish_stop workers r db).1 × IsStopped g reason (finish_stop workers r db).1
unfolding finish_stop set_process_state
finish_stop-Fenced g reason (some e) r db f s = (f, s)
finish_stop-Fenced g reason none r db f (s, e, k, o) =
    (f, (record s { process_state = "stopped" }, rw e refl, k, o))

-- `hard_stop` on a database with a service state, whether or not the workers' termination raises,
-- leaves no approval issued or committed, no token unconsumed, no active grant of either kind, the
-- next kill generation in force and the global breaker open for the given reason.
pub hard_stop-fences :
    (reason : String) (now : ℕ) (workers : Option Error) (db : Db) (s : ServiceState)
    → db.service_state ≡ some s
    → IsFenced (hard_stop reason now workers db).1
      × IsStopped (s.kill_generation + 1) reason (hard_stop reason now workers db).1
unfolding hard_stop raise_fence fence_from
hard_stop-fences reason now workers db s e =
    let g = s.kill_generation + 1 in
    let after = fence g reason now db in
    subst
      (λ o.
        IsFenced (continue_with (finish_stop workers) (settle db (fence_from reason now o db))).1
        × IsStopped g reason
            (continue_with (finish_stop workers) (settle db (fence_from reason now o db))).1)
      (sym e)
      (finish_stop-Fenced g reason workers _ after (fence-IsFenced g reason now db)
        (fence-IsStopped g reason now db))

false-true : {b : Bool} → b ≡ false → b ≡ true → ⊥
false-true e f = ground (arith, e, f)

open-awaits : (id : String) (r : Request) → is_open r ≡ false → awaits_response id r ≡ false
open-awaits id r e = ground (arith, e)

All-open :
    (id : String) (rs : List Request)
    → All (λ r. is_open r ≡ false) rs
    → All (λ r. awaits_response id r ≡ false) rs
All-open id [] h = tt
All-open id (r ∷ rs) h = (open-awaits id r h.0, All-open id rs h.1)

closed_refuses :
    (b : Broker) (id : String) (response : Json) (stamp : String) (db : Db)
    → All (λ r. is_open r ≡ false) db.approval_requests
    → commit_exact_response b id response stamp db ≡ (err lost_compare_and_swap, db)
unfolding commit_exact_response
closed_refuses b id response stamp db h =
    rw
      (row_count-none (awaits_response id) db.approval_requests
        (All-open id db.approval_requests h))
      refl

fenced_refuses :
    (b : Broker) (db : Db)
    → IsFenced db
    → ((token d : String) (c : Context) (now : ℕ) (stamp : String)
        → (e : Error) × (commit_card_action b token d c now stamp db ≡ (err e, db)))
      × ((id : String) (response : Json) (stamp : String)
          → commit_exact_response b id response stamp db ≡ (err lost_compare_and_swap, db))
fenced_refuses b db (requests, actions, _, _) = (
  λ token d c now stamp. elim (commit_card_action-CommitOutcome b token d c now stamp db) [
    | inl x ↦ x
    | inr (h, a, m, response, e, t, _, _) ↦ absurd (
        false-true
          (find-All (λ x. is_none x.consumed_at ≡ false) (has_token h) a db.approval_actions actions
            t.found)
          t.unspent)
  ],
  λ id response stamp. closed_refuses b id response stamp db requests,
)

-- After `hard_stop` on a database with a service state, whether or not the workers' termination
-- raises, `commit_card_action` raises for every token and `commit_exact_response` for every
-- approval, and neither writes anything.
pub hard_stop-refuses :
    (b : Broker) (reason : String) (now : ℕ) (workers : Option Error) (db : Db) (s : ServiceState)
    → db.service_state ≡ some s
    → ((token d : String) (c : Context) (at : ℕ) (stamp : String)
        → (e : Error) × (commit_card_action b token d c at stamp (hard_stop reason now workers db).1
            ≡ (err e, (hard_stop reason now workers db).1)))
      × ((id : String) (response : Json) (stamp : String)
          → commit_exact_response b id response stamp (hard_stop reason now workers db).1
            ≡ (err lost_compare_and_swap, (hard_stop reason now workers db).1))
hard_stop-refuses b reason now workers db s e =
    fenced_refuses b (hard_stop reason now workers db).1
      (hard_stop-fences reason now workers db s e).0

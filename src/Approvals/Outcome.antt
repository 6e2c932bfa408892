-- ===== src/Approvals/Outcome.antt =====
-- What `commit_card_action` needs and what it leaves, row by row.
use codex_feishu.Prelude.{
  ℕ, ◌<◌, String, ◌≡◌, ◌⊎◌, inl, inr, refl, sym, ◌∙◌, subst, true, ◌&&◌, Option, none, some, List,
  [], ◌∷◌, str_eq, eq_iff, ==_iff, find, is_none, is_some, row_count, update_where, Bool-cases,
  arith,
}
use codex_feishu.Exec.{Error, Result, ok, err}
use codex_feishu.Models.{ApprovalState, approval_eq, approval_eq_sound}
use codex_feishu.Json.{Fields, object, lookup}
use codex_feishu.Approvals.{Context, Action, Request, Db, is_request_in, is_unspent, with_state}
use codex_feishu.Approvals.Broker.{
  Broker, commit_card_action, is_same_context, offered, consume, set_consumed, set_request,
}
use codex_feishu.Approvals.Cases.{Accepted, committed}
use codex_feishu.Approvals.Commit.{SameTables, commit_card_action-CommitOutcome}

-- Two tables have the same number of rows, and every two rows at one place are related.
abbrev pub Rowwise : {A : Type 0} → (A → A → Type 0) → List A → List A → Type 0
Rowwise R [] [] = Unit
Rowwise R [] (y ∷ ys) = ⊥
Rowwise R (x ∷ xs) [] = ⊥
Rowwise R (x ∷ xs) (y ∷ ys) = R x y × Rowwise R xs ys

-- The issued request is now committed, and every other row is the same.
abbrev pub RequestCommits : String → Request → Request → Type 0
RequestCommits id r s =
    ((r.approval_id ≡ id)
      × (r.state ≡ ApprovalState.issued)
      × (s ≡ record {
        approval_id = r.approval_id;
        state = ApprovalState.action_committed;
        request_hash = r.request_hash;
        response_hash = r.response_hash;
      }))
    ⊎ (¬ ((r.approval_id ≡ id) × (r.state ≡ ApprovalState.issued)) × (s ≡ r))

-- The token that was not consumed is now consumed with the decision, and every other row is the same.
abbrev pub TokenSpends : String → String → ℕ → Action → Action → Type 0
TokenSpends h decision now a s =
    ((a.token_hash ≡ h)
      × (a.consumed_at ≡ none)
      × (s ≡ record {
        token_hash = a.token_hash;
        approval_id = a.approval_id;
        context = a.context;
        decision_map_json = a.decision_map_json;
        expires_at = a.expires_at;
        consumed_decision = some decision;
        consumed_at = some now;
      }))
    ⊎ (¬ ((a.token_hash ≡ h) × (a.consumed_at ≡ none)) × (s ≡ a))

-- The eleven columns that a card action is bound to.
abbrev pub IsBound : Context → Context → Type 0
IsBound a c =
    (a.tenant_key ≡ c.tenant_key)
    × (a.app_id ≡ c.app_id)
    × (a.chat_id ≡ c.chat_id)
    × (a.card_message_id ≡ c.card_message_id)
    × (a.binding_epoch ≡ c.binding_epoch)
    × (a.identity_binding_epoch ≡ c.identity_binding_epoch)
    × (a.kill_generation ≡ c.kill_generation)
    × (a.server_epoch ≡ c.server_epoch)
    × (a.connection_epoch ≡ c.connection_epoch)
    × (a.session_id ≡ c.session_id)
    × (a.service_fencing_token ≡ c.service_fencing_token)

is_same_context-IsBound : (a c : Context) → is_same_context a c ≡ true → IsBound a c
unfolding is_same_context
is_same_context-IsBound a c h = (
  ground (arith, h, eq_iff a.tenant_key c.tenant_key),
  ground (arith, h, eq_iff a.app_id c.app_id),
  ground (arith, h, eq_iff a.chat_id c.chat_id),
  ground (arith, h, eq_iff a.card_message_id c.card_message_id),
  ground (arith, h, ==_iff a.binding_epoch c.binding_epoch),
  ground (arith, h, ==_iff a.identity_binding_epoch c.identity_binding_epoch),
  ground (arith, h, ==_iff a.kill_generation c.kill_generation),
  ground (arith, h, eq_iff a.server_epoch c.server_epoch),
  ground (arith, h, eq_iff a.connection_epoch c.connection_epoch),
  ground (arith, h, eq_iff a.session_id c.session_id),
  ground (arith, h, ==_iff a.service_fencing_token c.service_fencing_token),
)

-- The token's row, its decision map and the response are as the caller may rely on.
abbrev pub MayCommit :
    Broker → String → String → Context → ℕ → Db → Action → Fields → Fields → Type 0
MayCommit b h decision c now db a m response =
    (find (λ x. str_eq x.token_hash h) db.approval_actions ≡ some a)
    × (a.consumed_at ≡ none)
    × (now < a.expires_at)
    × IsBound a.context c
    × (b.loads a.decision_map_json ≡ some m)
    × (lookup decision m ≡ some (object response))
    × (row_count (λ x. str_eq x.token_hash h && is_none x.consumed_at) db.approval_actions ≡ 1)
    × (row_count
          (λ r. str_eq r.approval_id a.approval_id && approval_eq r.state ApprovalState.issued)
          db.approval_requests
        ≡ 1)

-- What is committed, and what stays as it was. The audit chain may grow.
abbrev pub Commits : String → String → ℕ → String → Db → Db → Type 0
Commits h decision now id db after =
    Rowwise (RequestCommits id) db.approval_requests after.approval_requests
    × Rowwise (TokenSpends h decision now) db.approval_actions after.approval_actions
    × (after.service_state ≡ db.service_state)
    × (after.active_grants ≡ db.active_grants)
    × (after.remote_task_grants ≡ db.remote_task_grants)
    × (after.circuit_breakers ≡ db.circuit_breakers)

abbrev pub Outcome :
    Broker → String → String → Context → ℕ → Db → Result (String × Fields) × Db → Type 0
Outcome b token decision c now db x =
    ((e : Error) × (x ≡ (err e, db)))
    ⊎ ((h : String) × (a : Action) × (m : Fields) × (response : Fields) × (b.token_hash token
          ≡ some h)
        × MayCommit b h decision c now db a m response
        × Commits h decision now a.approval_id db x.1
        × ((x.0 ≡ ok (a.approval_id, response))
            ⊎ ((e : Error) × (x.0 ≡ err e) × ¬ (b.audit ≡ none))))

offered-object :
    (decision : String) (m response : Fields)
    → offered decision m ≡ some response
    → lookup decision m ≡ some (object response)
unfolding offered
offered-object decision m response h = ground (arith, h)

requests_commit :
    (id : String) (rows : List Request)
    → Rowwise (RequestCommits id) rows (
        update_where
          (is_request_in id ApprovalState.issued)
          (with_state ApprovalState.action_committed)
          rows)
unfolding update_where approval_eq
requests_commit id [] = tt
requests_commit id (r ∷ rows) = (
  elim (Bool-cases (is_request_in id ApprovalState.issued r)) [
    | inl e ↦ inl (
      ground (arith, e, eq_iff r.approval_id id),
      approval_eq_sound r.state ApprovalState.issued (ground (arith, e)),
      rw (e) refl,
    )
    | inr e ↦
        inr (
          λ (same, issued). ground (arith, e, (eq_iff r.approval_id id).1 same, issued),
          rw (e) refl,
        )
  ],
  requests_commit id rows,
)

unspent : {A : Type 0} (o : Option A) → is_none o ≡ true → o ≡ none
unspent none h = refl
unspent (some a) h = absurd (ground (arith, h))

tokens_spend :
    (h decision : String) (now : ℕ) (rows : List Action)
    → Rowwise
        (TokenSpends h decision now)
        rows
        (update_where (is_unspent h) (consume now decision) rows)
unfolding update_where
tokens_spend h decision now [] = tt
tokens_spend h decision now (a ∷ rows) = (
  elim (Bool-cases (is_unspent h a)) [
    | inl e ↦ inl (
      ground (arith, e, eq_iff a.token_hash h),
      unspent a.consumed_at (ground (arith, e)),
      rw (e) refl,
    )
    | inr e ↦
        inr (λ (same, fresh). ground (arith, e, (eq_iff a.token_hash h).1 same, fresh), rw (e) refl)
  ],
  tokens_spend h decision now rows,
)

Accepted-MayCommit :
    (b : Broker) (h decision : String) (c : Context) (now : ℕ) (db : Db) (a : Action)
    (m response : Fields)
    → Accepted b h decision c now db a m response
    → MayCommit b h decision c now db a m response
Accepted-MayCommit b h decision c now db a m response k = (
  k.found,
  unspent a.consumed_at k.unspent,
  ground (arith, k.in_time),
  is_same_context-IsBound a.context c k.in_context,
  k.decoded,
  offered-object decision m response k.is_offered,
  (==_iff _ 1).0 k.one_action,
  (==_iff _ 1).0 k.one_request,
)

committed-Commits :
    (h decision : String) (now : ℕ) (a : Action) (db : Db)
    → Commits h decision now a.approval_id db (committed h decision now a db)
unfolding set_request set_consumed
committed-Commits h decision now a db = (
  requests_commit a.approval_id db.approval_requests,
  tokens_spend h decision now db.approval_actions,
  refl,
  refl,
  refl,
  refl,
)

SameTables-Commits :
    (h decision : String) (now : ℕ) (id : String) (db middle after : Db)
    → Commits h decision now id db middle
    → SameTables middle after
    → Commits h decision now id db after
SameTables-Commits h decision now id db middle after (r, t, s, g, k, v) (r', t', s', g', k', v') = (
  subst (Rowwise (RequestCommits id) db.approval_requests) (sym r') r,
  subst (Rowwise (TokenSpends h decision now) db.approval_actions) (sym t') t,
  s' ∙ s,
  g' ∙ g,
  k' ∙ k,
  v' ∙ v,
)

some_chain : {A : Type 0} (o : Option A) → is_some o ≡ true → ¬ (o ≡ none)
some_chain none e f = ground (arith, e)
some_chain (some a) e f = cc f

-- `commit_card_action` raises and leaves the database as it was. Or the token is known, its only row
-- was not consumed and expires later than now, the row's eleven columns equal those of the context,
-- the stored map has an object for the decision, and one request of the row's approval was issued;
-- and then that request is action_committed, the token's row is consumed at this time with this
-- decision, all other rows and all tables but the audit chain are as they were, and the approval and
-- the object are returned, unless there is an audit chain, which may raise afterwards.
pub commit_card_action-Outcome :
    (b : Broker) (token decision : String) (c : Context) (now : ℕ) (stamp : String) (db : Db)
    → Outcome b token decision c now db (commit_card_action b token decision c now stamp db)
commit_card_action-Outcome b token decision c now stamp db =
    elim (commit_card_action-CommitOutcome b token decision c now stamp db) [
      | inl (e, f) ↦ inl (e, f)
      | inr (h, a, m, response, known, k, same, result) ↦ inr (
        h,
        a,
        m,
        response,
        known,
        Accepted-MayCommit b h decision c now db a m response k,
        SameTables-Commits h decision now a.approval_id db (committed h decision now a db)
            (commit_card_action b token decision c now stamp db).1
            (committed-Commits h decision now a db) same,
        elim result [ inl r ↦ inl r | inr (e, r, chain) ↦ inr (e, r, some_chain b.audit chain) ],
      )
    ]

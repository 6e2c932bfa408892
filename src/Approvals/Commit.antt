-- ===== src/Approvals/Commit.antt =====
-- What `commit_card_action` does on every branch.
use codex_feishu.Prelude.{
  ℕ, String, ◌≡◌, refl, sym, subst, ◌⊎◌, inl, inr, true, none, some, leb, is_none, is_some, find,
  Option-cases,
}
use codex_feishu.Exec.{
  Error, Result, ok, err, transaction, continue_with, value_error, token_expired,
}
use codex_feishu.Json.{Fields}
use codex_feishu.Audit.{AuditRow, Chain, append}
use codex_feishu.Approvals.{Context, Action, Db, has_token}
use codex_feishu.Approvals.Broker.{
  Broker, with_chain, record_event, committed_event, refuse_expired, commit_action, record_commit,
  commit_card_action,
}
use codex_feishu.Approvals.Cases.{Accepted, committed, commit_action_cases}

-- All tables but the audit chain are as in the other database.
abbrev pub SameTables : Db → Db → Type 0
SameTables db after =
    (after.approval_requests ≡ db.approval_requests)
    × (after.approval_actions ≡ db.approval_actions)
    × (after.service_state ≡ db.service_state)
    × (after.active_grants ≡ db.active_grants)
    × (after.remote_task_grants ≡ db.remote_task_grants)
    × (after.circuit_breakers ≡ db.circuit_breakers)

-- Refused with nothing written; or accepted: every test passed, the token is consumed and the
-- request is committed. After that only the audit chain can still raise.
abbrev pub CommitOutcome :
    Broker → String → String → Context → ℕ → Db → Result (String × Fields) × Db → Type 0
CommitOutcome b token d c now db x =
    ((e : Error) × (x ≡ (err e, db)))
    ⊎ ((h : String) × (a : Action) × (m : Fields) × (response : Fields) × (b.token_hash token
          ≡ some h)
        × Accepted b h d c now db a m response
        × SameTables (committed h d now a db) x.1
        × ((x.0 ≡ ok (a.approval_id, response))
            ⊎ ((e : Error) × (x.0 ≡ err e) × (is_some b.audit ≡ true))))

with_chain-tables : (x : Result AuditRow × Chain) (db : Db) → SameTables db (with_chain x db).1
with_chain-tables (ok r, c) db = (refl, refl, refl, refl, refl, refl)
with_chain-tables (err e, c) db = (refl, refl, refl, refl, refl, refl)

-- A recorded result is the result, unless the chain raises.
with_chain-result :
    (x : Result AuditRow × Chain) (db : Db) (r : String × Fields)
    → SameTables db (continue_with (λ _ s. (ok r, s)) (with_chain x db)).1
      × (((continue_with (λ _ s. (ok r, s)) (with_chain x db)).0 ≡ ok r)
          ⊎ ((e : Error) × ((continue_with (λ _ s. (ok r, s)) (with_chain x db)).0 ≡ err e)))
with_chain-result (ok row, c) db r = ((refl, refl, refl, refl, refl, refl), inl refl)
with_chain-result (err e, c) db r = ((refl, refl, refl, refl, refl, refl), inr (e, refl))

record_commit-result :
    (b : Broker) (d stamp : String) (r : String × Fields) (db : Db)
    → SameTables db (record_commit b d stamp r db).1
      × (((record_commit b d stamp r db).0 ≡ ok r)
          ⊎ ((e : Error) × ((record_commit b d stamp r db).0 ≡ err e) × (is_some b.audit ≡ true)))
unfolding record_commit record_event
record_commit-result b d stamp r db = elim (Option-cases b.audit) [
  | inl e ↦ rw e ((refl, refl, refl, refl, refl, refl), inl refl)
  | inr (z, e) ↦
      let (same, result) =
        with_chain-result (append z (committed_event r.0 d) stamp db.audit_chain) db r in
      rw e (same, elim result [ inl p ↦ inl p | inr (f, p) ↦ inr (f, p, refl) ])
]

unknown_token :
    (b : Broker) (token d : String) (c : Context) (now : ℕ) (stamp : String) (db : Db)
    → b.token_hash token ≡ none
    → commit_card_action b token d c now stamp db ≡ (err value_error, db)
unfolding commit_card_action
unknown_token b token d c now stamp db e = rw e refl

known_token :
    (b : Broker) (token h d : String) (c : Context) (now : ℕ) (stamp : String) (db : Db)
    → b.token_hash token ≡ some h
    → commit_card_action b token d c now stamp db
      ≡ continue_with (record_commit b d stamp) (transaction (commit_action b h d c now) db)
unfolding commit_card_action
known_token b token h d c now stamp db e = rw e refl

pub commit_card_action-CommitOutcome :
    (b : Broker) (token d : String) (c : Context) (now : ℕ) (stamp : String) (db : Db)
    → CommitOutcome b token d c now db (commit_card_action b token d c now stamp db)
commit_card_action-CommitOutcome b token d c now stamp db =
    elim (Option-cases (b.token_hash token)) [
      | inl e ↦
          subst (CommitOutcome b token d c now db) (sym (unknown_token b token d c now stamp db e))
            (inl (value_error, refl))
      | inr (h, e) ↦
          subst (CommitOutcome b token d c now db) (sym (known_token b token h d c now stamp db e))
            (commit_action_cases b h d c now db
              (λ x. CommitOutcome b token d c now db (continue_with (record_commit b d stamp) x))
              (λ f. inl (f, refl))
              λ a m response t.
                let (same, result) =
                  record_commit-result b d stamp (a.approval_id, response)
                    (committed h d now a db) in
                inr (h, a, m, response, e, t, same, result))
    ]

-- A known token that is not consumed and has expired raises so, and the database is left as it was:
-- the request stays issued, since the exception rolls the UPDATE to expired back.
pub commit_card_action-expired :
    (b : Broker) (token h d : String) (c : Context) (now : ℕ) (stamp : String) (db : Db)
    (a : Action)
    → b.token_hash token ≡ some h
    → find (has_token h) db.approval_actions ≡ some a
    → is_none a.consumed_at ≡ true
    → leb a.expires_at now ≡ true
    → commit_card_action b token d c now stamp db ≡ (err token_expired, db)
unfolding commit_card_action commit_action refuse_expired
commit_card_action-expired b token h d c now stamp db a e found unspent due =
    rw (e, found, unspent, due) refl

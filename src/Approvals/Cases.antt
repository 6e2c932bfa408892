-- ===== src/Approvals/Cases.antt =====
-- `commit_card_action` by cases: the transaction raises and is rolled back, or every test passed
-- and both tables are updated.
use codex_feishu.Prelude.{
  ℕ, String, ◌≡◌, inl, inr, true, false, some, leb, ◌==◌, is_none, find, row_count, Bool-cases,
  Option-cases,
}
use codex_feishu.Exec.{Error, Result, ok, err, transaction}
use codex_feishu.Models.{ApprovalState}
use codex_feishu.Json.{Fields}
use codex_feishu.Approvals.{Context, Action, Db, is_request_in, has_token, is_unspent}
use codex_feishu.Approvals.Broker.{
  Broker, commit_action, refuse_expired, is_same_context, offered, set_consumed, set_request,
}

-- All that the transaction tests before it writes.
pub record Accepted (b : Broker) (h decision : String) (c : Context) (now : ℕ) (db : Db)
    (a : Action) (m response : Fields) : Type 0 where
  pub found : find (has_token h) db.approval_actions ≡ some a
  pub unspent : is_none a.consumed_at ≡ true
  pub in_time : leb a.expires_at now ≡ false
  pub in_context : is_same_context a.context c ≡ true
  pub decoded : b.loads a.decision_map_json ≡ some m
  pub is_offered : offered decision m ≡ some response
  pub one_action : (row_count (is_unspent h) db.approval_actions == 1) ≡ true
  pub one_request :
      (row_count (is_request_in a.approval_id ApprovalState.issued) db.approval_requests == 1)
      ≡ true

-- The database after a commit.
abbrev pub committed : String → String → ℕ → Action → Db → Db
committed h decision now a db =
    set_request a.approval_id ApprovalState.issued ApprovalState.action_committed
      (set_consumed h decision now db)

module _ {ℓ} (b : Broker) (h decision : String) (c : Context) (now : ℕ) (db : Db)
    (P : Result (String × Fields) × Db → Type ℓ) where
  pub commit_action_cases :
      ((e : Error) → P (err e, db))
      → ((a : Action) (m response : Fields)
          → Accepted b h decision c now db a m response
          → P (ok (a.approval_id, response), committed h decision now a db))
      → P (transaction (commit_action b h decision c now) db)
  unfolding commit_action refuse_expired
  commit_action_cases failed done = elim (Option-cases (find (has_token h) db.approval_actions)) [
    | inl e ↦ rw e (failed _)
    | inr (a, found) ↦ elim (Bool-cases (is_none a.consumed_at)) [
      | inr e ↦ rw (found, e) (failed _)
      | inl unspent ↦ elim (Bool-cases (leb a.expires_at now)) [
        | inl e ↦ rw (found, unspent, e) (failed _)
        | inr in_time ↦ elim (Bool-cases (is_same_context a.context c)) [
          | inr e ↦ rw (found, unspent, in_time, e) (failed _)
          | inl in_context ↦ elim (Option-cases (b.loads a.decision_map_json)) [
            | inl e ↦ rw (found, unspent, in_time, in_context, e) (failed _)
            | inr (m, decoded) ↦ elim (Option-cases (offered decision m)) [
              | inl e ↦ rw (found, unspent, in_time, in_context, decoded, e) (failed _)
              | inr (response, is_offered) ↦
                  elim (Bool-cases (row_count (is_unspent h) db.approval_actions == 1)) [
                    | inr e ↦
                        rw (found, unspent, in_time, in_context, decoded, is_offered, e) (failed _)
                    | inl one ↦
                        elim (Bool-cases (
                          row_count (is_request_in a.approval_id ApprovalState.issued)
                            db.approval_requests
                          == 1)) [
                            | inr e ↦
                                rw
                                  (found, unspent, in_time, in_context, decoded, is_offered, one, e)
                                  (failed _)
                            | inl two ↦
                                rw
                                  (
                                    found, unspent, in_time, in_context, decoded, is_offered, one,
                                    two,
                                  )
                                  (done a m response (record {
                                    found = found;
                                    unspent = unspent;
                                    in_time = in_time;
                                    in_context = in_context;
                                    decoded = decoded;
                                    is_offered = is_offered;
                                    one_action = one;
                                    one_request = two;
                                  }))
                          ]
                  ]
            ]
          ]
        ]
      ]
    ]
  ]

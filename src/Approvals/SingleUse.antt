-- ===== src/Approvals/SingleUse.antt =====
-- A token that was accepted once is never accepted again.
use codex_feishu.Prelude.{
  ℕ, String, ◌≡◌, refl, ap, ◌∙◌, inl, inr, true, false, Option, none, some, List, is_none, is_some,
  find, updated, find-update_where, find-holds, Option-cases, arith,
}
use codex_feishu.Exec.{Error, ok, err, transaction, continue_with, token_invalid}
use codex_feishu.Json.{Fields}
use codex_feishu.Approvals.{Context, Action, Db, has_token, is_unspent}
use codex_feishu.Approvals.Broker.{
  Broker, set_request, set_consumed, consume, commit_action, record_commit, commit_card_action,
}
use codex_feishu.Approvals.Cases.{committed, commit_action_cases}
use codex_feishu.Approvals.Steps.{Step, run}
use codex_feishu.Approvals.Evolution.{Kept, record_commit-Kept, run-Kept}

-- The row of this token is consumed.
abbrev Spent : String → Db → Type 0
Spent h db =
    (a : Action) × (find (has_token h) db.approval_actions ≡ some a)
    × (is_some a.consumed_at ≡ true)

Kept-Spent : (h : String) (db after : Db) → Kept db after → Spent h db → Spent h after
Kept-Spent h db after k (a, found, spent) =
    let (z, found', (_, same)) = k h a found in (z, found', ap is_some (same spent).0 ∙ spent)

committed-Spent :
    (h d : String) (now : ℕ) (a : Action) (db : Db)
    → find (has_token h) db.approval_actions ≡ some a
    → is_none a.consumed_at ≡ true
    → Spent h (committed h d now a db)
unfolding set_request set_consumed updated
committed-Spent h d now a db found unspent =
    let key = find-holds (has_token h) a db.approval_actions found in
    let after =
      find-update_where (has_token h) (is_unspent h) (consume now d) db.approval_actions (λ _. refl)
      ∙ ap (updated (is_unspent h) (consume now d)) found in
    (consume now d a, after ∙ rw (key, unspent) refl, refl)

ok-err : {A : Type 0} (a : A) (e : Error) → err e ≡ ok a → ⊥
ok-err a e p = ground (arith, p)

-- After an accepted action the token's row is consumed.
accepted-Spent :
    (b : Broker) (h d : String) (c : Context) (now : ℕ) (stamp : String) (db : Db)
    (r : String × Fields)
    → (continue_with (record_commit b d stamp) (transaction (commit_action b h d c now) db)).0
      ≡ ok r
    → Spent h
        (continue_with (record_commit b d stamp) (transaction (commit_action b h d c now) db)).1
accepted-Spent b h d c now stamp db r =
    commit_action_cases b h d c now db
      (λ x.
        (continue_with (record_commit b d stamp) x).0 ≡ ok r
        → Spent h (continue_with (record_commit b d stamp) x).1)
      (λ e p. absurd (ok-err r e p))
      λ a m response t _.
        Kept-Spent h (committed h d now a db)
          (record_commit b d stamp (a.approval_id, response) (committed h d now a db)).1
          (record_commit-Kept b d stamp (a.approval_id, response) (committed h d now a db))
          (committed-Spent h d now a db t.found t.unspent)

is_none-is_some : (o : Option ℕ) → is_some o ≡ true → is_none o ≡ false
is_none-is_some none e = ground (arith, e)
is_none-is_some (some t) e = refl

accepted_token :
    (b : Broker) (token d : String) (c : Context) (now : ℕ) (stamp : String) (db : Db)
    (r : String × Fields)
    → (commit_card_action b token d c now stamp db).0 ≡ ok r
    → (h : String) × (b.token_hash token ≡ some h)
      × Spent h (commit_card_action b token d c now stamp db).1
unfolding commit_card_action
accepted_token b token d c now stamp db r accepted = elim (Option-cases (b.token_hash token)) [
  | inl e ↦ absurd (ok-err r _ (rw e at accepted))
  | inr (h, e) ↦ (h, e, rw e (accepted-Spent b h d c now stamp db r (rw e at accepted)))
]

Spent-refused :
    (b : Broker) (token h d : String) (c : Context) (now : ℕ) (stamp : String) (db : Db)
    → b.token_hash token ≡ some h
    → Spent h db
    → commit_card_action b token d c now stamp db ≡ (err token_invalid, db)
unfolding commit_card_action commit_action
Spent-refused b token h d c now stamp db e (a, found, spent) =
    rw (e, found, is_none-is_some a.consumed_at spent) refl

-- If `commit_card_action` accepts a token, then after any calls of the broker's methods and of the
-- emergency stop every further `commit_card_action` with that token raises that the token is invalid
-- or consumed, and leaves the database as it is.
pub commit_card_action-single_use :
    (b : Broker) (token d d' : String) (c c' : Context) (now now' : ℕ) (stamp stamp' : String)
    (db : Db) (r : String × Fields) (steps : List Step)
    → (commit_card_action b token d c now stamp db).0 ≡ ok r
    → commit_card_action b token d' c' now' stamp'
        (run b (commit_card_action b token d c now stamp db).1 steps)
      ≡ (err token_invalid, run b (commit_card_action b token d c now stamp db).1 steps)
commit_card_action-single_use b token d d' c c' now now' stamp stamp' db r steps accepted =
    let (h, e, spent) = accepted_token b token d c now stamp db r accepted in
    let after = (commit_card_action b token d c now stamp db).1 in
    Spent-refused b token h d' c' now' stamp' (run b after steps) e
      (Kept-Spent h after (run b after steps) (run-Kept b after steps) spent)

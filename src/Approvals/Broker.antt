-- ===== src/Approvals/Broker.antt =====
-- codex_feishu_bridge/security/approvals.py: the methods of `ApprovalBroker`; and
-- `bind_delivered_card` of codex/approval_gateway.py, which fills in the delivered card.
use codex_feishu.Prelude.{
  ℕ, ◌+◌, String, Bool, true, false, not, ◌&&◌, ◌||◌, Option, none, some, [], ◌∷◌, ◌++◌, str_eq,
  opt_str_eq, leb, ltb, ◌==◌, if◌then◌else◌, is_none, is_some, find, update_where, row_count,
}
use codex_feishu.Exec.{
  Result, ok, err, Exec, Done, pure, raise, require, write, get_state, or_raise, transaction, ◌>>=◌,
  ◌>>◌, empty_request, request_reused, integrity_error, value_error, token_invalid, token_expired,
  context_mismatch, decision_not_offered, lost_compare_and_swap,
}
use codex_feishu.Models.{ApprovalState}
use codex_feishu.Json.{ℤ, pos, negsuc, Json, Fields, object, text, no_fields, field, lookup}
use codex_feishu.Audit.{Hashing, AuditRow, Chain, append}
use codex_feishu.Approvals.{
  Context, Action, Request, Db, is_request, is_request_in, has_token, is_unspent, with_state,
}

-- What the broker takes from elsewhere. `token_hash` is the HMAC of a token at the broker's key, and
-- none if the token is not ASCII; `digest` and `canonicalize` are those of security/jcs.py;
-- `loads` is `json.loads` of a stored decision map, and none if that raises; `audit` is the audit
-- chain, if there is one.
pub record Broker : Type 0 where
  pub token_hash : String → Option String
  pub digest : Json → String
  pub canonicalize : Json → String
  pub loads : String → Option Fields
  pub audit : Option Hashing

pub record IssuedApproval : Type 0 where
  pub opaque_token : Option String
  pub request_hash : String
  pub expires_at : ℕ
  pub created : Bool

abbrev pub with_chain : Result AuditRow × Chain → Db → Result Done × Db
with_chain (ok row, chain) db = (ok tt, record db { audit_chain = chain })
with_chain (err e, chain) db = (err e, record db { audit_chain = chain })

-- `if self.audit is not None: self.audit.append(event)`, in a transaction of its own.
unfoldable pub record_event : Option Hashing → Fields → String → Exec Db Done
record_event none event stamp db = (ok tt, db)
record_event (some z) event stamp db = with_chain (append z event stamp db.audit_chain) db

-- `WHERE server_epoch=? AND connection_epoch=? AND server_request_id=?`
abbrev pub is_same_request : Context → Action → Bool
is_same_request c a =
    str_eq a.context.server_epoch c.server_epoch
    && str_eq a.context.connection_epoch c.connection_epoch
    && str_eq a.context.server_request_id c.server_request_id

-- The SELECT of `issue`: the action of the same request, joined with its row in
-- `approval_requests`.
unfoldable pub find_existing : Context → Db → Option (Action × Request)
find_existing c db = elim (find (is_same_request c) db.approval_actions) [
  | none ↦ none
  | some a ↦ elim (find (is_request a.approval_id) db.approval_requests) [
    | none ↦ none
    | some r ↦ some (a, r)
  ]
]

unfoldable pub is_exact_identity : String → Context → String → Action → Request → Bool
is_exact_identity approval_id c request_hash a r =
    str_eq a.approval_id approval_id
    && str_eq r.request_hash request_hash
    && str_eq a.context.server_method c.server_method
    && str_eq a.context.thread_id c.thread_id
    && opt_str_eq a.context.turn_id c.turn_id
    && str_eq a.context.session_id c.session_id

-- `PRIMARY KEY(token_hash)`, `UNIQUE(approval_id)` and the UNIQUE triple of a request.
unfoldable pub is_taken : String → String → Context → Db → Bool
is_taken approval_id token_hash c db =
    is_some (find (is_request approval_id) db.approval_requests)
    || is_some (find (has_token token_hash) db.approval_actions)
    || is_some (find (λ a. str_eq a.approval_id approval_id) db.approval_actions)
    || is_some (find (is_same_request c) db.approval_actions)

unfoldable pub insert_approval : Request → Action → Db → Db
insert_approval r a db = record db {
  approval_requests = db.approval_requests ++ (r ∷ []);
  approval_actions = db.approval_actions ++ (a ∷ []);
}

-- The two branches of `issue` after its SELECT.
unfoldable pub reuse_or_insert :
    String
    → Context
    → String
    → Action
    → Option String
    → Option (Action × Request)
    → Exec Db IssuedApproval
reuse_or_insert approval_id c request_hash fresh token (some (a, r)) = do
  require (is_exact_identity approval_id c request_hash a r) request_reused
  pure (record {
    opaque_token = none;
    request_hash = request_hash;
    expires_at = a.expires_at;
    created = false;
  })
reuse_or_insert approval_id c request_hash fresh token none = do
  db ← get_state
  require (not (is_taken approval_id fresh.token_hash c db)) integrity_error
  write (
      insert_approval
        (record {
          approval_id = approval_id;
          state = ApprovalState.issued;
          request_hash = request_hash;
          response_hash = none;
        })
        fresh)
  pure (record {
    opaque_token = token;
    request_hash = request_hash;
    expires_at = fresh.expires_at;
    created = true;
  })

-- A TTL above zero.
unfoldable pub positive : ℤ → Option ℕ
positive (pos n) = if ltb 0 n then some n else none
positive (negsuc n) = none

unfoldable pub is_empty : Fields → Bool
is_empty no_fields = true
is_empty (field k v rest) = false

abbrev pub issued_event : String → Context → IssuedApproval → Fields
issued_event approval_id c i = field "event" (text "approval_issued") (
    field "approval_id" (text approval_id) (
      field "request_hash" (text i.request_hash) (
        field "server_method" (text c.server_method)
          (field "thread_id" (text c.thread_id) no_fields))))

-- `approval_issued`, for a new approval only.
unfoldable pub record_issue :
    Broker → String → Context → String → IssuedApproval → Exec Db IssuedApproval
record_issue b approval_id c stamp i =
    if i.created
    then (record_event b.audit (issued_event approval_id c i) stamp >> pure i)
    else pure i

abbrev pub fresh_action : Broker → String → Context → Fields → String → ℕ → Action
fresh_action b approval_id c decision_map token_hash expires_at = record {
  token_hash = token_hash;
  approval_id = approval_id;
  context = c;
  decision_map_json = b.canonicalize (object decision_map);
  expires_at = expires_at;
  consumed_decision = none;
  consumed_at = none;
}

-- The body of the transaction of `issue`.
unfoldable pub register :
    Broker → String → Context → Json → Action → String → Exec Db IssuedApproval
register b approval_id c request fresh token = do
  db ← get_state
  reuse_or_insert approval_id c (b.digest request) fresh (some token) (find_existing c db)

-- `token` is what `secrets.token_urlsafe` returned, `now` and `stamp` the time.
unfoldable pub issue :
    Broker → String → Context → Json → Fields → ℤ → String → ℕ → String → Exec Db IssuedApproval
issue b approval_id c request decision_map ttl token now stamp = do
  seconds ← or_raise (positive ttl) empty_request
  require (not (is_empty decision_map)) empty_request
  token_hash ← or_raise (b.token_hash token) value_error
  i ← transaction (
      register b approval_id c request
        (fresh_action b approval_id c decision_map token_hash (now + seconds)) token)
  record_issue b approval_id c stamp i

-- The eleven columns that `commit_card_action` compares.
unfoldable pub is_same_context : Context → Context → Bool
is_same_context a c =
    str_eq a.tenant_key c.tenant_key
    && str_eq a.app_id c.app_id
    && str_eq a.chat_id c.chat_id
    && str_eq a.card_message_id c.card_message_id
    && (a.binding_epoch == c.binding_epoch)
    && (a.identity_binding_epoch == c.identity_binding_epoch)
    && (a.kill_generation == c.kill_generation)
    && str_eq a.server_epoch c.server_epoch
    && str_eq a.connection_epoch c.connection_epoch
    && str_eq a.session_id c.session_id
    && (a.service_fencing_token == c.service_fencing_token)

-- The response to a decision, if the stored map has a dict there.
unfoldable pub offered : String → Fields → Option Fields
offered decision decision_map = elim (lookup decision decision_map) [
  | some (object response) ↦ some response
  | _ ↦ none
]

abbrev pub consume : ℕ → String → Action → Action
consume now decision a = record a { consumed_at = some now; consumed_decision = some decision }

unfoldable pub set_request : String → ApprovalState → ApprovalState → Db → Db
set_request approval_id expected target db = record db {
  approval_requests =
      update_where (is_request_in approval_id expected) (with_state target) db.approval_requests;
}

unfoldable pub set_consumed : String → String → ℕ → Db → Db
set_consumed token_hash decision now db = record db {
  approval_actions =
      update_where (is_unspent token_hash) (consume now decision) db.approval_actions;
}

-- `if expires <= now`: the UPDATE and the exception.
unfoldable pub refuse_expired : Action → ℕ → Exec Db Done
refuse_expired a now =
    if leb a.expires_at now
    then (write (set_request a.approval_id ApprovalState.issued ApprovalState.expired)
        >> raise token_expired)
    else pure tt

-- The body of the transaction of `commit_card_action`.
unfoldable pub commit_action : Broker → String → String → Context → ℕ → Exec Db (String × Fields)
commit_action b token_hash decision c now = do
  db ← get_state
  a ← or_raise (find (has_token token_hash) db.approval_actions) token_invalid
  require (is_none a.consumed_at) token_invalid
  refuse_expired a now
  require (is_same_context a.context c) context_mismatch
  decision_map ← or_raise (b.loads a.decision_map_json) value_error
  response ← or_raise (offered decision decision_map) decision_not_offered
  require (row_count (is_unspent token_hash) db.approval_actions == 1) lost_compare_and_swap
  write (set_consumed token_hash decision now)
  require (row_count (is_request_in a.approval_id ApprovalState.issued) db.approval_requests == 1)
      lost_compare_and_swap
  write (set_request a.approval_id ApprovalState.issued ApprovalState.action_committed)
  pure (a.approval_id, response)

abbrev pub committed_event : String → String → Fields
committed_event approval_id decision =
    field "event" (text "approval_action_committed")
      (field "approval_id" (text approval_id) (field "decision" (text decision) no_fields))

unfoldable pub record_commit :
    Broker → String → String → String × Fields → Exec Db (String × Fields)
record_commit b decision stamp r =
    record_event b.audit (committed_event r.0 decision) stamp >> pure r

unfoldable pub commit_card_action :
    Broker → String → String → Context → ℕ → String → Exec Db (String × Fields)
commit_card_action b opaque_token decision c now stamp = do
  token_hash ← or_raise (b.token_hash opaque_token) value_error
  r ← transaction (commit_action b token_hash decision c now)
  record_commit b decision stamp r

-- `state='action_committed' AND response_hash IS NULL`
abbrev pub awaits_response : String → Request → Bool
awaits_response id r = is_request_in id ApprovalState.action_committed r && is_none r.response_hash

abbrev pub with_response : String → Request → Request
with_response response_hash r = record r {
  state = ApprovalState.response_sending;
  response_hash = some response_hash;
}

-- `exact_response_hash` is the digest of the response.
abbrev pub prepared_event : String → String → Fields
prepared_event approval_id response_hash =
    field "event" (text "approval_response_prepared") (
      field "approval_id" (text approval_id) (field "response_hash" (text response_hash) no_fields))

unfoldable pub set_response : String → String → Db → Db
set_response approval_id response_hash db = record db {
  approval_requests =
      update_where (awaits_response approval_id) (with_response response_hash) db.approval_requests;
}

unfoldable pub record_response : Broker → String → String → String → Exec Db String
record_response b approval_id stamp response_hash =
    record_event b.audit (prepared_event approval_id response_hash) stamp >> pure response_hash

-- `exact_response_hash` is the digest of the response.
unfoldable pub commit_exact_response : Broker → String → Json → String → Exec Db String
commit_exact_response b approval_id response stamp = do
  db ← get_state
  require (row_count (awaits_response approval_id) db.approval_requests == 1) lost_compare_and_swap
  write (set_response approval_id (b.digest response))
  record_response b approval_id stamp (b.digest response)

-- `state='response_sending' AND response_hash IS NOT NULL`
abbrev pub awaits_result : String → Request → Bool
awaits_result id r = is_request_in id ApprovalState.response_sending r && is_some r.response_hash

unfoldable pub result_state : Option Bool → ApprovalState
result_state (some true) = ApprovalState.resolved
result_state (some false) = ApprovalState.rejected
result_state none = ApprovalState.outcome_unknown

unfoldable pub set_result : String → ApprovalState → Db → Db
set_result approval_id target db = record db {
  approval_requests =
      update_where (awaits_result approval_id) (with_state target) db.approval_requests;
}

unfoldable pub record_response_result : String → Option Bool → Exec Db Done
record_response_result approval_id accepted = do
  db ← get_state
  require (row_count (awaits_result approval_id) db.approval_requests == 1) lost_compare_and_swap
  write (set_result approval_id (result_state accepted))

-- `approval_id=? AND card_message_id=?`; `placeholder` is `"approval-card:" + approval_id`.
abbrev pub awaits_card : String → String → Action → Bool
awaits_card approval_id placeholder a =
    str_eq a.approval_id approval_id && str_eq a.context.card_message_id placeholder

abbrev pub with_card : String → Action → Action
with_card message_id a = record a { context = record (a.context) { card_message_id = message_id } }

unfoldable pub set_card : String → String → String → Db → Db
set_card approval_id placeholder message_id db = record db {
  approval_actions =
      update_where (awaits_card approval_id placeholder) (with_card message_id) db.approval_actions;
}

unfoldable pub bind_delivered_card : String → String → String → Exec Db Done
bind_delivered_card approval_id placeholder message_id = do
  db ← get_state
  require (row_count (awaits_card approval_id placeholder) db.approval_actions == 1)
      lost_compare_and_swap
  write (set_card approval_id placeholder message_id)

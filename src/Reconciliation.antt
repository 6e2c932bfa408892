-- ===== src/Reconciliation.antt =====
-- feishu/reconciliation.py: a message of unknown outcome is looked for in the provider's history.
pub mod Matches
pub mod Confirmation
pub mod Termination
use codex_feishu.Prelude.{
  ℕ, zero, suc, ◌+◌, String, Bool, true, false, not, ◌&&◌, ◌||◌, Option, none, some, List, [], ◌∷◌,
  ◌++◌, str_eq, holds_str, opt_str_eq, if◌then◌else◌, length,
}
use codex_feishu.Exec.{Error, Result, ok, err, value_error, type_error}
use codex_feishu.Json.{
  Json, Items, Fields, null, text, array, object, no_items, item, no_fields, field, lookup,
  is_falsy,
}
use codex_feishu.Outbox.{Row, Db, TitleBinding, is_unknown}
use codex_feishu.Outbox.Queue.{mark_indeterminate, retry_with_same_uuid, confirm_match}

-- What the reconciler reads of an endpoint of the contract.
pub record Endpoint : Type 0 where
  pub enabled : Bool
  pub uuid_window_seconds : Option ℕ

-- What it reads of a result of the client: whether the outcome is `CONFIRMED`, and the response.
pub record ProviderResult : Type 0 where
  pub is_confirmed : Bool
  pub response : Option Fields

-- The contract's endpoints; the answers of `list_messages` for a chat, by the number of the call and
-- the page token; the client's `app_id`; whether a stored time is at most so many seconds ago;
-- `json.loads`, none on an error; and SHA-256 of a text.
pub record Provider : Type 0 where
  pub endpoints : String → Option Endpoint
  pub list_messages : Option String → ℕ → Option String → ProviderResult
  pub app_id : String
  pub is_within : ℕ → ℕ → Bool
  pub loads : String → Option Json
  pub sha256 : String → String

-- `ReconciliationResult`
pub record Reconciled : Type 0 where
  pub state : String
  pub message_id : Option String
  pub matches : ℕ

-- `value.get(k)` of a value that may be no dict.
abbrev pub get : String → Option Json → Option Json
get k (some (object fields)) = lookup k fields
get k v = none

-- `value == text`
abbrev pub is_text : String → Option Json → Bool
is_text s (some (text t)) = str_eq t s
is_text s v = false

-- A list or a dict cannot be looked up in a set.
abbrev pub is_unhashable : Option Json → Bool
is_unhashable (some (array a)) = true
is_unhashable (some (object o)) = true
is_unhashable v = false

-- The tests on the sender of an item.
unfoldable pub is_sender : String → String → Option Json → Result Bool
is_sender app_id operation sender =
    let kind = get "sender_type" sender in
    if str_eq operation "user_message"
    then ok (is_text "user" kind)
    else if is_unhashable kind
    then err type_error
    else ok ((is_text "app" kind || is_text "bot" kind) && is_text app_id (get "id" sender))

unfoldable pub expected_type : Row → Option Json → Result String
expected_type r body =
    let kind = get "_cfb_message_type" body in
    if str_eq r.operation "approval"
    then ok "interactive"
    else if is_unhashable kind
    then err type_error
    else ok (
        if is_text "interactive" kind
        then "interactive"
        else if is_text "post" kind
        then "post"
        else if is_text "file" kind
        then "file"
        else r.message_type)

-- The tests on the type and on the content, and the identifier.
unfoldable pub match_content : Provider → Row → Fields → String → Option String
match_content z r fields kind =
    if is_text kind (lookup "msg_type" fields)
    then (elim (get "content" (lookup "body" fields)) [
      | some (text content) ↦
          if str_eq (z.sha256 content) r.body_hash
          then (elim (lookup "message_id" fields) [ some (text id) ↦ some id | _ ↦ none ])
          else none
      | _ ↦ none
    ])
    else none

unfoldable pub match_sender : Provider → Row → Fields → Bool → Result (Option String)
match_sender z r o false = ok none
match_sender z r o true = elim (expected_type r (z.loads r.body_json)) [
  | ok kind ↦ ok (match_content z r o kind)
  | err e ↦ err e
]

-- The identifier of an item that matches the row.
unfoldable pub match_item : Provider → Row → Json → Result (Option String)
match_item z r (object o) = elim (is_sender z.app_id r.operation (lookup "sender" o)) [
  | ok b ↦ match_sender z r o b
  | err e ↦ err e
]
match_item z r v = ok none

abbrev pub push_id : Option String → List String → List String
push_id none rest = rest
push_id (some id) rest = id ∷ rest

unfoldable pub push_match : Result (Option String) → Result (List String) → Result (List String)
push_match (ok m) (ok rest) = ok (push_id m rest)
push_match (ok m) (err e) = err e
push_match (err e) rest = err e

-- The identifiers of the items of a page that match, in order.
unfoldable pub match_items : Provider → Row → Items → Result (List String)
match_items z r no_items = ok []
match_items z r (item v rest) = push_match (match_item z r v) (match_items z r rest)

-- A page of the history: its items, and whether there are more under which token.
pub data Page : Type 0 where
  unavailable invalid : Page
  page : (items : Items) (has_more : Bool) (next_token : Option Json) → Page

-- `data.get("items", [])`
abbrev pub items_of : Option Json → Option Items
items_of none = some no_items
items_of (some (array items)) = some items
items_of (some v) = none

abbrev pub holds : Option Json → Bool
holds none = false
holds (some v) = not (is_falsy v)

unfoldable pub page_of : Option Json → Page
page_of (some (object fields)) = elim (items_of (lookup "items" fields)) [
  | none ↦ Page.invalid
  | some items ↦ Page.page items (holds (lookup "has_more" fields)) (lookup "page_token" fields)
]
page_of v = Page.invalid

unfoldable pub read_page : ProviderResult → Page
read_page result = elim result.response [
  | some (field k v rest) ↦
      if result.is_confirmed then page_of (lookup "data" (field k v rest)) else Page.unavailable
  | _ ↦ Page.unavailable
]

-- `not isinstance(next_token, str) or not next_token or next_token == page_token` fails: the token.
unfoldable pub new_token : Option String → Option Json → Option String
new_token token (some (text t)) = if str_eq t "" || opt_str_eq token (some t) then none else some t
new_token token v = none

-- What the loop ends with: all matches, or the reason to give up and the matches so far.
pub data Search : Type 0 where
  complete : List String → Search
  given_up : String → List String → Search

-- How the loop goes on behind a page: it ends, or asks for the next page.
pub data Next : Type 0 where
  stop : Result Search → Next
  ask : String → List String → Next

unfoldable pub follow_token : List String → Option String → Next
follow_token found none = Next.stop (ok (Search.given_up "reconciliation_invalid_page_token" found))
follow_token found (some t) = Next.ask t found

unfoldable pub turn_page : Option String → List String → Bool → Option Json → Next
turn_page token found false next = Next.stop (ok (Search.complete found))
turn_page token found true next = follow_token found (new_token token next)

unfoldable pub turn_matched :
    Option String → List String → Bool → Option Json → Result (List String) → Next
turn_matched token found has_more next (err e) = Next.stop (err e)
turn_matched token found has_more next (ok ids) = turn_page token (found ++ ids) has_more next

unfoldable pub after_page : Provider → Row → Option String → List String → Page → Next
after_page z r token found Page.unavailable =
    Next.stop (ok (Search.given_up "reconciliation_provider_unavailable" found))
after_page z r token found Page.invalid =
    Next.stop (ok (Search.given_up "reconciliation_invalid_response" found))
after_page z r token found (Page.page items has_more next) =
    turn_matched token found has_more next (match_items z r items)

unfoldable pub proceed :
    (String → List String → Option (Result Search)) → Next → Option (Result Search)
proceed rest (Next.stop x) = some x
proceed rest (Next.ask t found) = rest t found

-- The loop, on fuel; `i` is the number of the call.
-- The loop, on fuel; `i` is the number of the call.
unfoldable pub search_history :
    Provider → Row → Option String → ℕ → ℕ → Option String → List String → Option (Result Search)
search_history z r chat zero i token found = none
search_history z r chat (suc fuel) i token found =
    proceed (λ t ids. search_history z r chat fuel (suc i) (some t) ids)
      (after_page z r token found (read_page (z.list_messages chat i token)))

abbrev pub indeterminate : ℕ → Reconciled
indeterminate matches = record {
  state = "delivery_indeterminate";
  message_id = none;
  matches = matches;
}

-- The statements behind the loop.
unfoldable pub settle_search : ℕ → Search → Db → Reconciled × Db
settle_search id (Search.given_up reason found) db =
    (indeterminate (length found), mark_indeterminate id reason db)
settle_search id (Search.complete (m ∷ [])) db =
    (record { state = "confirmed"; message_id = some m; matches = 1 }, confirm_match id m db)
settle_search id (Search.complete found) db =
    (indeterminate (length found), mark_indeterminate id "reconciliation_no_unique_match" db)

unfoldable pub finish_search : ℕ → Option (Result Search) → Db → Option (Result Reconciled × Db)
finish_search id none db = none
finish_search id (some (err e)) db = some (err e, db)
finish_search id (some (ok s)) db = let (x, after) = settle_search id s db in some (ok x, after)

unfoldable pub binding_of : Option String → Db → Option TitleBinding
binding_of none db = none
binding_of (some t) db = db.task_bindings t

unfoldable pub look_in_chat :
    Provider → ℕ → ℕ → Row → Option TitleBinding → Db → Option (Result Reconciled × Db)
look_in_chat z fuel id r none db =
    some (ok (indeterminate 0), mark_indeterminate id "reconciliation_binding_missing" db)
look_in_chat z fuel id r (some b) db =
    finish_search id (search_history z r b.chat_id fuel 0 none []) db

unfoldable pub look_up :
    Provider → ℕ → ℕ → Row → Option Endpoint → Db → Option (Result Reconciled × Db)
look_up z fuel id r none db = some (err value_error, db)
look_up z fuel id r (some e) db =
    if not e.enabled
    then some (ok (indeterminate 0), mark_indeterminate id "reconciliation_endpoint_disabled" db)
    else look_in_chat z fuel id r (binding_of r.thread_id db) db

-- `age <= uuid_window_seconds`
abbrev pub is_in_window : Provider → ℕ → Option ℕ → Bool
is_in_window z first_attempt none = false
is_in_window z first_attempt (some seconds) = z.is_within first_attempt seconds

-- `contract.endpoint(name)`, which raises for a disabled endpoint.
unfoldable pub enabled_endpoint : Option Endpoint → Option Endpoint
enabled_endpoint none = none
enabled_endpoint (some e) = if e.enabled then some e else none

unfoldable pub retry_or_look :
    Provider → ℕ → ℕ → ℕ → Row → ℕ → Option Endpoint → Db → Option (Result Reconciled × Db)
retry_or_look z fuel id now r first_attempt none db = some (err value_error, db)
retry_or_look z fuel id now r first_attempt (some e) db =
    if is_in_window z first_attempt e.uuid_window_seconds
    then some (
      ok (record { state = "retry_with_same_uuid"; message_id = none; matches = 0 }),
      retry_with_same_uuid id now db,
    )
    else look_up z fuel id r (z.endpoints "list_messages") db

unfoldable pub reconcile_row :
    Provider → ℕ → ℕ → ℕ → Row → Option ℕ → Db → Option (Result Reconciled × Db)
reconcile_row z fuel id now r none db = some (err value_error, db)
reconcile_row z fuel id now r (some first_attempt) db =
    retry_or_look z fuel id now r first_attempt (enabled_endpoint (z.endpoints r.endpoint_name)) db

-- `WHERE outbox_id=? AND state='unknown'`
unfoldable pub keep_unknown : Option Row → Option Row
keep_unknown none = none
keep_unknown (some r) = if is_unknown r.state then some r else none

unfoldable pub reconcile_found :
    Provider → ℕ → ℕ → ℕ → Option Row → Db → Option (Result Reconciled × Db)
reconcile_found z fuel id now none db = some (err value_error, db)
reconcile_found z fuel id now (some r) db = reconcile_row z fuel id now r r.first_attempt_at db

-- `SendReconciler.reconcile`; none where the fuel ran out.
unfoldable pub reconcile : Provider → ℕ → ℕ → ℕ → Db → Option (Result Reconciled × Db)
reconcile z fuel id now db = reconcile_found z fuel id now (keep_unknown (db.rows id)) db

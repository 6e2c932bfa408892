-- ===== src/Audit.antt =====
-- codex_feishu_bridge/security/audit.py: the audit chain, its writer `append`, its check `verify`
-- and the test `_assert_body_free` on what may be recorded.
pub mod BodyFree
pub mod Chain
pub mod Binding
use codex_feishu.Prelude.{
  ℕ, zero, suc, ◌+◌, String, Bool, true, false, not, ◌&&◌, ◌||◌, Option, none, some, List, [], ◌∷◌,
  ◌++◌, str_eq, opt_str_eq, ◌==◌, if◌then◌else◌,
}
use codex_feishu.Exec.{
  Error, Result, ok, err, Exec, Done, pure, require, write, get_state, transaction, ◌>>=◌, ◌>>◌,
  forbidden_audit_field, integrity_error, chain_mismatch, hmac_mismatch,
}
use codex_feishu.Json.{
  ℤ, pos, Json, Items, Fields, null, boolean, integer, text, array, object, no_items, item,
  no_fields, field, optional_text,
}

-- What the module takes from elsewhere: `str.lower`; `digest` of security/jcs.py; and
-- `hmac.new(key, canonicalize(value), sha256).hexdigest()` at the chain's key.
pub record Hashing : Type 0 where
  pub lower : String → String
  pub digest : Json → String
  pub sign : Json → String

-- `_FORBIDDEN_KEYS`
unfoldable pub is_forbidden : String → Bool
is_forbidden k =
    str_eq k "body"
    || str_eq k "content"
    || str_eq k "message"
    || str_eq k "payload"
    || str_eq k "prompt"
    || str_eq k "secret"
    || str_eq k "text"
    || str_eq k "token"

-- `_assert_body_free`: whether it returns without the exception.
unfoldable mutual
  pub is_body_free : Hashing → Json → Bool
  is_body_free z (object fields) = fields_body_free z fields
  is_body_free z (array items) = items_body_free z items
  is_body_free z _ = true

  pub items_body_free : Hashing → Items → Bool
  items_body_free z no_items = true
  items_body_free z (item v rest) = is_body_free z v && items_body_free z rest

  pub fields_body_free : Hashing → Fields → Bool
  fields_body_free z no_fields = true
  fields_body_free z (field k v rest) =
      not (is_forbidden (z.lower k)) && is_body_free z v && fields_body_free z rest

pub record AuditRow : Type 0 where
  pub sequence : ℕ
  pub previous_hmac : Option String
  pub record_hash : String
  pub record_hmac : String
  pub created_at : String

-- The rows of `audit_chain` in the order of the key `sequence`.
abbrev pub Chain : Type 0
Chain = List AuditRow

-- `ORDER BY sequence DESC LIMIT 1`
unfoldable pub last_row : Chain → Option AuditRow
last_row [] = none
last_row (r ∷ rest) = elim (last_row rest) [ none ↦ some r | some l ↦ some l ]

-- `{"previous_hmac": previous_hmac, "record_hash": record_hash}`
abbrev pub link : Option String → String → Json
link previous_hmac record_hash = object (
    field "previous_hmac" (optional_text previous_hmac)
      (field "record_hash" (text record_hash) no_fields))

abbrev pub envelope : ℕ → String → Option String → Json → Json
envelope sequence created_at previous_hmac event = object (
    field "sequence" (integer (pos sequence)) (
      field "created_at" (text created_at)
        (field "previous_hmac" (optional_text previous_hmac) (field "event" event no_fields))))

abbrev pub next_sequence : Option AuditRow → ℕ
next_sequence none = 1
next_sequence (some r) = r.sequence + 1

abbrev pub hmac_of : Option AuditRow → Option String
hmac_of none = none
hmac_of (some r) = some r.record_hmac

-- The row that `append` inserts after this last row.
unfoldable pub next_row : Hashing → Option AuditRow → Fields → String → AuditRow
next_row z previous event now =
    let record_hash =
      z.digest (envelope (next_sequence previous) now (hmac_of previous) (object event)) in
    record {
      sequence = next_sequence previous;
      previous_hmac = hmac_of previous;
      record_hash = record_hash;
      record_hmac = z.sign (link (hmac_of previous) record_hash);
      created_at = now;
    }

-- The UNIQUE constraint on `record_hmac`.
unfoldable pub has_hmac : String → Chain → Bool
has_hmac h [] = false
has_hmac h (r ∷ rest) = str_eq h r.record_hmac || has_hmac h rest

unfoldable pub append : Hashing → Fields → String → Exec Chain AuditRow
append z event now = do
  require (fields_body_free z event) forbidden_audit_field
  transaction (do
    rows ← get_state
    require (not (has_hmac (next_row z (last_row rows) event now).record_hmac rows)) integrity_error
    write (λ rows. rows ++ (next_row z (last_row rows) event now ∷ []))
    pure (next_row z (last_row rows) event now))

-- One row of the loop of `verify`, after `count` rows that end in `previous_hmac`.
unfoldable pub check_row : Hashing → ℕ → Option String → AuditRow → Option Error
check_row z count previous_hmac r =
    if (r.sequence == count + 1) && opt_str_eq r.previous_hmac previous_hmac
    then if str_eq (z.sign (link previous_hmac r.record_hash)) r.record_hmac
      then none
      else some hmac_mismatch
    else some chain_mismatch

unfoldable pub verify_from : Hashing → ℕ → Option String → Chain → Result ℕ
verify_from z count previous_hmac [] = ok count
verify_from z count previous_hmac (r ∷ rest) =
    let further = verify_from z (count + 1) (some r.record_hmac) rest in
    elim (check_row z count previous_hmac r) [ none ↦ further | some e ↦ err e ]

abbrev pub verify : Hashing → Chain → Result ℕ
verify z rows = verify_from z 0 none rows

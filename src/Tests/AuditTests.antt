-- ===== src/Tests/AuditTests.antt =====
-- Two records in an audit chain, signed by a toy function.
use codex_feishu.Prelude.{String, ◌≡◌, refl, ◌⊎◌, List, [], ◌∷◌, length, ◌==◌, if◌then◌else◌}
use codex_feishu.Exec.{ok, err, forbidden_audit_field}
use codex_feishu.Json.{
  Json, Fields, pos, integer, text, object, array, no_items, item, no_fields, field,
}
use codex_feishu.Audit.{
  Hashing, Chain, append, verify, verify_from, check_row, next_row, last_row, has_hmac,
  fields_body_free, items_body_free, is_body_free, is_forbidden,
}
use codex_feishu.Audit.Chain.{appends, appends-verify}
use codex_feishu.Audit.Binding.{Agree, Clash, verify-Agree}

-- The recorded number picks the digest.
abbrev digest : Json → String
digest (object (field _ (integer (pos n)) _)) = if n == 1 then "first" else "second"
digest _ = ""

-- The signature is the digest itself.
abbrev sign : Json → String
sign (object (field _ _ (field _ (text h) _))) = h
sign _ = ""

abbrev hashing : Hashing
hashing = record { lower = λ s. s; digest = digest; sign = sign }

abbrev issued : Fields
issued = field "event" (text "approval_issued") no_fields

abbrev leaky : Fields
leaky = field "ids" (array (item (object (field "token" (text "t") no_fields)) no_items)) no_fields

abbrev events : List (Fields × String)
events = (issued, "10:00") ∷ (leaky, "10:01") ∷ (issued, "10:02") ∷ []

abbrev two_rows : Chain
two_rows = appends hashing [] events

two_are_recorded : length two_rows ≡ 2
unfolding appends append last_row has_hmac next_row fields_body_free items_body_free is_body_free
    is_forbidden
two_are_recorded = refl

leaky_is_refused : append hashing leaky "10:01" [] ≡ (err forbidden_audit_field, [])
unfolding append fields_body_free items_body_free is_body_free is_forbidden
leaky_is_refused = refl

two_rows-verify : verify hashing two_rows ≡ ok 2
unfolding appends append last_row has_hmac next_row fields_body_free items_body_free is_body_free
    is_forbidden verify_from check_row
two_rows-verify = refl

appends-verify_example :
    verify hashing (appends hashing [] events) ≡ ok (length (appends hashing [] events))
appends-verify_example = appends-verify hashing events

verify-Agree_example : Agree two_rows two_rows ⊎ Clash hashing two_rows two_rows
verify-Agree_example = verify-Agree hashing two_rows two_rows 2 two_rows-verify two_rows-verify refl

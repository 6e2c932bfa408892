-- ===== src/Worker/Fate.antt =====
-- What can become of the row that a run of the worker leased, and the statements that settle it.
use codex_feishu.Prelude.{
  ℕ, ◌<◌, ◌≤◌, String, true, false, ◌≡◌, ◌≢◌, ◌⊎◌, inl, refl, Option, none, some, Rows, put_row,
  put_row_self, holds_str, arith,
}
use codex_feishu.Exec.{Result, Done}
use codex_feishu.Exec.Ensures.{Ensures}
use codex_feishu.Outbox
use codex_feishu.Outbox.{Row, Attachment, OutboxState, is_leased_by}
use codex_feishu.Outbox.Queue.{finish_outbox, finished_row}
use codex_feishu.Outbox.Uploads.{
  Serializer, stage_uploaded_image, stage_uploaded_file, stage_uploaded_rich_image,
}
use codex_feishu.Outbox.Titles.{confirm_task_title_update, fail_task_title_update}
use codex_feishu.Outbox.Cases.{
  finish_outbox_cases, stage_uploaded_image_cases, stage_uploaded_file_cases,
  stage_uploaded_rich_image_cases, confirm_task_title_update_cases, fail_task_title_update_cases,
}
use codex_feishu.Worker.{
  Tools, Provider, ProviderResult, ProviderOutcome, Db, with_outbox, on_outbox,
}
use codex_feishu.Worker.Confirm.{is_title}
use codex_feishu.Worker.Reply.{Target, binding_of}
use codex_feishu.Worker.Payload.{fill_body, key_missing, remove_field, internal_message_type}
use codex_feishu.Worker.Reasons.{Answered, Uploaded, HasKey, Misdirected, Directed, GivenUp}
use codex_feishu.Json.{Json, Fields, object}
use Prim.Native.String.{◌++◌ as join}

-- The worker, the provider, the database after the lease with the bound of its identifiers, and the
-- row that was leased.
pub record Run : Type 0 where
  pub tools : Tools
  pub provider : Provider
  pub start : Db
  pub bound : ℕ
  pub id : ℕ
  pub row : Row
  pub below : id < bound

-- The answer to this row's message, which has a place to go to.
abbrev pub Sent : Run → ProviderResult → Type 0
Sent c a = Answered c.provider c.row a × Directed c.row c.start

-- The body that is stored with the row.
abbrev pub HasBody : Run → Json → Type 0
HasBody c body = c.tools.loads c.row.body_json ≡ some body

-- The states that a run may leave the row in, with the error code, and why.
pub data Verdict (c : Run) : OutboxState → Option String → Type 0 where
  -- The provider confirmed the message.
  delivered :
      (a : ProviderResult)
      → Sent c a
      → a.outcome ≡ ProviderOutcome.confirmed
      → Verdict c OutboxState.confirmed none
  -- The provider asked to try again.
  again :
      (a : ProviderResult)
      → Sent c a
      → a.outcome ≡ ProviderOutcome.retryable
      → Verdict c OutboxState.retryable (some a.code)
  -- An upload for the message is done: the next run goes on.
  uploaded :
      (prefix : String) (key : Option String) (a : ProviderResult)
      → Uploaded c.provider prefix key a
      → a.outcome ≡ ProviderOutcome.confirmed
      → HasKey key
      → Verdict c OutboxState.retryable none
  -- An upload has to be tried again, or nobody knows whether it was done.
  upload_again :
      (prefix : String) (key : Option String) (a : ProviderResult)
      → Uploaded c.provider prefix key a
      → (a.outcome ≡ ProviderOutcome.retryable) ⊎ (a.outcome ≡ ProviderOutcome.unknown)
      → Verdict c OutboxState.retryable (some (join prefix a.code))
  -- Nobody knows whether the message was delivered.
  lost :
      (a : ProviderResult)
      → Sent c a
      → a.outcome ≡ ProviderOutcome.unknown
      → is_title c.row ≡ false
      → Verdict c OutboxState.unknown (some a.code)
  lost_title :
      (a : ProviderResult)
      → Sent c a
      → a.outcome ≡ ProviderOutcome.unknown
      → is_title c.row ≡ true
      → Verdict c OutboxState.delivery_indeterminate (some a.code)
  -- The provider refused the message.
  refused :
      {state : OutboxState} (a : ProviderResult)
      → Sent c a
      → a.outcome ≡ ProviderOutcome.permanent
      → GivenUp c.row state
      → Verdict c state (some a.code)
  refused_title :
      (a : ProviderResult)
      → Sent c a
      → a.outcome ≡ ProviderOutcome.permanent
      → is_title c.row ≡ true
      → Verdict c OutboxState.permanent (some a.code)
  -- The provider refused an upload, or confirmed it without a key.
  no_upload :
      {state : OutboxState} (prefix : String) (key : Option String) (a : ProviderResult)
      → Uploaded c.provider prefix key a
      → (a.outcome ≡ ProviderOutcome.permanent)
        ⊎ ((a.outcome ≡ ProviderOutcome.confirmed) × ¬ HasKey key)
      → GivenUp c.row state
      → Verdict c state (some (join prefix a.code))
  -- The message cannot be sent.
  misdirected :
      {state : OutboxState} (t : Target)
      → binding_of c.row c.start ≡ some t
      → Misdirected c.row c.start t
      → GivenUp c.row state
      → Verdict c state (some "reply_ancestry_conflict")
  bodiless :
      (body : Json)
      → HasBody c body
      → ((fields : Fields) → ¬ (body ≡ object fields))
      → Verdict c OutboxState.permanent (some "invalid_body")
  unbound :
      binding_of c.row c.start ≡ none → Verdict c OutboxState.permanent (some "binding_missing")
  keyless :
      (body : Fields)
      → HasBody c (object body)
      → fill_body c.tools.int
          (holds_str (internal_message_type body) "post")
          (c.start.outbox.rich_images c.id)
          (remove_field "_cfb_message_type" body)
        ≡ key_missing
      → Verdict c OutboxState.permanent (some "rich_image_key_missing")

-- No row has gone, and no other row has changed.
abbrev pub Others : Run → Outbox.Db → Type 0
Others c o =
    (c.bound ≤ o.next_id) × ((j : ℕ) → j < c.bound → j ≢ c.id → o.rows j ≡ c.start.outbox.rows j)

-- The row is leased to the worker still.
abbrev pub Held : Run → Outbox.Db → Type 0
Held c o =
    Others c o × ((r : Row) × (o.rows c.id ≡ some r) × (is_leased_by c.tools.instance_id r ≡ true))

-- The row has left the worker, in one of those states.
abbrev pub Settled : Run → Outbox.Db → Type 0
Settled c o =
    Others c o
    × ((r : Row) × (o.rows c.id ≡ some r)
        × (r.lease_owner ≡ none)
        × Verdict c r.state r.last_error_code)

-- Where a run raises: the row is leased still, and its lease will run out; or it is settled.
abbrev pub Left : Run → Db → Type 0
Left c s = Held c s.outbox ⊎ Settled c s.outbox

-- A method that settles the row, unless it raises.
abbrev pub Ends {ℓ} : Run → {A : Type ℓ} → Result A × Db → Type 0
Ends c x = Ensures (Left c) (λ _ s. Settled c s.outbox) x

-- A method that leaves the row leased.
abbrev pub Holds {ℓ} : Run → {A : Type ℓ} → Result A × Db → Type 0
Holds c x = Ensures (Left c) (λ _ s. Held c s.outbox) x

pub put_row_other : {V : Type 0} (k j : ℕ) (v : V) (d : Rows V) → j ≢ k → put_row k v d j ≡ d j
put_row_other k j v d n = ground arith

-- The row is written; the others stay.
pub put-Others :
    (c : Run) (o : Outbox.Db) (r : Row)
    → Others c o
    → Others c (record o { rows = put_row c.id r o.rows })
put-Others c o r (b, h) = (b, λ j lt ne. rw (put_row_other c.id j r o.rows ne) (h j lt ne))

module _ (c : Run) (r : Row) (free : r.lease_owner ≡ none)
    (v : Verdict c r.state r.last_error_code) where
  settle_row : (o : Outbox.Db) → Others c o → Settled c (record o { rows = put_row c.id r o.rows })
  settle_row o h = (put-Others c o r h, (r, put_row_self c.id r o.rows, free, v))

module _ (c : Run) (s : Db) (h : Held c s.outbox) where
  abbrev Leaves : Result Done × Outbox.Db → Type 0
  Leaves x = Ends c (with_outbox s x)

  pub finish_outbox-Ends :
      (state : OutboxState) (m e : Option String) (t : Option ℕ)
      → Verdict c state e
      → Ends c (on_outbox (finish_outbox c.id c.tools.instance_id state m e t) s)
  finish_outbox-Ends state m e t v =
      finish_outbox_cases Leaves c.id c.tools.instance_id state m e t s.outbox (λ x. inl h)
        (λ r a b d. settle_row c (finished_row state m e t r) refl v s.outbox h.0)

  pub stage_uploaded_image-Ends :
      (z : Serializer) (k : String) (now : ℕ)
      → Verdict c OutboxState.retryable none
      → Ends c (on_outbox (stage_uploaded_image z c.id c.tools.instance_id k now) s)
  stage_uploaded_image-Ends z k now v =
      stage_uploaded_image_cases Leaves z c.id c.tools.instance_id k now s.outbox (λ x. inl h)
        (λ i r a b d e f. settle_row c _ refl v s.outbox h.0)

  pub stage_uploaded_file-Ends :
      (z : Serializer) (k : String) (now : ℕ)
      → Verdict c OutboxState.retryable none
      → Ends c (on_outbox (stage_uploaded_file z c.id c.tools.instance_id k now) s)
  stage_uploaded_file-Ends z k now v =
      stage_uploaded_file_cases Leaves z c.id c.tools.instance_id k now s.outbox (λ x. inl h)
        (λ i r a b d e f. settle_row c _ refl v s.outbox h.0)

  pub stage_uploaded_rich_image-Ends :
      (n : ℕ) (k : String) (now : ℕ)
      → Verdict c OutboxState.retryable none
      → Ends c (on_outbox (stage_uploaded_rich_image c.id c.tools.instance_id n k now) s)
  stage_uploaded_rich_image-Ends n k now v =
      stage_uploaded_rich_image_cases Leaves c.id c.tools.instance_id n k now s.outbox (λ x. inl h)
        (λ r a b d e. settle_row c _ refl v s.outbox h.0)

  pub confirm_task_title_update-Ends :
      (t g : String)
      → Verdict c OutboxState.confirmed none
      → Ends c (on_outbox (confirm_task_title_update c.id c.tools.instance_id t g) s)
  confirm_task_title_update-Ends t g v =
      confirm_task_title_update_cases Leaves c.id c.tools.instance_id t g s.outbox (λ x. inl h)
        (λ r b x y u w. settle_row c _ refl v s.outbox h.0)

  pub fail_task_title_update-Ends :
      (t g : String) (state : OutboxState) (code : String)
      → Verdict c state (some code)
      → Ends c (on_outbox (fail_task_title_update c.id c.tools.instance_id t g state code) s)
  fail_task_title_update-Ends t g state code v =
      fail_task_title_update_cases Leaves c.id c.tools.instance_id t g state code s.outbox
        (λ x. inl h) (λ r b x y u w q. settle_row c _ refl v s.outbox h.0)

-- ===== src/Worker/Sending.antt =====
-- The sending of a message leaves its row leased, and its answer is one to that message.
use codex_feishu.Prelude.{
  ◌⊎◌, ℕ, ◌<◌, String, Bool, true, false, ◌&&◌, ◌≡◌, refl, inl, inr, Option, none, some,
  put_row_self, str_eq, Bool-cases, eq_iff,
}
use codex_feishu.Exec.{Error, Result, or_raise, provider_error}
use codex_feishu.Exec.Ensures.{Ensures, continue-Ensures}
use codex_feishu.Json.{Json}
use codex_feishu.Outbox
use codex_feishu.Outbox.{Row, is_leased_by}
use codex_feishu.Worker.{Tools, Provider, ProviderResult, UserReply, Db, truthy}
use codex_feishu.Worker.Reply.{Target}
use codex_feishu.Worker.Send.{
  put_hash, record_hash, body_text, call_request, call_provider, fall_back, is_permanent,
  is_user_message, after_sender, user_reply, goes_to_sender, send_by_sender, send_through, send,
}
use codex_feishu.Worker.Fate.{Run, Held, Left, Holds, put-Others}
use codex_feishu.Worker.Reasons.{Answered}
use codex_feishu.Worker.Uploading.{run}

or_raise-answer {ℓ} :
    {A : Type ℓ} (E : Db → Type 0) (Q : A → Db → Type 0) (o : Option A) (e : Error) (s : Db)
    → E s
    → ((a : A) → o ≡ some a → Q a s)
    → Ensures E Q (or_raise o e s)
or_raise-answer E Q none e s h k = h
or_raise-answer E Q (some a) e s h k = k a refl

call_request-uuid :
    (r : Row) (target : Target) (t content : String)
    → ((call_request r target t content).uuid ≡ some r.stable_uuid)
      ⊎ (r.endpoint_name ≡ "update_message")
unfolding call_request
call_request-uuid r target t content = elim (Bool-cases (str_eq r.endpoint_name "send_message")) [
  | inl e ↦ inl (rw (call_request, e) refl)
  | inr e ↦ elim (Bool-cases (str_eq r.endpoint_name "update_message")) [
    | inl g ↦ inr ((eq_iff r.endpoint_name "update_message").0 g)
    | inr g ↦ inl (rw (call_request, e, g) refl)
  ]
]

-- The answer to the message of this row, which is leased still.
abbrev pub Awaited : Run → ProviderResult → Db → Type 0
Awaited c a s = Held c s.outbox × Answered c.provider c.row a

abbrev pub Answers : Run → Result ProviderResult × Db → Type 0
Answers c x = Ensures (Left c) (Awaited c) x

module _ (z : Tools) (p : Provider) (start : Db) (n id : ℕ) (r : Row) (lt : id < n) where
  abbrev c : Run
  c = run z p start n id r lt

  put_hash-Held :
      (hash : String) (o : Outbox.Db)
      → Held c o
      → Held c (put_hash id z.instance_id hash (o.rows id) o)
  unfolding put_hash
  put_hash-Held hash o (h, (r0, e, l)) =
      rw (put_hash, e, l)
        (
          put-Others c o (record r0 { body_hash = hash }) h,
          (record r0 { body_hash = hash }, put_row_self id _ o.rows, l),
        )

  record_hash-Holds :
      (staged : Bool) (content : String) (s : Db)
      → Held c s.outbox
      → Holds c (record_hash z id staged content s)
  unfolding record_hash
  record_hash-Holds true content s h = put_hash-Held (z.serializer.sha256 content) s.outbox h
  record_hash-Holds false content s h = h

  call_provider-Answers :
      (target : Target) (t content : String) (s : Db)
      → Held c s.outbox
      → Answers c (call_provider p r target t content s)
  unfolding call_provider
  call_provider-Answers target t content s h =
      or_raise-answer (Left c) (Awaited c) (p.call (call_request r target t content)) provider_error
        s (inl h)
        (λ a e. (h, inl (call_request r target t content, e, call_request-uuid r target t content)))

  after_sender-Answers :
      (target : Target) (t x : String) (a : ProviderResult) (s : Db)
      → Held c s.outbox
      → Answered p r a
      → Answers c (after_sender z p r target t x a s)
  unfolding after_sender fall_back
  after_sender-Answers target t x a s h g =
      elim (Bool-cases (is_permanent a.outcome && is_user_message r)) [
        | inl e ↦ rw (after_sender, e) (call_provider-Answers target t _ _ h)
        | inr e ↦ rw (after_sender, e) (h, g)
      ]

  module _ (target : Target) (t content : String) (s : Db) (h : Held c s.outbox) where
    sender-Answers :
        (sender : UserReply → Option ProviderResult) (message_id x : String)
        → p.user_message_sender ≡ some sender
        → Answers c (send_by_sender z p r target t x (sender (user_reply r message_id x)) s)
    unfolding send_by_sender user_reply
    sender-Answers sender message_id x e =
        continue-Ensures (Left c) (Awaited c) (Awaited c) _ _
          (or_raise-answer (Left c) (Awaited c) (sender (user_reply r message_id x)) provider_error
            s (inl h) (λ a g. (h, inr (sender, user_reply r message_id x, e, refl, g))))
          (λ a u g. after_sender-Answers target t x a u g.0 g.1)

    send_through-Answers :
        (sender : Option (UserReply → Option ProviderResult)) (message_id x : Option String)
        → p.user_message_sender ≡ sender
        → Answers c (send_through z p r target t content sender message_id x s)
    unfolding send_through
    send_through-Answers none message_id x e = call_provider-Answers target t content s h
    send_through-Answers (some sender) none x e = call_provider-Answers target t content s h
    send_through-Answers (some sender) (some id') none e =
        call_provider-Answers target t content s h
    send_through-Answers (some sender) (some id') (some x) e =
        elim (Bool-cases (goes_to_sender r t)) [
          | inl g ↦ rw (send_through, g) (sender-Answers sender id' x e)
          | inr g ↦ rw (send_through, g) (call_provider-Answers target t content s h)
        ]

  pub send-Answers :
      (target : Target) (t : String) (staged : Bool) (body : Json) (s : Db)
      → Held c s.outbox
      → Answers c (send z p id r target t staged body s)
  unfolding send
  send-Answers target t staged body s h =
      continue-Ensures (Left c) (λ _ u. Held c u.outbox) (Awaited c) _ _
        (record_hash-Holds staged (z.dumps body) s h)
        (λ a u g.
          send_through-Answers target t _ u g p.user_message_sender (truthy r.target_message_id)
            (body_text body) refl)

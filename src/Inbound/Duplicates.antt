-- ===== src/Inbound/Duplicates.antt =====
-- An event for a message that is recorded already.
use codex_feishu.Prelude.{
  ℕ, String, ◌≡◌, refl, ◌⊎◌, inl, inr, Bool, true, false, none, some, eq_iff, put, Bool-cases,
  arith,
}
use codex_feishu.Exec.{Result, ok, err, ingress_rejected}
use codex_feishu.Json.{Fields}
use codex_feishu.Inbound.{IngressMessage, Db, Binding, Capabilities}
use codex_feishu.Inbound.Events.{Tools, Message, read_event}
use codex_feishu.Inbound.Ingest.{
  Decision, find_message, open_conflict, is_same, is_outbound, chat_is_authorized, repeat, receive,
  answer, ingest,
}

-- A decision that says `duplicate` and gives the message no place.
abbrev pub Repeated : String → Db → Result Decision × Db → Type 0
Repeated state db x = x ≡ (
  ok (record {
    duplicate = true;
    routing_state = state;
    target_thread_id = none;
    ingest_seq = none;
    command = none;
  }),
  db,
)

-- The recorded message is in the same chat and has the same content.
abbrev pub IsUnchanged : Message → IngressMessage → Type 0
IsUnchanged m r = (r.chat_id ≡ m.envelope.chat_id) × (r.content_hash ≡ m.content_hash)

-- The answer to an event for a message that is recorded as `r`, in a chat that is authorised or not,
-- and where the message is the bridge's own or not.
abbrev pub Known : Message → IngressMessage → Bool → Bool → Db → Result Decision × Db → Type 0
Known m r authorized outbound db x =
    ((authorized ≡ false) × (x ≡ (err ingress_rejected, db)))
    ⊎ ((authorized ≡ true)
        × (((outbound ≡ true) × Repeated "outbound_echo" db x)
            ⊎ ((outbound ≡ false)
                × ((IsUnchanged m r × Repeated "duplicate" db x)
                    ⊎ (¬ IsUnchanged m r
                        × (x ≡ (
                          err ingress_rejected,
                          record db {
                            circuit_breakers =
                                put "ingress_conflict" ("open", m.envelope.message_id)
                                  db.circuit_breakers;
                          },
                        )))))))

same-IsUnchanged : (m : Message) (r : IngressMessage) → is_same m r ≡ true → IsUnchanged m r
unfolding is_same
same-IsUnchanged m r h = (
  ground (arith, h, eq_iff r.chat_id m.envelope.chat_id),
  ground (arith, h, eq_iff r.content_hash m.content_hash),
)

other-IsUnchanged : (m : Message) (r : IngressMessage) → is_same m r ≡ false → ¬ IsUnchanged m r
unfolding is_same
other-IsUnchanged m r h (a, b) = ground (
  arith,
  h,
  (eq_iff r.chat_id m.envelope.chat_id).1 a,
  (eq_iff r.content_hash m.content_hash).1 b,
)

-- An event that reads as a message whose tenant, app and identifier are recorded is answered so: in a
-- chat that is not authorised it is refused; a message of the bridge's own is an echo; otherwise, if
-- chat and content are the recorded ones, the decision is `duplicate`, without task and number. In
-- these three cases the database is unchanged. If the chat or the content differs, the event is
-- refused and the circuit breaker of ingress conflicts is opened, and nothing else changes.
pub ingest-Known :
    (z : Tools) (b : Binding) (c : Capabilities) (is_recent : ℕ → Bool) (event : Fields) (db : Db)
    (m : Message) (r : IngressMessage)
    → read_event z b c event ≡ some m
    → find_message m db ≡ some r
    → Known m r
        (chat_is_authorized b m.envelope.chat_id db)
        (is_outbound m.envelope.message_id db)
        db
        (ingest z b c is_recent event db)
unfolding ingest receive repeat answer open_conflict
ingest-Known z b c is_recent event db m r e f =
    elim (Bool-cases (chat_is_authorized b m.envelope.chat_id db)) [
      | inr a ↦ inl (a, rw (e, a) refl)
      | inl a ↦ inr (
        a,
        elim (Bool-cases (is_outbound m.envelope.message_id db)) [
          | inl o ↦ inl (o, rw (e, a, o) refl)
          | inr o ↦ inr (
            o,
            elim (Bool-cases (is_same m r)) [
              | inl s ↦ inl (same-IsUnchanged m r s, rw (e, a, o, f, s) refl)
              | inr s ↦ inr (other-IsUnchanged m r s, rw (e, a, o, f, s) refl)
            ],
          )
        ],
      )
    ]

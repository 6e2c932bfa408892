-- ===== src/Inbound/Outcome.antt =====
-- `ingest` by cases.
use codex_feishu.Prelude.{
  ℕ, ◌≡◌, refl, ◌⊎◌, inl, inr, Bool, true, false, none, some, Bool-cases, Option-cases,
}
use codex_feishu.Exec.{Error, Result, ok, err, settle, continue_with, ingress_rejected}
use codex_feishu.Json.{Fields}
use codex_feishu.Inbound.{IngressMessage, Db, Binding, Capabilities}
use codex_feishu.Inbound.Events.{Tools, Message, read_event}
use codex_feishu.Inbound.Ingest.{
  Decision, chat_is_authorized, Verdict, open_conflict, sequence_of, record_message, is_outbound,
  find_message, is_same, repeat, receive, answer, ingest,
}
use codex_feishu.Inbound.Cases.{Inserted, Recorded, record_message-outcome}

-- Everything that `ingest` may do: refuse the event, find an earlier message, or insert the message.
pub data IngestOutcome (z : Tools) (b : Binding) (c : Capabilities) (event : Fields) (db : Db)
    : Result Decision × Db → Type 0 where
  refused : (e : Error) → IngestOutcome z b c event db (err e, db)
  conflicting :
      (m : Message) (r : IngressMessage)
      → read_event z b c event ≡ some m
      → chat_is_authorized b m.envelope.chat_id db ≡ true
      → find_message m db ≡ some r
      → is_same m r ≡ false
      → IngestOutcome z b c event db (err ingress_rejected, open_conflict m.envelope.message_id db)
  repeated :
      (d : Decision)
      → d.duplicate ≡ true
      → d.target_thread_id ≡ none
      → d.ingest_seq ≡ none
      → IngestOutcome z b c event db (ok d, db)
  inserted :
      (m : Message) (d : Decision) (after : Db)
      → read_event z b c event ≡ some m
      → chat_is_authorized b m.envelope.chat_id db ≡ true
      → is_outbound m.envelope.message_id db ≡ false
      → find_message m db ≡ none
      → Inserted b m db d after
      → IngestOutcome z b c event db (ok d, after)

module _ (z : Tools) (b : Binding) (c : Capabilities) (event : Fields) (db : Db) where
  abbrev answered : Result Verdict × Db → Result Decision × Db
  answered x = continue_with answer (settle db x)

  Recorded-outcome :
      (m : Message) (x : Result Verdict × Db)
      → read_event z b c event ≡ some m
      → chat_is_authorized b m.envelope.chat_id db ≡ true
      → is_outbound m.envelope.message_id db ≡ false
      → find_message m db ≡ none
      → (((e : Error) × (after : Db) × (x ≡ (err e, after))) ⊎ Recorded b m db x)
      → IngestOutcome z b c event db (answered x)
  unfolding answer
  Recorded-outcome m x read authorized new first (inl (e, after, f)) = rw f (refused e)
  Recorded-outcome m x read authorized new first (inr (d, next, f, i)) =
      rw f (inserted m d next read authorized new first i)

  repeat-outcome :
      (m : Message) (r : IngressMessage)
      → read_event z b c event ≡ some m
      → chat_is_authorized b m.envelope.chat_id db ≡ true
      → find_message m db ≡ some r
      → IngestOutcome z b c event db (answered (repeat m r db))
  unfolding answer repeat
  repeat-outcome m r read authorized earlier = elim (Bool-cases (is_same m r)) [
    | inl e ↦ rw e (
        repeated
          (record {
            duplicate = true;
            routing_state = "duplicate";
            target_thread_id = none;
            ingest_seq = none;
            command = none;
          })
          refl refl refl)
    | inr e ↦ rw e (conflicting m r read authorized earlier e)
  ]

  receive-outcome :
      (is_recent : ℕ → Bool) (m : Message)
      → read_event z b c event ≡ some m
      → IngestOutcome z b c event db (answered (receive z b is_recent m db))
  unfolding receive answer
  receive-outcome is_recent m read =
      elim (Bool-cases (chat_is_authorized b m.envelope.chat_id db)) [
        | inr e ↦ rw e (refused ingress_rejected)
        | inl e ↦ elim (Bool-cases (is_outbound m.envelope.message_id db)) [
          | inl o ↦
              rw (e, o)
                (repeated
                  (record {
                    duplicate = true;
                    routing_state = "outbound_echo";
                    target_thread_id = none;
                    ingest_seq = none;
                    command = none;
                  })
                  refl refl refl)
          | inr o ↦ elim (Option-cases (find_message m db)) [
            | inr (r, f) ↦ rw (e, o, f) (repeat-outcome m r read e f)
            | inl f ↦
                rw (e, o, f)
                  (Recorded-outcome m (record_message z b is_recent m (sequence_of db.sequence) db)
                    read e o f (record_message-outcome z b is_recent m db))
          ]
        ]
      ]

  pub ingest-outcome :
      (is_recent : ℕ → Bool) → IngestOutcome z b c event db (ingest z b c is_recent event db)
  unfolding ingest
  ingest-outcome is_recent = elim (Option-cases (read_event z b c event)) [
    | inl e ↦ rw e (refused ingress_rejected)
    | inr (m, e) ↦ rw e (receive-outcome is_recent m e)
  ]

-- ===== src/Inbound/Routing.antt =====
-- Where `ingest` sends a message: nowhere, or to a task that the chat and the message entitle it to.
use mathlib.Core.Option.{some-injective, none-ne-some}
use codex_feishu.Prelude.{
  ℕ, String, ◌≡◌, refl, sym, subst, ap, ◌∙◌, ◌⊎◌, inl, inr, Bool, true, false, arith, Option, none,
  some, find, eq_iff, false-true,
}
use codex_feishu.Exec.{Result, ok, err}
use codex_feishu.Json.{Fields}
use codex_feishu.Inbound.{Ancestry, Task, Db, Binding, Capabilities, is_ancestry}
use codex_feishu.Inbound.Events.{Tools, Message, read_event}
use codex_feishu.Inbound.Ingest.{
  Decision, chat_is_authorized, is_reply_to, is_task_of, is_topic_reply, sequence_of, ingest,
}
use codex_feishu.Inbound.Cases.{ReplyGrounds, Grounds, Target}
use codex_feishu.Inbound.Outcome.{IngestOutcome, ingest-outcome}

-- The message is the owner's current task's: the binding is a private chat.
abbrev pub IsCurrent : Binding → Db → String → Type 0
IsCurrent b db target =
    (b.is_topic_group ≡ false) × ((sequence_of db.sequence).current_task_id ≡ some target)

-- The message replies, within its chat, to two known messages of the task, and in a topic group the
-- task is opted in, with its thread there.
abbrev pub IsReplyIn : Binding → Message → Db → String → Type 0
IsReplyIn b m db target =
    (root_id : String) × (parent_id : String) × (root : Ancestry) × (parent : Ancestry) × (m.root_id
      ≡ some root_id)
    × (m.parent_id ≡ some parent_id)
    × (find (is_ancestry root_id) db.message_ancestry ≡ some root)
    × (find (is_ancestry parent_id) db.message_ancestry ≡ some parent)
    × (root.chat_id ≡ m.envelope.chat_id)
    × (parent.chat_id ≡ m.envelope.chat_id)
    × (root.thread_id ≡ target)
    × (parent.thread_id ≡ target)
    × (b.is_topic_group ≡ true
        → (task : Task) × (thread : String) × (db.task_bindings target ≡ some task)
          × (m.provider_thread_id ≡ some thread)
          × (is_task_of m.envelope.chat_id thread task ≡ true))

module _ (b : Binding) (m : Message) (db : Db) (target : String) where
  is_reply-parts :
      (root_id parent_id : String) (root parent : Ancestry)
      → is_reply_to m.envelope.chat_id root_id parent_id root parent ≡ true
      → (root.chat_id ≡ m.envelope.chat_id)
        × (parent.chat_id ≡ m.envelope.chat_id)
        × (parent.thread_id ≡ root.thread_id)
  unfolding is_reply_to
  is_reply-parts root_id parent_id root parent e = (
    ground (arith, e, eq_iff root.chat_id m.envelope.chat_id),
    ground (arith, e, eq_iff parent.chat_id m.envelope.chat_id),
    ground (arith, e, eq_iff root.thread_id parent.thread_id),
  )

  -- The tests in a topic group include those on the task.
  topic_task :
      (thread : String) (root parent : Ancestry) (o : Option Task)
      → is_topic_reply m.envelope.chat_id thread root parent o ≡ true
      → (task : Task) × (o ≡ some task) × (is_task_of m.envelope.chat_id thread task ≡ true)
  unfolding is_topic_reply
  topic_task thread root parent none e = absurd (false-true e)
  topic_task thread root parent (some t) e = (t, refl, ground (arith, e))

  reply-IsReplyIn :
      (found : Option String) (after : Db)
      → ReplyGrounds b m.envelope.chat_id m.root_id m.parent_id m.provider_thread_id db found after
      → found ≡ some target
      → IsReplyIn b m db target
  reply-IsReplyIn found after (r, p, root, parent, er, ep, reply, place, way) e =
      let parts = is_reply-parts r p root parent reply.replies in
      let t : root.thread_id ≡ target = some-injective root.thread_id target (sym place ∙ e) in
      (
        r,
        p,
        root,
        parent,
        er,
        ep,
        reply.root_found,
        reply.parent_found,
        parts.0,
        parts.1,
        t,
        parts.2 ∙ t,
        λ g. (elim way [
          | inl (h, _) ↦ absurd (false-true (sym h ∙ g))
          | inr (thread, _, et, k, _) ↦
              let (task, f, i) =
                topic_task thread root parent (db.task_bindings root.thread_id) k in
              (task, thread, subst (λ x. db.task_bindings x ≡ some task) t f, et, i)
        ]),
      )

  Grounds-target :
      (found : Option String) (after : Db)
      → Grounds b m.envelope.chat_id m.root_id m.parent_id m.provider_thread_id
          (sequence_of db.sequence)
          db
          found
          after
      → found ≡ some target
      → IsCurrent b db target ⊎ IsReplyIn b m db target
  Grounds-target found after (inl (n, _)) e = absurd (none-ne-some target (sym n ∙ e))
  Grounds-target found after (inr (inl (g, _, _, _, h, _))) e = inl (g, sym h ∙ e)
  Grounds-target found after (inr (inr reply)) e = inr (reply-IsReplyIn found after reply e)

  Target-Grounds :
      (found place : Option String) (after : Db)
      → Grounds b m.envelope.chat_id m.root_id m.parent_id m.provider_thread_id
          (sequence_of db.sequence)
          db
          found
          after
      → Target b (sequence_of db.sequence) found place
      → place ≡ some target
      → IsCurrent b db target ⊎ IsReplyIn b m db target
  Target-Grounds found place after g (inl h) e = Grounds-target found after g (sym h ∙ e)
  Target-Grounds found place after g (inr (t, h)) e = inl (t, sym h ∙ e)

module _ (z : Tools) (b : Binding) (c : Capabilities) (event : Fields) (db : Db) where
  -- What `ingest` decides for a task.
  abbrev IsEntitled : Option String → Type 0
  IsEntitled place =
      (target : String)
      → place ≡ some target
      → (m : Message) × (read_event z b c event ≡ some m)
        × (chat_is_authorized b m.envelope.chat_id db ≡ true)
        × (IsCurrent b db target ⊎ IsReplyIn b m db target)

  abbrev target_of : Result Decision → Option String
  target_of (ok d) = d.target_thread_id
  target_of (err e) = none

  outcome-IsEntitled :
      (x : Result Decision × Db) → IngestOutcome z b c event db x → IsEntitled (target_of x.0)
  outcome-IsEntitled _ (IngestOutcome.refused e) target h = absurd (none-ne-some target h)
  outcome-IsEntitled _ (IngestOutcome.conflicting m r _ _ _ _) target h =
      absurd (none-ne-some target h)
  outcome-IsEntitled _ (IngestOutcome.repeated d _ n _) target h =
      absurd (none-ne-some target (sym n ∙ h))
  outcome-IsEntitled _
        (IngestOutcome.inserted m d next read authorized _ _
          (found, after, place, _, _, _, g, t, _, e, _, _))
        target h =
      (m, read, authorized, Target-Grounds b m db target found place after g t (sym e ∙ h))

-- A message that `ingest` takes in for a task was read from the event, comes from a chat that the
-- binding authorises, and is a reply within the chat of two known messages of the task, in a topic
-- group with the thread of the task that is opted in there, or is for the current task of a private
-- chat.
pub ingest-target :
    (z : Tools) (b : Binding) (c : Capabilities) (is_recent : ℕ → Bool) (event : Fields)
    (db after : Db) (d : Decision) (target : String)
    → ingest z b c is_recent event db ≡ (ok d, after)
    → d.target_thread_id ≡ some target
    → (m : Message) × (read_event z b c event ≡ some m)
      × (chat_is_authorized b m.envelope.chat_id db ≡ true)
      × (IsCurrent b db target ⊎ IsReplyIn b m db target)
ingest-target z b c is_recent event db next d target e t =
    outcome-IsEntitled z b c event db (ingest z b c is_recent event db)
      (ingest-outcome z b c event db is_recent) target
      (ap (λ x. target_of z b c event db x.0) e ∙ t)

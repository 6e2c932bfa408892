-- ===== src/Inbound/Cases.antt =====
-- The routing and the recording of a message by cases.
use codex_feishu.Prelude.{
  ℕ, String, ◌≡◌, refl, ◌⊎◌, inl, inr, Bool, true, false, not, ◌&&◌, ◌||◌, arith, Option, none,
  some, find, Bool-cases, Option-cases,
}
use codex_feishu.Exec.{Error, Result, ok, err, ingress_rejected, integrity_error}
use codex_feishu.Commands.{ControlCommand}
use codex_feishu.Outbox.{Row}
use codex_feishu.Inbound.{Sequence, Ancestry, Db, Binding, is_ancestry, is_active}
use codex_feishu.Inbound.Events.{Tools, Message}
use codex_feishu.Inbound.Ingest.{
  Decision, identity_epoch, indeterminate, is_reply_to, is_topic_reply, adopt_thread, route_topic,
  route_reply, route_current, is_unset, is_global, control_route, find_both, pair_rows, route_found,
  route, settle_route, find_echo, has_operation, Verdict, decided, sequence_of, new_message,
  new_ancestry, is_stale, insert_message, final_state, record_routed, record_message,
}

-- The rows on which a reply is routed.
pub record IsReply (b : Binding) (chat_id r p : String) (db : Db) (root parent : Ancestry)
    : Type 0 where
  pub root_found : find (is_ancestry r) db.message_ancestry ≡ some root
  pub parent_found : find (is_ancestry p) db.message_ancestry ≡ some parent
  pub replies : is_reply_to chat_id r p root parent ≡ true

module _ {ℓ} (b : Binding) (chat_id : String) (db : Db)
    (P : Option String
      → Option String
      → Option String
      → Result (Option String × String) × Db
      → Type ℓ) where
  route_topic_cases :
      (r p : String) (thread : Option String) (root parent : Ancestry)
      → P (some r) (some p) thread (ok indeterminate, db)
      → ((t : String)
          → thread ≡ some t
          → is_topic_reply chat_id t root parent (db.task_bindings root.thread_id) ≡ true
          → P
              (some r)
              (some p)
              thread
              (ok (some root.thread_id, "routed_reply"), adopt_thread t root.thread_id r p db))
      → P (some r) (some p) thread (route_topic chat_id r p thread root parent db)
  unfolding route_topic
  route_topic_cases r p none root parent lost found = lost
  route_topic_cases r p (some t) root parent lost found =
      elim (Bool-cases (is_topic_reply chat_id t root parent (db.task_bindings root.thread_id))) [
        | inl e ↦ rw e (found t refl e)
        | inr e ↦ rw e lost
      ]

  route_reply_cases :
      (r p : String) (thread : Option String) (root parent : Ancestry)
      → find (is_ancestry r) db.message_ancestry ≡ some root
      → find (is_ancestry p) db.message_ancestry ≡ some parent
      → P (some r) (some p) thread (ok indeterminate, db)
      → (IsReply b chat_id r p db root parent
          → b.is_topic_group ≡ false
          → P (some r) (some p) thread (ok (some root.thread_id, "routed_reply"), db))
      → (IsReply b chat_id r p db root parent
          → (t : String) → thread ≡ some t
          → b.is_topic_group ≡ true
          → is_topic_reply chat_id t root parent (db.task_bindings root.thread_id) ≡ true
          → P
              (some r)
              (some p)
              thread
              (ok (some root.thread_id, "routed_reply"), adopt_thread t root.thread_id r p db))
      → P (some r) (some p) thread (route_reply b chat_id r p thread root parent db)
  unfolding route_reply
  route_reply_cases r p thread root parent fr fp lost private topic =
      elim (Bool-cases (is_reply_to chat_id r p root parent)) [
        | inr e ↦ rw e lost
        | inl e ↦
            let reply : IsReply b chat_id r p db root parent = record {
              root_found = fr;
              parent_found = fp;
              replies = e;
            } in
            elim (Bool-cases b.is_topic_group) [
              | inl g ↦
                  rw (e, g)
                    (route_topic_cases r p thread root parent lost λ t h k. topic reply t h g k)
              | inr g ↦ rw (e, g) (private reply g)
            ]
      ]

-- The place of a reply is the root's task; in a topic group the message's thread is that task's, and
-- is noted where none was known.
abbrev pub ReplyGrounds :
    Binding
    → String
    → Option String
    → Option String
    → Option String
    → Db
    → Option String
    → Db
    → Type 0
ReplyGrounds b chat_id r p thread db target after =
    (root_id : String) × (parent_id : String) × (root : Ancestry) × (parent : Ancestry) × (r
      ≡ some root_id)
    × (p ≡ some parent_id)
    × IsReply b chat_id root_id parent_id db root parent
    × (target ≡ some root.thread_id)
    × (((b.is_topic_group ≡ false) × (after ≡ db))
        ⊎ ((t : String) × (b.is_topic_group ≡ true)
            × (thread ≡ some t)
            × (is_topic_reply chat_id t root parent (db.task_bindings root.thread_id) ≡ true)
            × (after ≡ adopt_thread t root.thread_id root_id parent_id db)))

-- Why a message goes where `_route` sends it: nowhere, to the current task of a private chat, or to
-- the task that it replies to.
abbrev pub Grounds :
    Binding
    → String
    → Option String
    → Option String
    → Option String
    → Sequence
    → Db
    → Option String
    → Db
    → Type 0
Grounds b chat_id r p thread s db target after =
    ((target ≡ none) × (after ≡ db))
    ⊎ (((b.is_topic_group ≡ false)
          × (is_active s.selection_state ≡ true)
          × (r ≡ none)
          × (p ≡ none)
          × (target ≡ s.current_task_id)
          × (after ≡ db))
        ⊎ ReplyGrounds b chat_id r p thread db target after)

abbrev RouteOutcome :
    Binding
    → String
    → Sequence
    → Db
    → Option String
    → Option String
    → Option String
    → Result (Option String × String) × Db
    → Type 0
RouteOutcome b chat_id s db r p thread x =
    (target : Option String) × (state : String) × (after : Db) × (x ≡ (ok (target, state), after))
    × Grounds b chat_id r p thread s db target after

lost-RouteOutcome :
    (b : Binding) (chat_id : String) (s : Sequence) (db : Db) (r p thread : Option String)
    → RouteOutcome b chat_id s db r p thread (ok indeterminate, db)
lost-RouteOutcome b chat_id s db r p thread =
    (none, "routing_indeterminate", db, refl, inl (refl, refl))

route_current-outcome :
    (b : Binding) (chat_id : String) (s : Sequence) (db : Db) (thread : Option String)
    → RouteOutcome b chat_id s db none none thread (ok (route_current b s), db)
unfolding route_current
route_current-outcome b chat_id s db thread =
    elim (Bool-cases
      (b.is_topic_group || not (is_active s.selection_state) || is_unset s.current_task_id)) [
        | inl e ↦ rw e (lost-RouteOutcome b chat_id s db none none thread)
        | inr e ↦ rw e (
          s.current_task_id,
          "routed_current",
          db,
          refl,
          inr (inl (ground (arith, e), ground (arith, e), refl, refl, refl, refl)),
        )
      ]

find_both_cases :
    (r p : String) (db : Db)
    → (find_both r p db ≡ none)
      ⊎ ((root : Ancestry) × (parent : Ancestry) × (find_both r p db ≡ some (root, parent))
          × (find (is_ancestry r) db.message_ancestry ≡ some root)
          × (find (is_ancestry p) db.message_ancestry ≡ some parent))
unfolding find_both pair_rows
find_both_cases r p db = elim (Option-cases (find (is_ancestry r) db.message_ancestry)) [
  | inl e ↦ inl (rw e refl)
  | inr (root, fr) ↦ elim (Option-cases (find (is_ancestry p) db.message_ancestry)) [
    | inl e ↦ inl (rw (fr, e) refl)
    | inr (parent, fp) ↦ inr (root, parent, rw (fr, fp) refl, fr, fp)
  ]
]

route-outcome :
    (b : Binding) (chat_id : String) (s : Sequence) (db : Db) (r p thread : Option String)
    → RouteOutcome b chat_id s db r p thread (route b chat_id r p thread s db)
unfolding route route_found
route-outcome b chat_id s db none none thread = route_current-outcome b chat_id s db thread
route-outcome b chat_id s db none (some p) thread =
    lost-RouteOutcome b chat_id s db none (some p) thread
route-outcome b chat_id s db (some r) none thread =
    lost-RouteOutcome b chat_id s db (some r) none thread
route-outcome b chat_id s db (some r) (some p) thread = elim (find_both_cases r p db) [
  | inl e ↦ rw e (lost-RouteOutcome b chat_id s db (some r) (some p) thread)
  | inr (root, parent, e, fr, fp) ↦ rw e (
      route_reply_cases b chat_id db (RouteOutcome b chat_id s db) r p thread root parent fr fp
        (lost-RouteOutcome b chat_id s db (some r) (some p) thread)
        (λ reply g. (
          some root.thread_id,
          "routed_reply",
          db,
          refl,
          inr (inr (r, p, root, parent, refl, refl, reply, refl, inl (g, refl))),
        ))
        λ reply t h g k. (
          some root.thread_id,
          "routed_reply",
          adopt_thread t root.thread_id r p db,
          refl,
          inr (inr (r, p, root, parent, refl, refl, reply, refl, inr (t, g, h, k, refl))),
        ))
]

-- A command in a private chat may be for the current task without being a reply to it.
abbrev pub Target : Binding → Sequence → Option String → Option String → Type 0
Target b s found target =
    (target ≡ found) ⊎ ((b.is_topic_group ≡ false) × (target ≡ s.current_task_id))

settle_route-Target :
    (b : Binding) (s : Sequence) (c : Option ControlCommand) (found : Option String × String)
    → Target b s found.0 (settle_route b s c found).0
unfolding settle_route control_route
settle_route-Target b s none found = inl refl
settle_route-Target b s (some c) (found, state) =
    elim (Bool-cases (not b.is_topic_group && is_global s c)) [
      | inl e ↦ rw e (inr (ground (arith, e), refl))
      | inr e ↦ rw e (inl refl)
    ]

-- The message's rows were added, for a target that has its grounds.
abbrev pub Inserted : Binding → Message → Db → Decision → Db → Type 0
Inserted b m db d next =
    (found : Option String) × (after : Db) × (target : Option String) × (state : String)
    × (is_delayed : Bool) × (epoch : ℕ) × Grounds b m.envelope.chat_id m.root_id m.parent_id
        m.provider_thread_id (sequence_of db.sequence) db found after
    × Target b (sequence_of db.sequence) found target
    × (identity_epoch after.identity ≡ some epoch)
    × (d.target_thread_id ≡ target)
    × (d.ingest_seq ≡ some (sequence_of db.sequence).next_ingest_seq)
    × (next
        ≡ insert_message m (new_message m (sequence_of db.sequence) epoch target state is_delayed)
            (new_ancestry m target state) (sequence_of db.sequence) after)

abbrev pub Recorded : Binding → Message → Db → Result Verdict × Db → Type 0
Recorded b m db x =
    (d : Decision) × (next : Db) × (x ≡ (ok (decided d), next)) × Inserted b m db d next

record_routed-outcome :
    (m : Message) (s : Sequence) (target : Option String) (state : String) (echo : Option Row)
    (db : Db)
    → ((e : Error) × (after : Db) × (record_routed m s (target, state) echo db ≡ (err e, after)))
      ⊎ ((st : String) × (is_delayed : Bool) × (epoch : ℕ) × (d : Decision) × (identity_epoch
              db.identity
            ≡ some epoch)
          × (d.target_thread_id ≡ target)
          × (d.ingest_seq ≡ some s.next_ingest_seq)
          × (record_routed m s (target, state) echo db ≡ (
            ok (decided d),
            insert_message m
                (new_message m s epoch target st is_delayed)
                (new_ancestry m target st)
                s
                db,
          )))
unfolding record_routed
record_routed-outcome m s target state echo db = elim (Option-cases (identity_epoch db.identity)) [
  | inl e ↦ inl (ingress_rejected, db, rw e refl)
  | inr (epoch, e) ↦
      elim (Bool-cases (not (is_stale m (new_ancestry m target (final_state echo state)) db))) [
        | inr f ↦ inl (integrity_error, db, rw (e, f) refl)
        | inl f ↦ inr (
          final_state echo state,
          has_operation "user_message" echo,
          epoch,
          record {
            duplicate = has_operation "subscription" echo;
            routing_state = final_state echo state;
            target_thread_id = target;
            ingest_seq = some s.next_ingest_seq;
            command = m.content.command;
          },
          e,
          refl,
          refl,
          rw (e, f) refl,
        )
      ]
]

pub record_message-outcome :
    (z : Tools) (b : Binding) (is_recent : ℕ → Bool) (m : Message) (db : Db)
    → ((e : Error) × (after : Db) × (record_message z b is_recent m (sequence_of db.sequence) db
          ≡ (err e, after)))
      ⊎ Recorded b m db (record_message z b is_recent m (sequence_of db.sequence) db)
unfolding record_message
record_message-outcome z b is_recent m db =
    let s = sequence_of db.sequence in
    let (found, state, after, e, grounds) =
      route-outcome b m.envelope.chat_id s db m.root_id m.parent_id m.provider_thread_id in
    let place = settle_route b s m.content.command (found, state) in
    rw e
      (elim (record_routed-outcome m s place.0 place.1 (find_echo z is_recent m place.0 after)
        after) [
          | inl (x, last, f) ↦ inl (x, last, f)
          | inr (st, is_delayed, epoch, d, i, t, n, f) ↦ inr (
            d,
            insert_message m (new_message m s epoch place.0 st is_delayed)
                (new_ancestry m place.0 st) s after,
            f,
            (
              found,
              after,
              place.0,
              st,
              is_delayed,
              epoch,
              grounds,
              settle_route-Target b s m.content.command (found, state),
              i,
              t,
              n,
              refl,
            ),
          )
        ])

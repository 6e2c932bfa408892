-- ===== src/Tasks/Surface.antt =====
-- A task stays with its chat.
use codex_feishu.Tasks.History.{Call, after, after_all}
use codex_feishu.Prelude.{
  ◌≤◌, updated, find-update_where, find-append, ℕ, ◌+◌, String, ◌≡◌, refl, ap, ◌∙◌, inl, inr, Bool,
  true, false, not, ◌&&◌, ◌||◌, arith, Option, none, some, List, [], ◌∷◌, ◌++◌, str_eq, ◌==◌,
  is_none, is_some, find, update_where, row_count, if◌then◌else◌, Bool-cases, Codes, holds_str,
}
use codex_feishu.Exec.{
  value_error, integrity_error, type_error, bound_elsewhere, lost_compare_and_swap,
}
use codex_feishu.Exec.Keeps.{settle_state, or_raise_state, require_state, continue_state}
use codex_feishu.Inbound.Ingest.{identity_epoch}
use codex_feishu.Tasks.Titles.{normalize_task_title, normalize_project_name}
use codex_feishu.Tasks.{Binding, Db, is_binding}
use codex_feishu.Tasks.Anchors.{
  sync_title, is_opted_in, archive, new_binding, epoch_or_zero, activate, is_taken, Tools, title_id,
  is_row, insert_binding, shown_title, opt_in, awaits_title, set_pending, queue_title, has_topic,
  is_settled, sync_found, deactivate, show_archived, archive_found, archived_title, is_inactive,
  reactivate, is_unconfirmed, set_anchor, add_anchor, confirm,
}

-- The same place and the same anchor, and no smaller revision of the title.
pub record IsSame (a b : Binding) : Type 0 where
  pub chat : a.chat_id ≡ b.chat_id
  pub mode : a.conversation_mode ≡ b.conversation_mode
  pub uuid : a.anchor_uuid ≡ b.anchor_uuid
  pub revision : a.title_revision ≤ b.title_revision

-- Every binding that was there is there.
abbrev pub AreKept : List Binding → List Binding → Type 0
AreKept xs ys =
    (thread_id : String) (a : Binding)
    → find (is_binding thread_id) xs ≡ some a
    → (b : Binding) × (find (is_binding thread_id) ys ≡ some b) × IsSame a b

IsSame-refl : (a : Binding) → IsSame a a
IsSame-refl a = record { chat = refl; mode = refl; uuid = refl; revision = omega arith }

IsSame-trans : (a b c : Binding) → IsSame a b → IsSame b c → IsSame a c
IsSame-trans a b c p q = record {
  chat = p.chat ∙ q.chat;
  mode = p.mode ∙ q.mode;
  uuid = p.uuid ∙ q.uuid;
  revision = omega (arith, p.revision, q.revision);
}

AreKept-refl : (xs : List Binding) → AreKept xs xs
AreKept-refl xs thread_id a e = (a, e, IsSame-refl a)

AreKept-append : (xs ys : List Binding) (n : Binding) → AreKept xs ys → AreKept xs (ys ++ (n ∷ []))
AreKept-append xs ys n h thread_id a e =
    let (b, f, s) = h thread_id a e in (b, find-append (is_binding thread_id) b ys (n ∷ []) f, s)

updated-IsSame :
    (test : Binding → Bool) (f : Binding → Binding) (b : Binding)
    → ((x : Binding) → test x ≡ true → IsSame x (f x))
    → IsSame b (if test b then f b else b)
updated-IsSame test f b h = elim (Bool-cases (test b)) [
  | inl e ↦ rw e (h b e)
  | inr e ↦ rw e (IsSame-refl b)
]

AreKept-update :
    (test : Binding → Bool) (f : Binding → Binding) (xs ys : List Binding)
    → ((x : Binding) → (f x).thread_id ≡ x.thread_id)
    → ((x : Binding) → test x ≡ true → IsSame x (f x))
    → AreKept xs ys
    → AreKept xs (update_where test f ys)
unfolding updated
AreKept-update test f xs ys key same h thread_id a e =
    let (b, g, s) = h thread_id a e in
    (
      (if test b then f b else b),
      find-update_where (is_binding thread_id) test f ys (λ x. rw (key x) refl)
          ∙ ap (updated test f) g,
      IsSame-trans a b (if test b then f b else b) s (updated-IsSame test f b same),
    )

module _ (w : Tools) (xs : List Binding) where
  abbrev pub Kept : Db → Type 0
  Kept db = AreKept xs db.task_bindings

  insert_binding-Kept :
      (n : Binding) (o : Option Binding) (db : Db) → Kept db → Kept (insert_binding n o db).1
  unfolding insert_binding
  insert_binding-Kept n none db h =
      require_state Kept (is_none (find (is_taken n) db.task_bindings)) integrity_error _ db h
        λ _. AreKept-append xs db.task_bindings n h
  insert_binding-Kept n (some b) db h =
      require_state Kept
        (str_eq b.chat_id n.chat_id && str_eq b.conversation_mode n.conversation_mode)
        bound_elsewhere _ db h
        λ _.
          AreKept-update (is_binding n.thread_id) activate xs db.task_bindings (λ x. refl)
            (λ x _. record { chat = refl; mode = refl; uuid = refl; revision = omega arith }) h

  opt_in-Kept :
      (thread_id root chat_id mode : String) (title name : Option Codes) (now : ℕ) (db : Db)
      → Kept db
      → Kept (opt_in w thread_id root chat_id mode title name now db).1
  unfolding opt_in
  opt_in-Kept thread_id root chat_id mode title name now db h =
      require_state Kept (str_eq mode "p2p" || str_eq mode "topic_group") value_error _ db h λ _.
        settle_state Kept db _ h (
          continue_state Kept _
            (insert_binding
              (new_binding w thread_id root chat_id mode title name
                (epoch_or_zero (identity_epoch db.identity)))
              (find (is_binding thread_id) db.task_bindings) db)
            (insert_binding-Kept _ (find (is_binding thread_id) db.task_bindings) db h)
            (λ _ s k. k))

  queue_title-Kept :
      (b : Binding) (text : Codes) (more : Binding → Binding) (now : ℕ) (db : Db)
      → ((x : Binding) → (more x).thread_id ≡ x.thread_id)
      → ((x : Binding) → IsSame x (more x))
      → Kept db
      → Kept (queue_title w b text more now db).1
  unfolding queue_title
  queue_title-Kept b text more now db key same h =
      require_state Kept
        (is_none (
          find (is_row (title_id w b.thread_id (b.title_revision + 1) (w.title_hash text)))
            db.provider_outbox))
        integrity_error _ db h
        λ _.
          require_state Kept (row_count (awaits_title b) db.task_bindings == 1)
            lost_compare_and_swap _ db h
            λ _.
              AreKept-update (awaits_title b)
                (λ x. set_pending (w.title_hash text) (b.title_revision + 1) (more x)) xs
                db.task_bindings key
                (λ x t. record {
                  chat = (same x).chat;
                  mode = (same x).mode;
                  uuid = (same x).uuid;
                  revision = ground (arith, t);
                })
                h

  sync_found-Kept :
      (title : Codes) (name : Option Codes) (now : ℕ) (o : Option Binding) (db : Db)
      → Kept db
      → Kept (sync_found w title name now o db).1
  unfolding sync_found
  sync_found-Kept title name now none db h = h
  sync_found-Kept title name now (some b) db h =
      elim (Bool-cases (
        not (has_topic b)
        || is_settled b (w.title_hash (shown_title w (some title) name b.thread_id b.project_root))
        || is_some b.pending_title_hash)) [
          | inl e ↦ rw e h
          | inr e ↦ rw e (
              continue_state Kept _
                (queue_title w b (shown_title w (some title) name b.thread_id b.project_root)
                  (λ x. record x {
                    task_title = some (normalize_task_title w.display (some title) b.thread_id);
                    project_name =
                        some (normalize_project_name w.display name (w.root_name b.project_root));
                  })
                  now db)
                (queue_title-Kept b _ _ now db (λ x. refl)
                  (λ x. record { chat = refl; mode = refl; uuid = refl; revision = omega arith }) h)
                (λ _ s k. k))
        ]

  deactivate-Kept : (b : Binding) (db : Db) → Kept db → Kept (deactivate b db)
  unfolding deactivate
  deactivate-Kept b db h =
      elim (Bool-cases (b.opted_in || not (str_eq b.lifecycle_state "archived"))) [
        | inr e ↦ rw e h
        | inl e ↦ rw e (
            AreKept-update (is_binding b.thread_id)
              (λ x. record x { opted_in = false; lifecycle_state = "archived" }) xs db.task_bindings
              (λ x. refl)
              (λ x _. record { chat = refl; mode = refl; uuid = refl; revision = omega arith }) h)
      ]

  show_archived-Kept :
      (now : ℕ) (b : Binding) (db : Db) → Kept db → Kept (show_archived w now b db).1
  unfolding show_archived
  show_archived-Kept now b db h =
      elim (Bool-cases (
        not (has_topic b)
        || is_some b.pending_title_hash
        || is_settled b (w.title_hash (archived_title w b)))) [
          | inl e ↦ rw e h
          | inr e ↦ rw e (
              continue_state Kept _ (queue_title w b (archived_title w b) (λ x. x) now db)
                (queue_title-Kept b (archived_title w b) (λ x. x) now db (λ x. refl) IsSame-refl h)
                (λ _ s k. k))
        ]

  archive_found-Kept :
      (now : ℕ) (o : Option Binding) (db : Db) → Kept db → Kept (archive_found w now o db).1
  unfolding archive_found
  archive_found-Kept now none db h = h
  archive_found-Kept now (some b) db h =
      show_archived-Kept now b (deactivate b db) (deactivate-Kept b db h)

  reactivate-Kept : (thread_id : String) (db : Db) → Kept db → Kept (reactivate thread_id db).1
  unfolding reactivate
  reactivate-Kept thread_id db h =
      AreKept-update (is_inactive thread_id) activate xs db.task_bindings (λ x. refl)
        (λ x _. record { chat = refl; mode = refl; uuid = refl; revision = omega arith }) h

  confirm-Kept :
      (thread_id message_id : String) (db : Db) → Kept db → Kept (confirm thread_id message_id db).1
  unfolding confirm add_anchor
  confirm-Kept thread_id message_id db h =
      require_state Kept
        (is_none (
            find
              (λ x. holds_str x.anchor_message_id message_id && not (str_eq x.thread_id thread_id))
              db.task_bindings)
          || (row_count (is_unconfirmed thread_id) db.task_bindings == 0))
        integrity_error _ db h
        λ _.
          require_state Kept (row_count (is_unconfirmed thread_id) db.task_bindings == 1)
            lost_compare_and_swap _ db h
            λ _.
              let confirmed =
                AreKept-update (is_unconfirmed thread_id) (set_anchor message_id) xs
                  db.task_bindings (λ x. refl)
                  (λ x _. record { chat = refl; mode = refl; uuid = refl; revision = omega arith })
                  h in
              or_raise_state Kept (find (is_binding thread_id) db.task_bindings) type_error _
                (record db {
                  task_bindings =
                      update_where (is_unconfirmed thread_id) (set_anchor message_id)
                        db.task_bindings;
                })
                confirmed λ b _. confirmed

  after-Kept : (call : Call) (db : Db) → Kept db → Kept (after w call db)
  unfolding after sync_title archive
  after-Kept (Call.opted_in thread_id root chat_id mode title name now) db h =
      opt_in-Kept thread_id root chat_id mode title name now db h
  after-Kept (Call.synced thread_id title name now) db h =
      settle_state Kept db _ h
        (sync_found-Kept title name now (find (is_opted_in thread_id) db.task_bindings) db h)
  after-Kept (Call.archived thread_id now) db h =
      settle_state Kept db _ h
        (archive_found-Kept now (find (is_binding thread_id) db.task_bindings) db h)
  after-Kept (Call.reactivated thread_id) db h = reactivate-Kept thread_id db h
  after-Kept (Call.confirmed thread_id message_id) db h = confirm-Kept thread_id message_id db h

  all-Kept : (calls : List Call) (db : Db) → Kept db → Kept (after_all w calls db)
  unfolding after_all
  all-Kept [] db h = h
  all-Kept (call ∷ calls) db h = all-Kept calls (after w call db) (after-Kept call db h)

-- After any history of the manager's calls, whichever raise, a task that had a binding has one with
-- the same chat, the same conversation mode and the same UUID of its anchor, and with a revision of
-- its title that is not smaller.
pub after_all-AreKept :
    (w : Tools) (calls : List Call) (db : Db)
    → AreKept db.task_bindings (after_all w calls db).task_bindings
after_all-AreKept w calls db = all-Kept w db.task_bindings calls db (AreKept-refl db.task_bindings)

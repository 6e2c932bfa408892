-- ===== src/Tasks/Carried.antt =====
-- A title that a binding waits for is carried by a row of the outbox.
use mathlib.Core.Option.{none-ne-some, some-injective}
use codex_feishu.Prelude.{
  ℕ, ◌+◌, String, ◌≡◌, refl, sym, ap, subst, ◌∙◌, ◌⊎◌, inl, inr, true, false, not, ◌&&◌, ◌||◌,
  arith, Option, none, some, List, [], ◌∷◌, ◌++◌, All, All-append, All-weaken, str_eq, eq_iff, ◌==◌,
  is_none, is_some, find, find-append, update_where, update_where-All, update_where-each, row_count,
  Bool-cases, Option-cases, false-true, Codes, holds_str,
}
use codex_feishu.Exec.{
  Exec, continue_with, value_error, integrity_error, type_error, lost_compare_and_swap,
}
use codex_feishu.Exec.Keeps.{settle_state, or_raise_state, require_state, continue_state}
use codex_feishu.Outbox.{Row}
use codex_feishu.Inbound.Ingest.{identity_epoch}
use codex_feishu.Tasks.Titles.{normalize_task_title, normalize_project_name}
use codex_feishu.Tasks.{Binding, Db, is_binding}
use codex_feishu.Tasks.Anchors.{
  Tools, anchor_id, title_id, is_row, new_binding, epoch_or_zero, activate, is_taken,
  insert_binding, insert_or_ignore, anchor_row, text_row, shown_title, opt_in, title_row,
  awaits_title, set_pending, queue_title, has_topic, is_settled, sync_found, deactivate,
  show_archived, archive_found, archived_title, is_inactive, reactivate, is_unconfirmed, set_anchor,
  add_anchor, confirm,
}

-- A pending title is the first of the binding, in the row of its anchor, or has a row of its own.
abbrev pub IsCarried : Tools → List Row → Binding → Type 0
IsCarried w rows b =
    (hash : String)
    → b.pending_title_hash ≡ some hash
    → (is_some (find (is_row (anchor_id b.anchor_uuid)) rows) ≡ true)
      ⊎ (is_some (find (is_row (title_id w b.thread_id b.title_revision hash)) rows) ≡ true)

unfoldable pub AreCarried : Tools → Db → Type 0
AreCarried w db = All (IsCarried w db.provider_outbox) db.task_bindings

is_some-append :
    (id : String) (rows more : List Row)
    → is_some (find (is_row id) rows) ≡ true
    → is_some (find (is_row id) (rows ++ more)) ≡ true
is_some-append id rows more h = elim (Option-cases (find (is_row id) rows)) [
  | inl e ↦ absurd (false-true (rw e at h))
  | inr (r, e) ↦ rw (find-append (is_row id) r rows more e) refl
]

IsCarried-append :
    (w : Tools) (rows more : List Row) (b : Binding)
    → IsCarried w rows b
    → IsCarried w (rows ++ more) b
IsCarried-append w rows more b h hash e = elim (h hash e) [
  | inl k ↦ inl (is_some-append (anchor_id b.anchor_uuid) rows more k)
  | inr k ↦ inr (is_some-append (title_id w b.thread_id b.title_revision hash) rows more k)
]

-- The row that was appended is there.
is_some-last :
    (id : String) (rows : List Row) (r : Row)
    → r.logical_message_id ≡ id
    → is_some (find (is_row id) (rows ++ (r ∷ []))) ≡ true
unfolding find
is_some-last id [] r e =
    let k : is_row id r ≡ true = ground (arith, e, eq_iff r.logical_message_id id) in rw k refl
is_some-last id (x ∷ rows) r e = elim (Bool-cases (is_row id x)) [
  | inl k ↦ rw k refl
  | inr k ↦ rw k (is_some-last id rows r e)
]

is_some-insert :
    (rows : List Row) (r : Row)
    → is_some (find (is_row r.logical_message_id) (insert_or_ignore r rows)) ≡ true
unfolding insert_or_ignore
is_some-insert rows r = elim (Bool-cases (is_some (find (is_row r.logical_message_id) rows))) [
  | inl k ↦ rw k k
  | inr k ↦ rw k (is_some-last r.logical_message_id rows r refl)
]

IsCarried-insert :
    (w : Tools) (rows : List Row) (r : Row) (b : Binding)
    → IsCarried w rows b
    → IsCarried w (insert_or_ignore r rows) b
unfolding insert_or_ignore
IsCarried-insert w rows r b h =
    elim (Bool-cases (is_some (find (is_row r.logical_message_id) rows))) [
      | inl k ↦ rw k h
      | inr k ↦ rw k (IsCarried-append w rows (r ∷ []) b h)
    ]

module _ (w : Tools) where
  -- What is carried stays so when a row is inserted.
  All-insert :
      (rows : List Row) (r : Row) (bs : List Binding)
      → All (IsCarried w rows) bs
      → All (IsCarried w (insert_or_ignore r rows)) bs
  All-insert rows r bs h =
      All-weaken (IsCarried w rows) (IsCarried w (insert_or_ignore r rows)) bs
        (λ x k. IsCarried-insert w rows r x k) h

  -- `insert_binding`, with the row of the anchor behind it.
  insert_binding-AreCarried :
      {B : Type 0} (n : Binding) (r : Row) (o : Option Binding) (f : Unit {0} → Exec Db B) (db : Db)
      → r.logical_message_id ≡ anchor_id n.anchor_uuid
      → ((s : Db)
          → All (IsCarried w (insert_or_ignore r s.provider_outbox)) s.task_bindings
          → AreCarried w (f tt s).1)
      → AreCarried w db
      → AreCarried w (continue_with f (insert_binding n o db)).1
  unfolding insert_binding AreCarried
  insert_binding-AreCarried n r none f db e then_row h =
      elim (Bool-cases (is_none (find (is_taken n) db.task_bindings))) [
        | inr k ↦ rw k h
        | inl k ↦ rw k (
            then_row (record db { task_bindings = db.task_bindings ++ (n ∷ []) })
              (All-append (IsCarried w (insert_or_ignore r db.provider_outbox)) db.task_bindings
                (n ∷ []) (All-insert db.provider_outbox r db.task_bindings h)
                (
                  λ hash _. inl (
                      subst
                        (λ id.
                          is_some (find (is_row id) (insert_or_ignore r db.provider_outbox)) ≡ true)
                        e (is_some-insert db.provider_outbox r)),
                  tt,
                )))
      ]
  insert_binding-AreCarried n r (some b) f db e then_row h =
      elim (Bool-cases
        (str_eq b.chat_id n.chat_id && str_eq b.conversation_mode n.conversation_mode)) [
          | inr k ↦ rw k h
          | inl k ↦ rw k (
              then_row
                (record db {
                  task_bindings = update_where (is_binding n.thread_id) activate db.task_bindings;
                })
                (update_where-All (IsCarried w (insert_or_ignore r db.provider_outbox))
                  (is_binding n.thread_id) activate db.task_bindings (λ x k. k)
                  (All-insert db.provider_outbox r db.task_bindings h)))
        ]

  pub opt_in-AreCarried :
      (thread_id root chat_id mode : String) (title name : Option Codes) (now : ℕ) (db : Db)
      → AreCarried w db
      → AreCarried w (opt_in w thread_id root chat_id mode title name now db).1
  unfolding opt_in AreCarried text_row
  opt_in-AreCarried thread_id root chat_id mode title name now db h =
      let n =
        new_binding w thread_id root chat_id mode title name
          (epoch_or_zero (identity_epoch db.identity)) in
      require_state (AreCarried w) (str_eq mode "p2p" || str_eq mode "topic_group") value_error _ db
        h
        λ _. settle_state (AreCarried w) db _ h (
          insert_binding-AreCarried n (anchor_row w n (shown_title w title name thread_id root) now)
            (find (is_binding thread_id) db.task_bindings) _ db refl (λ s k. k) h)

  -- A new title has its row.
  set_pending-IsCarried :
      (rows : List Row) (b x : Binding) (text : Codes) (more : Binding → Binding) (now : ℕ)
      → (more x).thread_id ≡ x.thread_id
      → awaits_title b x ≡ true
      → IsCarried w
          (rows ++ (title_row w b text now ∷ []))
          (set_pending (w.title_hash text) (b.title_revision + 1) (more x))
  unfolding text_row
  set_pending-IsCarried rows b x text more now same e hash k =
      let thread : b.thread_id ≡ (more x).thread_id =
        sym (ground (arith, e, eq_iff x.thread_id b.thread_id)) ∙ sym same in
      inr (
        is_some-last (title_id w (more x).thread_id (b.title_revision + 1) hash) rows
          (title_row w b text now)
          (ap (λ t. title_id w t (b.title_revision + 1) (w.title_hash text)) thread
            ∙ ap (λ y. title_id w (more x).thread_id (b.title_revision + 1) y)
                (some-injective (w.title_hash text) hash k)))

  queue_title-AreCarried :
      (b : Binding) (text : Codes) (more : Binding → Binding) (now : ℕ) (db : Db)
      → ((x : Binding) → (more x).thread_id ≡ x.thread_id)
      → AreCarried w db
      → AreCarried w (queue_title w b text more now db).1
  unfolding queue_title AreCarried
  queue_title-AreCarried b text more now db same h =
      require_state (AreCarried w)
        (is_none (
          find (is_row (title_id w b.thread_id (b.title_revision + 1) (w.title_hash text)))
            db.provider_outbox))
        integrity_error _ db h
        λ _.
          require_state (AreCarried w) (row_count (awaits_title b) db.task_bindings == 1)
            lost_compare_and_swap _ db h
            λ _.
              update_where-each (IsCarried w db.provider_outbox)
                (IsCarried w (db.provider_outbox ++ (title_row w b text now ∷ []))) (awaits_title b)
                (λ x. set_pending (w.title_hash text) (b.title_revision + 1) (more x))
                db.task_bindings
                (λ x t _. set_pending-IsCarried db.provider_outbox b x text more now (same x) t)
                (λ x k. IsCarried-append w db.provider_outbox (title_row w b text now ∷ []) x k) h

  pub sync_found-AreCarried :
      (title : Codes) (name : Option Codes) (now : ℕ) (o : Option Binding) (db : Db)
      → AreCarried w db
      → AreCarried w (sync_found w title name now o db).1
  unfolding sync_found
  sync_found-AreCarried title name now none db h = h
  sync_found-AreCarried title name now (some b) db h =
      elim (Bool-cases (
        not (has_topic b)
        || is_settled b (w.title_hash (shown_title w (some title) name b.thread_id b.project_root))
        || is_some b.pending_title_hash)) [
          | inl e ↦ rw e h
          | inr e ↦ rw e (
              continue_state (AreCarried w) _
                (queue_title w b (shown_title w (some title) name b.thread_id b.project_root)
                  (λ x. record x {
                    task_title = some (normalize_task_title w.display (some title) b.thread_id);
                    project_name =
                        some (normalize_project_name w.display name (w.root_name b.project_root));
                  })
                  now db)
                (queue_title-AreCarried b _ _ now db (λ x. refl) h) (λ _ s k. k))
        ]

  deactivate-AreCarried : (b : Binding) (db : Db) → AreCarried w db → AreCarried w (deactivate b db)
  unfolding deactivate AreCarried
  deactivate-AreCarried b db h =
      elim (Bool-cases (b.opted_in || not (str_eq b.lifecycle_state "archived"))) [
        | inr e ↦ rw e h
        | inl e ↦ rw e (
            update_where-All (IsCarried w db.provider_outbox) (is_binding b.thread_id)
              (λ x. record x { opted_in = false; lifecycle_state = "archived" }) db.task_bindings
              (λ x k. k) h)
      ]

  show_archived-AreCarried :
      (now : ℕ) (b : Binding) (db : Db)
      → AreCarried w db
      → AreCarried w (show_archived w now b db).1
  unfolding show_archived
  show_archived-AreCarried now b db h =
      elim (Bool-cases (
        not (has_topic b)
        || is_some b.pending_title_hash
        || is_settled b (w.title_hash (archived_title w b)))) [
          | inl e ↦ rw e h
          | inr e ↦ rw e (
              continue_state (AreCarried w) _ (queue_title w b (archived_title w b) (λ x. x) now db)
                (queue_title-AreCarried b (archived_title w b) (λ x. x) now db (λ x. refl) h)
                (λ _ s k. k))
        ]

  pub archive_found-AreCarried :
      (now : ℕ) (o : Option Binding) (db : Db)
      → AreCarried w db
      → AreCarried w (archive_found w now o db).1
  unfolding archive_found
  archive_found-AreCarried now none db h = h
  archive_found-AreCarried now (some b) db h =
      show_archived-AreCarried now b (deactivate b db) (deactivate-AreCarried b db h)

  pub reactivate-AreCarried :
      (thread_id : String) (db : Db) → AreCarried w db → AreCarried w (reactivate thread_id db).1
  unfolding reactivate AreCarried
  reactivate-AreCarried thread_id db h =
      update_where-All (IsCarried w db.provider_outbox) (is_inactive thread_id) activate
        db.task_bindings (λ x k. k) h

  pub confirm-AreCarried :
      (thread_id message_id : String) (db : Db)
      → AreCarried w db
      → AreCarried w (confirm thread_id message_id db).1
  unfolding confirm add_anchor AreCarried
  confirm-AreCarried thread_id message_id db h =
      require_state (AreCarried w)
        (is_none (
            find
              (λ x. holds_str x.anchor_message_id message_id && not (str_eq x.thread_id thread_id))
              db.task_bindings)
          || (row_count (is_unconfirmed thread_id) db.task_bindings == 0))
        integrity_error _ db h
        λ _.
          require_state (AreCarried w) (row_count (is_unconfirmed thread_id) db.task_bindings == 1)
            lost_compare_and_swap _ db h
            λ _.
              let confirmed =
                update_where-All (IsCarried w db.provider_outbox) (is_unconfirmed thread_id)
                  (set_anchor message_id) db.task_bindings
                  (λ x k hash e. absurd (none-ne-some hash e)) h in
              or_raise_state (AreCarried w) (find (is_binding thread_id) db.task_bindings)
                type_error _
                (record db {
                  task_bindings =
                      update_where (is_unconfirmed thread_id) (set_anchor message_id)
                        db.task_bindings;
                })
                confirmed λ b _. confirmed

-- ===== src/Rollout/Events.antt =====
-- The loop over the events of a batch, and `store_rollout_batch` by cases.
use codex_feishu.Prelude.{
  ℕ, ◌+◌, String, ◌≡◌, refl, sym, subst, ◌∙◌, ◌⊎◌, inl, inr, true, none, some, List, [], ◌∷◌, All,
  put_self, put_cases, eq_iff, Bool-cases, Option-cases, arith, str_eq_refl, ==_refl,
}
use codex_feishu.Exec.{
  Error, Result, ok, err, pure, continue_with, settle, conflicting_item, missing_record_hash,
}
use codex_feishu.Models.{EventKind, event_kind_eq}
use codex_feishu.Rollout.{
  NormalizedEvent, RolloutBatch, Digests, Item, Db, logical_key, new_item, is_same_item,
  insert_item, insert_or_compare, store_event, store_events, cursor_refusal, has_record_hash,
  set_cursor, cursor_for, store_batch, store_rollout_batch,
}

-- An item that is there stays as it is, and the cursors are as they were.
abbrev pub ItemsKept : Db → Db → Type 0
ItemsKept db after =
    ((k : String) (i : Item) → db.items k ≡ some i → after.items k ≡ some i)
    × (after.source_cursors ≡ db.source_cursors)

-- The event's item is there.
abbrev pub IsStored : Digests → Db → NormalizedEvent → Type 0
IsStored z db e = (i : Item) × (db.items (logical_key z e) ≡ some i) × (is_same_item z e i ≡ true)

-- The key and the item are those of one of the events.
abbrev pub Added : Digests → List NormalizedEvent → String → Item → Type 0
Added z [] k i = ⊥
Added z (e ∷ es) k i =
    ((k ≡ z.of_identity e.thread_id e.turn_id e.item_id e.kind e.revision)
      × (i ≡ record {
        thread_id = e.thread_id;
        turn_id = e.turn_id;
        item_id = e.item_id;
        event_kind = e.kind;
        revision = e.revision;
        content_hash = z.of_content e.text e.images;
        text = e.text;
        source_type = e.source_type;
      }))
    ⊎ Added z es k i

-- Every item was there before or is that of one of the events.
abbrev pub Origin : Digests → List NormalizedEvent → Db → Db → Type 0
Origin z es db after =
    (k : String) (i : Item) → after.items k ≡ some i → (db.items k ≡ some i) ⊎ Added z es k i

-- What a loop that returns has done.
abbrev pub Stored : Digests → List NormalizedEvent → Db → Result ℕ × Db → Type 0
Stored z es db (ok n, after) = ItemsKept db after × All (IsStored z after) es × Origin z es db after
Stored z es db (err e, after) = Unit

event_kind_eq_refl : (k : EventKind) → event_kind_eq k k ≡ true
unfolding event_kind_eq
event_kind_eq_refl EventKind.commentary = refl
event_kind_eq_refl EventKind.final_answer = refl

new_item-same : (z : Digests) (e : NormalizedEvent) → is_same_item z e (new_item z e) ≡ true
unfolding is_same_item
new_item-same z e = simp (str_eq_refl, ==_refl, event_kind_eq_refl)

insert_item-kept :
    (z : Digests) (e : NormalizedEvent) (db : Db)
    → db.items (logical_key z e) ≡ none
    → ItemsKept db (insert_item z e db)
unfolding insert_item
insert_item-kept z e db fresh =
    ((λ k i f. ground (arith, fresh, f, eq_iff (logical_key z e) k)), refl)

insert_item-IsStored :
    (z : Digests) (e : NormalizedEvent) (db : Db) → IsStored z (insert_item z e db) e
unfolding insert_item
insert_item-IsStored z e db =
    (new_item z e, put_self (logical_key z e) (new_item z e) db.items, new_item-same z e)

IsStored-kept :
    (z : Digests) (db after : Db) (e : NormalizedEvent)
    → ItemsKept db after
    → IsStored z db e
    → IsStored z after e
IsStored-kept z db after e k (i, f, s) = (i, k.0 _ i f, s)

insert_item-Origin :
    (z : Digests) (e : NormalizedEvent) (db : Db) → Origin z (e ∷ []) db (insert_item z e db)
unfolding insert_item
insert_item-Origin z e db k i f = elim (put_cases (logical_key z e) k (new_item z e) i db.items f) [
  | inl (same, new) ↦ inr (inl (sym same, sym new))
  | inr (other, old) ↦ inl old
]

rest-Origin :
    (z : Digests) (e : NormalizedEvent) (rest : List NormalizedEvent) (db middle after : Db)
    → Origin z (e ∷ []) db middle
    → Origin z rest middle after
    → Origin z (e ∷ rest) db after
rest-Origin z e rest db middle after o o' k i f = elim (o' k i f) [
  | inr new ↦ inr (inr new)
  | inl old ↦ elim (o k i old) [
    | inl older ↦ inl older
    | inr (inl new) ↦ inr (inl new)
    | inr (inr absent) ↦ absurd absent
  ]
]

-- The rest of the loop after a round that returned.
rest-Stored :
    (z : Digests) (e : NormalizedEvent) (rest : List NormalizedEvent) (n : ℕ) (db middle : Db)
    (x : Result ℕ × Db)
    → ItemsKept db middle
    → IsStored z middle e
    → Origin z (e ∷ []) db middle
    → Stored z rest middle x
    → Stored z (e ∷ rest) db (continue_with (λ m. pure (n + m)) x)
rest-Stored z e rest n db middle (err f, after) k s o h = tt
rest-Stored z e rest n db middle (ok m, after) k s o (k', all, o') = (
  ((λ key i f. k'.0 key i (k.0 key i f)), k'.1 ∙ k.1),
  (IsStored-kept z middle after e k' s, all),
  rest-Origin z e rest db middle after o o',
)

store_event_cases {ℓ} :
    (P : Result ℕ × Db → Type ℓ) (z : Digests) (e : NormalizedEvent) (db : Db)
    → P (err conflicting_item, db)
    → (IsStored z db e → P (ok 0, db))
    → (db.items (logical_key z e) ≡ none → P (ok 1, insert_item z e db))
    → P (store_event z e db)
unfolding store_event insert_or_compare
store_event_cases P z e db failed there fresh = elim (Option-cases (db.items (logical_key z e))) [
  | inl f ↦ subst (λ o. P (insert_or_compare z e o db)) (sym f) (fresh f)
  | inr (i, f) ↦
      subst (λ o. P (insert_or_compare z e o db)) (sym f)
        (elim (Bool-cases (is_same_item z e i)) [
          | inl s ↦ rw s (there (i, f, s))
          | inr s ↦ rw s failed
        ])
]

pub store_events-Stored :
    (z : Digests) (es : List NormalizedEvent) (db : Db) → Stored z es db (store_events z es db)
unfolding store_events
store_events-Stored z [] db = (((λ k i f. f), refl), tt, λ k i f. inl f)
store_events-Stored z (e ∷ rest) db =
    store_event_cases
      (λ x.
        Stored z (e ∷ rest) db
          (continue_with (λ n s. continue_with (λ m. pure (n + m)) (store_events z rest s)) x))
      z e db tt
      (λ s.
        rest-Stored z e rest 0 db db _ ((λ k i f. f), refl) s (λ k i f. inl f)
          (store_events-Stored z rest db))
      λ f.
        let middle = insert_item z e db in
        rest-Stored z e rest 1 db middle _ (insert_item-kept z e db f) (insert_item-IsStored z e db)
          (insert_item-Origin z e db) (store_events-Stored z rest middle)

-- What a batch that was stored has done.
abbrev pub BatchStored : Digests → RolloutBatch → Db → Result ℕ × Db → Type 0
BatchStored z b db x =
    (n : ℕ) × (middle : Db) × (x ≡ (ok n, set_cursor b.cursor middle))
    × ItemsKept db middle
    × All (IsStored z middle) b.events
    × Origin z b.events db middle
    × (cursor_refusal b.cursor (cursor_for b.cursor.source_path db) ≡ none)
    × (has_record_hash b.cursor ≡ true)

store_batch-outcome :
    (z : Digests) (b : RolloutBatch) (db : Db) (x : Result ℕ × Db)
    → Stored z b.events db x
    → cursor_refusal b.cursor (cursor_for b.cursor.source_path db) ≡ none
    → has_record_hash b.cursor ≡ true
    → ((e : Error) × (settle db (continue_with (λ n s. (ok n, set_cursor b.cursor s)) x)
          ≡ (err e, db)))
      ⊎ BatchStored z b db (settle db (continue_with (λ n s. (ok n, set_cursor b.cursor s)) x))
store_batch-outcome z b db (err e, after) h r k = inl (e, refl)
store_batch-outcome z b db (ok n, after) h r k = inr (n, after, refl, h.0, h.1, h.2, r, k)

pub store_rollout_batch-outcome :
    (z : Digests) (b : RolloutBatch) (db : Db)
    → ((e : Error) × (store_rollout_batch z b db ≡ (err e, db)))
      ⊎ BatchStored z b db (store_rollout_batch z b db)
unfolding store_rollout_batch store_batch
store_rollout_batch-outcome z b db =
    elim (Option-cases (cursor_refusal b.cursor (cursor_for b.cursor.source_path db))) [
      | inr (e, r) ↦ inl (e, rw r refl)
      | inl r ↦ elim (Bool-cases (has_record_hash b.cursor)) [
        | inr k ↦ inl (missing_record_hash, rw (r, k) refl)
        | inl k ↦
            subst (λ x. ((e : Error) × (x ≡ (err e, db))) ⊎ BatchStored z b db x)
              (sym (rw (r, k) refl))
              (store_batch-outcome z b db (store_events z b.events db)
                (store_events-Stored z b.events db) r k)
      ]
    ]

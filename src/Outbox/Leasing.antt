-- ===== src/Outbox/Leasing.antt =====
-- What `lease_outbox` returns and writes.
use codex_feishu.Prelude.{
  ℕ, suc, ◌<◌, Bool-cases, Option-cases, String, ◌≡◌, refl, true, false, not, ◌&&◌, Option, none,
  some, put_row, str_eq, inl, inr, ◌⊎◌, arith, Rows,
}
use codex_feishu.Exec.{Error, Result, ok, err, settle, value_error, permission_error}
use codex_feishu.Outbox.{Row, Db, is_closed, is_waiting}
use codex_feishu.Outbox.Queue.{
  Message, new_row, is_queued, is_message_type, enqueue_provider_message, expire_all, is_ready,
  is_blocked, same_turn, best_ready, leased_row, take_lease, lease_outbox, ensure_writable_sink,
}
use codex_feishu.Outbox.Selection.{IsBest, NoneReady, Chosen, best_ready-Chosen, not-exists_below}

-- The storage may hold provider work.
abbrev pub IsWritable : Db → Type 0
IsWritable db = (mode : String) × (db.sink_mode ≡ some mode) × (str_eq mode "shadow_only" ≡ false)

-- The expired leases are written, and then the lease of the chosen row, if there is one.
abbrev pub Leases : String → ℕ → ℕ → Db → Option (ℕ × Row) → Result (Option (ℕ × Row)) × Db → Type 0
Leases w until now db none r = r ≡ (ok none, record db { rows = expire_all now db.rows })
Leases w until now db (some (k, b)) r = r ≡ (
  ok (some (k, leased_row w until now b)),
  record db { rows = put_row k (leased_row w until now b) (expire_all now db.rows) },
)

pub ready_waiting :
    (rows : Rows Row) (now k : ℕ) (b : Row)
    → is_ready rows now k b ≡ true
    → is_waiting b.state ≡ true
unfolding is_ready
ready_waiting rows now k b r = ground arith

take_lease-Leases :
    (w : String) (until now : ℕ) (db : Db) (best : Option (ℕ × Row))
    → Chosen (expire_all now db.rows) now db.next_id best
    → Leases w until now db best
        (take_lease w until now best (record db { rows = expire_all now db.rows }))
unfolding take_lease
take_lease-Leases w until now db none h = refl
take_lease-Leases w until now db (some (k, b)) h =
    rw (ready_waiting (expire_all now db.rows) now k b h.ready) refl

settle-Leases :
    (w : String) (until now : ℕ) (db : Db) (best : Option (ℕ × Row))
    (r : Result (Option (ℕ × Row)) × Db)
    → Leases w until now db best r
    → Leases w until now db best (settle db r)
settle-Leases w until now db none r h = rw h refl
settle-Leases w until now db (some (k, b)) r h = rw h refl

pub ensure_writable_lem : (db : Db) → IsWritable db → ensure_writable_sink db ≡ (ok tt, db)
unfolding ensure_writable_sink
ensure_writable_lem db (mode, e, f) = ground arith

-- On storage that may hold provider work, `lease_outbox` returns: it marks the expired leases and
-- leases the best ready row, if there is one.
pub lease_outbox-Leases :
    (w : String) (until now : ℕ) (db : Db)
    → IsWritable db
    → Leases w until now db
        (best_ready (expire_all now db.rows) now db.next_id)
        (lease_outbox w until now db)
unfolding lease_outbox
lease_outbox-Leases w until now db h =
    rw (ensure_writable_lem db h, lease_outbox)
      (settle-Leases w until now db _ _ (
        take_lease-Leases w until now db _
          (best_ready-Chosen (expire_all now db.rows) now db.next_id)))

-- What a worker can rely on after `lease_outbox`: either no row was ready and none was returned, or
-- the row that is returned was ready, no ready row has a higher priority, each older ready row has
-- a lower one, and it is leased to the worker with one more attempt. In both cases every lease that
-- had run out is now of unknown outcome, and no other row has changed.
abbrev pub LeaseOutcome : String → ℕ → ℕ → Db → Type 0
LeaseOutcome w until now db =
    (NoneReady (expire_all now db.rows) now db.next_id
      × (lease_outbox w until now db ≡ (ok none, record db { rows = expire_all now db.rows })))
    ⊎ ((k : ℕ) × (b : Row) × IsBest (expire_all now db.rows) now db.next_id k b
        × (lease_outbox w until now db ≡ (
          ok (some (k, leased_row w until now b)),
          record db { rows = put_row k (leased_row w until now b) (expire_all now db.rows) },
        )))

outcome :
    (w : String) (until now : ℕ) (db : Db) (best : Option (ℕ × Row))
    → Chosen (expire_all now db.rows) now db.next_id best
    → Leases w until now db best (lease_outbox w until now db)
    → LeaseOutcome w until now db
outcome w until now db none c h = inl (c, h)
outcome w until now db (some (k, b)) c h = inr (k, b, c, h)

pub lease_outbox-LeaseOutcome :
    (w : String) (until now : ℕ) (db : Db) → IsWritable db → LeaseOutcome w until now db
lease_outbox-LeaseOutcome w until now db h =
    outcome w until now db (best_ready (expire_all now db.rows) now db.next_id)
      (best_ready-Chosen (expire_all now db.rows) now db.next_id)
      (lease_outbox-Leases w until now db h)

IsWritable-or_refused :
    (db : Db) → IsWritable db ⊎ ((e : Error) × (ensure_writable_sink db ≡ (err e, db)))
unfolding ensure_writable_sink
IsWritable-or_refused db = elim (Option-cases db.sink_mode) [
  | inl n ↦ inr (value_error, rw (n, ensure_writable_sink) refl)
  | inr (mode, e) ↦ elim (Bool-cases (str_eq mode "shadow_only")) [
    | inl s ↦ inr (permission_error, rw (e, s, ensure_writable_sink) refl)
    | inr f ↦ inl (mode, e, f)
  ]
]

pub lease_outbox_cases :
    (w : String) (until now : ℕ) (db : Db)
    → LeaseOutcome w until now db ⊎ ((lease_outbox w until now db).1 ≡ db)
lease_outbox_cases w until now db = elim (IsWritable-or_refused db) [
  | inl h ↦ inl (lease_outbox-LeaseOutcome w until now db h)
  | inr (x, e) ↦ inr (unfold lease_outbox in rw (e, lease_outbox) refl)
]

pub enqueue_cases {ℓ} :
    (P : Db → Type ℓ) (m : Message) (now : ℕ) (db : Db)
    → P db
    → (IsWritable db
        → is_message_type m.message_type ≡ true
        → not (is_queued m.logical_message_id db) ≡ true
        → P (record db {
          rows = put_row db.next_id (new_row m now) db.rows;
          next_id = suc db.next_id;
        }))
    → P (enqueue_provider_message m now db).1
unfolding enqueue_provider_message
enqueue_cases P m now db failed added = elim (IsWritable-or_refused db) [
  | inr (x, e) ↦ rw (e, enqueue_provider_message) failed
  | inl h ↦ elim (Bool-cases (is_message_type m.message_type)) [
    | inr t ↦ rw (ensure_writable_lem db h, t, enqueue_provider_message) failed
    | inl t ↦ elim (Bool-cases (not (is_queued m.logical_message_id db))) [
      | inr q ↦ rw (ensure_writable_lem db h, t, q, enqueue_provider_message) failed
      | inl q ↦ rw (ensure_writable_lem db h, t, q, enqueue_provider_message) (added h t q)
    ]
  ]
]

-- A chosen row comes after closed rows only, among those of its turn.
pub unblocked :
    (rows : Rows Row) (now k : ℕ) (b : Row)
    → is_ready rows now k b ≡ true
    → (i : ℕ) (a : Row) → i < k
    → rows i ≡ some a
    → same_turn a b ≡ true
    → is_closed a.state ≡ true
unfolding is_ready is_blocked
unblocked rows now k b ready i a lt e s = ground (
  arith,
  not-exists_below (λ _ x. same_turn x b && not (is_closed x.state)) rows k i a
      (ground (arith, ready)) lt e,
)

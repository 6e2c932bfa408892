-- ===== src/Outbox/Lease.antt =====
-- `lease_outbox` against an independent description of the rows that may be leased.
use codex_feishu.Prelude.{
  ℕ, zero, suc, ◌≤◌, ◌<◌, ◌+◌, Bool-cases, Option-cases, String, ◌≡◌, ◌↔◌, ◌∙◌, refl, sym, subst,
  Bool, true, false, not, ◌&&◌, Option, none, some, Rows, put_row, inl, inr, ◌⊎◌, arith,
  opt_str_eq_iff,
}
use codex_feishu.Exec.{Result, ok}
use codex_feishu.Outbox.{OutboxState, Row, Db, exists_below, is_closed, is_leased, is_waiting}
use codex_feishu.Outbox.Queue.{
  expire, expire_all, is_overdue, is_ready, is_blocked, same_turn, leased_row, lease_outbox,
}
use codex_feishu.Outbox.Selection.{NoneReady, IsBest, not-exists_below}
use codex_feishu.Outbox.Leasing.{IsWritable, lease_outbox-LeaseOutcome}

-- A state in which a row no longer holds its turn up.
abbrev pub IsDone : OutboxState → Type 0
IsDone s =
    (s ≡ OutboxState.confirmed)
    ⊎ ((s ≡ OutboxState.permanent)
        ⊎ ((s ≡ OutboxState.delivery_indeterminate)
            ⊎ ((s ≡ OutboxState.retention_policy_blocked) ⊎ (s ≡ OutboxState.final_undelivered))))

-- The row `r` under the key `k` may be leased: it waits, it is due, and every earlier row of its turn
-- is done.
abbrev pub MayLease : Rows Row → ℕ → ℕ → Row → Type 0
MayLease rows now k r =
    ((r.state ≡ OutboxState.pending) ⊎ (r.state ≡ OutboxState.retryable))
    × (r.next_attempt_at ≤ now)
    × ((i : ℕ) (e : Row) (t : String)
        → i < k
        → rows i ≡ some e
        → e.turn_id ≡ some t
        → r.turn_id ≡ some t
        → IsDone e.state)

IsDone-sound : (s : OutboxState) → is_closed s ≡ true → IsDone s
unfolding is_closed
IsDone-sound s h = ground arith

IsDone-complete : (s : OutboxState) → IsDone s → is_closed s ≡ true
unfolding is_closed
IsDone-complete s h = ground (arith, h)

waits :
    (s : OutboxState)
    → (is_waiting s ≡ true) ↔ ((s ≡ OutboxState.pending) ⊎ (s ≡ OutboxState.retryable))
unfolding is_waiting
waits s = ground arith

-- A test that some row below `n` passes.
exists_below_row :
    (test : ℕ → Row → Bool) (rows : Rows Row) (n : ℕ)
    → exists_below test rows n ≡ true
    → (i : ℕ) × (r : Row) × (i < n) × (rows i ≡ some r) × (test i r ≡ true)
unfolding exists_below
exists_below_row test rows zero h = absurd (ground (arith, h))
exists_below_row test rows (suc n) h = elim (Bool-cases (exists_below test rows n)) [
  | inl e ↦ let (i, r, lt, f, t) = exists_below_row test rows n e in (i, r, omega (arith, lt), f, t)
  | inr e ↦ elim (Option-cases (rows n)) [
    | inl f ↦ absurd (ground (arith, h, e, f))
    | inr (r, f) ↦ (n, r, omega arith, f, ground (arith, h, e, f))
  ]
]

closed_before :
    (rows : Rows Row) (now k : ℕ) (r : Row)
    → is_ready rows now k r ≡ true
    → (i : ℕ) (e : Row) → i < k
    → rows i ≡ some e
    → same_turn e r ≡ true
    → is_closed e.state ≡ true
unfolding is_ready is_blocked
closed_before rows now k r h i e lt f s = ground (
  arith,
  not-exists_below (λ _ x. same_turn x r && not (is_closed x.state)) rows k i e (ground (arith, h))
      lt f,
  s,
)

turn_is : (e r : Row) (t : String) → e.turn_id ≡ some t → r.turn_id ≡ some t → same_turn e r ≡ true
turn_is e r t f g = ground (arith, f, g, (opt_str_eq_iff e.turn_id r.turn_id).1 (f ∙ sym g))

turn_of :
    (e r : Row) → same_turn e r ≡ true → (t : String) × (e.turn_id ≡ some t) × (r.turn_id ≡ some t)
turn_of e r h = elim (Option-cases e.turn_id) [
  | inl f ↦ absurd (ground (arith, h, f))
  | inr (t, f) ↦ (t, f, sym ((opt_str_eq_iff e.turn_id r.turn_id).0 (ground (arith, h))) ∙ f)
]

not_blocked :
    (rows : Rows Row) (now k : ℕ) (r : Row) → MayLease rows now k r → is_blocked rows k r ≡ false
unfolding is_blocked
not_blocked rows now k r (w, due, done) = elim (Bool-cases (is_blocked rows k r)) [
  | inr e ↦ e
  | inl e ↦
      let (i, q, lt, f, h) = exists_below_row _ rows k e in
      let (t, a, b) = turn_of q r (ground (arith, h)) in
      absurd (ground (arith, h, IsDone-complete q.state (done i q t lt f a b)))
]

is_ready-MayLease :
    (rows : Rows Row) (now k : ℕ) (r : Row) → is_ready rows now k r ≡ true → MayLease rows now k r
unfolding is_ready
is_ready-MayLease rows now k r h = (
  (waits r.state).0 (ground (arith, h)),
  ground (arith, h),
  λ i e t lt f same this.
      IsDone-sound e.state (closed_before rows now k r h i e lt f (turn_is e r t same this)),
)

MayLease-is_ready :
    (rows : Rows Row) (now k : ℕ) (r : Row) → MayLease rows now k r → is_ready rows now k r ≡ true
unfolding is_ready
MayLease-is_ready rows now k r (w, due, done) =
    ground (arith, (waits r.state).1 w, due, not_blocked rows now k r (w, due, done))

-- A lease ran out at `now`.
abbrev pub HasExpired : ℕ → Row → Type 0
HasExpired now r =
    (r.state ≡ OutboxState.leased) × (t : ℕ) × (r.lease_expires_at ≡ some t) × (t ≤ now)

-- The row after the expiry of leases: a lease that ran out is of unknown outcome and has no owner, and
-- every other row is the same.
abbrev pub Expiry : ℕ → Row → Row → Type 0
Expiry now r s =
    (HasExpired now r
      × (s ≡ record r {
        state = OutboxState.unknown;
        last_error_code = some "lease_expired";
        lease_owner = none;
        lease_expires_at = none;
      }))
    ⊎ (¬ HasExpired now r × (s ≡ r))

expire-Expiry : (now : ℕ) (r : Row) → Expiry now r (expire now r)
unfolding expire is_leased is_overdue
expire-Expiry now r = elim (Bool-cases (is_leased r.state && is_overdue r now)) [
  | inl e ↦ elim (Option-cases r.lease_expires_at) [
    | inl f ↦ absurd (ground (arith, e, f))
    | inr (t, f) ↦ inl ((ground (arith, e), t, f, ground (arith, e, f)), rw (e, expire) refl)
  ]
  | inr e ↦ inr ((λ (s, t, f, h). ground (arith, e, s, f, h)), rw (e, expire) refl)
]

-- The rows after the expiry of leases.
abbrev pub Expires : ℕ → Rows Row → Rows Row → Type 0
Expires now rows after =
    ((i : ℕ) (r : Row) → rows i ≡ some r → (s : Row) × (after i ≡ some s) × Expiry now r s)
    × ((i : ℕ) → rows i ≡ none → after i ≡ none)

expire_all-Expires : (now : ℕ) (rows : Rows Row) → Expires now rows (expire_all now rows)
expire_all-Expires now rows = (
  (λ i r e. (expire now r, rw (e, expire_all) refl, expire-Expiry now r)),
  λ i e. rw (e, expire_all) refl,
)

-- No row below `n` may be leased.
abbrev pub NoneMayLease : Rows Row → ℕ → ℕ → Type 0
NoneMayLease rows now n = (i : ℕ) (r : Row) → i < n → rows i ≡ some r → ¬ MayLease rows now i r

-- The row `b` under `k` may be leased, no row that may has a higher priority, and no older row that
-- may has the same one.
abbrev pub IsFirst : Rows Row → ℕ → ℕ → ℕ → Row → Type 0
IsFirst rows now n k b =
    (k < n)
    × (rows k ≡ some b)
    × MayLease rows now k b
    × ((i : ℕ) (r : Row)
        → i < n
        → rows i ≡ some r
        → MayLease rows now i r
        → r.priority ≤ b.priority)
    × ((i : ℕ) (r : Row)
        → i < k
        → rows i ≡ some r
        → MayLease rows now i r
        → r.priority < b.priority)

-- The row `b` with a lease.
abbrev pub with_lease : String → ℕ → ℕ → Row → Row
with_lease w until now b = record b {
  state = OutboxState.leased;
  lease_owner = some w;
  lease_expires_at = some until;
  attempt_count = b.attempt_count + 1;
  first_attempt_at = elim b.first_attempt_at [ none ↦ some now | some t ↦ some t ];
}

leased_row-with_lease :
    (w : String) (until now : ℕ) (b : Row) → leased_row w until now b ≡ with_lease w until now b
unfolding leased_row
leased_row-with_lease w until now b = elim (Option-cases b.first_attempt_at) [
  | inl e ↦ rw e refl
  | inr (t, e) ↦ rw e refl
]

abbrev pub LeasesFirst : String → ℕ → ℕ → Db → Result (Option (ℕ × Row)) × Db → Type 0
LeasesFirst w until now db x =
    (rows : Rows Row) × Expires now db.rows rows
    × ((NoneMayLease rows now db.next_id × (x ≡ (ok none, record db { rows = rows })))
        ⊎ ((k : ℕ) × (b : Row) × IsFirst rows now db.next_id k b
            × (x ≡ (
              ok (some (k, with_lease w until now b)),
              record db { rows = put_row k (with_lease w until now b) rows },
            ))))

NoneReady-NoneMayLease :
    (rows : Rows Row) (now n : ℕ) → NoneReady rows now n → NoneMayLease rows now n
NoneReady-NoneMayLease rows now n h i r lt e may =
    ground (arith, h i r lt e, MayLease-is_ready rows now i r may)

IsBest-IsFirst :
    (rows : Rows Row) (now n k : ℕ) (b : Row) → IsBest rows now n k b → IsFirst rows now n k b
IsBest-IsFirst rows now n k b h = (
  h.in_range,
  h.stored,
  is_ready-MayLease rows now k b h.ready,
  (λ i r lt e may. h.top i r lt e (MayLease-is_ready rows now i r may)),
  λ i r lt e may. h.first i r lt e (MayLease-is_ready rows now i r may),
)

-- If storage may hold provider work, then `lease_outbox` returns. First every lease that has run out
-- is given up: its row is of unknown outcome and has no owner; no other row changes by this. Then
-- either no row waits, is due and has only done rows before it in its turn, and nothing is returned;
-- or of those rows one of highest priority, the oldest among these, is returned and stored as leased
-- to the worker until the time given, with one attempt more, and no other row changes.
pub lease_outbox-LeasesFirst :
    (w : String) (until now : ℕ) (db : Db)
    → IsWritable db
    → LeasesFirst w until now db (lease_outbox w until now db)
lease_outbox-LeasesFirst w until now db h = (
  expire_all now db.rows,
  expire_all-Expires now db.rows,
  elim (lease_outbox-LeaseOutcome w until now db h) [
    | inl (idle, e) ↦ inl (NoneReady-NoneMayLease (expire_all now db.rows) now db.next_id idle, e)
    | inr (k, b, best, e) ↦ inr (
      k,
      b,
      IsBest-IsFirst (expire_all now db.rows) now db.next_id k b best,
      subst
          (λ r.
            lease_outbox w until now db
            ≡ (ok (some (k, r)), record db { rows = put_row k r (expire_all now db.rows) }))
          (leased_row-with_lease w until now b) e,
    )
  ],
)

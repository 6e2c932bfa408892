-- ===== src/Outbox/Selection.antt =====
-- What the SELECT of `lease_outbox` finds.
use mathlib.Core.Bool.{false≢true}
use codex_feishu.Prelude.{
  ℕ, zero, suc, ◌≤◌, ◌<◌, ◌≡◌, refl, Bool, true, false, Option, none, some, Rows, ltb, arith, ◌⊎◌,
  inl, inr, Bool-cases, ◌==◌, ==_iff, ap, sym, subst, ◌∙◌,
}
use codex_feishu.Outbox.{Row, exists_below}
use codex_feishu.Outbox.Queue.{is_ready, prefer, consider, best_ready}

pub below_suc : (i n : ℕ) → i < suc n → (i ≡ n) ⊎ (i < n)
below_suc i n lt = elim (Bool-cases (i == n)) [
  | inl s ↦ inl ((==_iff i n).0 s)
  | inr d ↦ inr (ground arith)
]

-- What holds of every row below `n` and of row `n` holds of every row below `n + 1`.
all_below_suc :
    (P : ℕ → Row → Type 0) (rows : Rows Row) (n : ℕ)
    → ((i : ℕ) (r : Row) → i < n → rows i ≡ some r → P i r)
    → ((r : Row) → rows n ≡ some r → P n r)
    → (i : ℕ) (r : Row) → i < suc n
    → rows i ≡ some r
    → P i r
all_below_suc P rows n old new i r lt e = elim (below_suc i n lt) [
  | inl same ↦ subst (λ j. rows j ≡ some r → P j r) (sym same) (new r) e
  | inr less ↦ old i r less e
]

-- A test that no row below `n` passes.
pub not-exists_below :
    (test : ℕ → Row → Bool) (rows : Rows Row) (n i : ℕ) (r : Row)
    → exists_below test rows n ≡ false
    → i < n
    → rows i ≡ some r
    → test i r ≡ false
unfolding exists_below
not-exists_below test rows zero i r h lt e = elim lt [ ]
not-exists_below test rows (suc n) i r h lt e = elim (below_suc i n lt) [
  | inl same ↦ ground (arith, ap rows same)
  | inr less ↦ not-exists_below test rows n i r (ground arith) less e
]

-- `k` and `b` stand for the row that is chosen from those below `n`.
pub record IsBest (rows : Rows Row) (now n k : ℕ) (b : Row) : Type 0 where
  pub in_range : k < n
  pub stored : rows k ≡ some b
  pub ready : is_ready rows now k b ≡ true
  pub top :
      (i : ℕ) (r : Row)
      → i < n
      → rows i ≡ some r
      → is_ready rows now i r ≡ true
      → r.priority ≤ b.priority
  pub first :
      (i : ℕ) (r : Row)
      → i < k
      → rows i ≡ some r
      → is_ready rows now i r ≡ true
      → r.priority < b.priority

-- No row below `n` is ready.
abbrev pub NoneReady : Rows Row → ℕ → ℕ → Type 0
NoneReady rows now n = (i : ℕ) (r : Row) → i < n → rows i ≡ some r → is_ready rows now i r ≡ false

abbrev pub Chosen : Rows Row → ℕ → ℕ → Option (ℕ × Row) → Type 0
Chosen rows now n none = NoneReady rows now n
Chosen rows now n (some (k, b)) = IsBest rows now n k b

row_is : (rows : Rows Row) (n : ℕ) (r q : Row) → rows n ≡ some r → rows n ≡ some q → r ≡ q
row_is rows n r q e f = cc

skip-Chosen :
    (rows : Rows Row) (now n : ℕ) (r : Row) (best : Option (ℕ × Row))
    → rows n ≡ some r
    → is_ready rows now n r ≡ false
    → Chosen rows now n best
    → Chosen rows now (suc n) best
skip-Chosen rows now n r none e idle h =
    all_below_suc (λ i q. is_ready rows now i q ≡ false) rows n h
      λ q f. rw (← row_is rows n r q e f) idle
skip-Chosen rows now n r (some (k, b)) e idle h = record {
  in_range = omega (arith, h.in_range);
  stored = h.stored;
  ready = h.ready;
  top =
      all_below_suc (λ i q. is_ready rows now i q ≡ true → q.priority ≤ b.priority) rows n h.top
        λ q f t. absurd (false≢true (sym idle ∙ rw (row_is rows n r q e f) t));
  first = h.first;
}

prefer-Chosen :
    (rows : Rows Row) (now n : ℕ) (r : Row) (best : Option (ℕ × Row))
    → rows n ≡ some r
    → is_ready rows now n r ≡ true
    → Chosen rows now n best
    → Chosen rows now (suc n) (prefer n r best)
unfolding prefer
prefer-Chosen rows now n r none e ready h = record {
  in_range = omega arith;
  stored = e;
  ready = ready;
  top =
      all_below_suc (λ i q. is_ready rows now i q ≡ true → q.priority ≤ r.priority) rows n
        (λ i q lt f t. absurd (false≢true (sym (h i q lt f) ∙ t)))
        λ q f t. rw (row_is rows n r q e f) (omega arith);
  first = λ i q lt f t. absurd (false≢true (sym (h i q lt f) ∙ t));
}
prefer-Chosen rows now n r (some (k, b)) e ready h = elim (Bool-cases (ltb b.priority r.priority)) [
  | inl higher ↦
      rw (higher, prefer)
        (record {
          in_range = omega arith;
          stored = e;
          ready = ready;
          top =
              all_below_suc (λ i q. is_ready rows now i q ≡ true → q.priority ≤ r.priority) rows n
                (λ i q lt f t. ground (arith, h.top i q lt f t))
                λ q f t. rw (row_is rows n r q e f) (omega arith);
          first = λ i q lt f t. ground (arith, h.top i q lt f t);
        })
  | inr lower ↦
      rw (lower, prefer)
        (record {
          in_range = omega (arith, h.in_range);
          stored = h.stored;
          ready = h.ready;
          top =
              all_below_suc (λ i q. is_ready rows now i q ≡ true → q.priority ≤ b.priority) rows n
                h.top λ q f t. rw (← row_is rows n r q e f) (ground arith);
          first = h.first;
        })
]

consider-Chosen :
    (rows : Rows Row) (now n : ℕ) (o : Option Row) (best : Option (ℕ × Row))
    → rows n ≡ o
    → Chosen rows now n best
    → Chosen rows now (suc n) (consider rows now n o best)
unfolding consider
consider-Chosen rows now n none none e h =
    all_below_suc (λ i r. is_ready rows now i r ≡ false) rows n h (λ r f. cc)
consider-Chosen rows now n none (some (k, b)) e h = record {
  in_range = omega (arith, h.in_range);
  stored = h.stored;
  ready = h.ready;
  top =
      all_below_suc (λ i r. is_ready rows now i r ≡ true → r.priority ≤ b.priority) rows n h.top
        (λ r f. cc);
  first = h.first;
}
consider-Chosen rows now n (some r) best e h = elim (Bool-cases (is_ready rows now n r)) [
  | inr idle ↦ rw (idle, consider) (skip-Chosen rows now n r best e idle h)
  | inl ready ↦ rw (ready, consider) (prefer-Chosen rows now n r best e ready h)
]

pub best_ready-Chosen : (rows : Rows Row) (now n : ℕ) → Chosen rows now n (best_ready rows now n)
unfolding best_ready
best_ready-Chosen rows now zero = λ i r lt. absurd (omega arith)
best_ready-Chosen rows now (suc n) =
    consider-Chosen rows now n (rows n) (best_ready rows now n) refl (best_ready-Chosen rows now n)

-- ===== src/Audit/Chain.antt =====
-- The audit chain: what `verify` accepts, that `append` keeps it so, and that the last HMAC binds
-- all rows before it.
use codex_feishu.Prelude.{
  ℕ, ◌+◌, String, ◌≡◌, refl, sym, ap, ◌∙◌, ◌↔◌, ◌⊎◌, inl, inr, true, Option, none, some, List, [],
  ◌∷◌, ◌++◌, length, length-append, Bool-cases, eq_iff, opt_str_eq_iff, arith,
}
use codex_feishu.Exec.{Error, ok, err, forbidden_audit_field, integrity_error}
use codex_feishu.Json.{Fields}
use codex_feishu.Audit.{
  Hashing, AuditRow, Chain, last_row, link, next_sequence, hmac_of, next_row, has_hmac,
  fields_body_free, append, check_row, verify_from, verify,
}

-- The rows of `xs` follow `n` rows that end in `previous_hmac`: each is numbered, points back and
-- is signed.
abbrev pub IsLinked : Hashing → ℕ → Option String → Chain → Type 0
IsLinked z n p [] = Unit
IsLinked z n p (r ∷ rest) =
    ((r.sequence ≡ n + 1) × (r.previous_hmac ≡ p) × (z.sign (link p r.record_hash) ≡ r.record_hmac))
    × IsLinked z (n + 1) (some r.record_hmac) rest

check_row-none :
    (z : Hashing) (n : ℕ) (p : Option String) (r : AuditRow)
    → (check_row z n p r ≡ none) ↔ (
        (r.sequence ≡ n + 1)
        × (r.previous_hmac ≡ p)
        × (z.sign (link p r.record_hash) ≡ r.record_hmac))
unfolding check_row
check_row-none z n p r =
    ground (
      arith,
      opt_str_eq_iff r.previous_hmac p,
      eq_iff (z.sign (link p r.record_hash)) r.record_hmac,
    )

verify_from-IsLinked :
    (z : Hashing) (n m : ℕ) (p : Option String) (xs : Chain)
    → (verify_from z n p xs ≡ ok m) ↔ (IsLinked z n p xs × (m ≡ n + length xs))
unfolding verify_from
verify_from-IsLinked z n m p [] = ground arith
verify_from-IsLinked z n m p (r ∷ rest) =
    ground
      (arith, check_row-none z n p r, verify_from-IsLinked z (n + 1) m (some r.record_hmac) rest)

-- `verify` accepts exactly the linked chains and returns the number of their rows.
pub verify-IsLinked :
    (z : Hashing) (xs : Chain) (m : ℕ)
    → (verify z xs ≡ ok m) ↔ (IsLinked z 0 none xs × (m ≡ length xs))
verify-IsLinked z xs m = ground (arith, verify_from-IsLinked z 0 m none xs)

-- The HMAC that the row after `xs` has to point back to.
abbrev pub hmac_after : Option String → Chain → Option String
hmac_after p [] = p
hmac_after p (r ∷ rest) = hmac_after (some r.record_hmac) rest

last_row-IsLinked :
    (z : Hashing) (n : ℕ) (p : Option String) (r : AuditRow) (rest : Chain)
    → IsLinked z n p (r ∷ rest)
    → (l : AuditRow) × (last_row (r ∷ rest) ≡ some l)
      × (l.sequence ≡ n + length (r ∷ rest))
      × (hmac_after p (r ∷ rest) ≡ some l.record_hmac)
unfolding last_row
last_row-IsLinked z n p r [] h = (r, refl, ground (arith, h), refl)
last_row-IsLinked z n p r (s ∷ rest) h =
    let (l, e, q, a) = last_row-IsLinked z (n + 1) (some r.record_hmac) s rest h.1 in
    (l, rw e, ground (arith, q), a)

-- What `append` reads off the last row is what the next row needs.
last_row-next :
    (z : Hashing) (xs : Chain)
    → IsLinked z 0 none xs
    → (next_sequence (last_row xs) ≡ length xs + 1) × (hmac_of (last_row xs) ≡ hmac_after none xs)
unfolding last_row
last_row-next z [] h = (refl, refl)
last_row-next z (r ∷ rest) h =
    let (l, e, q, a) = last_row-IsLinked z 0 none r rest h in
    (ap next_sequence e ∙ ground (arith, q), ap hmac_of e ∙ sym a)

IsLinked-snoc :
    (z : Hashing) (n : ℕ) (p : Option String) (xs : Chain) (r : AuditRow)
    → IsLinked z n p xs
    → IsLinked z (n + length xs) (hmac_after p xs) (r ∷ [])
    → IsLinked z n p (xs ++ (r ∷ []))
IsLinked-snoc z n p [] r h k = ground (arith, k)
IsLinked-snoc z n p (x ∷ xs) r h k =
    (h.0, IsLinked-snoc z (n + 1) (some x.record_hmac) xs r h.1 ground (arith, k))

next_row-IsLinked :
    (z : Hashing) (event : Fields) (now : String) (xs : Chain)
    → IsLinked z 0 none xs
    → IsLinked z 0 none (xs ++ (next_row z (last_row xs) event now ∷ []))
unfolding next_row
next_row-IsLinked z event now xs h =
    let (s, p) = last_row-next z xs h in
    IsLinked-snoc z 0 none xs _ h (
      (
        omega (arith, s),
        p,
        ap (λ q. z.sign (link q (next_row z (last_row xs) event now).record_hash)) (sym p),
      ),
      tt,
    )

-- An append that returns made the row it returns the last one; one that raises wrote nothing.
append_cases :
    (z : Hashing) (event : Fields) (now : String) (xs : Chain)
    → ((e : Error) × (append z event now xs ≡ (err e, xs)))
      ⊎ ((fields_body_free z event ≡ true)
          × (append z event now xs ≡ (
            ok (next_row z (last_row xs) event now),
            xs ++ (next_row z (last_row xs) event now ∷ []),
          )))
unfolding append
append_cases z event now xs = elim (Bool-cases (fields_body_free z event)) [
  | inr e ↦ inl (forbidden_audit_field, rw e refl)
  | inl e ↦ elim (Bool-cases (has_hmac (next_row z (last_row xs) event now).record_hmac xs)) [
    | inl f ↦ inl (integrity_error, rw (e, f) refl)
    | inr f ↦ inr (e, rw (e, f) refl)
  ]
]

-- `append` raises and leaves the chain as it was, or the event was free of forbidden keys and, if
-- `verify` accepted the chain before, it accepts it with one row more now.
pub append-verify :
    (z : Hashing) (event : Fields) (now : String) (xs : Chain) (n : ℕ)
    → verify z xs ≡ ok n
    → ((e : Error) × (append z event now xs ≡ (err e, xs)))
      ⊎ ((fields_body_free z event ≡ true) × (verify z (append z event now xs).1 ≡ ok (n + 1)))
append-verify z event now xs n h = elim (append_cases z event now xs) [
  | inl e ↦ inl e
  | inr (f, e) ↦
      let (linked, count) = (verify-IsLinked z xs n).0 h in
      inr (
        f,
        ap (λ r. verify z r.1) e
            ∙ (verify-IsLinked z _ (n + 1)).1 (
              next_row-IsLinked z event now xs linked,
              omega (arith, count, length-append xs (next_row z (last_row xs) event now ∷ [])),
            ),
      )
]

-- The appends of a history, each of them raising or not.
unfoldable pub appends : Hashing → Chain → List (Fields × String) → Chain
appends z xs [] = xs
appends z xs ((event, now) ∷ rest) = appends z (append z event now xs).1 rest

appends-IsLinked :
    (z : Hashing) (xs : Chain) (events : List (Fields × String))
    → IsLinked z 0 none xs
    → IsLinked z 0 none (appends z xs events)
unfolding appends
appends-IsLinked z xs [] h = h
appends-IsLinked z xs ((event, now) ∷ rest) h =
    appends-IsLinked z (append z event now xs).1 rest (elim (append_cases z event now xs) [
      | inl (e, f) ↦ rw f h
      | inr (_, f) ↦ rw f (next_row-IsLinked z event now xs h)
    ])

-- Whatever events were appended to an empty chain, with some refused or not, `verify` accepts the
-- chain and returns the number of its rows.
pub appends-verify :
    (z : Hashing) (events : List (Fields × String))
    → verify z (appends z [] events) ≡ ok (length (appends z [] events))
appends-verify z events = (verify-IsLinked z _ _).1 (appends-IsLinked z [] events tt, refl)

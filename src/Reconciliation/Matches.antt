-- ===== src/Reconciliation/Matches.antt =====
-- What the loop of `reconcile` has read where it ends with all matches.
use mathlib.Core.Option.{none-ne-some}
use mathlib.Core.List.{append_assoc}
use codex_feishu.Prelude.{
  ℕ, zero, suc, String, ◌≡◌, refl, sym, ap, ◌⊎◌, ◌∙◌, inl, inr, Bool, true, false, Option, some,
  List, [], ◌++◌, Option-cases, false-true,
}
use codex_feishu.Exec.{Error, Result, ok, err}
use codex_feishu.Json.{Json, Items}
use codex_feishu.Outbox.{Row}
use codex_feishu.Reconciliation.{
  Provider, Page, Search, Next, match_items, read_page, new_token, follow_token, turn_page,
  turn_matched, after_page, search_history, proceed,
}

-- A history that was read from one call on to its last page, and the matches of its items in order.
pub data IsRead (z : Provider) (r : Row) (chat : Option String)
    : ℕ → Option String → List String → Type 0 where
  last :
      (i : ℕ) (token : Option String) (items : Items) (next : Option Json) (ids : List String)
      → read_page (z.list_messages chat i token) ≡ Page.page items false next
      → match_items z r items ≡ ok ids
      → IsRead z r chat i token ids
  more :
      (i : ℕ) (token : Option String) (items : Items) (next : Option Json) (t : String)
      (ids rest : List String)
      → read_page (z.list_messages chat i token) ≡ Page.page items true next
      → match_items z r items ≡ ok ids
      → new_token token next ≡ some t
      → IsRead z r chat (suc i) (some t) rest
      → IsRead z r chat i token (ids ++ rest)

-- How the loop goes on behind a page, by cases.
pub data Turned (z : Provider) (r : Row) (token : Option String) (found : List String) (p : Page)
    : Next → Type 0 where
  raised : (e : Error) → Turned z r token found p (Next.stop (err e))
  left :
      (reason : String) (ids : List String)
      → Turned z r token found p (Next.stop (ok (Search.given_up reason ids)))
  ended :
      (items : Items) (next : Option Json) (ids : List String)
      → p ≡ Page.page items false next
      → match_items z r items ≡ ok ids
      → Turned z r token found p (Next.stop (ok (Search.complete (found ++ ids))))
  turned :
      (items : Items) (next : Option Json) (t : String) (ids : List String)
      → p ≡ Page.page items true next
      → match_items z r items ≡ ok ids
      → new_token token next ≡ some t
      → Turned z r token found p (Next.ask t (found ++ ids))

Result-cases : {A : Type 0} (x : Result A) → ((a : A) × (x ≡ ok a)) ⊎ ((e : Error) × (x ≡ err e))
Result-cases (ok a) = inl (a, refl)
Result-cases (err e) = inr (e, refl)

page-Turned :
    (z : Provider) (r : Row) (token : Option String) (found : List String) (items : Items)
    (has_more : Bool) (next : Option Json) (ids : List String)
    → match_items z r items ≡ ok ids
    → Turned z r token found
        (Page.page items has_more next)
        (turn_page token (found ++ ids) has_more next)
unfolding turn_page follow_token
page-Turned z r token found items false next ids e = Turned.ended items next ids refl e
page-Turned z r token found items true next ids e = elim (Option-cases (new_token token next)) [
  | inl f ↦ rw f (Turned.left "reconciliation_invalid_page_token" (found ++ ids))
  | inr (t, f) ↦ rw f (Turned.turned items next t ids refl e f)
]

pub after_page-Turned :
    (z : Provider) (r : Row) (token : Option String) (found : List String) (p : Page)
    → Turned z r token found p (after_page z r token found p)
unfolding after_page turn_matched
after_page-Turned z r token found Page.unavailable =
    Turned.left "reconciliation_provider_unavailable" found
after_page-Turned z r token found Page.invalid = Turned.left "reconciliation_invalid_response" found
after_page-Turned z r token found (Page.page items has_more next) =
    elim (Result-cases (match_items z r items)) [
      | inl (ids, e) ↦ rw e (page-Turned z r token found items has_more next ids e)
      | inr (e, f) ↦ rw f (Turned.raised e)
    ]

-- The matches of a completed search.
value : Option (Result Search) → List String
value (some (ok (Search.complete ms))) = ms
value x = []

is_completed : Option (Result Search) → Bool
is_completed (some (ok (Search.complete ms))) = true
is_completed x = false

module _ (z : Provider) (r : Row) (chat : Option String) where
  abbrev pub Completes : Option (Result Search) → ℕ → Option String → List String → Type 0
  Completes x i token found =
      (ms : List String)
      → x ≡ some (ok (Search.complete ms))
      → (rest : List String) × IsRead z r chat i token rest × (ms ≡ found ++ rest)

  step-Completes :
      (fuel i : ℕ) (token : Option String) (found : List String)
      → ((t : String) (ids : List String)
          → Completes (search_history z r chat fuel (suc i) (some t) ids) (suc i) (some t) ids)
      → (n : Next) → Turned z r token found (read_page (z.list_messages chat i token)) n
      → Completes
          (proceed (λ t ids. search_history z r chat fuel (suc i) (some t) ids) n)
          i
          token
          found
  unfolding proceed value is_completed
  step-Completes fuel i token found ih _ (Turned.raised e) ms h =
      absurd (false-true (ap is_completed h))
  step-Completes fuel i token found ih _ (Turned.left reason ids) ms h =
      absurd (false-true (ap is_completed h))
  step-Completes fuel i token found ih _ (Turned.ended items next ids e f) ms h =
      (ids, IsRead.last i token items next ids e f, sym (ap value h))
  step-Completes fuel i token found ih _ (Turned.turned items next t ids e f g) ms h =
      let (rest, read, k) = ih t (found ++ ids) ms h in
      (
        ids ++ rest,
        IsRead.more i token items next t ids rest e f g read,
        k ∙ append_assoc found ids rest,
      )

  -- A search that ends with all matches has read the history to its end, and adds its matches.
  pub search_history-Completes :
      (fuel i : ℕ) (token : Option String) (found : List String)
      → Completes (search_history z r chat fuel i token found) i token found
  unfolding search_history
  search_history-Completes zero i token found ms h =
      absurd (none-ne-some (ok (Search.complete ms)) h)
  search_history-Completes (suc fuel) i token found ms h =
      step-Completes fuel i token found
        (λ t ids. search_history-Completes fuel (suc i) (some t) ids)
        (after_page z r token found (read_page (z.list_messages chat i token)))
        (after_page-Turned z r token found (read_page (z.list_messages chat i token))) ms h

-- ===== src/Reconciliation/Termination.antt =====
-- The loop of `reconcile` ends where the provider's pages do.
use codex_feishu.Prelude.{
  ℕ, zero, suc, ◌+◌, ◌<◌, String, ◌≡◌, refl, sym, subst, inl, inr, Bool, true, not, arith, Option,
  none, some, List, [], ◌++◌, Bool-cases, false-true,
}
use codex_feishu.Exec.{Result, ok, err}
use codex_feishu.Outbox.{Row, Db, TitleBinding}
use codex_feishu.Reconciliation.{
  Provider, Endpoint, Page, Next, Reconciled, Search, finish_search, binding_of, settle_search,
  look_in_chat, look_up, is_in_window, enabled_endpoint, retry_or_look, reconcile_row, keep_unknown,
  reconcile_found, reconcile, search_history, proceed, read_page, after_page,
}
use codex_feishu.Reconciliation.Matches.{Turned, after_page-Turned}

-- The loop does not go on behind the page.
unfoldable pub is_last : Page → Bool
is_last (Page.page items has_more next) = not has_more
is_last p = true

-- Whatever the token, the answer to the call with the number `n` is a last page.
abbrev pub EndsAt : Provider → ℕ → Type 0
EndsAt z n =
    (chat token : Option String) → is_last (read_page (z.list_messages chat n token)) ≡ true

abbrev Returns {ℓ} : {A : Type ℓ} → Option A → Type ℓ
Returns {A} x = (y : A) × (x ≡ some y)

module _ (z : Provider) (n : ℕ) (last : EndsAt z n) where
  module _ (r : Row) (chat : Option String) where
    -- `k` calls before the last one.
    step-Returns :
        (fuel i k : ℕ) (token : Option String) (found : List String)
        → i + k ≡ n
        → k < suc fuel
        → ((j : ℕ) (t : String) (ids : List String)
            → suc i + j ≡ n
            → j < fuel
            → Returns (search_history z r chat fuel (suc i) (some t) ids))
        → (next : Next) → Turned z r token found (read_page (z.list_messages chat i token)) next
        → Returns (proceed (λ t ids. search_history z r chat fuel (suc i) (some t) ids) next)
    unfolding proceed is_last
    step-Returns fuel i k token found e l ih _ (Turned.raised x) = (err x, refl)
    step-Returns fuel i k token found e l ih _ (Turned.left reason ids) =
        (ok (Search.given_up reason ids), refl)
    step-Returns fuel i k token found e l ih _ (Turned.ended items next ids _ _) =
        (ok (Search.complete (found ++ ids)), refl)
    step-Returns fuel i zero token found e l ih _ (Turned.turned items next t ids p _ _) =
        let at_n : i ≡ n = omega (arith, e) in
        absurd (
          false-true (
            subst (λ q. is_last q ≡ true) p
              (subst (λ j. is_last (read_page (z.list_messages chat j token)) ≡ true) (sym at_n)
                (last chat token))))
    step-Returns fuel i (suc k) token found e l ih _ (Turned.turned items next t ids _ _ _) =
        ih k t (found ++ ids) (omega (arith, e)) (omega (arith, l))

    search_history-Returns :
        (fuel i k : ℕ) (token : Option String) (found : List String)
        → i + k ≡ n
        → k < fuel
        → Returns (search_history z r chat fuel i token found)
    unfolding search_history
    search_history-Returns zero i k token found e l = absurd (omega (arith, l))
    search_history-Returns (suc fuel) i k token found e l =
        step-Returns fuel i k token found e l
          (λ j t ids f m. search_history-Returns fuel (suc i) j (some t) ids f m)
          (after_page z r token found (read_page (z.list_messages chat i token)))
          (after_page-Turned z r token found (read_page (z.list_messages chat i token)))

  module _ (fuel id now : ℕ) (enough : n < fuel) (db : Db) where
    finish-Returns : (x : Option (Result Search)) → Returns x → Returns (finish_search id x db)
    unfolding finish_search
    finish-Returns _ (err e, f) = rw f ((err e, db), refl)
    finish-Returns _ (ok s, f) =
        rw f ((ok (settle_search id s db).0, (settle_search id s db).1), refl)

    chat-Returns : (r : Row) (o : Option TitleBinding) → Returns (look_in_chat z fuel id r o db)
    unfolding look_in_chat
    chat-Returns r none = (_, refl)
    chat-Returns r (some b) =
        finish-Returns (search_history z r b.chat_id fuel 0 none [])
          (search_history-Returns r b.chat_id fuel 0 n none [] (omega arith) enough)

    look-Returns : (r : Row) (o : Option Endpoint) → Returns (look_up z fuel id r o db)
    unfolding look_up
    look-Returns r none = (_, refl)
    look-Returns r (some e) = elim (Bool-cases (not e.enabled)) [
      | inl k ↦ rw k (_, refl)
      | inr k ↦ rw k (chat-Returns r (binding_of r.thread_id db))
    ]

    retry-Returns :
        (r : Row) (t : ℕ) (o : Option Endpoint) → Returns (retry_or_look z fuel id now r t o db)
    unfolding retry_or_look
    retry-Returns r t none = (_, refl)
    retry-Returns r t (some e) = elim (Bool-cases (is_in_window z t e.uuid_window_seconds)) [
      | inl w ↦ rw w (_, refl)
      | inr w ↦ rw w (look-Returns r (z.endpoints "list_messages"))
    ]

    row-Returns : (r : Row) (o : Option ℕ) → Returns (reconcile_row z fuel id now r o db)
    unfolding reconcile_row
    row-Returns r none = (_, refl)
    row-Returns r (some t) = retry-Returns r t (enabled_endpoint (z.endpoints r.endpoint_name))

    found-Returns : (o : Option Row) → Returns (reconcile_found z fuel id now o db)
    unfolding reconcile_found
    found-Returns none = (_, refl)
    found-Returns (some r) = row-Returns r r.first_attempt_at

-- If the answer to the provider's call with the number `n`, counted from 0, is a last page whatever
-- the chat and the token, then `reconcile` returns or raises within any fuel above `n`.
pub reconcile-returns :
    (z : Provider) (n fuel id now : ℕ) (db : Db)
    → EndsAt z n
    → n < fuel
    → (y : Result Reconciled × Db) × (reconcile z fuel id now db ≡ some y)
unfolding reconcile
reconcile-returns z n fuel id now db last enough =
    found-Returns z n last fuel id now enough db (keep_unknown (db.rows id))

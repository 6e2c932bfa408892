-- ===== src/Inbound/Numbers.antt =====
-- The numbers and the identities of the recorded messages.
pub mod Calls
use codex_feishu.Prelude.{
  ℕ, ◌+◌, ◌<◌, String, ◌≡◌, inl, inr, Bool, false, arith, none, List, [], ◌∷◌, ◌++◌, All,
  All-append, find, find-none, update_where, update_where-All, Bool-cases,
}
use codex_feishu.Inbound.{IngressMessage, is_message, Db}
use codex_feishu.Inbound.Ingest.{sequence_of}

-- The second message has a larger number, and another identity.
abbrev pub Precedes : IngressMessage → IngressMessage → Type 0
Precedes r x =
    (r.ingest_seq < x.ingest_seq) × (is_message x.tenant_key x.app_id x.message_id r ≡ false)

abbrev pub IsOrdered : List IngressMessage → Type 0
IsOrdered [] = Unit
IsOrdered (r ∷ rest) = All (Precedes r) rest × IsOrdered rest

-- The messages stand in the order of their numbers, and the next number is larger than all.
unfoldable pub IsNumbered : ℕ → List IngressMessage → Type 0
IsNumbered next rows = IsOrdered rows × All (λ r. r.ingest_seq < next) rows

IsOrdered-insert :
    (row : IngressMessage) (rows : List IngressMessage)
    → IsOrdered rows
    → All (λ r. Precedes r row) rows
    → IsOrdered (rows ++ (row ∷ []))
IsOrdered-insert row [] h k = (tt, tt)
IsOrdered-insert row (r ∷ rows) h k =
    (All-append (Precedes r) rows (row ∷ []) h.0 (k.0, tt), IsOrdered-insert row rows h.1 k.1)

-- A rewriting of rows that keeps numbers and identities.
module _ (test : IngressMessage → Bool) (state : String) where
  abbrev set_state : List IngressMessage → List IngressMessage
  set_state rows = update_where test (λ r. record r { routing_state = state }) rows

  set_state-All :
      (r : IngressMessage) (rows : List IngressMessage)
      → All (Precedes r) rows
      → All (Precedes r) (set_state rows)
  set_state-All r rows h =
      update_where-All (Precedes r) test (λ x. record x { routing_state = state }) rows (λ x k. k) h

  set_state-IsOrdered : (rows : List IngressMessage) → IsOrdered rows → IsOrdered (set_state rows)
  unfolding update_where
  set_state-IsOrdered [] h = tt
  set_state-IsOrdered (r ∷ rows) h = elim (Bool-cases (test r)) [
    | inl t ↦ rw t (set_state-All r rows h.0, set_state-IsOrdered rows h.1)
    | inr t ↦ rw t (set_state-All r rows h.0, set_state-IsOrdered rows h.1)
  ]

abbrev pub IsWellNumbered : Db → Type 0
IsWellNumbered db = IsNumbered (sequence_of db.sequence).next_ingest_seq db.ingress_messages

below-suc :
    (n : ℕ) (rows : List IngressMessage)
    → All (λ r. r.ingest_seq < n) rows
    → All (λ r. r.ingest_seq < n + 1) rows
below-suc n [] h = tt
below-suc n (r ∷ rows) h = (omega (arith, h.0), below-suc n rows h.1)

-- What is smaller than the next number and is not the message's precedes the message's row.
All-Precedes :
    (row : IngressMessage) (n : ℕ) (rows : List IngressMessage)
    → row.ingest_seq ≡ n
    → All (λ r. r.ingest_seq < n) rows
    → All (λ r. is_message row.tenant_key row.app_id row.message_id r ≡ false) rows
    → All (λ r. Precedes r row) rows
All-Precedes row n [] e h k = tt
All-Precedes row n (r ∷ rows) e h k =
    ((omega (arith, e, h.0), k.0), All-Precedes row n rows e h.1 k.1)

pub insert-IsNumbered :
    (row : IngressMessage) (n : ℕ) (rows : List IngressMessage)
    → row.ingest_seq ≡ n
    → find (is_message row.tenant_key row.app_id row.message_id) rows ≡ none
    → IsNumbered n rows
    → IsNumbered (n + 1) (rows ++ (row ∷ []))
unfolding IsNumbered
insert-IsNumbered row n rows e f h =
    let fresh = find-none (is_message row.tenant_key row.app_id row.message_id) rows f in
    (
      IsOrdered-insert row rows h.0 (All-Precedes row n rows e h.1 fresh),
      All-append (λ r. r.ingest_seq < n + 1) rows (row ∷ []) (below-suc n rows h.1)
          (omega (arith, e), tt),
    )

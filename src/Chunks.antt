-- ===== src/Chunks.antt =====
-- codex_feishu_bridge/feishu/formatter.py: `_utf8_chunks`, which cuts a text into pieces of at most
-- `budget` bytes. A text is the list of its characters, and `size` the number of bytes of a character
-- in UTF-8, or none for a character that cannot be encoded, a surrogate. Then `encode` raises
-- UnicodeEncodeError, which is a ValueError.
use codex_feishu.Prelude.{
  ℕ, ◌+◌, ◌≤◌, ◌<◌, ◌≡◌, refl, sym, ap, subst, ◌∙◌, inl, inr, Bool, true, false, List, [], ◌∷◌,
  ◌++◌, ltb, leb, if◌then◌else◌, All, All-append, Bool-cases, Option, none, some, Option-cases,
  arith,
}
use mathlib.Core.List.{append_assoc, append-nil}
use codex_feishu.Exec.{Result, ok, err, value_error}

module _ {A : Type 0} where
  abbrev pub is_nil : List A → Bool
  is_nil [] = true
  is_nil (x ∷ xs) = false

  abbrev pub concat : List (List A) → List A
  concat [] = []
  concat (p ∷ ps) = p ++ concat ps

  -- `"".join(current)` is appended to `chunks`.
  abbrev pub push : List (List A) → List A → List (List A)
  push chunks current = chunks ++ (current ∷ [])

  -- `if current or not chunks`
  unfoldable pub finish : List (List A) → List A → List (List A)
  finish [] current = current ∷ []
  finish (p ∷ ps) [] = p ∷ ps
  finish (p ∷ ps) (c ∷ cs) = push (p ∷ ps) (c ∷ cs)

module _ {A : Type 0} (size : A → Option ℕ) where
  -- The bytes of a piece.
  abbrev pub bytes : List A → ℕ
  bytes [] = 0
  bytes (c ∷ cs) = (elim (size c) [ none ↦ 0 | some n ↦ n ]) + bytes cs

  -- The loop over the characters that are left.
  unfoldable pub cut : ℕ → List (List A) → List A → ℕ → List A → Result (List (List A))
  cut budget chunks current used [] = ok (finish chunks current)
  cut budget chunks [] used (c ∷ text) =
      let rest = λ (n : ℕ). cut budget chunks (c ∷ []) (used + n) text in
      elim (size c) [
        | none ↦ err value_error
        | some n ↦ if ltb budget n then err value_error else rest n
      ]
  cut budget chunks (d ∷ current) used (c ∷ text) =
      let flushed = λ (n : ℕ). cut budget (push chunks (d ∷ current)) (c ∷ []) (0 + n) text in
      let kept = λ (n : ℕ). cut budget chunks ((d ∷ current) ++ (c ∷ [])) (used + n) text in
      elim (size c) [
        | none ↦ err value_error
        | some n ↦
            if ltb budget n
            then err value_error
            else if ltb budget (used + n)
            then flushed n
            else kept n
      ]

  unfoldable pub utf8_chunks : List A → ℕ → Result (List (List A))
  utf8_chunks text budget = if leb budget 0 then err value_error else cut budget [] [] 0 text

concat-push : {A : Type 0} (ps : List (List A)) (p : List A) → concat (push ps p) ≡ concat ps ++ p
concat-push [] p = append-nil p
concat-push (q ∷ ps) p = ap (λ t. q ++ t) (concat-push ps p) ∙ sym (append_assoc q (concat ps) p)

concat-finish :
    {A : Type 0} (ps : List (List A)) (p : List A) → concat (finish ps p) ≡ concat ps ++ p
unfolding finish
concat-finish [] p = append-nil p
concat-finish (q ∷ ps) [] = sym (append-nil (q ++ concat ps))
concat-finish (q ∷ ps) (c ∷ cs) = concat-push (q ∷ ps) (c ∷ cs)

module _ {A : Type 0} (size : A → Option ℕ) where
  bytes-append : (a b : List A) → bytes size (a ++ b) ≡ bytes size a + bytes size b
  bytes-append [] b = omega arith
  bytes-append (x ∷ a) b = omega (arith, bytes-append a b)

  -- The piece is within the budget.
  abbrev pub Fits : ℕ → List A → Type 0
  Fits budget p = bytes size p ≤ budget

  Fits-finish :
      (budget : ℕ) (ps : List (List A)) (p : List A)
      → All (Fits budget) ps
      → Fits budget p
      → All (Fits budget) (finish ps p)
  unfolding finish
  Fits-finish budget [] p h k = (k, tt)
  Fits-finish budget (q ∷ ps) [] h k = h
  Fits-finish budget (q ∷ ps) (c ∷ cs) h k =
      All-append (Fits budget) (q ∷ ps) ((c ∷ cs) ∷ []) h (k, tt)

  -- The character can be encoded and is within the budget.
  abbrev pub IsSmall : ℕ → A → Type 0
  IsSmall budget c = (n : ℕ) × (size c ≡ some n) × (n ≤ budget)

  -- The pieces are `text` in order, each within the budget; or a character cannot be encoded or alone
  -- is over it.
  abbrev pub Cuts : ℕ → List A → Result (List (List A)) → Type 0
  Cuts budget text (ok pieces) = (concat pieces ≡ text) × All (Fits budget) pieces
  Cuts budget text (err e) = ¬ All (IsSmall budget) text

  over_budget :
      (budget : ℕ) (before : List A) (c : A) (text : List A)
      → ¬ IsSmall budget c
      → ¬ All (IsSmall budget) (before ++ (c ∷ text))
  over_budget budget [] c text e (h, _) = e h
  over_budget budget (b ∷ before) c text e (_, h) = over_budget budget before c text e h

  not_encoded : (budget : ℕ) (c : A) → size c ≡ none → ¬ IsSmall budget c
  not_encoded budget c e (n, f, _) = cc (e, f)

  too_large :
      (budget : ℕ) (c : A) (n : ℕ) → size c ≡ some n → ltb budget n ≡ true → ¬ IsSmall budget c
  too_large budget c n e g (m, f, h) = absurd (ground (arith, g, h, sym e ∙ f))

  bytes-single : (c : A) (n : ℕ) → size c ≡ some n → bytes size (c ∷ []) ≡ n
  bytes-single c n e = rw e (omega arith)

  regroup :
      (chunks : List (List A)) (current : List A) (c : A) (text : List A)
      → (concat chunks ++ (current ++ (c ∷ []))) ++ text ≡ (concat chunks ++ current) ++ (c ∷ text)
  regroup chunks current c text =
      ap (λ t. t ++ text) (sym (append_assoc (concat chunks) current (c ∷ [])))
      ∙ append_assoc (concat chunks ++ current) (c ∷ []) text

  flushed_text :
      (chunks : List (List A)) (current : List A) (c : A) (text : List A)
      → (concat (push chunks current) ++ (c ∷ [])) ++ text
        ≡ (concat chunks ++ current) ++ (c ∷ text)
  flushed_text chunks current c text =
      ap (λ t. (t ++ (c ∷ [])) ++ text) (concat-push chunks current)
      ∙ append_assoc (concat chunks ++ current) (c ∷ []) text

  not_leb : (budget : ℕ) → 0 < budget → leb budget 0 ≡ false
  not_leb budget h = ground (arith, h)

  cut-Cuts :
      (budget : ℕ) (chunks : List (List A)) (current : List A) (used : ℕ) (text : List A)
      → All (Fits budget) chunks
      → bytes size current ≡ used
      → used ≤ budget
      → Cuts budget ((concat chunks ++ current) ++ text) (cut size budget chunks current used text)
  unfolding cut
  cut-Cuts budget chunks current used [] h w f = (
    concat-finish chunks current ∙ sym (append-nil (concat chunks ++ current)),
    Fits-finish budget chunks current h (omega (arith, w, f)),
  )
  cut-Cuts budget chunks [] used (c ∷ text) h w f = elim (Option-cases (size c)) [
    | inl o ↦ rw (o, cut) (over_budget budget (concat chunks ++ []) c text (not_encoded budget c o))
    | inr (n, o) ↦ elim (Bool-cases (ltb budget n)) [
      | inl e ↦
          rw (o, cut, e)
            (over_budget budget (concat chunks ++ []) c text (too_large budget c n o e))
      | inr e ↦
          rw (o, cut, e)
            (subst (λ t. Cuts budget t (cut size budget chunks (c ∷ []) (used + n) text))
              (regroup chunks [] c text)
              (cut-Cuts budget chunks (c ∷ []) (used + n) text h
                (omega (arith, w, bytes-single c n o)) (ground (arith, w, e))))
    ]
  ]
  cut-Cuts budget chunks (d ∷ current) used (c ∷ text) h w f = elim (Option-cases (size c)) [
    | inl o ↦
        rw (o, cut)
          (over_budget budget (concat chunks ++ (d ∷ current)) c text (not_encoded budget c o))
    | inr (n, o) ↦ elim (Bool-cases (ltb budget n)) [
      | inl e ↦
          rw (o, cut, e)
            (over_budget budget (concat chunks ++ (d ∷ current)) c text (too_large budget c n o e))
      | inr e ↦ elim (Bool-cases (ltb budget (used + n))) [
        | inl g ↦
            rw (o, cut, e, g)
              (subst
                (λ t.
                  Cuts budget t (cut size budget (push chunks (d ∷ current)) (c ∷ []) (0 + n) text))
                (flushed_text chunks (d ∷ current) c text)
                (cut-Cuts budget (push chunks (d ∷ current)) (c ∷ []) (0 + n) text
                  (All-append (Fits budget) chunks ((d ∷ current) ∷ []) h (omega (arith, w, f), tt))
                  (omega (arith, bytes-single c n o)) (ground (arith, e))))
        | inr g ↦
            rw (o, cut, e, g)
              (subst
                (λ t.
                  Cuts budget t
                    (cut size budget chunks ((d ∷ current) ++ (c ∷ [])) (used + n) text))
                (regroup chunks (d ∷ current) c text)
                (cut-Cuts budget chunks ((d ∷ current) ++ (c ∷ [])) (used + n) text h
                  (omega (arith, w, bytes-append (d ∷ current) (c ∷ []), bytes-single c n o))
                  (ground (arith, g))))
      ]
    ]
  ]

  -- `_utf8_chunks` with a positive budget returns pieces of at most that many bytes whose
  -- concatenation is the text; or it raises, and then some character of the text cannot be encoded
  -- or alone is over the budget.
  pub utf8_chunks-Cuts :
      (text : List A) (budget : ℕ) → 0 < budget → Cuts budget text (utf8_chunks size text budget)
  unfolding utf8_chunks
  utf8_chunks-Cuts text budget positive =
      rw (not_leb budget positive) (cut-Cuts budget [] [] 0 text tt refl (omega arith))

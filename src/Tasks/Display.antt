-- ===== src/Tasks/Display.antt =====
-- What a normalised title may hold.
use codex_feishu.Prelude.{
  ℕ, zero, suc, ◌≤◌, String, ◌≡◌, refl, ◌⊎◌, inl, inr, Bool, true, false, not, ◌&&◌, ◌||◌, arith,
  Option, none, some, [], ◌∷◌, ◌++◌, All, length, ◌==◌, Bool-cases, Codes, codes,
}
use codex_feishu.Tasks.Titles.{
  Display, visible, squeeze, take, put_in_front, rstrip, or_else, shorten, normalize_task_title,
}

-- A blank, or a character that is neither `|` nor hidden.
abbrev pub IsShown : Display → ℕ → Type 0
IsShown u c = (c ≡ 32) ⊎ (((c == b'|') ≡ false) × (u.is_hidden c ≡ false))

module _ (u : Display) where
  visible-IsShown : (text : Codes) → All (IsShown u) (visible u text)
  unfolding visible
  visible-IsShown [] = tt
  visible-IsShown (c ∷ rest) = elim (Bool-cases (u.is_space c)) [
    | inl e ↦ rw e (inl refl, visible-IsShown rest)
    | inr e ↦ elim (Bool-cases (not (c == b'|') && not (u.is_hidden c))) [
      | inl f ↦ rw (e, f) (inr (ground (arith, f), ground (arith, f)), visible-IsShown rest)
      | inr f ↦ rw (e, f) (visible-IsShown rest)
    ]
  ]

  squeeze-IsShown :
      (started gap : Bool) (text : Codes)
      → All (IsShown u) text
      → All (IsShown u) (squeeze started gap text)
  unfolding squeeze
  squeeze-IsShown started gap [] h = tt
  squeeze-IsShown started gap (c ∷ rest) h = elim (Bool-cases (c == 32)) [
    | inl e ↦ rw e (squeeze-IsShown (started || not true) true rest h.1)
    | inr e ↦ elim (Bool-cases (started && gap)) [
      | inl f ↦ rw (e, f) (inl refl, (h.0, squeeze-IsShown (started || not false) false rest h.1))
      | inr f ↦ rw (e, f) (h.0, squeeze-IsShown (started || not false) false rest h.1)
    ]
  ]

  take-IsShown :
      (n : ℕ) (text : Codes)
      → All (IsShown u) text
      → (length (take n text) ≤ n) × All (IsShown u) (take n text)
  unfolding take
  take-IsShown zero text h = (omega arith, tt)
  take-IsShown (suc n) [] h = (omega arith, tt)
  take-IsShown (suc n) (c ∷ rest) h =
      let further = take-IsShown n rest h.1 in (omega (arith, further.0), (h.0, further.1))

  put_in_front-IsShown :
      (n c : ℕ) (text : Codes)
      → IsShown u c
      → (length text ≤ n) × All (IsShown u) text
      → (length (put_in_front c text) ≤ suc n) × All (IsShown u) (put_in_front c text)
  unfolding put_in_front
  put_in_front-IsShown n c [] h k = elim (Bool-cases (c == 32)) [
    | inl e ↦ rw e (omega arith, tt)
    | inr e ↦ rw e (omega arith, (h, tt))
  ]
  put_in_front-IsShown n c (d ∷ rest) h k = (omega (arith, k.0), (h, k.1))

  rstrip-IsShown :
      (text : Codes)
      → All (IsShown u) text
      → (length (rstrip text) ≤ length text) × All (IsShown u) (rstrip text)
  unfolding rstrip
  rstrip-IsShown [] h = (omega arith, tt)
  rstrip-IsShown (c ∷ rest) h =
      put_in_front-IsShown (length rest) c (rstrip rest) h.0 (rstrip-IsShown rest h.1)

  shorten-IsShown :
      (limit : ℕ) (value : Codes)
      → (length (shorten u limit value) ≤ limit) × All (IsShown u) (shorten u limit value)
  unfolding shorten
  shorten-IsShown limit value =
      let words = squeeze-IsShown false false (visible u value) (visible-IsShown value) in
      let (fits, shown) = take-IsShown limit (squeeze false false (visible u value)) words in
      let (less, kept) =
        rstrip-IsShown (take limit (squeeze false false (visible u value))) shown in
      (omega (arith, fits, less), kept)

or_else_cases :
    (text fallback : Codes) → (or_else text fallback ≡ fallback) ⊎ (or_else text fallback ≡ text)
unfolding or_else
or_else_cases [] fallback = inl refl
or_else_cases (c ∷ rest) fallback = inr refl

-- A task's title is the one made of its identifier, or it has at most 80 characters, each of them a
-- blank or a character that is not hidden and not the bar which separates the project's name.
pub normalize_task_title-IsShown :
    (u : Display) (value : Option Codes) (thread_id : String)
    → (normalize_task_title u value thread_id ≡ codes "任务 " ++ take 8 (codes thread_id))
      ⊎ ((length (normalize_task_title u value thread_id) ≤ 80)
          × All (IsShown u) (normalize_task_title u value thread_id))
unfolding normalize_task_title
normalize_task_title-IsShown u none thread_id = inl refl
normalize_task_title-IsShown u (some value) thread_id =
    elim (or_else_cases (shorten u 80 value) (codes "任务 " ++ take 8 (codes thread_id))) [
      | inl e ↦ inl e
      | inr e ↦ inr (rw e (shorten-IsShown u 80 value))
    ]

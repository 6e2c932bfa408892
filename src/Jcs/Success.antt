-- ===== src/Jcs/Success.antt =====
-- When the texts, numbers and chains of security/jcs.py succeed.
use codex_feishu.Prelude.{
  ℕ, suc, ◌≤◌, ◌<◌, ◌≡◌, ◌⊎◌, inl, inr, refl, true, false, Option, none, some, List, [], ◌∷◌, arith,
  All, Codes, Bool-cases, ltb, leb,
}
use codex_feishu.Json.{ℤ, pos, negsuc}
use codex_feishu.Jcs.{
  ◌>>=◌, max_safe_integer, is_surrogate, validate_unicode, quote, number, bytes_ltb, utf16_sort_key,
  Entry, insert_sorted, sorted, members,
}

-- No code point is a surrogate.
abbrev pub IsScalar : ℕ → Type 0
IsScalar c = (c < 0xd800) ⊎ (0xdfff < c)

abbrev pub IsUnicode : Codes → Type 0
IsUnicode s = All IsScalar s

abbrev pub IsSafe : ℤ → Type 0
IsSafe (pos n) = n ≤ max_safe_integer
IsSafe (negsuc n) = suc n ≤ max_safe_integer

abbrev pub Succeeds : {A : Type 0} → Option A → Type 0
Succeeds none = ⊥
Succeeds (some a) = Unit

pub IsScalar-surrogate : (c : ℕ) → IsScalar c → is_surrogate c ≡ false
IsScalar-surrogate c (inl h) = ground (arith, h)
IsScalar-surrogate c (inr h) = ground (arith, h)

pub surrogate-IsScalar : (c : ℕ) → is_surrogate c ≡ false → IsScalar c
surrogate-IsScalar c e = elim (Bool-cases (leb 0xd800 c)) [
  | inl p ↦ inr (ground (arith, e, p))
  | inr p ↦ inl (ground (arith, e, p))
]

pub IsUnicode-validate : (s : Codes) → IsUnicode s → validate_unicode s ≡ true
unfolding validate_unicode
IsUnicode-validate [] h = refl
IsUnicode-validate (c ∷ s) (h, hs) = rw (IsScalar-surrogate c h) (IsUnicode-validate s hs)

pub validate-IsUnicode : (s : Codes) → validate_unicode s ≡ true → IsUnicode s
unfolding validate_unicode
validate-IsUnicode [] e = tt
validate-IsUnicode (c ∷ s) e = elim (Bool-cases (is_surrogate c)) [
  | inl p ↦ let e' : false ≡ true = rw p at e in cc
  | inr p ↦ (surrogate-IsScalar c p, validate-IsUnicode s (rw p at e))
]

pub number-Succeeds : (n : ℤ) → IsSafe n → Succeeds (number n)
unfolding number
number-Succeeds (pos n) h = let e : ltb max_safe_integer n ≡ false = ground (arith, h) in rw e tt
number-Succeeds (negsuc n) h =
    let e : ltb max_safe_integer (suc n) ≡ false = ground (arith, h) in rw e tt

pub number-IsSafe : (n : ℤ) → Succeeds (number n) → IsSafe n
unfolding number
number-IsSafe (pos n) h = elim (Bool-cases (ltb max_safe_integer n)) [
  | inl e ↦ absurd (rw e at h)
  | inr e ↦ ground (arith, e)
]
number-IsSafe (negsuc n) h = elim (Bool-cases (ltb max_safe_integer (suc n))) [
  | inl e ↦ absurd (rw e at h)
  | inr e ↦ ground (arith, e)
]

pub quote-Succeeds : (s : Codes) → IsUnicode s → Succeeds (quote s)
unfolding quote
quote-Succeeds s h = rw (IsUnicode-validate s h) tt

pub quote-IsUnicode : (s : Codes) → Succeeds (quote s) → IsUnicode s
unfolding quote
quote-IsUnicode s h = elim (Bool-cases (validate_unicode s)) [
  | inl e ↦ validate-IsUnicode s e
  | inr e ↦ absurd (rw e at h)
]

pub sort_key-Succeeds : (s : Codes) → IsUnicode s → Succeeds (utf16_sort_key s)
unfolding utf16_sort_key
sort_key-Succeeds s h = rw (IsUnicode-validate s h) tt

pub sort_key-IsUnicode : (s : Codes) → Succeeds (utf16_sort_key s) → IsUnicode s
unfolding utf16_sort_key
sort_key-IsUnicode s h = elim (Bool-cases (validate_unicode s)) [
  | inl e ↦ validate-IsUnicode s e
  | inr e ↦ absurd (rw e at h)
]

-- A chain succeeds exactly when all of its steps do.
pub bind-Succeeds :
    {A B : Type 0} (o : Option A) (f : A → Option B)
    → Succeeds o
    → ((a : A) → o ≡ some a → Succeeds (f a))
    → Succeeds (o >>= f)
bind-Succeeds none f h k = absurd h
bind-Succeeds (some a) f h k = k a refl

pub bind-first : {A B : Type 0} (o : Option A) (f : A → Option B) → Succeeds (o >>= f) → Succeeds o
bind-first none f h = h
bind-first (some a) f h = tt

pub bind-second :
    {A B : Type 0} (o : Option A) (f : A → Option B)
    → Succeeds (o >>= f)
    → (a : A) × (o ≡ some a) × Succeeds (f a)
bind-second none f h = absurd h
bind-second (some a) f h = (a, refl, h)

unfoldable pub AreQuotable : List Entry → Type 0
AreQuotable es = All (λ e. IsUnicode e.key) es

pub insert_sorted-AreQuotable :
    (e : Entry) (es : List Entry)
    → IsUnicode e.key
    → AreQuotable es
    → AreQuotable (insert_sorted e es)
unfolding insert_sorted AreQuotable
insert_sorted-AreQuotable e [] h hs = (h, tt)
insert_sorted-AreQuotable e (f ∷ es) h hs = elim (Bool-cases (bytes_ltb f.sort_key e.sort_key)) [
  | inl p ↦ rw p (hs.0, insert_sorted-AreQuotable e es h hs.1)
  | inr p ↦ rw p (h, hs)
]

pub sorted-AreQuotable : (es : List Entry) → AreQuotable es → AreQuotable (sorted es)
unfolding sorted AreQuotable
sorted-AreQuotable [] h = tt
sorted-AreQuotable (e ∷ es) h =
    insert_sorted-AreQuotable e (sorted es) h.0 (sorted-AreQuotable es h.1)

pub members-Succeeds : (es : List Entry) → AreQuotable es → Succeeds (members es)
unfolding members AreQuotable
members-Succeeds [] h = tt
members-Succeeds (e ∷ es) h =
    bind-Succeeds (quote e.key) _ (quote-Succeeds e.key h.0)
      (λ q _. bind-Succeeds (members es) _ (members-Succeeds es h.1) (λ _ _. tt))

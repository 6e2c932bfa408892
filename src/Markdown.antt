-- ===== src/Markdown.antt =====
-- codex_feishu_bridge/feishu/formatter.py: `_markdown_target_end`, which finds where the target of a
-- Markdown link ends. A text is the list of its code points. The loops keep the cursor together with
-- the characters from it on.
use codex_feishu.Prelude.{
  ℕ, ◌+◌, ◌-◌, ◌≤◌, ◌<◌, min, ◌≡◌, refl, Bool, ◌&&◌, ◌||◌, Option, none, some, List, [], ◌∷◌, ◌==◌,
  ltb, if◌then◌else◌, length, Bool-cases, inl, inr, arith,
}

-- `"\r\n"`, and the backslash, `(`, `)`, `<` and `>` are 92, 40, 41, 60 and 62.
unfoldable pub is_line_end : ℕ → Bool
is_line_end c = (c == 13) || (c == 10)

-- `text[cursor:]`
unfoldable pub drop : ℕ → List ℕ → List ℕ
drop n [] = []
drop n (c ∷ text) = let rest = drop (n - 1) text in if n == 0 then c ∷ text else rest

-- The tests after the first loop: `>` and then `)`, with something before it.
unfoldable pub angle_end : ℕ → ℕ → ℕ → List ℕ → Option ℕ × ℕ
angle_end len start cursor (c ∷ d ∷ rest) =
    if ltb (start + 1) cursor && (c == 62) && (d == 41)
    then (some (cursor + 2), cursor + 2)
    else (none, min len (cursor + 1))
angle_end len start cursor rest = (none, min len (cursor + 1))

-- `while cursor < length and text[cursor] not in ">\r\n"`
unfoldable pub angle_scan : ℕ → ℕ → ℕ → List ℕ → Option ℕ × ℕ
angle_scan len start cursor [] = angle_end len start cursor []
angle_scan len start cursor (c ∷ rest) =
    let further = angle_scan len start (cursor + 1) rest in
    if (c == 62) || is_line_end c then angle_end len start cursor (c ∷ rest) else further

-- The second loop, which counts the open parentheses.
unfoldable pub plain_scan : ℕ → ℕ → ℕ → List ℕ → Option ℕ × ℕ
plain_scan len depth cursor [] = (none, len)
plain_scan len depth cursor (c ∷ []) =
    if is_line_end c
    then (none, cursor + 1)
    else if c == 92
    then (none, min len (cursor + 2))
    else if (c == 41) && (depth == 1)
    then (some (cursor + 1), cursor + 1)
    else (none, len)
plain_scan len depth cursor (c ∷ d ∷ rest) =
    let escaped = plain_scan len depth (cursor + 2) rest in
    let opened = plain_scan len (depth + 1) (cursor + 1) (d ∷ rest) in
    let closed = plain_scan len (depth - 1) (cursor + 1) (d ∷ rest) in
    let further = plain_scan len depth (cursor + 1) (d ∷ rest) in
    if is_line_end c
    then (none, cursor + 1)
    else if c == 92
    then if is_line_end d then (none, min len (cursor + 2)) else escaped
    else if c == 40
    then opened
    else if c == 41
    then if depth == 1 then (some (cursor + 1), cursor + 1) else closed
    else further

unfoldable pub target_end : ℕ → ℕ → List ℕ → Option ℕ × ℕ
target_end len start [] = plain_scan len 1 start []
target_end len start (c ∷ rest) =
    if c == 60 then angle_scan len start (start + 1) rest else plain_scan len 1 start (c ∷ rest)

unfoldable pub markdown_target_end : List ℕ → ℕ → Option ℕ × ℕ
markdown_target_end text start = target_end (length text) start (drop start text)

-- An end lies behind the start and within the text, and the scan resumes there; without an end the
-- scan resumes within the text and not before the start.
abbrev pub IsWithin : ℕ → ℕ → Option ℕ × ℕ → Type 0
IsWithin len start (some e, resume) = (start < e) × (e ≤ len) × (resume ≡ e)
IsWithin len start (none, resume) = (start ≤ resume) × (resume ≤ len)

weaken : (len a b : ℕ) (x : Option ℕ × ℕ) → a ≤ b → IsWithin len b x → IsWithin len a x
weaken len a b (some e, r) h (p, q, s) = (omega (arith, p, h), q, s)
weaken len a b (none, r) h (p, q) = (omega (arith, p, h), q)

plain_scan-IsWithin :
    (len depth cursor : ℕ) (rest : List ℕ)
    → cursor + length rest ≡ len
    → IsWithin len cursor (plain_scan len depth cursor rest)
unfolding plain_scan
plain_scan-IsWithin len depth cursor [] h = (omega (arith, h), omega arith)
plain_scan-IsWithin len depth cursor (c ∷ []) h = elim (Bool-cases (is_line_end c)) [
  | inl e ↦ rw e (omega (arith, h), omega (arith, h))
  | inr e ↦ elim (Bool-cases (c == 92)) [
    | inl f ↦ rw (e, f) (ground (arith, h))
    | inr f ↦ elim (Bool-cases ((c == 41) && (depth == 1))) [
      | inl g ↦ rw (e, f, g) (omega arith, omega (arith, h), refl)
      | inr g ↦ rw (e, f, g) (omega (arith, h), omega arith)
    ]
  ]
]
plain_scan-IsWithin len depth cursor (c ∷ d ∷ rest) h =
    let next = λ (k : ℕ).
      weaken len cursor (cursor + 1) (plain_scan len k (cursor + 1) (d ∷ rest)) (omega arith)
        (plain_scan-IsWithin len k (cursor + 1) (d ∷ rest) (omega (arith, h))) in
    elim (Bool-cases (is_line_end c)) [
      | inl e ↦ rw e (omega arith, omega (arith, h))
      | inr e ↦ elim (Bool-cases (c == 92)) [
        | inl f ↦ elim (Bool-cases (is_line_end d)) [
          | inl g ↦ rw (e, f, g) (ground (arith, h))
          | inr g ↦
              rw (e, f, g)
                (weaken len cursor (cursor + 2) (plain_scan len depth (cursor + 2) rest)
                  (omega arith)
                  (plain_scan-IsWithin len depth (cursor + 2) rest (omega (arith, h))))
        ]
        | inr f ↦ elim (Bool-cases (c == 40)) [
          | inl g ↦ rw (e, f, g) (next (depth + 1))
          | inr g ↦ elim (Bool-cases (c == 41)) [
            | inr k ↦ rw (e, f, g, k) (next depth)
            | inl k ↦ elim (Bool-cases (depth == 1)) [
              | inl o ↦ rw (e, f, g, k, o) (omega arith, omega (arith, h), refl)
              | inr o ↦ rw (e, f, g, k, o) (next (depth - 1))
            ]
          ]
        ]
      ]
    ]

angle_end-IsWithin :
    (len start cursor : ℕ) (rest : List ℕ)
    → start ≤ cursor
    → cursor + length rest ≡ len
    → IsWithin len start (angle_end len start cursor rest)
unfolding angle_end
angle_end-IsWithin len start cursor [] s h = ground (arith, s, h)
angle_end-IsWithin len start cursor (c ∷ []) s h = ground (arith, s, h)
angle_end-IsWithin len start cursor (c ∷ d ∷ rest) s h =
    elim (Bool-cases (ltb (start + 1) cursor && (c == 62) && (d == 41))) [
      | inl e ↦ rw e (omega (arith, s), omega (arith, h), refl)
      | inr e ↦ rw e (ground (arith, s, h))
    ]

angle_scan-IsWithin :
    (len start cursor : ℕ) (rest : List ℕ)
    → start ≤ cursor
    → cursor + length rest ≡ len
    → IsWithin len start (angle_scan len start cursor rest)
unfolding angle_scan
angle_scan-IsWithin len start cursor [] s h = angle_end-IsWithin len start cursor [] s h
angle_scan-IsWithin len start cursor (c ∷ rest) s h =
    elim (Bool-cases ((c == 62) || is_line_end c)) [
      | inl e ↦ rw e (angle_end-IsWithin len start cursor (c ∷ rest) s h)
      | inr e ↦
          rw e
            (angle_scan-IsWithin len start (cursor + 1) rest (omega (arith, s)) (omega (arith, h)))
    ]

length-drop : (n : ℕ) (text : List ℕ) → n ≤ length text → n + length (drop n text) ≡ length text
unfolding drop
length-drop n [] h = omega (arith, h)
length-drop n (c ∷ text) h = elim (Bool-cases (n == 0)) [
  | inl e ↦ rw e (ground (arith, e))
  | inr e ↦ rw e (ground (arith, e, length-drop (n - 1) text (ground (arith, e, h))))
]

target_end-IsWithin :
    (len start : ℕ) (rest : List ℕ)
    → start + length rest ≡ len
    → IsWithin len start (target_end len start rest)
unfolding target_end
target_end-IsWithin len start [] h = plain_scan-IsWithin len 1 start [] h
target_end-IsWithin len start (c ∷ rest) h = elim (Bool-cases (c == 60)) [
  | inl e ↦ rw e (angle_scan-IsWithin len start (start + 1) rest (omega arith) (omega (arith, h)))
  | inr e ↦ rw e (plain_scan-IsWithin len 1 start (c ∷ rest) h)
]

-- Called at a place within the text, `_markdown_target_end` returns an end that lies behind that
-- place and within the text, where the scan also resumes; or it returns none and a place to resume
-- that is within the text and not before that place.
pub markdown_target_end-IsWithin :
    (text : List ℕ) (start : ℕ)
    → start ≤ length text
    → IsWithin (length text) start (markdown_target_end text start)
unfolding markdown_target_end
markdown_target_end-IsWithin text start h =
    target_end-IsWithin (length text) start (drop start text) (length-drop start text h)

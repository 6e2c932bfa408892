-- ===== src/Commands/RoundTrip.antt =====
-- Printing and parsing of commands.
use codex_feishu.Prelude.{
  false-true, ℕ, ◌≡◌, ◌↔◌, refl, sym, ap, ◌∙◌, inl, inr, Bool, true, false, not, ◌&&◌, Option, none,
  some, [], ◌∷◌, ◌++◌, ◌==◌, Codes, codes, codes_eq, any, every, is_lower, codes_eq_lem, Bool-cases,
  Option-cases, arith, and_left, and_right,
}
use codex_feishu.Commands.{
  Unicode, ControlCommand, is_line_break, is_name_rest, is_plain, split_name, read_argument,
  read_command, is_no_argument, one_token, is_identifier, is_remainder, admits_argument,
  is_admitted, admit, parse_command,
}

-- The text of a command: a slash, the name, and a space before the argument.
abbrev pub print_argument : Option Codes → Codes
print_argument none = []
print_argument (some a) = 32 ∷ a

abbrev pub print_command : ControlCommand → Codes
print_command c = b'/' ∷ (c.name ++ print_argument c.argument)

some_same : (a b : ControlCommand) → some a ≡ some b → a ≡ b
some_same a b e = cc e

none-some : (c : ControlCommand) → none ≡ some c → ⊥
none-some c e = ground (arith, e)

any_right : (test : ℕ → Bool) (s t : Codes) → any test (s ++ t) ≡ false → any test t ≡ false
unfolding any
any_right test [] t e = e
any_right test (c ∷ s) t e = ground (arith, e, any_right test s t)

split_name-append : (t : Codes) → (split_name t).0 ++ (split_name t).1 ≡ t
unfolding split_name
split_name-append [] = refl
split_name-append (c ∷ rest) = elim (Bool-cases (is_name_rest c)) [
  | inl e ↦ rw e (ap (λ r. c ∷ r) (split_name-append rest))
  | inr e ↦ rw e refl
]

-- What is read is what is printed.
read_argument-print :
    (name further : Codes) (c : ControlCommand)
    → read_argument name further ≡ some c
    → print_command c ≡ b'/' ∷ (name ++ further)
unfolding read_argument
read_argument-print name [] c e =
    ap (λ (d : ControlCommand). print_command d) (sym (some_same _ c e))
read_argument-print name (x ∷ []) c e = cc
read_argument-print name (x ∷ d ∷ rest) c e =
    elim (Bool-cases ((x == 32) && not (any is_line_break (d ∷ rest)))) [
      | inl t ↦
          let x_is_space : x ≡ 32 = ground (arith, t) in
          ap (λ (k : ControlCommand). print_command k) (sym (some_same _ c (rw t at e)))
          ∙ ap (λ (k : ℕ). b'/' ∷ (name ++ (k ∷ d ∷ rest))) (sym x_is_space)
      | inr t ↦ absurd (none-some c (rw t at e))
    ]

read_command-print :
    (t : Codes) (c : ControlCommand) → read_command t ≡ some c → t ≡ print_command c
unfolding read_command
read_command-print [] c e = absurd (none-some c e)
read_command-print (s ∷ []) c e = absurd (none-some c e)
read_command-print (s ∷ d ∷ rest) c e = elim (Bool-cases ((s == b'/') && is_lower d)) [
  | inr f ↦ absurd (none-some c (rw f at e))
  | inl f ↦
      let slash : s ≡ b'/' = ground (arith, f) in
      let printed =
        read_argument-print (d ∷ (split_name rest).0) (split_name rest).1 c (rw f at e) in
      ap (λ (k : ℕ). k ∷ d ∷ rest) slash
      ∙ ap (λ r. b'/' ∷ d ∷ r) (sym (split_name-append rest))
      ∙ sym printed
]

-- A name of the grammar.
abbrev is_name : Codes → Bool
is_name [] = false
is_name (c ∷ rest) = is_lower c && every is_name_rest rest

-- What may follow a name: nothing, or a space and a text without line breaks.
abbrev is_argument : Option Codes → Bool
is_argument none = true
is_argument (some []) = false
is_argument (some (c ∷ rest)) = not (any is_line_break (c ∷ rest))

split_name-stops :
    (name rest : Codes)
    → every is_name_rest name ≡ true
    → split_name (name ++ (32 ∷ rest)) ≡ (name, 32 ∷ rest)
unfolding split_name every
split_name-stops [] rest e = refl
split_name-stops (c ∷ name) rest e =
    rw
      (
        split_name-stops name rest (and_right (is_name_rest c) (every is_name_rest name) e),
        and_left (is_name_rest c) (every is_name_rest name) e,
      )
      refl

split_name-ends :
    (name : Codes) → every is_name_rest name ≡ true → split_name (name ++ []) ≡ (name, [])
unfolding split_name every
split_name-ends [] e = refl
split_name-ends (c ∷ name) e =
    rw
      (
        split_name-ends name (and_right (is_name_rest c) (every is_name_rest name) e),
        and_left (is_name_rest c) (every is_name_rest name) e,
      )
      refl

print_read :
    (name : Codes) (argument : Option Codes)
    → is_name name ≡ true
    → is_argument argument ≡ true
    → read_command (b'/' ∷ (name ++ print_argument argument))
      ≡ some (record { name = name; argument = argument })
unfolding read_command read_argument
print_read [] argument n a = absurd (false-true n)
print_read (x ∷ name) none n a =
    rw
      (
        split_name-ends name (and_right (is_lower x) (every is_name_rest name) n),
        and_left (is_lower x) (every is_name_rest name) n,
      )
      refl
print_read (x ∷ name) (some []) n a = absurd (false-true a)
print_read (x ∷ name) (some (y ∷ rest)) n a =
    rw
      (
        split_name-stops name (y ∷ rest) (and_right (is_lower x) (every is_name_rest name) n),
        and_left (is_lower x) (every is_name_rest name) n,
        a,
      )
      refl

no_line_break : (u : Unicode) (t : Codes) → is_plain u t ≡ true → any is_line_break t ≡ false
unfolding is_plain
no_line_break u t h = ground (arith, h)

known_name : (n w : Codes) → is_name w ≡ true → codes_eq n w ≡ true → is_name n ≡ true
known_name n w h e = ap is_name (codes_eq_lem n w e) ∙ h

no_argument-is_name : (n : Codes) → is_no_argument n ≡ true → is_name n ≡ true
unfolding is_no_argument every
no_argument-is_name n h = ground (
  arith,
  h,
  known_name n (codes "tasks") refl,
  known_name n (codes "status") refl,
  known_name n (codes "help") refl,
  known_name n (codes "stop") refl,
  known_name n (codes "hard-stop") refl,
)

argument-is_name : (u : Unicode) (n a : Codes) → admits_argument u n a ≡ true → is_name n ≡ true
unfolding admits_argument one_token is_remainder every
argument-is_name u n a h = ground (
  arith,
  h,
  known_name n (codes "use") refl,
  known_name n (codes "sandbox") refl,
  known_name n (codes "network") refl,
  known_name n (codes "approval-policy") refl,
  known_name n (codes "cwd") refl,
  known_name n (codes "writable") refl,
  known_name n (codes "append") refl,
)

empty_argument : (u : Unicode) (n : Codes) → admits_argument u n [] ≡ false
unfolding admits_argument one_token is_identifier every codes_eq
empty_argument u n = ground arith

admitted-is_name :
    (u : Unicode) (c : ControlCommand) → is_admitted u c ≡ true → is_name c.name ≡ true
unfolding is_admitted
admitted-is_name u c h = elim (Bool-cases (is_no_argument c.name)) [
  | inl e ↦ no_argument-is_name c.name e
  | inr e ↦ elim (Option-cases c.argument) [
    | inl f ↦ absurd (false-true (rw (e, f) at h))
    | inr (a, f) ↦ argument-is_name u c.name a (rw (e, f) at h)
  ]
]

-- The argument of an admitted command whose text has no line break.
admitted-is_argument :
    (u : Unicode) (name : Codes) (argument : Option Codes)
    → is_admitted u (record { name = name; argument = argument }) ≡ true
    → any is_line_break (b'/' ∷ (name ++ print_argument argument)) ≡ false
    → is_argument argument ≡ true
unfolding is_admitted any
admitted-is_argument u name none h k = refl
admitted-is_argument u name (some []) h k = absurd (ground (arith, h, empty_argument u name))
admitted-is_argument u name (some (y ∷ rest)) h k =
    ground (arith, k, any_right is_line_break name (32 ∷ y ∷ rest))

parsed :
    (u : Unicode) (t : Codes) (c : ControlCommand)
    → parse_command u "text" t ≡ some c
    → (t ≡ print_command c) × (is_plain u t ≡ true) × (is_admitted u c ≡ true)
unfolding parse_command admit
parsed u t c h = elim (Bool-cases (is_plain u t)) [
  | inr e ↦ absurd (none-some c (rw e at h))
  | inl e ↦ elim (Option-cases (read_command t)) [
    | inl f ↦ absurd (none-some c (rw (e, f) at h))
    | inr (d, f) ↦ elim (Bool-cases (is_admitted u d)) [
      | inr g ↦ absurd (none-some c (rw (e, f, g) at h))
      | inl g ↦
          let same : d ≡ c = some_same d c (rw (e, f, g) at h) in
          (
            read_command-print t c (f ∙ ap (λ (k : ControlCommand). some k) same),
            e,
            ap (is_admitted u) (sym same) ∙ g,
          )
    ]
  ]
]

printed :
    (u : Unicode) (t : Codes) (c : ControlCommand)
    → (t ≡ print_command c) × (is_plain u t ≡ true) × (is_admitted u c ≡ true)
    → parse_command u "text" t ≡ some c
unfolding parse_command admit
printed u t c (same, plain, admitted) =
    let no_break = no_line_break u (print_command c) (ap (is_plain u) (sym same) ∙ plain) in
    let read =
      ap read_command same
      ∙ print_read c.name c.argument (admitted-is_name u c admitted)
          (admitted-is_argument u c.name c.argument admitted no_break) in
    rw (plain, read, admitted) refl

-- `parse_command` reads a command off a text message exactly when the text is that command printed, is
-- in normal form and free of control characters, backquotes, line breaks and outer spaces, and the
-- tables admit the command with that argument.
pub parse_command-print :
    (u : Unicode) (t : Codes) (c : ControlCommand)
    → (parse_command u "text" t ≡ some c)
      ↔ ((t ≡ print_command c) × (is_plain u t ≡ true) × (is_admitted u c ≡ true))
parse_command-print u t c = (parsed u t c, printed u t c)

-- ===== src/Commands.antt =====
-- codex_feishu_bridge/commands.py: the grammar of control commands. A text is the list of its code
-- points.
pub mod RoundTrip
use codex_feishu.Prelude.{
  ℕ, ◌+◌, ◌≤◌, String, Bool, true, false, not, ◌&&◌, ◌||◌, Option, none, some, List, [], ◌∷◌, ◌++◌,
  str_eq, leb, ◌==◌, if◌then◌else◌, is_none, length, Codes, codes, codes_eq, any, every, is_lower,
  is_upper, is_digit,
}

-- What the module takes from Python: `unicodedata.normalize("NFC", …)`, whether a character's
-- category is Cc or Cf, and whether `str.strip` removes it.
pub record Unicode : Type 0 where
  pub nfc : Codes → Codes
  pub is_control : ℕ → Bool
  pub is_space : ℕ → Bool

pub record ControlCommand : Type 0 where
  pub name : Codes
  pub argument : Option Codes

unfoldable pub is_no_argument : Codes → Bool
is_no_argument name =
    codes_eq name (codes "tasks")
    || codes_eq name (codes "status")
    || codes_eq name (codes "help")
    || codes_eq name (codes "stop")
    || codes_eq name (codes "hard-stop")

-- `[A-Za-z0-9]`, and the characters after the first of an identifier.
abbrev pub is_alphanumeric : ℕ → Bool
is_alphanumeric c = is_lower c || is_upper c || is_digit c

abbrev pub is_identifier_rest : ℕ → Bool
is_identifier_rest c = is_alphanumeric c || (c == b'.') || (c == b'_') || (c == b':') || (c == b'-')

unfoldable pub is_identifier : Codes → Bool
is_identifier [] = false
is_identifier (c ∷ rest) =
    is_alphanumeric c && every is_identifier_rest rest && leb (length rest) 127

-- `_ONE_TOKEN`: whether the command's pattern matches the argument, if the command has a pattern.
unfoldable pub one_token : Codes → Codes → Option Bool
one_token name a =
    if codes_eq name (codes "use")
    then some (is_identifier a)
    else if codes_eq name (codes "sandbox")
    then some (
        codes_eq a (codes "readOnly")
        || codes_eq a (codes "workspaceWrite")
        || codes_eq a (codes "dangerFullAccess"))
    else if codes_eq name (codes "network")
    then some (codes_eq a (codes "on") || codes_eq a (codes "off"))
    else if codes_eq name (codes "approval-policy")
    then some (
        codes_eq a (codes "untrusted")
        || codes_eq a (codes "on-request")
        || codes_eq a (codes "never"))
    else none

unfoldable pub is_remainder : Codes → Bool
is_remainder name =
    codes_eq name (codes "cwd")
    || codes_eq name (codes "writable")
    || codes_eq name (codes "append")

-- `text != text.strip()`: the first or the last character would be removed.
unfoldable pub ends_in_space : Unicode → Codes → Bool
ends_in_space u [] = false
ends_in_space u (c ∷ []) = u.is_space c
ends_in_space u (c ∷ d ∷ rest) = ends_in_space u (d ∷ rest)

unfoldable pub is_padded : Unicode → Codes → Bool
is_padded u [] = false
is_padded u (c ∷ rest) = u.is_space c || ends_in_space u (c ∷ rest)

abbrev pub is_line_break : ℕ → Bool
is_line_break c = (c == 10) || (c == 13)

-- `"`, `'`, `*`, `?` and `%`.
abbrev pub is_wildcard : ℕ → Bool
is_wildcard c = (c == 34) || (c == 39) || (c == 42) || (c == 63) || (c == 37)

-- The tests before the grammar, but for the leading slash.
unfoldable pub is_plain : Unicode → Codes → Bool
is_plain u t =
    codes_eq (u.nfc t) t
    && not (is_padded u t)
    && not (any is_line_break t)
    && not (any u.is_control t)
    && not (any (λ c. c == 96) t)

-- `[a-z-]*` from the left: what it matches, and the rest.
abbrev pub is_name_rest : ℕ → Bool
is_name_rest c = is_lower c || (c == b'-')

unfoldable pub split_name : Codes → Codes × Codes
split_name [] = ([], [])
split_name (c ∷ rest) =
    let (name, further) = split_name rest in
    if is_name_rest c then (c ∷ name, further) else ([], c ∷ rest)

-- `(?: ([^\r\n]+))?` up to the end.
unfoldable pub read_argument : Codes → Codes → Option ControlCommand
read_argument name [] = some (record { name = name; argument = none })
read_argument name (c ∷ []) = none
read_argument name (c ∷ d ∷ rest) =
    if (c == 32) && not (any is_line_break (d ∷ rest))
    then some (record { name = name; argument = some (d ∷ rest) })
    else none

-- The full match of `/([a-z][a-z-]*)(?: ([^\r\n]+))?`.
unfoldable pub read_command : Codes → Option ControlCommand
read_command (s ∷ c ∷ rest) =
    let (name, further) = split_name rest in
    if (s == b'/') && is_lower c then read_argument (c ∷ name) further else none
read_command _ = none

-- The tests of the last two tables on a command with an argument.
unfoldable pub admits_argument : Unicode → Codes → Codes → Bool
admits_argument u name a = elim (one_token name a) [
  | some b ↦ b
  | none ↦
      is_remainder name
      && (not (every u.is_space a)
          && (not (is_padded u a) && (codes_eq name (codes "append") || not (any is_wildcard a))))
]

-- Whether the three tables admit the command.
unfoldable pub is_admitted : Unicode → ControlCommand → Bool
is_admitted u c =
    if is_no_argument c.name
    then is_none c.argument
    else elim c.argument [ none ↦ false | some a ↦ admits_argument u c.name a ]

unfoldable pub admit : Unicode → Option ControlCommand → Option ControlCommand
admit u none = none
admit u (some c) = if is_admitted u c then some c else none

unfoldable pub parse_command : Unicode → String → Codes → Option ControlCommand
parse_command u message_type t =
    if str_eq message_type "text" && is_plain u t then admit u (read_command t) else none

-- ===== src/Tasks/Titles.antt =====
-- feishu/tasks.py: the titles of tasks, as lists of code points.
use codex_feishu.Prelude.{
  ℕ, zero, suc, String, Bool, false, not, ◌&&◌, ◌||◌, Option, none, some, [], ◌∷◌, ◌++◌, ◌==◌,
  if◌then◌else◌, Codes, codes,
}

-- `str.isspace`, and whether the category of a character is Cc, Cf or Cs.
pub record Display : Type 0 where
  pub is_space : ℕ → Bool
  pub is_hidden : ℕ → Bool

-- The loop over the characters: spaces become blanks; `|` and hidden characters are dropped.
unfoldable pub visible : Display → Codes → Codes
visible u [] = []
visible u (c ∷ rest) =
    let further = visible u rest in
    if u.is_space c
    then 32 ∷ further
    else if not (c == b'|') && not (u.is_hidden c)
    then c ∷ further
    else further

-- `" ".join(….split())`: `started` and `gap` say whether a word and a blank stand before.
unfoldable pub squeeze : Bool → Bool → Codes → Codes
squeeze started gap [] = []
squeeze started gap (c ∷ rest) =
    let further = squeeze (started || not (c == 32)) (c == 32) rest in
    if c == 32 then further else if started && gap then 32 ∷ c ∷ further else c ∷ further

unfoldable pub take : ℕ → Codes → Codes
take zero text = []
take (suc n) [] = []
take (suc n) (c ∷ rest) = c ∷ take n rest

-- `rstrip` of a text whose only spaces are blanks.
unfoldable pub put_in_front : ℕ → Codes → Codes
put_in_front c [] = if c == 32 then [] else c ∷ []
put_in_front c (d ∷ rest) = c ∷ d ∷ rest

unfoldable pub rstrip : Codes → Codes
rstrip [] = []
rstrip (c ∷ rest) = put_in_front c (rstrip rest)

-- `text or fallback`
unfoldable pub or_else : Codes → Codes → Codes
or_else [] fallback = fallback
or_else (c ∷ rest) fallback = c ∷ rest

unfoldable pub shorten : Display → ℕ → Codes → Codes
shorten u limit value = rstrip (take limit (squeeze false false (visible u value)))

unfoldable pub normalize_task_title : Display → Option Codes → String → Codes
normalize_task_title u none thread_id = codes "任务 " ++ take 8 (codes thread_id)
normalize_task_title u (some value) thread_id =
    or_else (shorten u 80 value) (codes "任务 " ++ take 8 (codes thread_id))

-- `root_name` is the last part of the resolved path.
unfoldable pub normalize_project_name : Display → Option Codes → Codes → Codes
normalize_project_name u none root_name = or_else root_name (codes "项目")
normalize_project_name u (some value) root_name =
    or_else (shorten u 60 value) (or_else root_name (codes "项目"))

unfoldable pub topic_title : Codes → Codes → Codes
topic_title task_title project_name = task_title ++ (b'|' ∷ project_name)

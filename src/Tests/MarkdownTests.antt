-- ===== src/Tests/MarkdownTests.antt =====
-- The targets `(a)` and `<b>`, after the opening parenthesis.
use codex_feishu.Prelude.{ℕ, ◌≡◌, refl, some, List, [], ◌∷◌, length, arith}
use codex_feishu.Markdown.{
  is_line_end, drop, angle_end, angle_scan, plain_scan, target_end, markdown_target_end, IsWithin,
  markdown_target_end-IsWithin,
}

-- `a(\))b`
abbrev nested : List ℕ
nested = 97 ∷ 40 ∷ 92 ∷ 41 ∷ 41 ∷ 98 ∷ 41 ∷ []

nested_target : markdown_target_end nested 0 ≡ (some 7, 7)
unfolding markdown_target_end target_end plain_scan is_line_end drop
nested_target = refl

angle_target : markdown_target_end (60 ∷ 98 ∷ 62 ∷ 41 ∷ 99 ∷ []) 0 ≡ (some 4, 4)
unfolding markdown_target_end target_end angle_scan angle_end is_line_end drop
angle_target = refl

markdown_target_end_example : IsWithin (length nested) 2 (markdown_target_end nested 2)
markdown_target_end_example = markdown_target_end-IsWithin nested 2 (omega arith)

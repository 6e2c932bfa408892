-- ===== src/Tests/CommandTests.antt =====
-- A command with an argument.
use codex_feishu.Prelude.{◌≡◌, ◌↔◌, true, some, ltb, ◌==◌, codes}
use codex_feishu.Commands.{Unicode, ControlCommand, parse_command, is_plain, is_admitted}
use codex_feishu.Commands.RoundTrip.{print_command, parse_command-print}

-- The Unicode data of ASCII.
abbrev ascii : Unicode
ascii = record { nfc = λ s. s; is_control = λ c. ltb c 32; is_space = λ c. c == 32 }

abbrev use_task : ControlCommand
use_task = record { name = codes "use"; argument = some (codes "task-7") }

parse_command-print_example : (parse_command ascii "text" (codes "/use task-7") ≡ some use_task) ↔ (
    (codes "/use task-7" ≡ print_command use_task)
    × (is_plain ascii (codes "/use task-7") ≡ true)
    × (is_admitted ascii use_task ≡ true))
parse_command-print_example = parse_command-print ascii (codes "/use task-7") use_task

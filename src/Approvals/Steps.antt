-- ===== src/Approvals/Steps.antt =====
-- Any sequence of calls on the approval tables, each of them failing or not.
use codex_feishu.Prelude.{ℕ, String, Bool, Option, List, [], ◌∷◌}
use codex_feishu.Exec.{Error}
use codex_feishu.Json.{ℤ, Json, Fields}
use codex_feishu.Approvals.{Context, Db}
use codex_feishu.Approvals.Broker.{
  Broker, issue, commit_card_action, commit_exact_response, record_response_result,
  bind_delivered_card,
}
use codex_feishu.Approvals.Emergency.{soft_quiesce, hard_stop}

pub data Step : Type 0 where
  issued : String → Context → Json → Fields → ℤ → String → ℕ → String → Step
  card_action : String → String → Context → ℕ → String → Step
  exact_response : String → Json → String → Step
  response_result : String → Option Bool → Step
  delivered_card : String → String → String → Step
  quiesced : String → Step
  stopped : String → ℕ → Option Error → Step

unfoldable pub step : Broker → Step → Db → Db
step b (issued id c q m ttl token now stamp) db = (issue b id c q m ttl token now stamp db).1
step b (card_action token d c now stamp) db = (commit_card_action b token d c now stamp db).1
step b (exact_response id r stamp) db = (commit_exact_response b id r stamp db).1
step b (response_result id accepted) db = (record_response_result id accepted db).1
step b (delivered_card id p m) db = (bind_delivered_card id p m db).1
step b (quiesced reason) db = (soft_quiesce reason db).1
step b (stopped reason now workers) db = (hard_stop reason now workers db).1

unfoldable pub run : Broker → Db → List Step → Db
run b db [] = db
run b db (s ∷ rest) = run b (step b s db) rest

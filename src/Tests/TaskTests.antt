-- ===== src/Tests/TaskTests.antt =====
-- A task that is opted in, confirmed, renamed and archived.
use codex_feishu.Tasks.Display.{IsShown, normalize_task_title-IsShown}
use codex_feishu.Tasks.Surface.{AreKept, after_all-AreKept}
use codex_feishu.Prelude.{
  ◌++◌, ◌⊎◌, ◌≤◌, length, All, ◌≡◌, refl, none, some, List, [], ◌∷◌, codes, ◌==◌, ltb,
}
use codex_feishu.Tasks.{Db}
use codex_feishu.Tasks.Titles.{
  normalize_task_title, visible, squeeze, take, rstrip, put_in_front, or_else, shorten,
}
use codex_feishu.Tasks.Anchors.{Tools}
use codex_feishu.Tasks.Carried.{AreCarried}
use codex_feishu.Tasks.History.{Call, after_all, after_all-AreCarried}

abbrev tools : Tools
tools = record {
  display = record { is_space = λ c. c == 32; is_hidden = λ c. ltb c 32 };
  root_name = λ root. codes "project";
  uuid5 = λ s. s;
  sha256 = λ s. s;
  title_hash = λ t. "hash";
  dump_text = λ t. "body";
  from_codes = λ t. "marker";
  str = λ n. "1";
}

abbrev empty : Db
empty = record {
  task_bindings = [];
  provider_outbox = [];
  remote_task_grants = [];
  message_ancestry = [];
  identity = none;
}

blanks_and_bars :
    normalize_task_title tools.display (some (codes "  a |  b ")) "thread" ≡ codes "a b"
unfolding normalize_task_title visible squeeze take rstrip put_in_front or_else shorten
blanks_and_bars = refl

abbrev calls : List Call
calls =
    Call.opted_in "thread" "root" "chat" "topic_group" (some (codes "First")) none 1
    ∷ Call.confirmed "thread" "m1"
    ∷ Call.synced "thread" (codes "Second") none 2
    ∷ Call.archived "thread" 3
    ∷ Call.reactivated "thread"
    ∷ []

empty-AreCarried : AreCarried tools empty
unfolding AreCarried
empty-AreCarried = tt

after_all-AreCarried_example : AreCarried tools (after_all tools calls empty)
after_all-AreCarried_example = after_all-AreCarried tools calls empty empty-AreCarried

abbrev bound : Db
bound = after_all tools calls empty

after_all-AreKept_example : AreKept bound.task_bindings (after_all tools calls bound).task_bindings
after_all-AreKept_example = after_all-AreKept tools calls bound

normalize_task_title-IsShown_example :
    (normalize_task_title tools.display (some (codes "  a |  b ")) "thread"
      ≡ codes "任务 " ++ take 8 (codes "thread"))
    ⊎ ((length (normalize_task_title tools.display (some (codes "  a |  b ")) "thread") ≤ 80)
        × All
            (IsShown tools.display)
            (normalize_task_title tools.display (some (codes "  a |  b ")) "thread"))
normalize_task_title-IsShown_example =
    normalize_task_title-IsShown tools.display (some (codes "  a |  b ")) "thread"

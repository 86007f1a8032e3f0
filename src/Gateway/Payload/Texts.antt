-- ===== src/Gateway/Payload/Texts.antt =====
-- The texts of payload.ts, as code points.
use opencode_notify_hub.Shared.{ℕ, List, [], ◌∷◌}

abbrev pub Text : Type 0
Text = List ℕ

abbrev pub unknown : Text
unknown = 117 ∷ 110 ∷ 107 ∷ 110 ∷ 111 ∷ 119 ∷ 110 ∷ []

abbrev pub untitled : Text
untitled = 26410 ∷ 21629 ∷ 21517 ∷ 20250 ∷ 35805 ∷ []

abbrev pub done : Text
done = 20219 ∷ 21153 ∷ 24050 ∷ 23436 ∷ 25104 ∷ []

abbrev pub task_failed : Text
task_failed = 20219 ∷ 21153 ∷ 22833 ∷ 36133 ∷ []

abbrev pub task_stopped : Text
task_stopped = 20219 ∷ 21153 ∷ 24050 ∷ 20572 ∷ 27490 ∷ []

abbrev pub needs_answer : Text
needs_answer = 38656 ∷ 35201 ∷ 22238 ∷ 31572 ∷ []

abbrev pub needs_permission : Text
needs_permission = 38656 ∷ 35201 ∷ 25480 ∷ 26435 ∷ []

abbrev pub needs_action : Text
needs_action = 38656 ∷ 35201 ∷ 25805 ∷ 20316 ∷ []

abbrev pub in_progress : Text
in_progress = 20219 ∷ 21153 ∷ 36827 ∷ 34892 ∷ 20013 ∷ []

abbrev pub action_handled : Text
action_handled = 25805 ∷ 20316 ∷ 24050 ∷ 22788 ∷ 29702 ∷ []

abbrev pub separator : Text
separator = 32 ∷ 183 ∷ 32 ∷ []

abbrev pub elapsed_before : Text
elapsed_before = 29992 ∷ 26102 ∷ 32 ∷ []

abbrev pub elapsed_after : Text
elapsed_after = 32 ∷ 31186 ∷ []

abbrev pub options_before : Text
options_before = 36873 ∷ 39033 ∷ 65306 ∷ []

abbrev pub between_options : Text
between_options = 12289 ∷ []

abbrev pub more_before : Text
more_before = 36824 ∷ 26377 ∷ 32 ∷ []

abbrev pub more_after : Text
more_after = 32 ∷ 20010 ∷ 38382 ∷ 39064 ∷ []

abbrev pub asks_permission : Text
asks_permission = 35831 ∷ 27714 ∷ 26435 ∷ 38480 ∷ 65306 ∷ []

abbrev pub open_code : Text
open_code = 79 ∷ 112 ∷ 101 ∷ 110 ∷ 67 ∷ 111 ∷ 100 ∷ 101 ∷ []

abbrev pub line_feed : Text
line_feed = 10 ∷ []

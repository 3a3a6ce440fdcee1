-- ===== src/TuiState/Tests.antt =====
-- Runs of the reducer, and its theorems at concrete states.
use phus.Prelude.{ℕ, String, ◌≡◌, refl, true, none, some, List, [], ◌∷◌, ◌++◌}
use phus.TuiState.{AppState, Fresh, PermissionRequest, always, initial_state}
use phus.TuiState.Items
use phus.TuiState.Reducer.{
  AppAction, add_tool, finalize_streaming, push_permission, resolve_permission, scroll_up,
  scroll_down, add_user, clear_items, reduce, app_reducer,
}
use phus.TuiState.Reducer.Streams.{Delta, said, thought, stream, message_of, stream-turn}
use phus.TuiState.Reducer.Permissions.{run, all_pushed, IsOrderly, run-IsOrderly}

abbrev fresh : String → ℕ → Fresh
fresh uuid now = record { uuid = uuid; now = now }

abbrev start : AppState ℕ
start = initial_state

abbrev answer : List (Delta × Fresh)
answer = (said "Hello", fresh "y" 2) ∷ (said " there", fresh "z" 3) ∷ []

stream-turn_example :
    (reduce finalize_streaming
      (fresh "w" 4)
      (stream ((thought "hm", fresh "x" 1) ∷ answer) start)).items
    ≡ start.items ++ message_of ((thought "hm", fresh "x" 1) ∷ answer) (fresh "x" 1) ∷ []
stream-turn_example =
    stream-turn (thought "hm") (fresh "x" 1) (fresh "w" 4) answer start refl
      (refl, (refl, (refl, tt)))

joins_the_text : (message_of {J = ℕ} answer (fresh "y" 2)).text ≡ some "Hello there"
joins_the_text = refl

abbrev request : String → PermissionRequest ℕ
request tool = record {
  id = "r";
  tool_name = tool;
  args = none;
  tool_call_id = "c";
  preview = none;
  caption = none;
  resolve = 0;
}

abbrev asks : List (AppAction ℕ × Fresh)
asks =
    (push_permission (request "bash"), fresh "a" 1)
    ∷ (push_permission (request "edit"), fresh "b" 2)
    ∷ (resolve_permission true (some always), fresh "c" 3)
    ∷ []

run-IsOrderly_example : IsOrderly (all_pushed asks) start (run asks start).0 (run asks start).1
run-IsOrderly_example = run-IsOrderly asks start

allows_bash : (run asks start).0.allowed_tools ≡ "bash" ∷ []
unfolding app_reducer add_tool
allows_bash = refl

-- Content that comes while the chat is scrolled up stays marked as new at the bottom, if the user
-- gets there line by line.
abbrev scrolls : List (AppAction ℕ × Fresh)
scrolls =
    (scroll_up none, fresh "a" 1)
    ∷ (add_user "hi", fresh "b" 2)
    ∷ (scroll_down none, fresh "c" 3)
    ∷ []

new_at_the_bottom :
    ((run scrolls start).0.scroll.offset ≡ 0) × ((run scrolls start).0.scroll.has_new ≡ true)
unfolding app_reducer Items.add_user
new_at_the_bottom = (refl, refl)

keeps_the_focus :
    (reduce clear_items (fresh "a" 1) (record start { focused_item_id = some "i" })).focused_item_id
    ≡ some "i"
unfolding Items.clear_items
keeps_the_focus = refl

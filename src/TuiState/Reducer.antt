-- ===== src/TuiState/Reducer.antt =====
-- state.ts: AppAction and `appReducer`. A permission that is answered calls its `resolve`, which the
-- result shows beside the new state.
pub mod Kept
pub mod Streams
pub mod Permissions
use phus.Prelude.{
  ℕ, ◌+◌, ◌-◌, String, Bool, true, false, Option, none, some, List, [], ◌∷◌, ◌++◌, if◌then◌else◌,
  any,
}
use text.Mathlib.Text.{◌==◌ as str_eq}
use phus.TuiState.{
  SystemLevel, RememberChoice, once, session, always, UsageMetadata, PermissionRequest,
  PlanStepStatus, PlanSubagentState, PlanPanelStatus, PlanState, SidebarView, AppState, Fresh,
  is_set,
}
use phus.TuiState.Items
use phus.TuiState.Panel.{
  StepMeta, merge_meta, map_step, set_step_status, upsert_subagent, remove_subagent, map_plan,
}

pub data AppAction (J : Type 0) : Type 0 where
  append_delta append_thinking : String → AppAction J
  upsert_tool_call : String → String → Option J → AppAction J
  complete_tool_call : String → Option J → Bool → AppAction J
  finalize_streaming : AppAction J
  set_assistant_metadata : Option String → Option (UsageMetadata J) → AppAction J
  add_user : String → AppAction J
  add_system : String → SystemLevel → AppAction J
  set_busy : Bool → AppAction J
  set_last_op : String → AppAction J
  hide_hint clear_items : AppAction J
  scroll_up scroll_down : Option ℕ → AppAction J
  scroll_bottom : AppAction J
  push_permission : PermissionRequest J → AppAction J
  resolve_permission : Bool → Option RememberChoice → AppAction J
  clear_session_allowed_tools : AppAction J
  set_plan : PlanState → AppAction J
  update_plan_step : String → PlanStepStatus → AppAction J
  update_plan_step_meta : String → StepMeta → AppAction J
  set_plan_step_output : String → String → AppAction J
  set_plan_status : PlanPanelStatus → AppAction J
  upsert_plan_subagent : PlanSubagentState → AppAction J
  remove_plan_subagent : String → AppAction J
  request_sidebar : SidebarView → AppAction J
  consume_sidebar_request clear_plan request_quit consume_quit_request : AppAction J
  set_quit_confirm_pending : Bool → AppAction J
  set_focused_item toggle_collapsed : Option String → AppAction J
  toggle_collapsed_visible : List String → AppAction J
  set_collapsed : String → Bool → AppAction J

abbrev pub or_one : Option ℕ → ℕ
or_one none = 1
or_one (some lines) = lines

abbrev pub or_once : Option RememberChoice → RememberChoice
or_once none = once
or_once (some remember) = remember

-- `new Set([...tools, tool])`
unfoldable pub add_tool : List String → String → List String
add_tool tools tool = if any (λ t. str_eq t tool) tools then tools else tools ++ tool ∷ []

-- `if (!state.quitRequested) return state;` and else the flag is deleted.
abbrev consume : Option Bool → Option Bool
consume quit = if is_set quit then none else quit

module _ {J : Type 0} where
  -- What a permission that was granted changes.
  abbrev pub remember_tool : RememberChoice → String → AppState J → AppState J
  remember_tool once tool state = state
  remember_tool always tool state = record state {
    allowed_tools = add_tool state.allowed_tools tool;
  }
  remember_tool session tool state = record state {
    session_allowed_tools = add_tool state.session_allowed_tools tool;
  }

  abbrev pub resolve_first :
      Bool
      → Option RememberChoice
      → List (PermissionRequest J)
      → AppState J
      → AppState J × List (PermissionRequest J × Bool)
  resolve_first allow remember [] state = (state, [])
  resolve_first allow remember (first ∷ rest) state =
      let new_state = record state { permission_queue = rest } in
      (
        if allow then remember_tool (or_once remember) first.tool_name new_state else new_state,
        (first, allow) ∷ [],
      )

  abbrev pub reduce : AppAction J → Fresh → AppState J → AppState J
  reduce (append_delta delta) fresh state = Items.append_delta delta fresh state
  reduce (append_thinking delta) fresh state = Items.append_thinking delta fresh state
  reduce (upsert_tool_call id name args) fresh state =
      Items.upsert_tool_call id name args fresh state
  reduce (complete_tool_call id result is_error) fresh state =
      Items.complete_tool_call id result is_error fresh state
  reduce finalize_streaming fresh state = Items.finalize_streaming state
  reduce (set_assistant_metadata model usage) fresh state =
      Items.set_assistant_metadata model usage state
  reduce (add_user text) fresh state = Items.add_user text fresh state
  reduce (add_system text level) fresh state = Items.add_system text level fresh state
  reduce (set_busy busy) fresh state = record state { busy = busy }
  reduce (set_last_op op) fresh state = record state { last_op = op }
  reduce hide_hint fresh state = record state { show_hint = false }
  reduce clear_items fresh state = Items.clear_items state
  reduce (scroll_up lines) fresh state = record state {
    scroll = record state.scroll { offset = state.scroll.offset + or_one lines };
  }
  reduce (scroll_down lines) fresh state = record state {
    scroll = record state.scroll { offset = state.scroll.offset - or_one lines };
  }
  reduce scroll_bottom fresh state = record state {
    scroll = record { offset = 0; has_new = false };
  }
  reduce (push_permission request) fresh state = record state {
    permission_queue = state.permission_queue ++ request ∷ [];
  }
  reduce (resolve_permission allow remember) fresh state =
      (resolve_first allow remember state.permission_queue state).0
  reduce clear_session_allowed_tools fresh state = record state { session_allowed_tools = [] }
  reduce (set_plan plan) fresh state = record state { plan = some plan }
  reduce (update_plan_step id status) fresh state = record state {
    plan = map_plan (set_step_status id status) state.plan;
  }
  reduce (update_plan_step_meta id meta) fresh state = record state {
    plan = map_plan (map_step id (merge_meta meta)) state.plan;
  }
  reduce (set_plan_step_output id output) fresh state = record state {
    plan = map_plan (map_step id (λ s. record s { output = some output })) state.plan;
  }
  reduce (set_plan_status status) fresh state = record state {
    plan = map_plan (λ plan. record plan { status = status }) state.plan;
  }
  reduce (upsert_plan_subagent a) fresh state = record state {
    plan =
        map_plan (λ plan. record plan { subagents = upsert_subagent a plan.subagents }) state.plan;
  }
  reduce (remove_plan_subagent id) fresh state = record state {
    plan =
        map_plan (λ plan. record plan { subagents = remove_subagent id plan.subagents }) state.plan;
  }
  reduce (request_sidebar view) fresh state = record state { sidebar_request = some view }
  reduce consume_sidebar_request fresh state = record state { sidebar_request = none }
  reduce clear_plan fresh state = record state { plan = none }
  reduce request_quit fresh state = record state { quit_requested = some true }
  reduce consume_quit_request fresh state = record state {
    quit_requested = consume state.quit_requested;
  }
  reduce (set_quit_confirm_pending pending) fresh state = record state {
    quit_confirm_pending = some pending;
  }
  reduce (set_focused_item id) fresh state = record state { focused_item_id = id }
  reduce (toggle_collapsed id) fresh state = Items.toggle_collapsed id state
  reduce (toggle_collapsed_visible ids) fresh state = Items.toggle_collapsed_visible ids state
  reduce (set_collapsed id collapsed) fresh state = Items.set_collapsed id collapsed state

  abbrev pub resolved : AppAction J → AppState J → List (PermissionRequest J × Bool)
  resolved (resolve_permission allow remember) state =
      (resolve_first allow remember state.permission_queue state).1
  resolved _ state = []

  -- `appReducer`, with the permissions that it answers.
  unfoldable pub app_reducer :
      AppAction J → Fresh → AppState J → AppState J × List (PermissionRequest J × Bool)
  app_reducer action fresh state = (reduce action fresh state, resolved action state)

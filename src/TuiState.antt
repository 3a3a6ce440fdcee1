-- ===== src/TuiState.antt =====
-- packages/tui/src/state/state.ts: the state of the terminal's chat. Values that the reducer only
-- passes on (arguments and results of tools, costs) are of any type J. What a call takes from
-- crypto.randomUUID and Date.now is its argument `Fresh`; the clock does not go backwards.
pub mod Items
pub mod Panel
pub mod Reducer
mod Tests
use phus.Prelude.{ℕ, String, Bool, true, false, Option, none, some, List, [], ◌==◌, if◌then◌else◌}
use text.Mathlib.Text.{◌==◌ as str_eq}

pub data ChatItemKind : Type 0 where
  user assistant tool_call tool_result system : ChatItemKind

pub data SystemLevel : Type 0 where
  info warn error : SystemLevel

pub data RememberChoice : Type 0 where
  once session always : RememberChoice

pub record UsageMetadata (J : Type 0) : Type 0 where
  pub input_tokens : Option ℕ
  pub output_tokens : Option ℕ
  pub total_tokens : Option ℕ
  pub cost : Option J

pub record ChatItem (J : Type 0) : Type 0 where
  pub id : String
  pub kind : ChatItemKind
  pub ts : ℕ
  pub text : Option String
  pub reasoning : Option String
  pub is_streaming : Option Bool
  pub tool_name : Option String
  pub tool_call_id : Option String
  pub args : Option J
  pub result : Option J
  pub is_error : Option Bool
  pub duration_ms : Option ℕ
  pub level : Option SystemLevel
  pub model : Option String
  pub usage : Option (UsageMetadata J)
  pub collapsed : Option Bool

pub record ScrollState : Type 0 where
  pub offset : ℕ
  pub has_new : Bool

-- `resolve` is the identity of the callback.
pub record PermissionRequest (J : Type 0) : Type 0 where
  pub id : String
  pub tool_name : String
  pub args : Option J
  pub tool_call_id : String
  pub preview : Option String
  pub caption : Option String
  pub resolve : ℕ

pub data PlanStepStatus : Type 0 where
  pending running completed failed skipped : PlanStepStatus

pub record PlanStepState : Type 0 where
  pub id : String
  pub description : String
  pub status : PlanStepStatus
  pub duration_ms : Option ℕ
  pub error : Option String
  pub retry_count : Option ℕ
  pub level : Option ℕ
  pub subagent_session_id : Option String
  pub subagent_label : Option String
  pub output : Option String
  pub tool : Option String

pub data SubagentStatus : Type 0 where
  running completed failed : SubagentStatus

pub record PlanSubagentState : Type 0 where
  pub session_id : String
  pub label : String
  pub goal : String
  pub status : SubagentStatus
  pub progress : Option String

pub data PlanPanelStatus : Type 0 where
  pending running paused completed failed : PlanPanelStatus

pub record PlanState : Type 0 where
  pub id : String
  pub goal : String
  pub status : PlanPanelStatus
  pub steps : List PlanStepState
  pub current_step_id : Option String
  pub subagents : List PlanSubagentState

pub data SidebarView : Type 0 where
  files sessions : SidebarView

pub record AppState (J : Type 0) : Type 0 where
  pub items : List (ChatItem J)
  pub busy : Bool
  pub show_hint : Bool
  pub last_op : String
  pub scroll : ScrollState
  pub permission_queue : List (PermissionRequest J)
  pub allowed_tools : List String
  pub session_allowed_tools : List String
  pub plan : Option PlanState
  pub sidebar_request : Option SidebarView
  pub plan_expanded : Option Bool
  pub quit_requested : Option Bool
  pub quit_confirm_pending : Option Bool
  pub focused_item_id : Option String

abbrev pub initial_state : {J : Type 0} → AppState J
initial_state = record {
  items = [];
  busy = false;
  show_hint = true;
  last_op = "idle";
  scroll = record { offset = 0; has_new = false };
  permission_queue = [];
  allowed_tools = [];
  session_allowed_tools = [];
  plan = none;
  sidebar_request = none;
  plan_expanded = none;
  quit_requested = none;
  quit_confirm_pending = none;
  focused_item_id = none;
}

pub record Fresh : Type 0 where
  pub uuid : String
  pub now : ℕ

-- An optional flag as a condition: `undefined` counts as false.
abbrev pub is_set : Option Bool → Bool
is_set none = false
is_set (some b) = b

abbrev pub is_text : Option String → String → Bool
is_text none t = false
is_text (some s) t = str_eq s t

abbrev pub is_assistant : ChatItemKind → Bool
is_assistant assistant = true
is_assistant _ = false

abbrev pub is_tool_call : ChatItemKind → Bool
is_tool_call tool_call = true
is_tool_call _ = false

-- `withScrollOnNewContent`
unfoldable pub with_scroll_on_new_content : {J : Type 0} → AppState J → AppState J
with_scroll_on_new_content state =
    if state.scroll.offset == 0
    then state
    else record state { scroll = record state.scroll { has_new = true } }

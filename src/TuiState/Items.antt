-- ===== src/TuiState/Items.antt =====
-- state.ts: the actions of the reducer on the items of the chat.
use phus.Prelude.{
  ◌-◌, String, Bool, true, false, not, ◌&&◌, Option, none, some, List, [], ◌∷◌, ◌++◌, map,
  if◌then◌else◌, any, find?,
}
use Prim.Native.String.{◌++◌ as concat}
use text.Mathlib.Text.{◌==◌ as str_eq}
use phus.TuiState.{
  ChatItemKind, user, assistant, tool_call, system, SystemLevel, UsageMetadata, ChatItem, AppState,
  Fresh, is_set, is_text, is_assistant, is_tool_call, with_scroll_on_new_content,
}

module _ {A : Type 0} where
  -- The list with its last element changed, if that passes the test.
  unfoldable pub change_last : (A → Bool) → (A → A) → List A → Option (List A)
  change_last p f [] = none
  change_last p f (x ∷ []) = if p x then some (f x ∷ []) else none
  change_last p f (x ∷ y ∷ xs) = elim (change_last p f (y ∷ xs)) [
    | none ↦ none
    | some ys ↦ some (x ∷ ys)
  ]

  -- The first element that passes the test, `findIndex`, changed.
  unfoldable pub change_first : (A → Bool) → (A → A) → List A → Option (List A)
  change_first p f [] = none
  change_first p f (x ∷ xs) =
      let later : Option (List A) = elim (change_first p f xs) [
        | none ↦ none
        | some ys ↦ some (x ∷ ys)
      ] in
      if p x then some (f x ∷ xs) else later

  -- The last element that passes the test, `lastIndexOf`, changed.
  unfoldable pub change_last_such : (A → Bool) → (A → A) → List A → Option (List A)
  change_last_such p f [] = none
  change_last_such p f (x ∷ xs) = elim (change_last_such p f xs) [
    | some ys ↦ some (x ∷ ys)
    | none ↦ if p x then some (f x ∷ xs) else none
  ]

  abbrev pub or_else : Option A → A → A
  or_else none x = x
  or_else (some y) x = y

-- `(last.text ?? "") + delta`
abbrev pub extend : Option String → String → String
extend none delta = delta
extend (some text) delta = concat text delta

-- `it.collapsed === undefined ? true : !it.collapsed`
abbrev pub flip : Option Bool → Bool
flip none = true
flip (some b) = not b

-- Neither a message of the user nor a notice of the system.
abbrev pub is_collapsible : ChatItemKind → Bool
is_collapsible user = false
is_collapsible system = false
is_collapsible _ = true

module _ {J : Type 0} where
  abbrev pub new_item : Fresh → ChatItemKind → ChatItem J
  new_item fresh kind = record {
    id = fresh.uuid;
    kind = kind;
    ts = fresh.now;
    text = none;
    reasoning = none;
    is_streaming = none;
    tool_name = none;
    tool_call_id = none;
    args = none;
    result = none;
    is_error = none;
    duration_ms = none;
    level = none;
    model = none;
    usage = none;
    collapsed = none;
  }

  abbrev pub is_streaming_assistant : ChatItem J → Bool
  is_streaming_assistant it = is_assistant it.kind && is_set it.is_streaming

  abbrev pub with_items : AppState J → List (ChatItem J) → AppState J
  with_items state items = with_scroll_on_new_content (record state { items = items })

  unfoldable pub append_delta : String → Fresh → AppState J → AppState J
  unfolding change_last with_scroll_on_new_content
  append_delta delta fresh state =
      let added = record (new_item fresh assistant) {
        text = some delta;
        is_streaming = some true;
      } in
      if str_eq delta ""
      then state
      else with_items state (
          or_else
            (change_last is_streaming_assistant
              (λ it. record it { text = some (extend it.text delta) }) state.items)
            (state.items ++ added ∷ []))

  unfoldable pub append_thinking : String → Fresh → AppState J → AppState J
  unfolding change_last with_scroll_on_new_content
  append_thinking delta fresh state =
      let added = record (new_item fresh assistant) {
        reasoning = some delta;
        is_streaming = some true;
      } in
      if str_eq delta ""
      then state
      else with_items state (
          or_else
            (change_last is_streaming_assistant
              (λ it. record it { reasoning = some (extend it.reasoning delta) }) state.items)
            (state.items ++ added ∷ []))

  abbrev pub is_call : String → ChatItem J → Bool
  is_call tool_call_id it = is_tool_call it.kind && is_text it.tool_call_id tool_call_id

  abbrev pub has_id : String → ChatItem J → Bool
  has_id id it = str_eq it.id id

  -- `items.map((it) => it.id === id ? … : it)`
  abbrev pub map_id : String → (ChatItem J → ChatItem J) → List (ChatItem J) → List (ChatItem J)
  map_id id f items = map (λ it. if has_id id it then f it else it) items

  unfoldable pub upsert_tool_call : String → String → Option J → Fresh → AppState J → AppState J
  unfolding with_scroll_on_new_content
  upsert_tool_call tool_call_id tool_name args fresh state =
      let added = record (new_item fresh tool_call) {
        tool_name = some tool_name;
        tool_call_id = some tool_call_id;
        args = args;
        collapsed = some false;
      } in
      elim (find? (is_call tool_call_id) state.items) [
        | some existing ↦
            with_items state (map_id existing.id (λ it. record it { args = args }) state.items)
        | none ↦ with_items state (state.items ++ added ∷ [])
      ]

  unfoldable pub complete_tool_call : String → Option J → Bool → Fresh → AppState J → AppState J
  unfolding change_first with_scroll_on_new_content
  complete_tool_call tool_call_id result is_error fresh state =
      let done = λ (call : ChatItem J). record call {
        result = result;
        is_error = some is_error;
        duration_ms = some (fresh.now - call.ts);
        collapsed = some true;
      } in
      elim (change_first (is_call tool_call_id) done state.items) [
        | none ↦ state
        | some updated ↦ with_items state updated
      ]

  abbrev pub finalize_item : ChatItem J → ChatItem J
  finalize_item it =
      if is_streaming_assistant it then record it { is_streaming = some false } else it

  unfoldable pub finalize_streaming : AppState J → AppState J
  finalize_streaming state = record state { items = map finalize_item state.items }

  unfoldable pub set_assistant_metadata :
      Option String → Option (UsageMetadata J) → AppState J → AppState J
  unfolding change_last_such
  set_assistant_metadata model usage state =
      elim (change_last_such (λ it. is_assistant it.kind)
        (λ it. record it { model = model; usage = usage }) state.items) [
          | none ↦ state
          | some updated ↦ record state { items = updated }
        ]

  unfoldable pub add_user : String → Fresh → AppState J → AppState J
  unfolding with_scroll_on_new_content
  add_user text fresh state =
      with_items state (state.items ++ record (new_item fresh user) { text = some text } ∷ [])

  unfoldable pub add_system : String → SystemLevel → Fresh → AppState J → AppState J
  unfolding with_scroll_on_new_content
  add_system text level fresh state =
      let added = record (new_item fresh system) { text = some text; level = some level } in
      with_items state (state.items ++ added ∷ [])

  unfoldable pub clear_items : AppState J → AppState J
  clear_items state = record state { items = []; scroll = record { offset = 0; has_new = false } }

  unfoldable pub toggle_collapsed : Option String → AppState J → AppState J
  toggle_collapsed none state = state
  toggle_collapsed (some id) state = if str_eq id "" then state else record state {
    items = map_id id (λ it. record it { collapsed = some (flip it.collapsed) }) state.items;
  }

  abbrev pub is_one_of : List String → ChatItem J → Bool
  is_one_of ids it = any (λ id. str_eq it.id id) ids

  abbrev pub set_visible : List String → Bool → ChatItem J → ChatItem J
  set_visible ids collapsed it =
      if is_one_of ids it && is_collapsible it.kind
      then record it { collapsed = some collapsed }
      else it

  abbrev pub any_collapsed : List String → List (ChatItem J) → Bool
  any_collapsed ids items = any (λ it. is_one_of ids it && is_set it.collapsed) items

  unfoldable pub toggle_collapsed_visible : List String → AppState J → AppState J
  toggle_collapsed_visible [] state = state
  toggle_collapsed_visible (id ∷ ids) state = record state {
    items = map (set_visible (id ∷ ids) (not (any_collapsed (id ∷ ids) state.items))) state.items;
  }

  unfoldable pub set_collapsed : String → Bool → AppState J → AppState J
  set_collapsed id collapsed state = record state {
    items = map_id id (λ it. record it { collapsed = some collapsed }) state.items;
  }

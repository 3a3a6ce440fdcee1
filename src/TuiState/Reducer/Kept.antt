-- ===== src/TuiState/Reducer/Kept.antt =====
-- state.ts: the operations on items leave the permissions as they are.
use phus.Prelude.{
  String, ◌≡◌, refl, Bool, true, false, Option, none, some, List, [], ◌∷◌, arith, if◌then◌else◌,
  find?,
}
use text.Mathlib.Text.{◌==◌ as str_eq}
use phus.TuiState.{
  is_assistant, ChatItem, SystemLevel, UsageMetadata, AppState, Fresh, with_scroll_on_new_content,
}
use phus.TuiState.Items
use phus.TuiState.Items.{with_items}

module _ {J : Type 0} where
  -- The two fields that permissions are about.
  pub record Same (before after : AppState J) : Type 0 where
    pub queue : after.permission_queue ≡ before.permission_queue
    pub tools : after.allowed_tools ≡ before.allowed_tools

  pub with_scroll-Same : (state : AppState J) → Same state (with_scroll_on_new_content state)
  unfolding with_scroll_on_new_content
  with_scroll-Same state = ground arith

  pub with_items-Same :
      (state : AppState J) (items : List (ChatItem J)) → Same state (with_items state items)
  unfolding with_scroll_on_new_content
  with_items-Same state items = ground arith

  pub if-Same :
      (b : Bool) (state x y : AppState J)
      → Same state x
      → Same state y
      → Same state (if b then x else y)
  if-Same true state x y h k = h
  if-Same false state x y h k = k

  pub option-Same :
      {A : Type 0} (o : Option A) (state y : AppState J) (f : A → AppState J)
      → Same state y
      → ((a : A) → Same state (f a))
      → Same state (elim o [ none ↦ y | some a ↦ f a ])
  option-Same none state y f h k = h
  option-Same (some a) state y f h k = k a

  pub refl-Same : (state : AppState J) → Same state state
  refl-Same state = record { queue = refl; tools = refl }

  pub append_delta-Same :
      (delta : String) (fresh : Fresh) (state : AppState J)
      → Same state (Items.append_delta delta fresh state)
  unfolding Items.append_delta
  append_delta-Same delta fresh state =
      if-Same (str_eq delta "") state _ _ (refl-Same state) (with_items-Same state _)

  pub append_thinking-Same :
      (delta : String) (fresh : Fresh) (state : AppState J)
      → Same state (Items.append_thinking delta fresh state)
  unfolding Items.append_thinking
  append_thinking-Same delta fresh state =
      if-Same (str_eq delta "") state _ _ (refl-Same state) (with_items-Same state _)

  pub upsert_tool_call-Same :
      (id name : String) (args : Option J) (fresh : Fresh) (state : AppState J)
      → Same state (Items.upsert_tool_call id name args fresh state)
  unfolding Items.upsert_tool_call
  upsert_tool_call-Same id name args fresh state =
      option-Same (find? (Items.is_call id) state.items) state _
        (λ (existing : ChatItem J).
          with_items state
            (Items.map_id existing.id (λ (it : ChatItem J). record it { args = args }) state.items))
        (with_items-Same state _) (λ existing. with_items-Same state _)

  pub complete_tool_call-Same :
      (id : String) (result : Option J) (is_error : Bool) (fresh : Fresh) (state : AppState J)
      → Same state (Items.complete_tool_call id result is_error fresh state)
  unfolding Items.complete_tool_call
  complete_tool_call-Same id result is_error fresh state =
      option-Same _ state state (with_items state) (refl-Same state)
        (λ items. with_items-Same state items)

  pub set_assistant_metadata-Same :
      (model : Option String) (usage : Option (UsageMetadata J)) (state : AppState J)
      → Same state (Items.set_assistant_metadata model usage state)
  unfolding Items.set_assistant_metadata
  set_assistant_metadata-Same model usage state =
      option-Same
        (Items.change_last_such {A = ChatItem J} (λ it. is_assistant it.kind)
          (λ it. record it { model = model; usage = usage }) state.items)
        state state (λ items. record state { items = items }) (refl-Same state)
        (λ items. record { queue = refl; tools = refl })

  pub add_user-Same :
      (text : String) (fresh : Fresh) (state : AppState J)
      → Same state (Items.add_user text fresh state)
  unfolding Items.add_user
  add_user-Same text fresh state = with_items-Same state _

  pub add_system-Same :
      (text : String) (level : SystemLevel) (fresh : Fresh) (state : AppState J)
      → Same state (Items.add_system text level fresh state)
  unfolding Items.add_system
  add_system-Same text level fresh state = with_items-Same state _

  pub toggle_collapsed-Same :
      (id : Option String) (state : AppState J) → Same state (Items.toggle_collapsed id state)
  unfolding Items.toggle_collapsed
  toggle_collapsed-Same none state = refl-Same state
  toggle_collapsed-Same (some id) state =
      if-Same (str_eq id "") state _ _ (refl-Same state) (record { queue = refl; tools = refl })

  pub toggle_collapsed_visible-Same :
      (ids : List String) (state : AppState J)
      → Same state (Items.toggle_collapsed_visible ids state)
  unfolding Items.toggle_collapsed_visible
  toggle_collapsed_visible-Same [] state = refl-Same state
  toggle_collapsed_visible-Same (id ∷ ids) state = record { queue = refl; tools = refl }

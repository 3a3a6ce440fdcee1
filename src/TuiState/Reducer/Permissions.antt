-- ===== src/TuiState/Reducer/Permissions.antt =====
-- state.ts: permissions are answered in order, each once, and only an answer allows a tool.
use phus.Prelude.{
  String, ◌≡◌, refl, sym, ap, ◌∙◌, subst, ◌⊎◌, inl, inr, Bool, true, false, ◌&&◌, Option, List, [],
  ◌∷◌, ◌++◌, map, append-nil, append_assoc, arith, if◌then◌else◌, Bool-cases, any, any-append,
}
use text.Mathlib.Text.{◌==◌ as str_eq}
use phus.TuiState.{RememberChoice, once, session, always, PermissionRequest, AppState, Fresh}
use phus.TuiState.Items
use phus.TuiState.Items.{with_items}
use phus.TuiState.Reducer.{
  AppAction, push_permission, resolve_permission, remember_tool, resolve_first, or_once, add_tool,
  reduce, resolved, app_reducer,
}
use phus.TuiState.Reducer.Kept.{
  Same, refl-Same, append_delta-Same, append_thinking-Same, upsert_tool_call-Same,
  complete_tool_call-Same, set_assistant_metadata-Same, add_user-Same, add_system-Same,
  toggle_collapsed-Same, toggle_collapsed_visible-Same,
}

any-add_tool :
    (tools : List String) (new tool : String)
    → any (λ t. str_eq t tool) (add_tool tools new) ≡ true
    → (any (λ t. str_eq t tool) tools ≡ true) ⊎ (str_eq new tool ≡ true)
unfolding add_tool
any-add_tool tools new tool h = elim (Bool-cases (any (λ t. str_eq t new) tools)) [
  | inl t ↦ inl (rw t at h)
  | inr f ↦ ground (arith, any-append (λ t. str_eq t tool) tools (new ∷ []), (rw f at h))
]

module _ {J : Type 0} where
  abbrev pub pushed : AppAction J → List (PermissionRequest J)
  pushed (push_permission request) = request ∷ []
  pushed _ = []

  -- What an action does to the queue: an answer goes to the head, a request to the end.
  record IsAnswered (action : AppAction J) (before after : AppState J)
      (answers : List (PermissionRequest J × Bool)) : Type 0 where
    fifo :
        map (λ a. a.0) answers ++ after.permission_queue ≡ before.permission_queue ++ pushed action
    allowed :
        (tool : String)
        → any (λ t. str_eq t tool) after.allowed_tools ≡ true
        → (any (λ t. str_eq t tool) before.allowed_tools ≡ true)
          ⊎ (any (λ (a : PermissionRequest J × Bool). a.1 && str_eq a.0.tool_name tool) answers
              ≡ true)

  Same-IsAnswered :
      (action : AppAction J) (before after : AppState J)
      → pushed action ≡ []
      → Same before after
      → IsAnswered action before after []
  Same-IsAnswered action before after none_pushed same = record {
    fifo =
        same.queue
        ∙ sym (
            ap (λ r. before.permission_queue ++ r) none_pushed
            ∙ append-nil before.permission_queue);
    allowed = λ tool h. inl (subst (λ tools. any (λ t. str_eq t tool) tools ≡ true) same.tools h);
  }

  remember-IsAnswered :
      (allow : Bool) (remember : RememberChoice) (first : PermissionRequest J)
      (rest : List (PermissionRequest J)) (state : AppState J)
      → (tool : String)
      → any
          (λ t. str_eq t tool)
          (if allow
            then remember_tool remember first.tool_name (record state { permission_queue = rest })
            else record state { permission_queue = rest }).allowed_tools
        ≡ true
      → (any (λ t. str_eq t tool) state.allowed_tools ≡ true)
        ⊎ ((allow && str_eq first.tool_name tool) ≡ true)
  remember-IsAnswered false remember first rest state tool h = inl h
  remember-IsAnswered true once first rest state tool h = inl h
  remember-IsAnswered true session first rest state tool h = inl h
  remember-IsAnswered true always first rest state tool h =
      any-add_tool state.allowed_tools first.tool_name tool h

  remember-queue :
      (allow : Bool) (remember : RememberChoice) (tool : String) (state : AppState J)
      → (if allow then remember_tool remember tool state else state).permission_queue
        ≡ state.permission_queue
  remember-queue false remember tool state = refl
  remember-queue true once tool state = refl
  remember-queue true session tool state = refl
  remember-queue true always tool state = refl

  resolve-IsAnswered :
      (allow : Bool) (remember : Option RememberChoice) (queue : List (PermissionRequest J))
      (state : AppState J)
      → state.permission_queue ≡ queue
      → IsAnswered
          (resolve_permission allow remember)
          state
          (resolve_first allow remember queue state).0
          (resolve_first allow remember queue state).1
  resolve-IsAnswered allow remember [] state e =
      Same-IsAnswered (resolve_permission allow remember) state state refl (refl-Same state)
  resolve-IsAnswered allow remember (first ∷ rest) state e = record {
    fifo =
        ap (λ q. first ∷ q)
          (remember-queue allow (or_once remember) first.tool_name
            (record state { permission_queue = rest }))
        ∙ sym e
        ∙ sym (append-nil state.permission_queue);
    allowed = λ tool h.
        elim (remember-IsAnswered allow (or_once remember) first rest state tool h) [
          | inl old ↦ inl old
          | inr new ↦ inr (ground (arith, new))
        ];
  }

  reduce-IsAnswered :
      (action : AppAction J) (fresh : Fresh) (state : AppState J)
      → IsAnswered action state (reduce action fresh state) (resolved action state)
  unfolding Items.finalize_streaming Items.clear_items Items.set_collapsed
  reduce-IsAnswered (AppAction.append_delta delta) fresh state =
      Same-IsAnswered _ state _ refl (append_delta-Same delta fresh state)
  reduce-IsAnswered (AppAction.append_thinking delta) fresh state =
      Same-IsAnswered _ state _ refl (append_thinking-Same delta fresh state)
  reduce-IsAnswered (AppAction.upsert_tool_call id name args) fresh state =
      Same-IsAnswered _ state _ refl (upsert_tool_call-Same id name args fresh state)
  reduce-IsAnswered (AppAction.complete_tool_call id result is_error) fresh state =
      Same-IsAnswered _ state _ refl (complete_tool_call-Same id result is_error fresh state)
  reduce-IsAnswered (AppAction.set_assistant_metadata model usage) fresh state =
      Same-IsAnswered _ state _ refl (set_assistant_metadata-Same model usage state)
  reduce-IsAnswered (AppAction.add_user text) fresh state =
      Same-IsAnswered _ state _ refl (add_user-Same text fresh state)
  reduce-IsAnswered (AppAction.add_system text level) fresh state =
      Same-IsAnswered _ state _ refl (add_system-Same text level fresh state)
  reduce-IsAnswered (AppAction.toggle_collapsed id) fresh state =
      Same-IsAnswered _ state _ refl (toggle_collapsed-Same id state)
  reduce-IsAnswered (AppAction.toggle_collapsed_visible ids) fresh state =
      Same-IsAnswered _ state _ refl (toggle_collapsed_visible-Same ids state)
  reduce-IsAnswered (push_permission request) fresh state = record {
    fifo = refl;
    allowed = λ tool h. inl h;
  }
  reduce-IsAnswered (resolve_permission allow remember) fresh state =
      resolve-IsAnswered allow remember state.permission_queue state refl
  reduce-IsAnswered action fresh state =
      Same-IsAnswered action state _ refl (record { queue = refl; tools = refl })

  -- A run of the reducer, with all the permissions that it answers.
  abbrev pub run :
      List (AppAction J × Fresh) → AppState J → AppState J × List (PermissionRequest J × Bool)
  run [] state = (state, [])
  run ((action, fresh) ∷ actions) state =
      let (end, answers) = run actions (app_reducer action fresh state).0 in
      (end, (app_reducer action fresh state).1 ++ answers)

  abbrev pub all_pushed : List (AppAction J × Fresh) → List (PermissionRequest J)
  all_pushed [] = []
  all_pushed ((action, fresh) ∷ actions) = pushed action ++ all_pushed actions

  pub record IsOrderly (requests : List (PermissionRequest J)) (before after : AppState J)
      (answers : List (PermissionRequest J × Bool)) : Type 0 where
    -- The answered requests, then those that wait, are those that waited and then those that came.
    pub fifo :
        map (λ a. a.0) answers ++ after.permission_queue ≡ before.permission_queue ++ requests
    -- A tool that is allowed for good was so before, or is that of a request that was granted.
    pub allowed :
        (tool : String)
        → any (λ t. str_eq t tool) after.allowed_tools ≡ true
        → (any (λ t. str_eq t tool) before.allowed_tools ≡ true)
          ⊎ (any (λ (a : PermissionRequest J × Bool). a.1 && str_eq a.0.tool_name tool) answers
              ≡ true)

  map-append :
      (xs ys : List (PermissionRequest J × Bool))
      → map (λ a. a.0) (xs ++ ys) ≡ map (λ a. a.0) xs ++ map (λ a. a.0) ys
  map-append [] ys = refl
  map-append (x ∷ xs) ys = ap (λ r. x.0 ∷ r) (map-append xs ys)

  IsOrderly-step :
      (action : AppAction J) (requests : List (PermissionRequest J)) (before mid after : AppState J)
      (xs ys : List (PermissionRequest J × Bool))
      → IsAnswered action before mid xs
      → IsOrderly requests mid after ys
      → IsOrderly (pushed action ++ requests) before after (xs ++ ys)
  IsOrderly-step action requests before mid after xs ys s t = record {
    fifo =
        ap (λ l. l ++ after.permission_queue) (map-append xs ys)
        ∙ append_assoc (map (λ a. a.0) xs) (map (λ a. a.0) ys) after.permission_queue
        ∙ ap (λ l. map (λ a. a.0) xs ++ l) t.fifo
        ∙ sym (append_assoc (map (λ a. a.0) xs) mid.permission_queue requests)
        ∙ ap (λ l. l ++ requests) s.fifo
        ∙ append_assoc before.permission_queue (pushed action) requests;
    allowed = λ tool h. elim (t.allowed tool h) [
      | inr new ↦ inr (
          ground (
            arith,
            new,
            any-append (λ (a : PermissionRequest J × Bool). a.1 && str_eq a.0.tool_name tool) xs ys,
          ))
      | inl mid_allowed ↦ elim (s.allowed tool mid_allowed) [
        | inl old ↦ inl old
        | inr new ↦ inr (
            ground (
              arith,
              new,
              any-append (λ (a : PermissionRequest J × Bool). a.1 && str_eq a.0.tool_name tool) xs
                  ys,
            ))
      ]
    ];
  }

  -- Over any run of actions the permissions are answered in the order in which they came, each once;
  -- and a tool that is allowed for good was so before, or a request for it was granted.
  pub run-IsOrderly :
      (actions : List (AppAction J × Fresh)) (state : AppState J)
      → IsOrderly (all_pushed actions) state (run actions state).0 (run actions state).1
  unfolding app_reducer
  run-IsOrderly [] state = record {
    fifo = sym (append-nil state.permission_queue);
    allowed = λ tool h. inl h;
  }
  run-IsOrderly ((action, fresh) ∷ actions) state =
      IsOrderly-step action (all_pushed actions) state (reduce action fresh state) _
        (resolved action state) _ (reduce-IsAnswered action fresh state)
        (run-IsOrderly actions (reduce action fresh state))

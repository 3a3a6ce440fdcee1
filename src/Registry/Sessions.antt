-- ===== src/Registry/Sessions.antt =====
-- session-runtime-registry.ts: creation and selection of runtimes, runs, subscriptions and disposal.
use phus.Prelude.{
  ℕ, ◌+◌, ◌-◌, String, Bool, true, Option, none, some, List, [], ◌∷◌, ◌++◌, map, if◌then◌else◌,
}
use phus.Prelude.Sort.{sort}
use text.Mathlib.Text.{◌==◌ as str_eq}
use phus.Registry.{
  EventKind, Effect, created, permitted, subscribed, Subscriber, RuntimeEntry,
  SessionRuntimeRegistry, has_session, find_entry, touch, without, dispose_entry, older,
  checkpoint_if, evict_if_needed,
}

module _ (has_messages : String → Bool) where
  -- `attachSubscribers`
  abbrev pub attach_one : String → Subscriber → Subscriber
  attach_one id s = record s { unsubs = without id s.unsubs ++ id ∷ [] }

  abbrev pub attach_subscribers : String → List Subscriber → List Subscriber × List Effect
  attach_subscribers id subs =
      (map (attach_one id) subs, map (λ s. subscribed s.kind s.handler id) subs)

  abbrev permit : Option ℕ → String → List Effect
  permit none id = []
  permit (some handler) id = permitted id handler ∷ []

  -- The entry of a new runtime, with what follows.
  unfoldable pub insert_entry :
      String → ℕ → SessionRuntimeRegistry → SessionRuntimeRegistry × List Effect
  unfolding evict_if_needed
  insert_entry id now r =
      let (subs, calls) = attach_subscribers id r.subscribers in
      let entry : RuntimeEntry = record { session_id = id; last_used_at = now; pending = 0 } in
      let (r', more) =
        evict_if_needed has_messages (some id)
          (record r { entries = r.entries ++ entry ∷ []; subscribers = subs }) in
      (r', created id ∷ (calls ++ (permit r.permission_handler id ++ more)))

  -- `createRuntime` with the part of `getOrCreate` after it; the factory gives a runtime of the
  -- id `made`.
  unfoldable pub add_entry :
      String → String → ℕ → SessionRuntimeRegistry → Option (SessionRuntimeRegistry × List Effect)
  unfolding insert_entry
  add_entry id made now r = if str_eq made id then some (insert_entry id now r) else none

  -- `getOrCreate`; `none` where it throws, and then nothing has changed.
  unfoldable pub get_or_create :
      String → String → ℕ → SessionRuntimeRegistry → Option (SessionRuntimeRegistry × List Effect)
  unfolding add_entry
  get_or_create id made now r = if r.is_disposed then none else elim (find_entry r id) [
    | some e ↦ some (record r { entries = touch id now r.entries }, [])
    | none ↦ add_entry id made now r
  ]

  -- Whether `previousId && previousId !== sessionId` and its runtime has messages.
  unfoldable pub leave : Option String → String → SessionRuntimeRegistry → List Effect
  leave none id r = []
  leave (some previous) id r = if str_eq previous id then [] else elim (find_entry r previous) [
    | none ↦ []
    | some e ↦ checkpoint_if (has_messages previous) previous
  ]

  unfoldable pub set_selected :
      String → String → ℕ → SessionRuntimeRegistry → Option (SessionRuntimeRegistry × List Effect)
  unfolding get_or_create leave evict_if_needed
  set_selected id made now r = elim (get_or_create id made now r) [
    | none ↦ none
    | some (r', effects) ↦
        let (r'', more) =
          evict_if_needed has_messages (some id)
            (record r' { selected_session_id = some id; entries = touch id now r'.entries }) in
        some (r'', effects ++ (leave r'.selected_session_id id r' ++ more))
  ]

  -- `selectIfUnset`
  unfoldable pub select_if_unset :
      String → String → ℕ → SessionRuntimeRegistry → Option (SessionRuntimeRegistry × List Effect)
  unfolding set_selected get_or_create
  select_if_unset id made now r = elim r.selected_session_id [
    | none ↦ set_selected id made now r
    | some selected ↦ get_or_create selected made now r
  ]

  abbrev more_pending : String → RuntimeEntry → RuntimeEntry
  more_pending id e = if has_session id e then record e { pending = e.pending + 1 } else e

  abbrev less_pending : String → ℕ → RuntimeEntry → RuntimeEntry
  less_pending id now e =
      if has_session id e then record e { pending = e.pending - 1; last_used_at = now } else e

  -- `runExclusive`, up to its first `await`.
  unfoldable pub begin_run :
      String → String → ℕ → SessionRuntimeRegistry → Option (SessionRuntimeRegistry × List Effect)
  unfolding get_or_create
  begin_run id made now r = elim (get_or_create id made now r) [
    | none ↦ none
    | some (r', effects) ↦ some (record r' { entries = map (more_pending id) r'.entries }, effects)
  ]

  -- The `finally` of `runExclusive`.
  unfoldable pub finish_run :
      String → ℕ → SessionRuntimeRegistry → SessionRuntimeRegistry × List Effect
  unfolding evict_if_needed
  finish_run id now r =
      evict_if_needed has_messages none (record r { entries = map (less_pending id now) r.entries })

-- `list`: the runtimes, the last used first.
unfoldable pub list_runtimes : SessionRuntimeRegistry → List String
list_runtimes r = map (λ e. e.session_id) (sort (λ a b. older b a) r.entries)

unfoldable pub set_tool_permission_handler :
    ℕ → SessionRuntimeRegistry → SessionRuntimeRegistry × List Effect
set_tool_permission_handler handler r = (
  record r { permission_handler = some handler },
  map (λ e. permitted e.session_id handler) r.entries,
)

-- `addSubscriber`; `none` where it throws.
unfoldable pub add_subscriber :
    EventKind → ℕ → SessionRuntimeRegistry → Option (SessionRuntimeRegistry × List Effect)
add_subscriber kind handler r =
    let ids = map (λ (e : RuntimeEntry). e.session_id) r.entries in
    let added : Subscriber = record { kind = kind; handler = handler; unsubs = ids } in
    if r.is_disposed
    then none
    else some
        (record r { subscribers = r.subscribers ++ added ∷ [] }, map (subscribed kind handler) ids)

-- `for (const sessionId of this.entries.keys()) this.disposeEntry(sessionId)`
unfoldable pub dispose_each :
    List String → SessionRuntimeRegistry → SessionRuntimeRegistry × List Effect
unfolding dispose_entry
dispose_each [] r = (r, [])
dispose_each (id ∷ ids) r =
    let (r', effects) = dispose_entry id r in
    let (r'', more) = dispose_each ids r' in (r'', effects ++ more)

unfoldable pub dispose_all : SessionRuntimeRegistry → SessionRuntimeRegistry × List Effect
unfolding dispose_each
dispose_all r =
    let (r', effects) = dispose_each (map (λ e. e.session_id) r.entries) r in
    if r.is_disposed
    then (r, [])
    else (record r' { subscribers = []; selected_session_id = none; is_disposed = true }, effects)

-- ===== src/Registry.antt =====
-- packages/runtime/src/bridge/session-runtime-registry.ts: one runtime per session, with eviction of
-- the least recently used. A runtime is the id of its session; what is called on runtimes and on
-- subscriptions is recorded as a list of effects; the three sets of subscribers are one list.
-- `hasMessages` and the clock are arguments. A JavaScript Map or Set is a list in the order of
-- insertion. Sessions has the operations that use the eviction.
pub mod Sessions
pub mod Evict
pub mod Present
mod Tests
use phus.Prelude.{
  ℕ, zero, suc, ◌+◌, max, String, Bool, false, not, ◌&&◌, Option, none, some, List, [], ◌∷◌, ◌++◌,
  map, ltb, ◌==◌, if◌then◌else◌, length, filter, find?,
}
use phus.Prelude.Sort.{sort, first?}
use text.Mathlib.Text.{◌==◌ as str_eq}

pub data EventKind : Type 0 where
  agent plan compact : EventKind

-- `runtime`: the id that the runtime itself has.
pub data Effect : Type 0 where
  created : String → Effect
  checkpointed : String → Effect
  disposed_of : String → Effect
  permitted : String → ℕ → Effect
  subscribed unsubscribed : EventKind → ℕ → String → Effect

-- `unsubs` are the sessions at whose runtimes it is subscribed.
pub record Subscriber : Type 0 where
  pub kind : EventKind
  pub handler : ℕ
  pub unsubs : List String

pub record RuntimeEntry : Type 0 where
  pub session_id : String
  pub last_used_at : ℕ
  pub pending : ℕ

pub record SessionRuntimeRegistry : Type 0 where
  pub entries : List RuntimeEntry
  pub max_runtimes : ℕ
  pub selected_session_id : Option String
  pub permission_handler : Option ℕ
  pub subscribers : List Subscriber
  pub is_disposed : Bool

-- `Math.max(1, options.maxRuntimes ?? 8)`
abbrev max_or : Option ℕ → ℕ
max_or none = 8
max_or (some n) = max 1 n

abbrev pub new_registry : Option ℕ → SessionRuntimeRegistry
new_registry max_runtimes = record {
  entries = [];
  max_runtimes = max_or max_runtimes;
  selected_session_id = none;
  permission_handler = none;
  subscribers = [];
  is_disposed = false;
}

abbrev pub has_session : String → RuntimeEntry → Bool
has_session id e = str_eq e.session_id id

abbrev pub is_some_id : Option String → String → Bool
is_some_id none id = false
is_some_id (some x) id = str_eq x id

abbrev pub find_entry : SessionRuntimeRegistry → String → Option RuntimeEntry
find_entry r id = find? (has_session id) r.entries

abbrev pub touch_if : ℕ → Bool → RuntimeEntry → RuntimeEntry
touch_if now matches e = if matches then record e { last_used_at = now } else e

-- `entry.lastUsedAt = this.now()`
abbrev pub touch : String → ℕ → List RuntimeEntry → List RuntimeEntry
touch id now entries = map (λ e. touch_if now (has_session id e) e) entries

abbrev pub without : String → List String → List String
without id ids = filter (λ x. not (str_eq x id)) ids

-- `record.unsubs.get(sessionId)?.(); record.unsubs.delete(sessionId)`
unfoldable pub detach : String → List Subscriber → List Subscriber × List Effect
detach id [] = ([], [])
detach id (s ∷ subs) =
    let (rest, effects) = detach id subs in
    let calls = map (λ x. unsubscribed s.kind s.handler x) (filter (λ x. str_eq x id) s.unsubs) in
    (record s { unsubs = without id s.unsubs } ∷ rest, calls ++ effects)

-- `disposeEntry` of a session that has an entry.
unfoldable pub dispose_entry :
    String → SessionRuntimeRegistry → SessionRuntimeRegistry × List Effect
unfolding detach
dispose_entry id r =
    let (subs, effects) = detach id r.subscribers in
    (
      record r { subscribers = subs; entries = filter (λ e. not (has_session id e)) r.entries },
      effects ++ disposed_of id ∷ [],
    )

abbrev pub older : RuntimeEntry → RuntimeEntry → Bool
older a b = ltb a.last_used_at b.last_used_at

-- What the filter of `evictIfNeeded` asks.
abbrev pub is_evictable : Option String → Option String → RuntimeEntry → Bool
is_evictable protected selected e =
    not (is_some_id protected e.session_id)
    && (not (is_some_id selected e.session_id) && (e.pending == 0))

abbrev pub candidates : Option String → SessionRuntimeRegistry → List RuntimeEntry
candidates protected r = filter (is_evictable protected r.selected_session_id) r.entries

abbrev pub checkpoint_if : Bool → String → List Effect
checkpoint_if has_messages id = if has_messages then checkpointed id ∷ [] else []

module _ (has_messages : String → Bool) where
  -- `evictIfNeeded`; a turn of its loop takes an entry away, so their number is enough fuel.
  unfoldable pub evict_loop :
      ℕ → Option String → SessionRuntimeRegistry → SessionRuntimeRegistry × List Effect
  unfolding dispose_entry
  evict_loop zero protected r = (r, [])
  evict_loop (suc fuel) protected r =
      if ltb r.max_runtimes (length r.entries)
      then elim (first? (sort older (candidates protected r))) [
        | none ↦ (r, [])
        | some e ↦
            let (r', effects) = dispose_entry e.session_id r in
            let (end, more) = evict_loop fuel protected r' in
            (end, checkpoint_if (has_messages e.session_id) e.session_id ++ (effects ++ more))
      ]
      else (r, [])

  unfoldable pub evict_if_needed :
      Option String → SessionRuntimeRegistry → SessionRuntimeRegistry × List Effect
  unfolding evict_loop
  evict_if_needed protected r = evict_loop (length r.entries) protected r

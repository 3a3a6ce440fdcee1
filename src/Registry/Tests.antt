-- ===== src/Registry/Tests.antt =====
-- Runs of the registry, and its theorems at a concrete one.
use phus.Prelude.{ℕ, String, ◌≡◌, refl, ◌≢◌, Bool, true, none, some, List, [], ◌∷◌}
use phus.Prelude.Sort.{sort}
use phus.Registry.{
  agent, RuntimeEntry, SessionRuntimeRegistry, Effect, created, checkpointed, disposed_of,
  unsubscribed, new_registry, find_entry, evict_if_needed,
}
use phus.Registry.Sessions.{get_or_create}
use phus.Registry.Evict.{IsKeyed, IsEvicted, evict_if_needed-IsEvicted}
use phus.Registry.Present.{get_or_create-present}

abbrev entry : String → ℕ → ℕ → RuntimeEntry
entry id now pending = record { session_id = id; last_used_at = now; pending = pending }

abbrev chatty : String → Bool
chatty id = true

-- "a" is selected, "b" is busy.
abbrev full : SessionRuntimeRegistry
full = record (new_registry (some 2)) {
  entries = entry "a" 1 0 ∷ entry "b" 2 1 ∷ entry "c" 4 0 ∷ entry "d" 3 0 ∷ [];
  selected_session_id = some "a";
  subscribers = record { kind = agent; handler = 7; unsubs = "a" ∷ "b" ∷ "c" ∷ "d" ∷ [] } ∷ [];
}

full-IsKeyed : IsKeyed full.entries
full-IsKeyed = (
  ((λ t. refl), ((λ t. absurd (cc t)), ((λ t. absurd (cc t)), ((λ t. absurd (cc t)), tt)))),
  (
    ((λ t. absurd (cc t)), ((λ t. refl), ((λ t. absurd (cc t)), ((λ t. absurd (cc t)), tt)))),
    (
      ((λ t. absurd (cc t)), ((λ t. absurd (cc t)), ((λ t. refl), ((λ t. absurd (cc t)), tt)))),
      (
        ((λ t. absurd (cc t)), ((λ t. absurd (cc t)), ((λ t. absurd (cc t)), ((λ t. refl), tt)))),
        tt,
      ),
    ),
  ),
)

-- The oldest goes first, with its messages saved and its subscription ended.
evicts_oldest_first :
    (evict_if_needed chatty none full).1
    ≡ checkpointed "d"
      ∷ unsubscribed agent 7 "d"
      ∷ disposed_of "d"
      ∷ checkpointed "c"
      ∷ unsubscribed agent 7 "c"
      ∷ disposed_of "c"
      ∷ []
unfolding evict_if_needed sort
evicts_oldest_first = refl

evict_if_needed-IsEvicted_example : IsEvicted none full (evict_if_needed chatty none full).0
evict_if_needed-IsEvicted_example = evict_if_needed-IsEvicted chatty none full full-IsKeyed

abbrev small : SessionRuntimeRegistry
small = record (new_registry (some 1)) { entries = entry "a" 1 0 ∷ [] }

abbrev after_b : SessionRuntimeRegistry × List Effect
after_b = (
  record (new_registry (some 1)) { entries = entry "b" 5 0 ∷ [] },
  created "b" ∷ checkpointed "a" ∷ disposed_of "a" ∷ [],
)

small-IsKeyed : IsKeyed small.entries
small-IsKeyed = (((λ t. refl), tt), tt)

gets_b : get_or_create chatty "b" "b" 5 small ≡ some after_b
unfolding get_or_create sort
gets_b = refl

get_or_create-present_example : find_entry after_b.0 "b" ≢ none
get_or_create-present_example =
    get_or_create-present chatty "b" "b" 5 small after_b small-IsKeyed gets_b

-- ===== src/Hooks/Tests.antt =====
-- Runs of the registry of hooks, and its theorems at concrete registrations.
use phus.Prelude.{ℕ, ◌+◌, String, ◌≡◌, refl, true, false, Option, none, some, List, [], ◌∷◌, filter}
use phus.Prelude.Integers.{ℤ, pos, negsuc, ltb_int}
use phus.Prelude.Maps.{lookup, put}
use phus.Prelude.Sort.{sort, insert}
use phus.Hooks.{
  HookMode, value, throws, HookImpl, HookRegistry, new_registry, hooks_of, mode_of, register,
  report,
}
use phus.Hooks.Run.{single, many, rejected, chain, broadcast, execute}
use phus.Hooks.Ranked.{Registration, register_all, is_for, IsRanked, register_all-IsRanked}
use phus.Hooks.Isolation.{isolated_result, isolated_reports, IsIsolated, execute-IsIsolated}

abbrev adds : ℕ → ℕ → HookImpl ℕ String
adds n at ctx = record { at = at; outcome = value (ctx + n) }

abbrev fails : String → ℕ → HookImpl ℕ String
fails err at ctx = record { at = at; outcome = throws err }

abbrev registration : HookImpl ℕ String → Option HookMode → Option ℤ → Registration ℕ String
registration impl mode priority = record {
  name = "load_state";
  impl = impl;
  mode = mode;
  priority = priority;
}

abbrev calls : List (Registration ℕ String)
calls =
    registration (fails "late" 9) none (some (negsuc 99))
    ∷ registration (adds 1 5) (some HookMode.broadcast) none
    ∷ registration (fails "early" 3) none (some (pos 7))
    ∷ registration (adds 2 1) none none
    ∷ []

abbrev registry : HookRegistry ℕ String
registry = register_all calls (new_registry none)

register_all-IsRanked_example :
    IsRanked
      (filter (is_for "load_state") calls)
      (hooks_of "load_state" registry)
      (mode_of "load_state" registry)
register_all-IsRanked_example = register_all-IsRanked calls none "load_state"

ranks :
    report registry
    ≡ (
      "load_state",
      (pos 7, HookMode.chain)
          ∷ (pos 0, HookMode.chain)
          ∷ (pos 0, HookMode.chain)
          ∷ (negsuc 99, HookMode.chain)
          ∷ [],
    )
      ∷ []
unfolding register lookup put sort insert ltb_int
ranks = refl

execute-IsIsolated_example :
    IsIsolated
      (isolated_result HookMode.broadcast 10 (hooks_of "load_state" registry))
      (isolated_reports HookMode.broadcast 10 (hooks_of "load_state" registry))
      (execute "load_state" 10
        (some HookMode.broadcast)
        (record registry { isolate_errors = true }))
      (execute "load_state" 10
        (some HookMode.broadcast)
        (record registry { isolate_errors = false }))
execute-IsIsolated_example = execute-IsIsolated "load_state" 10 (some HookMode.broadcast) registry

isolates :
    execute "load_state" 10 (some HookMode.broadcast) (record registry { isolate_errors = true })
    ≡ record { result = many (11 ∷ 12 ∷ []); reports = "early" ∷ "late" ∷ [] }
unfolding register lookup put sort insert ltb_int broadcast execute
isolates = refl

propagates : (execute "load_state" 10 none registry).result ≡ rejected "early"
unfolding register lookup put sort insert ltb_int chain execute
propagates = refl

-- The chain goes on after an error that is isolated.
chain_goes_on :
    execute "load_state" 10 none (record registry { isolate_errors = true })
    ≡ record { result = single (some 13); reports = "early" ∷ "late" ∷ [] }
unfolding register lookup put sort insert ltb_int chain execute
chain_goes_on = refl

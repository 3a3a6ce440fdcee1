-- ===== src/Hooks.antt =====
-- packages/core/src/runtime/hook/registry.ts: HookRegistry. `mode` and `priority` are the options
-- after their defaults; an implementation is a function of its context, whose call ends at a time
-- with a value, with `undefined` or `null`, or with an error.
pub mod Run
pub mod Ranked
pub mod Isolation
mod Tests
use phus.Prelude.{
  ℕ, ◌+◌, ◌-◌, String, Bool, true, false, Option, none, some, List, [], ◌∷◌, ◌++◌, map,
  if◌then◌else◌,
}
use text.Mathlib.Text.{◌==◌ as str_eq}
use phus.Prelude.Maps.{lookup, put}
use phus.Prelude.Integers.{ℤ, pos, ltb_int}
use phus.Prelude.Sort.{sort}

pub data HookMode : Type 0 where
  first_result chain broadcast : HookMode

pub data Outcome (V E : Type 0) : Type 0 where
  value : V → Outcome V E
  nothing : Outcome V E
  throws : E → Outcome V E

-- A promise of an implementation: when it settles, and how.
pub record Settled (V E : Type 0) : Type 0 where
  pub at : ℕ
  pub outcome : Outcome V E

abbrev pub HookImpl : Type 0 → Type 0 → Type 0
HookImpl V E = V → Settled V E

pub record RegisteredHook (V E : Type 0) : Type 0 where
  pub impl : HookImpl V E
  pub priority : ℤ

pub record HookRegistry (V E : Type 0) : Type 0 where
  pub hooks : List (String × List (RegisteredHook V E))
  pub modes : List (String × HookMode)
  pub isolate_errors : Bool

-- `opts.mode ?? "chain"`
abbrev pub mode_or : Option HookMode → HookMode → HookMode
mode_or none default = default
mode_or (some mode) default = mode

abbrev pub priority_or : Option ℤ → ℤ
priority_or none = pos 0
priority_or (some priority) = priority

abbrev pub has_mode : Option HookMode → Bool
has_mode none = false
has_mode (some mode) = true

module _ {V E : Type 0} where
  abbrev pub new_registry : Option Bool → HookRegistry V E
  new_registry none = record { hooks = []; modes = []; isolate_errors = false }
  new_registry (some isolate) = record { hooks = []; modes = []; isolate_errors = isolate }

  -- `(a, b) => b.priority - a.priority`
  abbrev pub higher : RegisteredHook V E → RegisteredHook V E → Bool
  higher a b = ltb_int b.priority a.priority

  abbrev pub or_empty : Option (List (RegisteredHook V E)) → List (RegisteredHook V E)
  or_empty none = []
  or_empty (some arr) = arr

  -- `this.hooks.get(name) ?? []`
  abbrev pub hooks_of : String → HookRegistry V E → List (RegisteredHook V E)
  hooks_of name r = or_empty (lookup name r.hooks)

  unfoldable pub register :
      String → HookImpl V E → Option HookMode → Option ℤ → HookRegistry V E → HookRegistry V E
  register name impl mode priority r =
      let hook : RegisteredHook V E = record { impl = impl; priority = priority_or priority } in
      record r {
        hooks = put name (sort higher (hooks_of name r ++ hook ∷ [])) r.hooks;
        modes =
            if has_mode (lookup name r.modes)
            then r.modes
            else put name (mode_or mode HookMode.chain) r.modes;
      }

  -- `this.modes.get(name) ?? "chain"`
  abbrev pub mode_of : String → HookRegistry V E → HookMode
  mode_of name r = mode_or (lookup name r.modes) HookMode.chain

  -- The lines of `phus hooks`.
  abbrev pub report : HookRegistry V E → List (String × List (ℤ × HookMode))
  report r =
      map (λ h. (h.0, map (λ (i : RegisteredHook V E). (i.priority, mode_of h.0 r)) h.1)) r.hooks

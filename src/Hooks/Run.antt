-- ===== src/Hooks/Run.antt =====
-- registry.ts: `execute` in its three modes, and `handleHookError`. What `onError` is told is
-- beside the result, in the order of the calls.
use phus.Prelude.{String, Bool, true, false, Option, none, some, List, [], ◌∷◌, map, ltb}
use phus.Prelude.Sort.{sort}
use phus.Hooks.{
  HookMode, value, nothing, throws, Settled, RegisteredHook, HookRegistry, mode_or, hooks_of,
  mode_of,
}

-- What the promise of `execute` settles with.
pub data Executed (V E : Type 0) : Type 0 where
  single : Option V → Executed V E
  many : List V → Executed V E
  rejected : E → Executed V E

pub record Run (V E : Type 0) : Type 0 where
  pub result : Executed V E
  pub reports : List E

module _ {V E : Type 0} where
  abbrev pub returns : Executed V E → Run V E
  returns result = record { result = result; reports = [] }

  -- `handleHookError`, and what follows where it does not throw.
  abbrev pub handle_hook_error : Bool → E → Run V E → Run V E
  handle_hook_error true err next = record next { reports = err ∷ next.reports }
  handle_hook_error false err next = record { result = rejected err; reports = [] }

  unfoldable pub first_result : Bool → V → List (RegisteredHook V E) → Run V E
  first_result isolate ctx [] = returns (single none)
  first_result isolate ctx (hook ∷ hooks) =
      let rest = first_result isolate ctx hooks in
      elim (hook.impl ctx).outcome [
        | value r ↦ returns (single (some r))
        | nothing ↦ rest
        | throws err ↦ handle_hook_error isolate err rest
      ]

  unfoldable pub chain : Bool → V → List (RegisteredHook V E) → Run V E
  chain isolate current [] = returns (single (some current))
  chain isolate current (hook ∷ hooks) = elim (hook.impl current).outcome [
    | value r ↦ chain isolate r hooks
    | nothing ↦ chain isolate current hooks
    | throws err ↦ handle_hook_error isolate err (chain isolate current hooks)
  ]

  -- The settled promises whose value is not `undefined` or `null`.
  abbrev pub values : List (Settled V E) → List V
  values [] = []
  values (s ∷ settled) =
      let rest = values settled in
      elim s.outcome [ value r ↦ r ∷ rest | nothing ↦ rest | throws err ↦ rest ]

  abbrev pub errors : List (Settled V E) → List E
  errors [] = []
  errors (s ∷ settled) =
      let rest = errors settled in
      elim s.outcome [ value r ↦ rest | nothing ↦ rest | throws err ↦ err ∷ rest ]

  abbrev pub earlier : Settled V E → Settled V E → Bool
  earlier a b = ltb a.at b.at

  -- `Promise.all`: rejected with the error that comes first.
  abbrev pub all_of : Bool → List E → List V → Run V E
  all_of true errs vs = record { result = many vs; reports = errs }
  all_of false [] vs = returns (many vs)
  all_of false (err ∷ errs) vs = record { result = rejected err; reports = [] }

  unfoldable pub broadcast : Bool → V → List (RegisteredHook V E) → Run V E
  broadcast isolate ctx hooks =
      let settled = map (λ (hook : RegisteredHook V E). hook.impl ctx) hooks in
      all_of isolate (errors (sort earlier settled)) (values settled)

  abbrev pub execute_in : HookMode → Bool → V → List (RegisteredHook V E) → Run V E
  execute_in HookMode.first_result = first_result
  execute_in HookMode.chain = chain
  execute_in HookMode.broadcast = broadcast

  unfoldable pub execute : String → V → Option HookMode → HookRegistry V E → Run V E
  execute name ctx mode r =
      execute_in (mode_or mode (mode_of name r)) r.isolate_errors ctx (hooks_of name r)

-- ===== src/Hooks/Isolation.antt =====
-- registry.ts: what `isolateErrors` changes, in every mode.
use phus.Prelude.{
  ℕ, String, ◌≡◌, refl, ap, Bool, true, false, Option, none, some, List, [], ◌∷◌, ◌++◌, map,
  if◌then◌else◌,
}
use phus.Prelude.Sort.{sort}
use phus.Hooks.{
  HookMode, Outcome, value, nothing, throws, Settled, RegisteredHook, HookRegistry, mode_or,
  hooks_of, mode_of,
}
use phus.Hooks.Run.{
  Executed, single, many, rejected, Run, returns, handle_hook_error, first_result, chain, values,
  errors, earlier, all_of, broadcast, execute_in, execute,
}

abbrev pub head? : {V : Type 0} → List V → Option V
head? [] = none
head? (v ∷ vs) = some v

module _ {V E : Type 0} where
  -- The run that the first of the reported errors ends.
  abbrev pub stop_at : List E → Run V E → Run V E
  stop_at [] run = run
  stop_at (err ∷ errs) run = record { result = rejected err; reports = [] }

  abbrev pub strict : Run V E → Run V E
  strict run = stop_at run.reports run

  -- What isolation means, mode by mode and without a run: a hook that throws, or gives nothing, is
  -- passed over.
  abbrev pub or_value : Outcome V E → V → V
  or_value (value v) ctx = v
  or_value nothing ctx = ctx
  or_value (throws err) ctx = ctx

  abbrev pub error_of : Outcome V E → List E
  error_of (value v) = []
  error_of nothing = []
  error_of (throws err) = err ∷ []

  abbrev pub is_value : Outcome V E → Bool
  is_value (value v) = true
  is_value nothing = false
  is_value (throws err) = false

  -- The context that goes through all the hooks of a chain, and the errors on its way.
  unfoldable pub piped : V → List (RegisteredHook V E) → V
  piped ctx [] = ctx
  piped ctx (hook ∷ hooks) = piped (or_value (hook.impl ctx).outcome ctx) hooks

  unfoldable pub piped_errors : V → List (RegisteredHook V E) → List E
  piped_errors ctx [] = []
  piped_errors ctx (hook ∷ hooks) =
      error_of (hook.impl ctx).outcome ++ piped_errors (or_value (hook.impl ctx).outcome ctx) hooks

  -- What the promises of all hooks settle with, in the order of the hooks.
  abbrev pub settled_on : V → List (RegisteredHook V E) → List (Settled V E)
  settled_on ctx hooks = map (λ (hook : RegisteredHook V E). hook.impl ctx) hooks

  -- The ones before the first that has a value.
  unfoldable pub before_value : List (Settled V E) → List (Settled V E)
  before_value [] = []
  before_value (s ∷ settled) =
      let rest = before_value settled in if is_value s.outcome then [] else s ∷ rest

  abbrev pub isolated_result : HookMode → V → List (RegisteredHook V E) → Executed V E
  isolated_result HookMode.first_result ctx hooks = single (head? (values (settled_on ctx hooks)))
  isolated_result HookMode.chain ctx hooks = single (some (piped ctx hooks))
  isolated_result HookMode.broadcast ctx hooks = many (values (settled_on ctx hooks))

  abbrev pub isolated_reports : HookMode → V → List (RegisteredHook V E) → List E
  isolated_reports HookMode.first_result ctx hooks = errors (before_value (settled_on ctx hooks))
  isolated_reports HookMode.chain ctx hooks = piped_errors ctx hooks
  isolated_reports HookMode.broadcast ctx hooks = errors (sort earlier (settled_on ctx hooks))

  pub record IsIsolated (result : Executed V E) (reports : List E) (isolated plain : Run V E)
      : Type 0 where
    -- With isolation the run ends as it is told here, and no error ends it.
    pub ends : isolated.result ≡ result
    pub reported : isolated.reports ≡ reports
    -- Without, the run is the isolated one up to its first error.
    pub stops : plain ≡ strict isolated

  returns-IsIsolated :
      (result : Executed V E) → IsIsolated result [] (returns result) (returns result)
  returns-IsIsolated result = record { ends = refl; reported = refl; stops = refl }

  throws-IsIsolated :
      (err : E) (result : Executed V E) (reports : List E) (rest plain : Run V E)
      → IsIsolated result reports rest plain
      → IsIsolated result
          (err ∷ reports)
          (handle_hook_error true err rest)
          (handle_hook_error false err plain)
  throws-IsIsolated err result reports rest plain i = record {
    ends = i.ends;
    reported = ap (λ errs. err ∷ errs) i.reported;
    stops = refl;
  }

  first-step :
      (at : ℕ) (o : Outcome V E) (settled : List (Settled V E)) (rest plain : Run V E)
      → IsIsolated (single (head? (values settled))) (errors (before_value settled)) rest plain
      → let s : Settled V E = record { at = at; outcome = o } in
        IsIsolated
          (single (head? (values (s ∷ settled))))
          (errors (before_value (s ∷ settled)))
          (elim o [
            | value r ↦ returns (single (some r))
            | nothing ↦ rest
            | throws err ↦ handle_hook_error true err rest
          ])
          (elim o [
            | value r ↦ returns (single (some r))
            | nothing ↦ plain
            | throws err ↦ handle_hook_error false err plain
          ])
  unfolding before_value
  first-step at (value r) settled rest plain i = returns-IsIsolated (single (some r))
  first-step at nothing settled rest plain i = i
  first-step at (throws err) settled rest plain i = throws-IsIsolated err _ _ rest plain i

  first_result-IsIsolated :
      (ctx : V) (hooks : List (RegisteredHook V E))
      → IsIsolated
          (isolated_result HookMode.first_result ctx hooks)
          (isolated_reports HookMode.first_result ctx hooks)
          (first_result true ctx hooks)
          (first_result false ctx hooks)
  unfolding first_result before_value
  first_result-IsIsolated ctx [] = returns-IsIsolated (single none)
  first_result-IsIsolated ctx (hook ∷ hooks) =
      first-step (hook.impl ctx).at (hook.impl ctx).outcome (settled_on ctx hooks)
        (first_result true ctx hooks) (first_result false ctx hooks)
        (first_result-IsIsolated ctx hooks)

  chain-step :
      (o : Outcome V E) (ctx : V) (hooks : List (RegisteredHook V E))
      → ((next : V)
          → IsIsolated
              (single (some (piped next hooks)))
              (piped_errors next hooks)
              (chain true next hooks)
              (chain false next hooks))
      → IsIsolated
          (single (some (piped (or_value o ctx) hooks)))
          (error_of o ++ piped_errors (or_value o ctx) hooks)
          (elim o [
            | value r ↦ chain true r hooks
            | nothing ↦ chain true ctx hooks
            | throws err ↦ handle_hook_error true err (chain true ctx hooks)
          ])
          (elim o [
            | value r ↦ chain false r hooks
            | nothing ↦ chain false ctx hooks
            | throws err ↦ handle_hook_error false err (chain false ctx hooks)
          ])
  chain-step (value r) ctx hooks h = h r
  chain-step nothing ctx hooks h = h ctx
  chain-step (throws err) ctx hooks h =
      throws-IsIsolated err _ _ (chain true ctx hooks) (chain false ctx hooks) (h ctx)

  chain-IsIsolated :
      (ctx : V) (hooks : List (RegisteredHook V E))
      → IsIsolated
          (isolated_result HookMode.chain ctx hooks)
          (isolated_reports HookMode.chain ctx hooks)
          (chain true ctx hooks)
          (chain false ctx hooks)
  unfolding chain piped piped_errors
  chain-IsIsolated ctx [] = returns-IsIsolated (single (some ctx))
  chain-IsIsolated ctx (hook ∷ hooks) =
      chain-step (hook.impl ctx).outcome ctx hooks (λ next. chain-IsIsolated next hooks)

  all_of-IsIsolated :
      (errs : List E) (vs : List V)
      → IsIsolated (many vs) errs (all_of true errs vs) (all_of false errs vs)
  all_of-IsIsolated [] vs = returns-IsIsolated (many vs)
  all_of-IsIsolated (err ∷ errs) vs = record { ends = refl; reported = refl; stops = refl }

  broadcast-IsIsolated :
      (ctx : V) (hooks : List (RegisteredHook V E))
      → IsIsolated
          (isolated_result HookMode.broadcast ctx hooks)
          (isolated_reports HookMode.broadcast ctx hooks)
          (broadcast true ctx hooks)
          (broadcast false ctx hooks)
  unfolding broadcast
  broadcast-IsIsolated ctx hooks = all_of-IsIsolated _ _

  execute_in-IsIsolated :
      (mode : HookMode) (ctx : V) (hooks : List (RegisteredHook V E))
      → IsIsolated
          (isolated_result mode ctx hooks)
          (isolated_reports mode ctx hooks)
          (execute_in mode true ctx hooks)
          (execute_in mode false ctx hooks)
  execute_in-IsIsolated HookMode.first_result = first_result-IsIsolated
  execute_in-IsIsolated HookMode.chain = chain-IsIsolated
  execute_in-IsIsolated HookMode.broadcast = broadcast-IsIsolated

  -- With `isolateErrors` no error of an implementation ends `execute`, and the errors are reported in
  -- order: a chain sends the context through all hooks and passes over those that throw or give
  -- nothing, "first_result" gives the first of the values with the errors before it, and "broadcast"
  -- gives all values, with the errors as they come in. Without it `execute` does the same, up to the
  -- first error that would be reported, with which it is rejected.
  pub execute-IsIsolated :
      (name : String) (ctx : V) (mode : Option HookMode) (r : HookRegistry V E)
      → IsIsolated
          (isolated_result (mode_or mode (mode_of name r)) ctx (hooks_of name r))
          (isolated_reports (mode_or mode (mode_of name r)) ctx (hooks_of name r))
          (execute name ctx mode (record r { isolate_errors = true }))
          (execute name ctx mode (record r { isolate_errors = false }))
  unfolding execute
  execute-IsIsolated name ctx mode r =
      execute_in-IsIsolated (mode_or mode (mode_of name r)) ctx (hooks_of name r)

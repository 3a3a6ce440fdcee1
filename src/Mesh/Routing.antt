-- ===== src/Mesh/Routing.antt =====
-- provider-mesh/routing.ts, with `avg` of stats.ts. A sort takes the first of the sorted copy. An
-- unknown cost or latency is infinite; of two infinite ones neither is less (`Infinity - Infinity`
-- is no number, which a sort reads as 0). Averages are compared as exact fractions.
pub mod Choice
use phus.Prelude.{
  ℕ, zero, suc, ◌+◌, ◌-◌, ◌*◌, ◌≤◌, ◌<◌, min, max, String, ◌≡◌, refl, sym, ap, ◌∙◌, subst, ◌≢◌, ◌↔◌,
  ◌⊎◌, inl, inr, Bool, true, false, not, ◌&&◌, ◌||◌, Option, none, some, List, [], ◌∷◌, ◌++◌, map,
  append-nil, append_assoc, arith, eq_iff, eq_refl, ltb, leb, ◌==◌, if◌then◌else◌, ltb→lt, lt→ltb,
  le→ltb, leb→le, Bool-cases, Option-cases, length, get_elem?, take, drop, any, all, filter, find?,
  length-append, filter-append, length-filter-le, any-append, drop-eq-nil, take-eq_of_le,
  take-append-drop, length-drop, length-take, drop-append_le, drop-drop, All, All-append,
  All-filter,
}
use phus.Prelude.Sort.{sort, first?}
use phus.Prelude.Integers.{ℤ, pos, ltb_int}
use phus.Mesh.{
  EndpointSpec, Cost, EndpointState, RoutingStrategy, failover, weighted, cost_first, latency_first,
}
use phus.Mesh.Circuit.{value_or}

-- A random number in [0, 1]: `num / den`.
pub record Ratio : Type 0 where
  pub num : ℕ
  pub den : ℕ

-- `priority ?? 0`
abbrev pub or_priority_zero : Option ℤ → ℤ
or_priority_zero none = pos 0
or_priority_zero (some priority) = priority

abbrev pub priority_of : EndpointState → ℤ
priority_of ep = or_priority_zero ep.spec.priority

abbrev pub lower_priority : EndpointState → EndpointState → Bool
lower_priority a b = ltb_int (priority_of a) (priority_of b)

unfoldable pub route_failover : List EndpointState → Option EndpointState
route_failover candidates = first? (sort lower_priority candidates)

abbrev pub weight_of : EndpointState → ℕ
weight_of ep = value_or ep.spec.weight 1

unfoldable pub total_weight : List EndpointState → ℕ
total_weight [] = 0
total_weight (ep ∷ eps) = weight_of ep + total_weight eps

-- The loop of `routeWeighted`, with `r` in units of 1 / `den`.
unfoldable pub subtract_weights : ℕ → ℕ → List EndpointState → Option EndpointState
subtract_weights den r [] = none
subtract_weights den r (ep ∷ eps) =
    let rest = subtract_weights den (r - weight_of ep * den) eps in
    if leb r (weight_of ep * den) then some ep else rest

abbrev pub last? : List EndpointState → Option EndpointState
last? [] = none
last? (ep ∷ []) = some ep
last? (ep ∷ next ∷ eps) = last? (next ∷ eps)

abbrev pub or_else : Option EndpointState → Option EndpointState → Option EndpointState
or_else none other = other
or_else (some ep) other = some ep

unfoldable pub route_weighted : List EndpointState → Ratio → Option EndpointState
unfolding subtract_weights total_weight
route_weighted candidates rng =
    or_else (subtract_weights rng.den (rng.num * total_weight candidates) candidates)
      (last? candidates)

-- `none` is Infinity.
abbrev pub cost_of : Option Cost → Option ℕ
cost_of none = none
cost_of (some cost) = some (cost.input + cost.output)

abbrev pub less_cost : Option ℕ → Option ℕ → Bool
less_cost (some a) (some b) = ltb a b
less_cost (some a) none = true
less_cost none b = false

abbrev pub cheaper : EndpointState → EndpointState → Bool
cheaper a b = less_cost (cost_of a.spec.cost_per_million) (cost_of b.spec.cost_per_million)

unfoldable pub route_cost_first : List EndpointState → Option EndpointState
route_cost_first candidates = first? (sort cheaper candidates)

abbrev pub sum : List ℕ → ℕ
sum [] = 0
sum (x ∷ xs) = x + sum xs

-- `avg(arr)`, as a fraction.
unfoldable pub avg : List ℕ → Option Ratio
avg [] = none
avg (x ∷ xs) = some (record { num = sum (x ∷ xs); den = length (x ∷ xs) })

abbrev pub less_ratio : Option Ratio → Option Ratio → Bool
less_ratio (some p) (some q) = ltb (p.num * q.den) (q.num * p.den)
less_ratio (some p) none = true
less_ratio none q = false

unfoldable pub faster : EndpointState → EndpointState → Bool
unfolding avg
faster a b = less_ratio (avg a.latencies) (avg b.latencies)

unfoldable pub route_latency_first : List EndpointState → Option EndpointState
unfolding faster
route_latency_first candidates = first? (sort faster candidates)

unfoldable pub pick_by_strategy :
    RoutingStrategy → List EndpointState → Ratio → Option EndpointState
unfolding route_failover route_weighted route_cost_first route_latency_first
pick_by_strategy strategy [] rng = none
pick_by_strategy failover (ep ∷ eps) rng = route_failover (ep ∷ eps)
pick_by_strategy weighted (ep ∷ eps) rng = route_weighted (ep ∷ eps) rng
pick_by_strategy cost_first (ep ∷ eps) rng = route_cost_first (ep ∷ eps)
pick_by_strategy latency_first (ep ∷ eps) rng = route_latency_first (ep ∷ eps)

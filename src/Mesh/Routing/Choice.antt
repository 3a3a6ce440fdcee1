-- ===== src/Mesh/Routing/Choice.antt =====
-- routing.ts: what each strategy picks.
use phus.Prelude.{
  ℕ, suc, ◌+◌, ◌-◌, ◌*◌, ◌≤◌, ◌<◌, ◌≡◌, refl, ap, ◌≢◌, ◌⊎◌, inl, inr, Bool, true, false, Option,
  some, List, [], ◌∷◌, ◌++◌, arith, leb, not_leb→lt, ltb→lt, lt→ltb, le→ltb, not_ltb→le, leb→le,
  Bool-cases, length,
}
use native.Mathlib.Decide.{dec_lt}
use phus.Prelude.Sort.{IsWeakOrder, IsFirstLeast, first-sort}
use phus.Prelude.Integers.{ltb_int_trans, ltb_int_negatively}
use phus.Mesh.{EndpointState, RoutingStrategy, failover, weighted, cost_first, latency_first}
use phus.Mesh.Routing.{
  Ratio, priority_of, lower_priority, weight_of, total_weight, subtract_weights, route_weighted,
  less_cost, cost_of, cheaper, avg, less_ratio, faster, pick_by_strategy, sum,
}

lower_priority-IsWeakOrder : IsWeakOrder lower_priority
lower_priority-IsWeakOrder = record {
  trans = λ a b c. ltb_int_trans (priority_of a) (priority_of b) (priority_of c);
  negatively = λ a b c. ltb_int_negatively (priority_of a) (priority_of b) (priority_of c);
}

less_cost_trans :
    (a b c : Option ℕ) → less_cost a b ≡ true → less_cost b c ≡ true → less_cost a c ≡ true
less_cost_trans a b c h k = ground arith

less_cost_negatively :
    (a b c : Option ℕ) → less_cost a b ≡ false → less_cost b c ≡ false → less_cost a c ≡ false
less_cost_negatively a b c h k = ground arith

cheaper-IsWeakOrder : IsWeakOrder cheaper
cheaper-IsWeakOrder = record {
  trans = λ a b c.
      less_cost_trans (cost_of a.spec.cost_per_million) (cost_of b.spec.cost_per_million)
        (cost_of c.spec.cost_per_million);
  negatively = λ a b c.
      less_cost_negatively (cost_of a.spec.cost_per_million) (cost_of b.spec.cost_per_million)
        (cost_of c.spec.cost_per_million);
}

le_mul_right : (a b k : ℕ) → a ≤ b → a * k ≤ b * k
le_mul_right a b k h = grind arith

lt_mul_right : (a b k : ℕ) → 0 < k → a < b → a * k < b * k
lt_mul_right a b k pos h = omega (arith, le_mul_right (suc a) b k h)

cross_trans : (a p b q c r : ℕ) → 0 < p → 0 < r → a * q < b * p → b * r < c * q → a * r < c * p
cross_trans a p b q c r hp hr h k = elim (dec_lt (a * r) (c * p)) [
  | yes t ↦ t
  | no f ↦ absurd (
      omega (
        arith,
        lt_mul_right (a * q) (b * p) r hr h,
        lt_mul_right (b * r) (c * q) p hp k,
        le_mul_right (c * p) (a * r) q (omega arith),
      ))
]

cross_negatively : (a p b q c r : ℕ) → 0 < q → b * p ≤ a * q → c * q ≤ b * r → c * p ≤ a * r
cross_negatively a p b q c r hq h k = elim (dec_lt (a * r) (c * p)) [
  | yes t ↦ absurd (
      omega (
        arith,
        lt_mul_right (a * r) (c * p) q hq t,
        le_mul_right (b * p) (a * q) r h,
        le_mul_right (c * q) (b * r) p k,
      ))
  | no f ↦ omega arith
]

less_avg_trans :
    (xs ys zs : List ℕ)
    → less_ratio (avg xs) (avg ys) ≡ true
    → less_ratio (avg ys) (avg zs) ≡ true
    → less_ratio (avg xs) (avg zs) ≡ true
unfolding avg
less_avg_trans [] ys zs h k = cc
less_avg_trans (x ∷ xs) [] zs h k = cc
less_avg_trans (x ∷ xs) (y ∷ ys) [] h k = refl
less_avg_trans (x ∷ xs) (y ∷ ys) (z ∷ zs) h k = lt→ltb _ _ (
    cross_trans (sum (x ∷ xs)) (length (x ∷ xs)) (sum (y ∷ ys)) (length (y ∷ ys)) (sum (z ∷ zs))
      (length (z ∷ zs)) (omega arith) (omega arith) (ltb→lt _ _ h) (ltb→lt _ _ k))

less_avg_negatively :
    (xs ys zs : List ℕ)
    → less_ratio (avg xs) (avg ys) ≡ false
    → less_ratio (avg ys) (avg zs) ≡ false
    → less_ratio (avg xs) (avg zs) ≡ false
unfolding avg
less_avg_negatively [] ys zs h k = refl
less_avg_negatively (x ∷ xs) [] zs h k = cc
less_avg_negatively (x ∷ xs) (y ∷ ys) [] h k = cc
less_avg_negatively (x ∷ xs) (y ∷ ys) (z ∷ zs) h k = le→ltb _ _ (
    cross_negatively (sum (x ∷ xs)) (length (x ∷ xs)) (sum (y ∷ ys)) (length (y ∷ ys))
      (sum (z ∷ zs)) (length (z ∷ zs)) (omega arith) (not_ltb→le _ _ h) (not_ltb→le _ _ k))

faster-IsWeakOrder : IsWeakOrder faster
unfolding faster
faster-IsWeakOrder = record {
  trans = λ a b c. less_avg_trans a.latencies b.latencies c.latencies;
  negatively = λ a b c. less_avg_negatively a.latencies b.latencies c.latencies;
}

-- What a strategy other than `weighted` sorts by.
abbrev pub order_of : RoutingStrategy → EndpointState → EndpointState → Bool
order_of cost_first = cheaper
order_of latency_first = faster
order_of _ = lower_priority

-- Failover, cost-first and latency-first pick, from any candidates, the first of the least: lowest
-- priority, cheapest, or lowest average latency, earlier endpoints first among equals, unknown
-- costs and latencies last.
pub picks-IsFirstLeast :
    (strategy : RoutingStrategy) (ep : EndpointState) (eps : List EndpointState) (rng : Ratio)
    → strategy ≢ weighted
    → (best : EndpointState) × (pick_by_strategy strategy (ep ∷ eps) rng ≡ some best)
      × IsFirstLeast (order_of strategy) best (ep ∷ eps)
unfolding pick_by_strategy
picks-IsFirstLeast failover ep eps rng ne =
    first-sort lower_priority lower_priority-IsWeakOrder ep eps
picks-IsFirstLeast weighted ep eps rng ne = absurd (ne refl)
picks-IsFirstLeast cost_first ep eps rng ne = first-sort cheaper cheaper-IsWeakOrder ep eps
picks-IsFirstLeast latency_first ep eps rng ne = first-sort faster faster-IsWeakOrder ep eps

-- `chosen` stands in the list where the running sum of the weights first reaches `r`.
pub record HasShare (den r : ℕ) (eps : List EndpointState) (chosen : EndpointState) : Type 0 where
  pub before : List EndpointState
  pub after : List EndpointState
  pub splits : eps ≡ before ++ chosen ∷ after
  pub above : (before ≡ []) ⊎ (total_weight before * den < r)
  pub within : r ≤ (total_weight before + weight_of chosen) * den

HasShare-cons :
    (den r : ℕ) (ep chosen : EndpointState) (eps : List EndpointState)
    → weight_of ep * den < r
    → HasShare den (r - weight_of ep * den) eps chosen
    → HasShare den r (ep ∷ eps) chosen
unfolding total_weight
HasShare-cons den r ep chosen eps lt s = record {
  before = ep ∷ s.before;
  after = s.after;
  splits = ap (◌∷◌ ep) s.splits;
  above = inr (elim s.above [ inl e ↦ rw e (omega arith) | inr h ↦ omega arith ]);
  within = omega (arith, s.within);
}

first-HasShare :
    (den r : ℕ) (ep : EndpointState) (eps : List EndpointState)
    → r ≤ weight_of ep * den
    → HasShare den r (ep ∷ eps) ep
unfolding total_weight
first-HasShare den r ep eps le = record {
  before = [];
  after = eps;
  splits = refl;
  above = inl refl;
  within = omega arith;
}

subtract_weights-HasShare :
    (den r : ℕ) (ep : EndpointState) (eps : List EndpointState)
    → r ≤ total_weight (ep ∷ eps) * den
    → (chosen : EndpointState) × (subtract_weights den r (ep ∷ eps) ≡ some chosen)
      × HasShare den r (ep ∷ eps) chosen
unfolding subtract_weights total_weight
subtract_weights-HasShare den r ep [] h =
    (ep, ground arith, first-HasShare den r ep [] (omega arith))
subtract_weights-HasShare den r ep (next ∷ eps) h = elim (Bool-cases (leb r (weight_of ep * den))) [
  | inl t ↦
      (ep, ground arith, first-HasShare den r ep (next ∷ eps) (leb→le r (weight_of ep * den) t))
  | inr f ↦
      let lt = not_leb→lt r (weight_of ep * den) f in
      let (chosen, e, s) =
        subtract_weights-HasShare den (r - weight_of ep * den) next eps (omega arith) in
      (chosen, rw f e, HasShare-cons den r ep chosen (next ∷ eps) lt s)
]

-- The weighted strategy picks, for a random number num / den of at most 1, the endpoint where the
-- running sum of the weights first reaches that share of the total: each endpoint is picked for a
-- part of the random numbers in proportion to its weight, and the fallback to the last is not used.
pub weighted-HasShare :
    (ep : EndpointState) (eps : List EndpointState) (rng : Ratio)
    → rng.num ≤ rng.den
    → (chosen : EndpointState) × (pick_by_strategy weighted (ep ∷ eps) rng ≡ some chosen)
      × HasShare rng.den (rng.num * total_weight (ep ∷ eps)) (ep ∷ eps) chosen
unfolding pick_by_strategy route_weighted
weighted-HasShare ep eps rng le =
    let (chosen, e, s) =
      subtract_weights-HasShare rng.den (rng.num * total_weight (ep ∷ eps)) ep eps
        (omega (arith, le_mul_right rng.num rng.den (total_weight (ep ∷ eps)) le)) in
    (chosen, rw e, s)

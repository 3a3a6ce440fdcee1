-- ===== src/Mesh/Call/Picks.antt =====
-- index.ts, `pickEndpoint`: what it picks, and what it leaves alone.
use phus.Prelude.{
  ℕ, suc, ◌+◌, ◌-◌, ◌*◌, String, ◌≡◌, refl, sym, ap, ◌∙◌, subst, inl, inr, Bool, true, false, not,
  ◌&&◌, none, some, eq_of_some, List, [], ◌∷◌, map, arith, eq_iff, eq_refl, leb, Bool-cases,
  Option-cases, length, length-append, All,
}
use phus.Prelude.Sort.{sort, insert, first?}
use phus.Mesh.{
  EndpointState, MeshPolicy, RoutingStrategy, failover, weighted, cost_first, latency_first,
}
use phus.Mesh.Circuit.{value_or, is_available}
use phus.Mesh.Routing.{
  Ratio, lower_priority, cheaper, faster, route_failover, route_weighted, route_cost_first,
  route_latency_first, subtract_weights, last?, weight_of, total_weight, pick_by_strategy,
}
use phus.Mesh.Call.{ProviderMesh, ask_all, pick_endpoint, set_endpoint, has_name, add_name}

-- The keys of the `Map`.
abbrev pub names : List EndpointState → List String
names eps = map (λ ep. ep.spec.name) eps

route_weighted-found :
    (rng : Ratio) (xs : List EndpointState) {c : EndpointState}
    → subtract_weights rng.den (rng.num * total_weight xs) xs ≡ some c
    → route_weighted xs rng ≡ some c
unfolding route_weighted
route_weighted-found rng xs k = rw k

route_weighted-last :
    (rng : Ratio) (xs : List EndpointState)
    → subtract_weights rng.den (rng.num * total_weight xs) xs ≡ none
    → route_weighted xs rng ≡ last? xs
unfolding route_weighted
route_weighted-last rng xs k = rw k

module _ {ℓ} (P : EndpointState → Type ℓ) where
  All-insert :
      (lt : EndpointState → EndpointState → Bool) (x : EndpointState) (ys : List EndpointState)
      → P x
      → All P ys
      → All P (insert lt x ys)
  unfolding insert
  All-insert lt x [] p h = (p, h)
  All-insert lt x (y ∷ ys) p (q, h) = elim (Bool-cases (lt y x)) [
    | inl t ↦ rw t (q, All-insert lt x ys p h)
    | inr f ↦ rw f (p, (q, h))
  ]

  All-sort :
      (lt : EndpointState → EndpointState → Bool) (xs : List EndpointState)
      → All P xs
      → All P (sort lt xs)
  unfolding sort
  All-sort lt [] h = tt
  All-sort lt (x ∷ xs) (p, h) = All-insert lt x (sort lt xs) p (All-sort lt xs h)

  All-first : (xs : List EndpointState) {x : EndpointState} → All P xs → first? xs ≡ some x → P x
  All-first [] h e = absurd (cc)
  All-first (y ∷ xs) (p, h) e = subst P (eq_of_some e) p

  All-last : (xs : List EndpointState) {x : EndpointState} → All P xs → last? xs ≡ some x → P x
  All-last [] h e = absurd (cc)
  All-last (y ∷ []) (p, h) e = subst P (eq_of_some e) p
  All-last (y ∷ z ∷ xs) (p, h) e = All-last (z ∷ xs) h e

  All-subtract_weights :
      (den r : ℕ) (xs : List EndpointState) {x : EndpointState}
      → All P xs
      → subtract_weights den r xs ≡ some x
      → P x
  unfolding subtract_weights
  All-subtract_weights den r [] h e = absurd (cc)
  All-subtract_weights den r (y ∷ xs) (p, h) e = elim (Bool-cases (leb r (weight_of y * den))) [
    | inl t ↦ subst P (eq_of_some (rw t at e)) p
    | inr f ↦ All-subtract_weights den (r - weight_of y * den) xs h (rw f at e)
  ]

  -- Whatever holds of every candidate holds of the one picked.
  pub All-pick_by_strategy :
      (strategy : RoutingStrategy) (xs : List EndpointState) (rng : Ratio) {x : EndpointState}
      → All P xs
      → pick_by_strategy strategy xs rng ≡ some x
      → P x
  unfolding pick_by_strategy route_failover route_cost_first route_latency_first
  All-pick_by_strategy strategy [] rng h e = absurd (cc)
  All-pick_by_strategy failover (y ∷ xs) rng h e =
      All-first (sort lower_priority (y ∷ xs)) (All-sort lower_priority (y ∷ xs) h) e
  All-pick_by_strategy weighted (y ∷ xs) rng {x} h e =
      let r = rng.num * total_weight (y ∷ xs) in
      elim (Option-cases (subtract_weights rng.den r (y ∷ xs))) [
        | inl n ↦ All-last (y ∷ xs) h (sym (route_weighted-last rng (y ∷ xs) n) ∙ e)
        | inr (c, k) ↦
            All-subtract_weights rng.den r (y ∷ xs) h
              (k ∙ sym (route_weighted-found rng (y ∷ xs) k) ∙ e)
      ]
  All-pick_by_strategy cost_first (y ∷ xs) rng h e =
      All-first (sort cheaper (y ∷ xs)) (All-sort cheaper (y ∷ xs) h) e
  All-pick_by_strategy latency_first (y ∷ xs) rng h e =
      All-first (sort faster (y ∷ xs)) (All-sort faster (y ∷ xs) h) e

spec-is_available :
    (policy : MeshPolicy) (now : ℕ) (ep : EndpointState)
    → (is_available policy now ep).0.spec ≡ ep.spec
unfolding is_available
spec-is_available policy now ep = ground arith

names-ask_all :
    (policy : MeshPolicy) (now : ℕ) (exclude : List String) (eps : List EndpointState)
    → names (ask_all policy now exclude eps).endpoints ≡ names eps
unfolding ask_all
names-ask_all policy now exclude [] = refl
names-ask_all policy now exclude (ep ∷ eps) =
    cc (spec-is_available policy now ep, names-ask_all policy now exclude eps)

-- What is known of a candidate: it is not excluded, and it is one of the mesh's.
abbrev pub IsFresh : List String → List String → EndpointState → Type 0
IsFresh exclude keys ep =
    (has_name exclude ep.spec.name ≡ false) × (has_name keys ep.spec.name ≡ true)

IsFresh-cons :
    (exclude keys : List String) (key : String) (xs : List EndpointState)
    → All (IsFresh exclude keys) xs
    → All (IsFresh exclude (key ∷ keys)) xs
IsFresh-cons exclude keys key [] h = tt
IsFresh-cons exclude keys key (x ∷ xs) ((p, q), h) =
    ((p, ground arith), IsFresh-cons exclude keys key xs h)

ask_all-IsFresh :
    (policy : MeshPolicy) (now : ℕ) (exclude : List String) (eps : List EndpointState)
    → All (IsFresh exclude (names eps)) (ask_all policy now exclude eps).candidates
unfolding ask_all
ask_all-IsFresh policy now exclude [] = tt
ask_all-IsFresh policy now exclude (ep ∷ eps) =
    let ep' = (is_available policy now ep).0 in
    let rest =
      IsFresh-cons exclude (names eps) ep.spec.name (ask_all policy now exclude eps).candidates
        (ask_all-IsFresh policy now exclude eps) in
    let known : has_name (names (ep ∷ eps)) ep'.spec.name ≡ true =
      rw (spec-is_available policy now ep, eq_refl ep.spec.name) refl in
    elim (Bool-cases ((is_available policy now ep).1 && not (has_name exclude ep'.spec.name))) [
      | inl t ↦ rw t ((ground arith, known), rest)
      | inr f ↦ rw f rest
    ]

pub names-set_endpoint :
    (ep : EndpointState) (eps : List EndpointState)
    → has_name (names eps) ep.spec.name ≡ true
    → names (set_endpoint ep eps) ≡ names eps
unfolding set_endpoint
names-set_endpoint ep [] h = absurd (cc)
names-set_endpoint ep (old ∷ eps) h =
    ground (arith, eq_iff old.spec.name ep.spec.name, names-set_endpoint ep eps)

pub picked-IsFresh :
    (now : ℕ) (rng : Ratio) (exclude : List String) (mesh : ProviderMesh) (ep : EndpointState)
    → (pick_endpoint now rng exclude mesh).endpoint ≡ some ep
    → IsFresh exclude (names mesh.endpoints) ep
unfolding pick_endpoint
picked-IsFresh now rng exclude mesh ep e =
    All-pick_by_strategy (IsFresh exclude (names mesh.endpoints))
      (value_or mesh.policy.strategy failover)
      (ask_all mesh.policy now exclude mesh.endpoints).candidates rng
      (ask_all-IsFresh mesh.policy now exclude mesh.endpoints) e

pub names-pick_endpoint :
    (now : ℕ) (rng : Ratio) (exclude : List String) (mesh : ProviderMesh)
    → names (pick_endpoint now rng exclude mesh).mesh.endpoints ≡ names mesh.endpoints
unfolding pick_endpoint
names-pick_endpoint now rng exclude mesh = names-ask_all mesh.policy now exclude mesh.endpoints

pub length-names : (eps : List EndpointState) → length (names eps) ≡ length eps
length-names [] = refl
length-names (ep ∷ eps) = ap suc (length-names eps)

-- A fresh name makes the set of those tried larger by one.
pub length-add_name :
    (tried : List String) (name : String)
    → has_name tried name ≡ false
    → length (add_name tried name) ≡ length tried + 1
length-add_name tried name e = ground (arith, length-append tried (name ∷ []))

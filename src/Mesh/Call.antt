-- ===== src/Mesh/Call.antt =====
-- provider-mesh/index.ts: `ProviderMesh`. What the mesh does not decide is the argument `World`:
-- the clock and the random number of each pick, and what each call of `fn` does. The calls of one
-- `pickEndpoint` read one time.
pub mod Picks
pub mod Retries
pub mod Rounds
pub mod Settles
pub mod Bounds
use phus.Prelude.{
  ℕ, zero, suc, ◌+◌, ◌-◌, String, Bool, true, false, not, ◌&&◌, ◌||◌, Option, none, some, List, [],
  ◌∷◌, ◌++◌, ltb, if◌then◌else◌, length,
}
use text.Mathlib.Text.{◌==◌ as str_eq}
use phus.Mesh.{
  EndpointSpec, EndpointState, MeshPolicy, RoutingStrategy, failover, new_state,
  default_mesh_policy,
}
use phus.Mesh.Circuit.{CircuitChangeEvent, is_available, record_success, record_failure, value_or}
use phus.Mesh.Routing.{Ratio, pick_by_strategy}

-- The endpoints are the values of the `Map` in the order of insertion, keyed by `spec.name`.
pub record ProviderMesh : Type 0 where
  pub endpoints : List EndpointState
  pub policy : MeshPolicy

abbrev given {ℓ} : {A : Type ℓ} → Option A → Option A → Option A
given none default = default
given (some a) default = some a

-- `{ ...DEFAULT_MESH_POLICY, ...policy }`
unfoldable pub with_defaults : MeshPolicy → MeshPolicy
with_defaults policy = record {
  strategy = given policy.strategy default_mesh_policy.strategy;
  max_retries_per_endpoint =
      given policy.max_retries_per_endpoint default_mesh_policy.max_retries_per_endpoint;
  cb_failure_threshold = given policy.cb_failure_threshold default_mesh_policy.cb_failure_threshold;
  cb_cooldown_ms = given policy.cb_cooldown_ms default_mesh_policy.cb_cooldown_ms;
  health_check_interval_ms =
      given policy.health_check_interval_ms default_mesh_policy.health_check_interval_ms;
  health_check_timeout_ms =
      given policy.health_check_timeout_ms default_mesh_policy.health_check_timeout_ms;
}

-- `this.endpoints.set(ep.spec.name, ep)`: an old entry keeps its place.
unfoldable pub set_endpoint : EndpointState → List EndpointState → List EndpointState
set_endpoint ep [] = ep ∷ []
set_endpoint ep (old ∷ eps) =
    let rest = set_endpoint ep eps in
    if str_eq old.spec.name ep.spec.name then ep ∷ eps else old ∷ rest

set_specs : List EndpointSpec → List EndpointState → List EndpointState
set_specs [] eps = eps
set_specs (spec ∷ specs) eps = set_specs specs (set_endpoint (new_state spec) eps)

unfoldable pub new_mesh : List EndpointSpec → MeshPolicy → ProviderMesh
unfolding set_specs set_endpoint with_defaults
new_mesh specs policy = record { endpoints = set_specs specs []; policy = with_defaults policy }

abbrev pub has_name : List String → String → Bool
has_name [] name = false
has_name (n ∷ names) name = str_eq n name || has_name names name

-- `tried.add(name)`
abbrev pub add_name : List String → String → List String
add_name names name = if has_name names name then names else names ++ name ∷ []

pub record Asked : Type 0 where
  pub endpoints : List EndpointState
  pub candidates : List EndpointState
  pub events : List CircuitChangeEvent

-- The `filter` of `pickEndpoint`: every endpoint is asked, the excluded ones too.
unfoldable pub ask_all : MeshPolicy → ℕ → List String → List EndpointState → Asked
ask_all policy now exclude [] = record { endpoints = []; candidates = []; events = [] }
ask_all policy now exclude (ep ∷ eps) =
    let (ep', available, events) = is_available policy now ep in
    let rest = ask_all policy now exclude eps in
    record {
      endpoints = ep' ∷ rest.endpoints;
      candidates =
          if available && not (has_name exclude ep'.spec.name)
          then ep' ∷ rest.candidates
          else rest.candidates;
      events = events ++ rest.events;
    }

pub record Picked : Type 0 where
  pub mesh : ProviderMesh
  pub endpoint : Option EndpointState
  pub events : List CircuitChangeEvent

unfoldable pub pick_endpoint : ℕ → Ratio → List String → ProviderMesh → Picked
unfolding ask_all
pick_endpoint now rng exclude mesh =
    let asked = ask_all mesh.policy now exclude mesh.endpoints in
    record {
      mesh = record mesh { endpoints = asked.endpoints };
      endpoint = pick_by_strategy (value_or mesh.policy.strategy failover) asked.candidates rng;
      events = asked.events;
    }

pub data Answer {ℓ} (T E : Type ℓ) : Type ℓ where
  resolved : T → Answer T E
  rejected : E → Answer T E

-- One call of `fn`: when it started, when it settled, and how.
pub record Attempt {ℓ} (T E : Type ℓ) : Type ℓ where
  pub started : ℕ
  pub settled : ℕ
  pub answer : Answer T E

pub record World {ℓ} (T E : Type ℓ) : Type ℓ where
  pub clock : ℕ → ℕ
  pub rng : ℕ → Ratio
  pub fn : ℕ → EndpointSpec → Attempt T E

pub data Outcome {ℓ} (T E : Type ℓ) : Type ℓ where
  returned : T → Outcome T E
  thrown : E → Outcome T E
  all_failed : Outcome T E
  out_of_fuel : Outcome T E

-- What one endpoint's attempts leave: the endpoint, the value if one resolved, the last error, and
-- the endpoints for which `fn` was called.
pub record Attempts {ℓ} (T E : Type ℓ) : Type ℓ where
  pub endpoint : EndpointState
  pub value : Option T
  pub last_err : Option E
  pub calls : List EndpointSpec
  pub events : List CircuitChangeEvent

-- A finished or unfinished run of `call`.
pub record Run {ℓ} (T E : Type ℓ) : Type ℓ where
  pub mesh : ProviderMesh
  pub outcome : Outcome T E
  pub calls : List EndpointSpec
  pub events : List CircuitChangeEvent

module _ {ℓ} {T E : Type ℓ} (world : World T E) where
  -- The inner loop of `call`; `n` calls of `fn` have been made before.
  unfoldable pub attempt_endpoint : MeshPolicy → ℕ → ℕ → Option E → EndpointState → Attempts T E
  attempt_endpoint policy zero n last_err ep = record {
    endpoint = ep;
    value = none;
    last_err = last_err;
    calls = [];
    events = [];
  }
  attempt_endpoint policy (suc left) n last_err ep =
      let attempt = world.fn n ep.spec in
      elim attempt.answer [
        | resolved value ↦
            let (ep', events) = record_success (attempt.settled - attempt.started) ep in
            record {
              endpoint = ep';
              value = some value;
              last_err = last_err;
              calls = ep.spec ∷ [];
              events = events;
            }
        | rejected err ↦
            let (ep', events) = record_failure policy attempt.started ep in
            let rest = attempt_endpoint policy left (suc n) (some err) ep' in
            record rest { calls = ep.spec ∷ rest.calls; events = events ++ rest.events }
      ]

  abbrev throw_last : Option E → Outcome T E
  throw_last none = all_failed
  throw_last (some err) = thrown err

  -- The outer loop of `call`, after `picks` rounds and `n` calls of `fn`.
  unfoldable pub call_loop : ℕ → ℕ → ℕ → List String → Option E → ProviderMesh → Run T E
  call_loop zero picks n tried last_err mesh = record {
    mesh = mesh;
    outcome = out_of_fuel;
    calls = [];
    events = [];
  }
  call_loop (suc fuel) picks n tried last_err mesh =
      elim (ltb (length tried) (length mesh.endpoints)) [
        | false ↦ record { mesh = mesh; outcome = throw_last last_err; calls = []; events = [] }
        | true ↦
            let picked = pick_endpoint (world.clock picks) (world.rng picks) tried mesh in
            elim picked.endpoint [
              | none ↦ record {
                mesh = picked.mesh;
                outcome = throw_last last_err;
                calls = [];
                events = picked.events;
              }
              | some ep ↦
                  let retries = value_or mesh.policy.max_retries_per_endpoint 0 in
                  let done = attempt_endpoint mesh.policy retries n last_err ep in
                  let mesh' = record mesh {
                    endpoints = set_endpoint done.endpoint picked.mesh.endpoints;
                  } in
                  elim done.value [
                    | some value ↦ record {
                      mesh = mesh';
                      outcome = returned value;
                      calls = done.calls;
                      events = picked.events ++ done.events;
                    }
                    | none ↦
                        let rest =
                          call_loop fuel (suc picks) (n + length done.calls)
                            (add_name tried ep.spec.name) done.last_err mesh' in
                        record rest {
                          calls = done.calls ++ rest.calls;
                          events = picked.events ++ (done.events ++ rest.events);
                        }
                  ]
            ]
      ]

  -- Each round that goes on tries one more endpoint, so the fuel is enough.
  unfoldable pub call : ProviderMesh → Run T E
  unfolding call_loop
  call mesh = call_loop (suc (length mesh.endpoints)) 0 0 [] none mesh

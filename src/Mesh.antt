-- ===== src/Mesh.antt =====
-- packages/runtime/src/llm/provider-mesh/types.ts: the data of the provider mesh. Its children
-- model circuit.ts, routing.ts, health.ts, stats.ts and index.ts. Priorities are integers; weights,
-- costs and latencies are natural numbers of a unit that the numbers of one mesh share; times are
-- milliseconds. Logging is left out.
pub mod Circuit
pub mod Routing
pub mod Health
pub mod Call
mod Tests
use phus.Prelude.{ℕ, String, Bool, Option, none, some, List, [], ◌≡◌, refl, ◌⊎◌, inl, inr}
use phus.Prelude.Integers.{ℤ}

pub record Cost : Type 0 where
  pub input : ℕ
  pub output : ℕ

pub record EndpointSpec : Type 0 where
  pub name : String
  pub provider : String
  pub model_id : String
  pub base_url : Option String
  pub api_key_env : Option String
  pub priority : Option ℤ
  pub weight : Option ℕ
  pub cost_per_million : Option Cost
  pub tags : Option (List String)
  pub health_check_url : Option String

pub data RoutingStrategy : Type 0 where
  failover weighted cost_first latency_first : RoutingStrategy

-- A key that the caller leaves out is `none`.
pub record MeshPolicy : Type 0 where
  pub strategy : Option RoutingStrategy
  pub max_retries_per_endpoint : Option ℕ
  pub cb_failure_threshold : Option ℕ
  pub cb_cooldown_ms : Option ℕ
  pub health_check_interval_ms : Option ℕ
  pub health_check_timeout_ms : Option ℕ

abbrev pub default_mesh_policy : MeshPolicy
default_mesh_policy = record {
  strategy = some failover;
  max_retries_per_endpoint = some 2;
  cb_failure_threshold = some 5;
  cb_cooldown_ms = some 60000;
  health_check_interval_ms = some 30000;
  health_check_timeout_ms = some 5000;
}

pub data CircuitState : Type 0 where
  closed opened half_open : CircuitState

pub record HealthCheck : Type 0 where
  pub is_ok : Bool
  pub ts : ℕ

pub CircuitState-cases : (c : CircuitState) → (c ≡ closed) ⊎ (c ≡ opened) ⊎ (c ≡ half_open)
CircuitState-cases closed = inl refl
CircuitState-cases opened = inr (inl refl)
CircuitState-cases half_open = inr (inr refl)

pub record EndpointState : Type 0 where
  pub spec : EndpointSpec
  pub circuit : CircuitState
  pub consecutive_failures : ℕ
  pub opened_at : Option ℕ
  pub last_latency_ms : Option ℕ
  pub latencies : List ℕ
  pub total_success : ℕ
  pub total_failure : ℕ
  pub last_health_check : Option HealthCheck

-- The state that the mesh's constructor gives an endpoint.
abbrev pub new_state : EndpointSpec → EndpointState
new_state spec = record {
  spec = spec;
  circuit = closed;
  consecutive_failures = 0;
  opened_at = none;
  last_latency_ms = none;
  latencies = [];
  total_success = 0;
  total_failure = 0;
  last_health_check = none;
}

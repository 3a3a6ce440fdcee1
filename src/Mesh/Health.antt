-- ===== src/Mesh/Health.antt =====
-- provider-mesh/health.ts: the passes of the health check over the mesh's endpoints, and the
-- interval that runs them. `fetch` and the clock are the argument `ping`: for each endpoint's name,
-- whether `pingHealth` returned true and the time after it. A pass is modelled without other work
-- between its pings.
pub mod Passes
use phus.Prelude.{
  ℕ, zero, suc, ◌+◌, ◌-◌, ◌*◌, ◌≤◌, ◌<◌, min, max, String, ◌≡◌, refl, sym, ap, ◌∙◌, subst, ◌≢◌, ◌↔◌,
  ◌⊎◌, inl, inr, Bool, true, false, not, ◌&&◌, ◌||◌, Option, none, some, List, [], ◌∷◌, ◌++◌, map,
  append-nil, append_assoc, arith, eq_iff, eq_refl, ltb, leb, ◌==◌, if◌then◌else◌, ltb→lt, lt→ltb,
  le→ltb, leb→le, Bool-cases, Option-cases, length, get_elem?, take, drop, any, all, filter, find?,
  length-append, filter-append, length-filter-le, any-append, All, All-append, All-filter,
}
use text.Mathlib.Text.{◌==◌ as str_eq}
use phus.Mesh.{EndpointSpec, CircuitState, closed, opened, half_open, HealthCheck, EndpointState}

abbrev nudge : CircuitState → Bool → EndpointState → EndpointState
nudge closed true ep = ep
nudge _ true ep = record ep { circuit = half_open }
nudge closed false ep = record ep { consecutive_failures = ep.consecutive_failures + 1 }
nudge _ false ep = ep

abbrev pub has_url : Option String → Bool
has_url none = false
has_url (some url) = not (str_eq url "")

-- The body of the loop of `runHealthChecks`.
unfoldable pub check_one : HealthCheck → EndpointState → EndpointState
check_one result ep =
    if has_url ep.spec.health_check_url
    then nudge ep.circuit result.is_ok (record ep { last_health_check = some result })
    else ep

-- The endpoints that the iterator still holds are checked; the others are kept.
pub run_health_checks : (String → HealthCheck) → List EndpointState → List EndpointState
run_health_checks ping [] = []
run_health_checks ping (ep ∷ eps) = check_one (ping ep.spec.name) ep ∷ run_health_checks ping eps

-- `createHealthTimer(this.endpoints.values(), …)`: the interval's passes share one iterator, whose
-- position is `at`. A pass starts there and leaves it at the end.
pub record HealthTimer : Type 0 where
  pub endpoints : List EndpointState
  pub at : ℕ
  pub is_running : Bool

abbrev pub new_timer : List EndpointState → HealthTimer
new_timer endpoints = record { endpoints = endpoints; at = 0; is_running = false }

pub start : HealthTimer → HealthTimer
start timer = record timer { is_running = true }

pub stop : HealthTimer → HealthTimer
stop timer = record timer { is_running = false }

-- One firing of the interval.
pub tick : (String → HealthCheck) → HealthTimer → HealthTimer
tick ping timer =
    if timer.is_running
    then record timer {
      endpoints =
          take timer.at timer.endpoints ++ run_health_checks ping (drop timer.at timer.endpoints);
      at = length timer.endpoints;
    }
    else timer

-- ===== src/Mesh/Circuit.antt =====
-- provider-mesh/circuit.ts: the circuit breaker of one endpoint. Each operation returns the new
-- state of the endpoint and the events that it emits.
pub mod Machine
pub mod Latencies
use phus.Prelude.{
  ℕ, zero, suc, ◌+◌, ◌-◌, ◌*◌, ◌≤◌, ◌<◌, min, max, String, ◌≡◌, refl, sym, ap, ◌∙◌, subst, ◌≢◌, ◌↔◌,
  ◌⊎◌, inl, inr, Bool, true, false, not, ◌&&◌, ◌||◌, Option, none, some, List, [], ◌∷◌, ◌++◌, map,
  append-nil, append_assoc, arith, eq_iff, eq_refl, ltb, leb, ◌==◌, if◌then◌else◌, ltb→lt, lt→ltb,
  le→ltb, leb→le, Bool-cases, Option-cases, length, get_elem?, take, drop, any, all, filter, find?,
  length-append, filter-append, length-filter-le, any-append, All, All-append, All-filter,
}
use phus.Mesh.{EndpointSpec, MeshPolicy, CircuitState, closed, opened, half_open, EndpointState}

pub record CircuitChangeEvent : Type 0 where
  pub name : String
  pub state : CircuitState

abbrev change : EndpointState → CircuitState → List CircuitChangeEvent
change ep state = record { name = ep.spec.name; state = state } ∷ []

abbrev pub value_or {ℓ} : {A : Type ℓ} → Option A → A → A
value_or none a = a
value_or (some b) a = b

-- `ep.openedAt !== undefined && now - ep.openedAt >= (policy.cbCooldownMs ?? 0)`
abbrev pub has_cooled : Option ℕ → ℕ → ℕ → Bool
has_cooled none cooldown now = false
has_cooled (some t) cooldown now = leb (t + cooldown) now

abbrev available_when :
    CircuitState → MeshPolicy → ℕ → EndpointState → EndpointState × Bool × List CircuitChangeEvent
available_when opened policy now ep =
    if has_cooled ep.opened_at (value_or policy.cb_cooldown_ms 0) now
    then (record ep { circuit = half_open }, true, change ep half_open)
    else (ep, false, [])
available_when closed policy now ep = (ep, true, [])
available_when half_open policy now ep = (ep, true, [])

unfoldable pub is_available :
    MeshPolicy → ℕ → EndpointState → EndpointState × Bool × List CircuitChangeEvent
is_available policy now ep = available_when ep.circuit policy now ep

-- `push`, and `shift` when the window holds more than 20.
abbrev pub slide : List ℕ → ℕ → List ℕ
slide latencies latency =
    let longer = latencies ++ latency ∷ [] in
    if ltb 20 (length longer) then drop 1 longer else longer

abbrev close : CircuitState → EndpointState → EndpointState × List CircuitChangeEvent
close closed ep = (ep, [])
close _ ep = (record ep { circuit = closed }, change ep closed)

unfoldable pub record_success : ℕ → EndpointState → EndpointState × List CircuitChangeEvent
record_success latency ep = close ep.circuit (record ep {
  total_success = ep.total_success + 1;
  consecutive_failures = 0;
  last_latency_ms = some latency;
  latencies = slide ep.latencies latency;
})

abbrev pub is_closed : CircuitState → Bool
is_closed closed = true
is_closed _ = false

-- `failures >= (policy.cbFailureThreshold ?? Number.POSITIVE_INFINITY)`
abbrev pub reaches : Option ℕ → ℕ → Bool
reaches none failures = false
reaches (some threshold) failures = leb threshold failures

unfoldable pub record_failure :
    MeshPolicy → ℕ → EndpointState → EndpointState × List CircuitChangeEvent
record_failure policy now ep =
    let counted = record ep {
      total_failure = ep.total_failure + 1;
      consecutive_failures = ep.consecutive_failures + 1;
    } in
    if is_closed ep.circuit && reaches policy.cb_failure_threshold (ep.consecutive_failures + 1)
    then (record counted { circuit = opened; opened_at = some now }, change ep opened)
    else (counted, [])

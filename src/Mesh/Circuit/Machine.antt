-- ===== src/Mesh/Circuit/Machine.antt =====
-- The circuit breaker as a state machine: every operation of circuit.ts and health.ts on one
-- endpoint, in any order.
use phus.Prelude.{
  ℕ, suc, ◌+◌, ◌-◌, ◌<◌, ◌≡◌, refl, ◌∙◌, ap, ◌≢◌, ◌⊎◌, inl, inr, true, ◌&&◌, Option, none, some,
  List, [], ◌∷◌, arith, leb, if◌then◌else◌, Bool-cases, length, get_elem?, All,
}
use phus.Mesh.{
  CircuitState-cases, MeshPolicy, CircuitState, closed, opened, half_open, HealthCheck,
  EndpointState,
}
use phus.Mesh.Health.{check_one, has_url}
use phus.Mesh.Circuit.{
  CircuitChangeEvent, is_available, record_success, record_failure, has_cooled, reaches, value_or,
  is_closed,
}

pub data Op : Type 0 where
  ask : MeshPolicy → ℕ → Op
  success : ℕ → Op
  failure : MeshPolicy → ℕ → Op
  ping : HealthCheck → Op

unfoldable pub apply : Op → EndpointState → EndpointState × List CircuitChangeEvent
apply (ask policy now) ep = let (ep', _, events) = is_available policy now ep in (ep', events)
apply (success latency) ep = record_success latency ep
apply (failure policy now) ep = record_failure policy now ep
apply (ping result) ep = (check_one result ep, [])

unfoldable pub apply_all : List Op → EndpointState → EndpointState
apply_all [] ep = ep
apply_all (op ∷ ops) ep = apply_all ops (apply op ep).0

-- Why an operation may change the circuit of `ep`, and to what.
pub data Cause (op : Op) (ep : EndpointState) (after : CircuitState) : Type 0 where
  trips :
      (policy : MeshPolicy) (now : ℕ)
      → op ≡ failure policy now
      → ep.circuit ≡ closed
      → reaches policy.cb_failure_threshold (ep.consecutive_failures + 1) ≡ true
      → after ≡ opened
      → Cause op ep after
  cools :
      (policy : MeshPolicy) (now : ℕ)
      → op ≡ ask policy now
      → ep.circuit ≡ opened
      → has_cooled ep.opened_at (value_or policy.cb_cooldown_ms 0) now ≡ true
      → after ≡ half_open
      → Cause op ep after
  revives :
      (result : HealthCheck)
      → op ≡ ping result
      → ep.circuit ≡ opened
      → result.is_ok ≡ true
      → after ≡ half_open
      → Cause op ep after
  recovers : (latency : ℕ) → op ≡ success latency → after ≡ closed → Cause op ep after

-- Whatever the operation, the circuit stays as it was or changes for one of four causes: a failure
-- on a closed circuit that reaches the threshold opens it; an opened one becomes half-open when it
-- is asked after its cooldown, or when a health check succeeds; a success closes it.
pub circuit_changes :
    (op : Op) (ep : EndpointState)
    → ((apply op ep).0.circuit ≡ ep.circuit) ⊎ Cause op ep (apply op ep).0.circuit
unfolding apply is_available record_success record_failure check_one
circuit_changes (ask policy now) ep =
    let cooled = has_cooled ep.opened_at (value_or policy.cb_cooldown_ms 0) now in
    elim (CircuitState-cases ep.circuit) [
      | inl e ↦ inl (ground arith)
      | inr (inl e) ↦ elim (Bool-cases cooled) [
        | inl t ↦ inr (Cause.cools policy now refl e t (ground arith))
        | inr f ↦ inl (ground arith)
      ]
      | inr (inr e) ↦ inl (ground arith)
    ]
circuit_changes (success latency) ep = inr (Cause.recovers latency refl (ground arith))
circuit_changes (failure policy now) ep =
    let test =
      is_closed ep.circuit && reaches policy.cb_failure_threshold (ep.consecutive_failures + 1) in
    elim (Bool-cases test) [
      | inl t ↦ inr (Cause.trips policy now refl (ground arith) (ground arith) (ground arith))
      | inr f ↦ inl (ground arith)
    ]
circuit_changes (ping result) ep =
    elim (Bool-cases (has_url ep.spec.health_check_url && result.is_ok)) [
      | inl t ↦ elim (CircuitState-cases ep.circuit) [
        | inl e ↦ inl (ground arith)
        | inr (inl e) ↦ inr (Cause.revives result refl e (ground arith) (ground arith))
        | inr (inr e) ↦ inl (ground arith)
      ]
      | inr f ↦ inl (ground arith)
    ]

abbrev pub IsCall : Op → Type 0
IsCall (ping result) = ⊥
IsCall _ = Unit

-- An operation of circuit.ts emits an event exactly where it changes the circuit: one event, which
-- names the endpoint and its new state.
pub events_tell :
    (op : Op) (ep : EndpointState)
    → IsCall op
    → (((apply op ep).1 ≡ []) × ((apply op ep).0.circuit ≡ ep.circuit))
      ⊎ (((apply op ep).1 ≡ record { name = ep.spec.name; state = (apply op ep).0.circuit } ∷ [])
          × ((apply op ep).0.circuit ≢ ep.circuit))
unfolding apply is_available record_success record_failure
events_tell (ask policy now) ep c = ground arith
events_tell (success latency) ep c = ground arith
events_tell (failure policy now) ep c = ground arith
events_tell (ping result) ep c = absurd c

abbrev pub IsFailure : Op → Type 0
IsFailure (success latency) = ⊥
IsFailure _ = Unit

half_open-apply :
    (op : Op) (ep : EndpointState)
    → IsFailure op
    → ep.circuit ≡ half_open
    → (apply op ep).0.circuit ≡ half_open
unfolding apply is_available record_failure check_one
half_open-apply (ask policy now) ep f e = ground arith
half_open-apply (success latency) ep f e = absurd f
half_open-apply (failure policy now) ep f e = ground arith
half_open-apply (ping result) ep f e = ground arith

-- A half-open circuit never opens again: however many calls and health checks fail, it stays
-- half-open and the endpoint stays available under every policy, until a call succeeds.
pub half_open_stays :
    (ops : List Op) (ep : EndpointState) (policy : MeshPolicy) (now : ℕ)
    → All IsFailure ops
    → ep.circuit ≡ half_open
    → ((apply_all ops ep).circuit ≡ half_open)
      × ((is_available policy now (apply_all ops ep)).1 ≡ true)
unfolding apply_all is_available
half_open_stays [] ep policy now fs e = (e, ground arith)
half_open_stays (op ∷ ops) ep policy now (f, fs) e =
    half_open_stays ops (apply op ep).0 policy now fs (half_open-apply op ep f e)

unfoldable pub fail_all : MeshPolicy → List ℕ → EndpointState → EndpointState
fail_all policy [] ep = ep
fail_all policy (now ∷ times) ep = fail_all policy times (record_failure policy now ep).0

opened-fail_all :
    (policy : MeshPolicy) (times : List ℕ) (ep : EndpointState)
    → ep.circuit ≡ opened
    → ((fail_all policy times ep).circuit ≡ opened)
      × ((fail_all policy times ep).opened_at ≡ ep.opened_at)
unfolding fail_all record_failure
opened-fail_all policy [] ep e = (e, refl)
opened-fail_all policy (now ∷ times) ep e =
    let (still, same) =
      opened-fail_all policy times (record_failure policy now ep).0 (ground arith) in
    (still, same ∙ ground arith)

-- A new time in the place of the one before, where there is a new one.
abbrev pub or_before : Option ℕ → Option ℕ → Option ℕ
or_before none before = before
or_before (some at) before = some at

-- From a closed circuit under a threshold, failures in a row open it exactly at the threshold; the
-- time kept is then that of the failure which reached it, whatever fails later, and until then the one
-- of the last opening, if there was one.
pub opens_at_threshold :
    (policy : MeshPolicy) (threshold : ℕ) (times : List ℕ) (ep : EndpointState)
    → policy.cb_failure_threshold ≡ some threshold
    → ep.circuit ≡ closed
    → ep.consecutive_failures < threshold
    → let left = threshold - ep.consecutive_failures in
      ((fail_all policy times ep).circuit ≡ (if leb left (length times) then opened else closed))
      × ((fail_all policy times ep).opened_at ≡ or_before (get_elem? times (left - 1)) ep.opened_at)
unfolding fail_all record_failure
opens_at_threshold policy threshold [] ep p e lt = (ground arith, refl)
opens_at_threshold policy threshold (now ∷ times) ep p e lt =
    let next = (record_failure policy now ep).0 in
    elim (Bool-cases (leb threshold (ep.consecutive_failures + 1))) [
      | inl t ↦
          let (still, same) = opened-fail_all policy times next (ground arith) in
          (
            ground arith,
            let z : threshold - ep.consecutive_failures - 1 ≡ 0 = ground arith in
                let now_kept : next.opened_at ≡ some now = ground arith in rw z (same ∙ now_kept),
          )
      | inr f ↦
          let (still, same) =
            opens_at_threshold policy threshold times next p (ground arith) (ground arith) in
          let kept : next.opened_at ≡ ep.opened_at = ground arith in
          (
            ground arith,
            let z : threshold - ep.consecutive_failures - 1
                    ≡ suc (threshold - next.consecutive_failures - 1) =
                  ground arith in
                rw z (
                  same
                  ∙ ap (or_before (get_elem? times (threshold - next.consecutive_failures - 1)))
                      kept),
          )
    ]

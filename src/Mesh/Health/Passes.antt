-- ===== src/Mesh/Health/Passes.antt =====
-- provider-mesh/health.ts: what passes of the health check do over time.
use phus.Prelude.{
  suc, ◌≤◌, String, ◌≡◌, refl, ap, ◌∙◌, inl, inr, true, List, [], ◌∷◌, ◌++◌, append-nil, arith,
  Bool-cases, length, take, drop, drop-eq-nil, take-eq_of_le,
}
use phus.Mesh.{HealthCheck, EndpointState}
use phus.Mesh.Health.{run_health_checks, HealthTimer, new_timer, start, stop, tick}

length-run_health_checks :
    (ping : String → HealthCheck) (eps : List EndpointState)
    → length (run_health_checks ping eps) ≡ length eps
unfolding run_health_checks
length-run_health_checks ping [] = refl
length-run_health_checks ping (ep ∷ eps) = ap suc (length-run_health_checks ping eps)

pub data TimerOp : Type 0 where
  started stopped : TimerOp
  fired : (String → HealthCheck) → TimerOp

unfoldable pub run_op : TimerOp → HealthTimer → HealthTimer
run_op started timer = start timer
run_op stopped timer = stop timer
run_op (fired ping) timer = tick ping timer

unfoldable pub run_ops : List TimerOp → HealthTimer → HealthTimer
run_ops [] timer = timer
run_ops (op ∷ ops) timer = run_ops ops (run_op op timer)

exhausted-run_op :
    (op : TimerOp) (timer : HealthTimer)
    → length timer.endpoints ≤ timer.at
    → ((run_op op timer).endpoints ≡ timer.endpoints)
      × (length (run_op op timer).endpoints ≤ (run_op op timer).at)
unfolding run_op start stop tick run_health_checks
exhausted-run_op started timer h = (refl, h)
exhausted-run_op stopped timer h = (refl, h)
exhausted-run_op (fired ping) timer h = elim (Bool-cases timer.is_running) [
  | inl e ↦
      let same : take timer.at timer.endpoints
            ++ run_health_checks ping (drop timer.at timer.endpoints)
          ≡ timer.endpoints =
        rw
          (
            drop-eq-nil timer.at timer.endpoints h,
            append-nil,
            take-eq_of_le timer.at timer.endpoints h,
          )
          refl in
      rw e (same, omega (arith, ap length same))
  | inr e ↦ rw e (refl, h)
]

exhausted-run_ops :
    (ops : List TimerOp) (timer : HealthTimer)
    → length timer.endpoints ≤ timer.at
    → (run_ops ops timer).endpoints ≡ timer.endpoints
unfolding run_ops
exhausted-run_ops [] timer h = refl
exhausted-run_ops (op ∷ ops) timer h =
    let (same, still) = exhausted-run_op op timer h in
    exhausted-run_ops ops (run_op op timer) still ∙ same

-- Health checks happen once: after the first firing of the interval, which checks every endpoint,
-- no sequence of firings, stops and restarts checks any endpoint again.
pub only_first_pass :
    (ping : String → HealthCheck) (ops : List TimerOp) (eps : List EndpointState)
    → (run_ops (started ∷ fired ping ∷ ops) (new_timer eps)).endpoints ≡ run_health_checks ping eps
unfolding run_ops run_op start tick
only_first_pass ping ops eps =
    exhausted-run_ops ops
      (record { endpoints = run_health_checks ping eps; at = length eps; is_running = true })
      (omega (arith, length-run_health_checks ping eps))

-- ===== src/Mesh/Tests.antt =====
-- Runs of the provider mesh, and its theorems at concrete meshes.
use phus.Prelude.{
  ℕ, ◌+◌, ◌*◌, ◌≤◌, String, ◌≡◌, refl, ◌≢◌, ◌⊎◌, true, false, none, some, [], ◌∷◌, arith, ltb,
  if◌then◌else◌, length,
}
use phus.Prelude.Integers.{pos, ltb_int}
use phus.Prelude.Sort.{sort, IsFirstLeast}
use phus.Mesh.{
  EndpointSpec, EndpointState, MeshPolicy, default_mesh_policy, failover, weighted, closed, opened,
  half_open, new_state,
}
use phus.Mesh.Circuit.{is_available, record_success, record_failure}
use phus.Mesh.Circuit.Machine.{
  success, failure, apply, apply_all, fail_all, Cause, circuit_changes, events_tell,
  half_open_stays, opens_at_threshold,
}
use phus.Mesh.Circuit.Latencies.{last_20, successes, window_is_last_20}
use phus.Mesh.Routing.{pick_by_strategy, total_weight}
use phus.Mesh.Routing.Choice.{order_of, picks-IsFirstLeast, HasShare, weighted-HasShare}
use phus.Mesh.Health.{run_health_checks, new_timer}
use phus.Mesh.Health.Passes.{started, stopped, fired, run_ops, only_first_pass}
use phus.Mesh.Call.{
  ProviderMesh, World, resolved, rejected, returned, out_of_fuel, call, attempt_endpoint,
  pick_endpoint, set_endpoint,
}
use phus.Mesh.Call.Retries.{settle}
use phus.Mesh.Call.Settles.{call-settles}
use phus.Mesh.Call.Bounds.{length-call}

abbrev endpoint : String → ℕ → ℕ → EndpointSpec
endpoint name priority weight = record {
  name = name;
  provider = "openai";
  model_id = "m";
  base_url = none;
  api_key_env = none;
  priority = some (pos priority);
  weight = some weight;
  cost_per_million = some (record { input = priority; output = weight });
  tags = none;
  health_check_url = some "https://example.org";
}

abbrev one_failure : MeshPolicy
one_failure = record default_mesh_policy { cb_failure_threshold = some 1 }

abbrev primary : EndpointState
primary = new_state (endpoint "a" 1 1)

abbrev second : EndpointState
second = new_state (endpoint "b" 0 3)

abbrev probing : EndpointState
probing = record primary { circuit = half_open; consecutive_failures = 1; opened_at = some 5 }

circuit_changes_example :
    ((apply (failure one_failure 7) primary).0.circuit ≡ closed)
    ⊎ Cause (failure one_failure 7) primary (apply (failure one_failure 7) primary).0.circuit
circuit_changes_example = circuit_changes (failure one_failure 7) primary

events_tell_example :
    (((apply (failure one_failure 7) primary).1 ≡ [])
      × ((apply (failure one_failure 7) primary).0.circuit ≡ closed))
    ⊎ (((apply (failure one_failure 7) primary).1
          ≡ record { name = "a"; state = (apply (failure one_failure 7) primary).0.circuit } ∷ [])
        × ((apply (failure one_failure 7) primary).0.circuit ≢ closed))
events_tell_example = events_tell (failure one_failure 7) primary tt

half_open_stays_example :
    ((apply_all (failure one_failure 7 ∷ failure one_failure 8 ∷ []) probing).circuit ≡ half_open)
    × ((is_available one_failure 9
          (apply_all (failure one_failure 7 ∷ failure one_failure 8 ∷ []) probing)).1
        ≡ true)
half_open_stays_example =
    half_open_stays (failure one_failure 7 ∷ failure one_failure 8 ∷ []) probing one_failure 9
      (omega arith) refl

-- A circuit that was open at 90 and has closed again.
abbrev recovered : EndpointState
recovered = record primary { opened_at = some 90 }

opens_at_threshold_example :
    ((fail_all default_mesh_policy (101 ∷ 102 ∷ 103 ∷ 104 ∷ 105 ∷ 106 ∷ []) recovered).circuit
      ≡ opened)
    × ((fail_all default_mesh_policy (101 ∷ 102 ∷ 103 ∷ 104 ∷ 105 ∷ 106 ∷ []) recovered).opened_at
        ≡ some 105)
opens_at_threshold_example =
    opens_at_threshold default_mesh_policy 5 (101 ∷ 102 ∷ 103 ∷ 104 ∷ 105 ∷ 106 ∷ []) recovered refl
      refl (omega arith)

window_is_last_20_example :
    (apply_all (success 4 ∷ failure one_failure 1 ∷ success 6 ∷ []) primary).latencies
    ≡ last_20 (successes (success 4 ∷ failure one_failure 1 ∷ success 6 ∷ []))
window_is_last_20_example =
    window_is_last_20 (success 4 ∷ failure one_failure 1 ∷ success 6 ∷ []) (endpoint "a" 1 1)

picks-IsFirstLeast_example :
    (best : EndpointState) × (pick_by_strategy failover
        (primary ∷ second ∷ [])
        (record { num = 0; den = 1 })
      ≡ some best)
    × IsFirstLeast (order_of failover) best (primary ∷ second ∷ [])
picks-IsFirstLeast_example =
    picks-IsFirstLeast failover primary (second ∷ []) (record { num = 0; den = 1 }) (λ e. cc e)

weighted-HasShare_example :
    (chosen : EndpointState) × (pick_by_strategy weighted
        (primary ∷ second ∷ [])
        (record { num = 1; den = 2 })
      ≡ some chosen)
    × HasShare 2 (1 * total_weight (primary ∷ second ∷ [])) (primary ∷ second ∷ []) chosen
weighted-HasShare_example =
    weighted-HasShare primary (second ∷ []) (record { num = 1; den = 2 }) (omega arith)

picks_by_weight :
    (pick_by_strategy weighted (primary ∷ second ∷ []) (record { num = 1; den = 4 }) ≡ some primary)
    × (pick_by_strategy weighted (primary ∷ second ∷ []) (record { num = 2; den = 4 })
        ≡ some second)
    × (pick_by_strategy failover (primary ∷ second ∷ []) (record { num = 2; den = 4 })
        ≡ some second)
unfolding pick_by_strategy sort ltb_int
picks_by_weight = (refl, refl, refl)

only_first_pass_example :
    (run_ops
      (started
        ∷ fired (λ name. record { is_ok = false; ts = 1 })
        ∷ stopped
        ∷ started
        ∷ fired (λ name. record { is_ok = true; ts = 2 })
        ∷ [])
      (new_timer (primary ∷ second ∷ []))).endpoints
    ≡ run_health_checks (λ name. record { is_ok = false; ts = 1 }) (primary ∷ second ∷ [])
only_first_pass_example =
    only_first_pass (λ name. record { is_ok = false; ts = 1 })
      (stopped ∷ started ∷ fired (λ name. record { is_ok = true; ts = 2 }) ∷ [])
      (primary ∷ second ∷ [])

-- Endpoint "b" rejects its two attempts, then "a" resolves.
abbrev failing_over : World ℕ String
failing_over = record {
  clock = λ n. n;
  rng = λ n. record { num = 0; den = 1 };
  fn = λ n spec. record {
    started = n;
    settled = n + 1;
    answer = if ltb n 2 then rejected "busy" else resolved n;
  };
}

abbrev pair_mesh : ProviderMesh
pair_mesh = record { endpoints = primary ∷ second ∷ []; policy = one_failure }

fails_over : (call failing_over pair_mesh).outcome ≡ returned 2
unfolding call attempt_endpoint pick_endpoint set_endpoint pick_by_strategy sort is_available
    record_success record_failure ltb_int
fails_over = refl

call-settles_example :
    (settle failing_over 0 none (call failing_over pair_mesh).calls
      ≡ some (call failing_over pair_mesh).outcome)
    × ((call failing_over pair_mesh).outcome ≢ out_of_fuel)
call-settles_example = call-settles failing_over pair_mesh

length-call_example : length (call failing_over pair_mesh).calls ≤ 4
length-call_example = length-call failing_over pair_mesh

-- ===== src/Mesh/Call/Bounds.antt =====
-- index.ts, `call`: how many calls of `fn` it makes.
use phus.Prelude.{
  ℕ, zero, suc, ◌+◌, ◌-◌, ◌*◌, ◌≤◌, ◌≡◌, subst, inl, inr, Option, none, some, [], arith, ltb,
  ltb→lt, Bool-cases, Option-cases, length, length-append,
}
use phus.Mesh.{EndpointState, MeshPolicy}
use phus.Mesh.Circuit.{record_failure, value_or}
use phus.Mesh.Call.{ProviderMesh, World, attempt_endpoint, call_loop, call}
use phus.Mesh.Call.Retries.{Answer-cases}
use phus.Mesh.Call.Rounds.{
  Round, loop_from, picked_in, attempts_on, next_round, loop-all_tried, loop-none_picked,
  loop-resolved, loop-rejected, next_round-tried, next_round-size,
}
use phus.Mesh.Call.Retries.{attempt_endpoint-resolved, attempt_endpoint-rejected}

module _ {ℓ} {T E : Type ℓ} (world : World T E) where
  length-attempt_endpoint :
      (policy : MeshPolicy) (left n : ℕ) (last_err : Option E) (ep : EndpointState)
      → length (attempt_endpoint world policy left n last_err ep).calls ≤ left
  length-attempt_endpoint policy zero n last_err ep = unfold attempt_endpoint in omega arith
  length-attempt_endpoint policy (suc left) n last_err ep =
      let attempt = world.fn n ep.spec in
      elim (Answer-cases attempt.answer) [
        | inl (v, e) ↦
            rw (attempt_endpoint-resolved world policy left n last_err ep e) (omega arith)
        | inr (err, e) ↦ rw (attempt_endpoint-rejected world policy left n last_err ep e) (
            omega (
              arith,
              length-attempt_endpoint policy left (suc n) (some err)
                  (record_failure policy attempt.started ep).0,
            ))
      ]

  -- One round less, and its calls.
  one_more_round : (d d' r c rest : ℕ) → d ≡ suc d' → c ≤ r → rest ≤ d' * r → c + rest ≤ d * r
  one_more_round d d' r c rest e h k = rw e (omega arith)

  length-loop :
      (fuel : ℕ) (r : Round T E)
      → length (loop_from world fuel r).calls
        ≤ (length r.mesh.endpoints - length r.tried)
          * value_or r.mesh.policy.max_retries_per_endpoint 0
  length-loop zero r = unfold call_loop in omega arith
  length-loop (suc fuel) r =
      let retries = value_or r.mesh.policy.max_retries_per_endpoint 0 in
      elim (Bool-cases (ltb (length r.tried) (length r.mesh.endpoints))) [
        | inr f ↦ rw (loop-all_tried world fuel r f) (omega arith)
        | inl t ↦ elim (Option-cases (picked_in world r).endpoint) [
          | inl e ↦ rw (loop-none_picked world fuel r t e) (omega arith)
          | inr (ep, e) ↦
              let made = length-attempt_endpoint r.mesh.policy retries r.n r.last_err ep in
              let next = next_round world r ep in
              let fewer : length r.mesh.endpoints - length r.tried
                  ≡ suc (length next.mesh.endpoints - length next.tried) =
                omega (
                  arith,
                  next_round-tried world r ep e,
                  next_round-size world r ep e,
                  ltb→lt (length r.tried) (length r.mesh.endpoints) t,
                ) in
              elim (Option-cases (attempts_on world r ep).value) [
                | inr (v, k) ↦ rw (loop-resolved world fuel r t ep e k) (
                    subst (λ c. c ≤ (length r.mesh.endpoints - length r.tried) * retries)
                      (let z : length (attempts_on world r ep).calls + 0
                            ≡ length (attempts_on world r ep).calls =
                          omega arith in
                        z)
                      (one_more_round _ _ retries (length (attempts_on world r ep).calls) 0 fewer
                        made (omega arith)))
                | inl k ↦
                    rw
                      (
                        loop-rejected world fuel r t ep e k,
                        length-append (attempts_on world r ep).calls
                            (loop_from world fuel next).calls,
                      )
                      (one_more_round _ _ retries (length (attempts_on world r ep).calls)
                        (length (loop_from world fuel next).calls) fewer made
                        (length-loop fuel next))
              ]
        ]
      ]

  -- `call` makes in total at most as many calls of `fn` as the mesh has endpoints times
  -- `maxRetriesPerEndpoint`, whatever the clock, the random numbers and the answers.
  pub length-call :
      (mesh : ProviderMesh)
      → length (call world mesh).calls
        ≤ length mesh.endpoints * value_or mesh.policy.max_retries_per_endpoint 0
  unfolding call
  length-call mesh =
      let retries = value_or mesh.policy.max_retries_per_endpoint 0 in
      let start : Round T E = record {
        picks = 0;
        n = 0;
        tried = [];
        last_err = none;
        mesh = mesh;
      } in
      let all : length mesh.endpoints - 0 ≡ length mesh.endpoints = omega arith in
      subst (λ d. length (call world mesh).calls ≤ d * retries) all
        (length-loop (suc (length mesh.endpoints)) start)

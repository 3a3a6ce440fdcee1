-- ===== src/Mesh/Call/Retries.antt =====
-- index.ts, the inner loop of `call`: the attempts on one endpoint, and the outcome of a sequence of
-- calls of `fn`.
use phus.Prelude.{
  ℕ, zero, suc, ◌+◌, ◌-◌, ◌≡◌, refl, ap, ◌∙◌, ◌⊎◌, inl, inr, Option, none, some, eq_of_some, List,
  [], ◌∷◌, ◌++◌, arith, length,
}
use phus.Mesh.{EndpointSpec, EndpointState, MeshPolicy}
use phus.Mesh.Circuit.{record_success, record_failure}
use phus.Mesh.Call.{
  Answer, resolved, rejected, World, Outcome, returned, throw_last, attempt_endpoint,
}

pub Answer-cases {ℓ} :
    {T E : Type ℓ} (a : Answer T E) → ((v : T) × (a ≡ resolved v)) ⊎ ((e : E) × (a ≡ rejected e))
Answer-cases (resolved v) = inl (v, refl)
Answer-cases (rejected e) = inr (e, refl)

pub spec-record_success :
    (latency : ℕ) (ep : EndpointState) → (record_success latency ep).0.spec ≡ ep.spec
unfolding record_success
spec-record_success latency ep = ground arith

pub spec-record_failure :
    (policy : MeshPolicy) (now : ℕ) (ep : EndpointState)
    → (record_failure policy now ep).0.spec ≡ ep.spec
unfolding record_failure
spec-record_failure policy now ep = ground arith

module _ {ℓ} {T E : Type ℓ} (world : World T E) where
  pub attempt_endpoint-resolved :
      (policy : MeshPolicy) (left n : ℕ) (last_err : Option E) (ep : EndpointState) {v : T}
      → (world.fn n ep.spec).answer ≡ resolved v
      → attempt_endpoint world policy (suc left) n last_err ep ≡ (
          let attempt = world.fn n ep.spec in
          let (ep', events) = record_success (attempt.settled - attempt.started) ep in
          record {
            endpoint = ep';
            value = some v;
            last_err = last_err;
            calls = ep.spec ∷ [];
            events = events;
          })
  unfolding attempt_endpoint
  attempt_endpoint-resolved policy left n last_err ep e = rw (e, attempt_endpoint)

  pub attempt_endpoint-rejected :
      (policy : MeshPolicy) (left n : ℕ) (last_err : Option E) (ep : EndpointState) {err : E}
      → (world.fn n ep.spec).answer ≡ rejected err
      → attempt_endpoint world policy (suc left) n last_err ep ≡ (
          let (ep', events) = record_failure policy (world.fn n ep.spec).started ep in
          let rest = attempt_endpoint world policy left (suc n) (some err) ep' in
          record rest { calls = ep.spec ∷ rest.calls; events = events ++ rest.events })
  unfolding attempt_endpoint
  attempt_endpoint-rejected policy left n last_err ep e = rw (e, attempt_endpoint)

  pub spec-attempt_endpoint :
      (policy : MeshPolicy) (left n : ℕ) (last_err : Option E) (ep : EndpointState)
      → (attempt_endpoint world policy left n last_err ep).endpoint.spec ≡ ep.spec
  spec-attempt_endpoint policy zero n last_err ep = unfold attempt_endpoint in refl
  spec-attempt_endpoint policy (suc left) n last_err ep =
      let attempt = world.fn n ep.spec in
      elim (Answer-cases attempt.answer) [
        | inl (v, e) ↦
            rw (attempt_endpoint-resolved policy left n last_err ep e)
              (spec-record_success (attempt.settled - attempt.started) ep)
        | inr (err, e) ↦ rw (attempt_endpoint-rejected policy left n last_err ep e) (
            spec-attempt_endpoint policy left (suc n) (some err)
              (record_failure policy attempt.started ep).0
            ∙ spec-record_failure policy attempt.started ep)
      ]

  -- The outcome of a sequence of calls, the first being number `n`, after the error `last_err`: the
  -- first value, or the last error. `none` if a call follows one that resolved.
  unfoldable pub settle : ℕ → Option E → List EndpointSpec → Option (Outcome T E)
  settle n last_err [] = some (throw_last world last_err)
  settle n last_err (spec ∷ specs) = elim (world.fn n spec).answer [
    | resolved value ↦ elim specs [ [] ↦ some (returned value) | _ ∷ _ ↦ none ]
    | rejected err ↦ settle (suc n) (some err) specs
  ]

  settle-cons_resolved :
      (n : ℕ) (last_err : Option E) (spec : EndpointSpec) {v : T}
      → (world.fn n spec).answer ≡ resolved v
      → settle n last_err (spec ∷ []) ≡ some (returned v)
  unfolding settle
  settle-cons_resolved n last_err spec e = rw (e, settle)

  pub settle-cons_rejected :
      (n : ℕ) (last_err : Option E) (spec : EndpointSpec) (specs : List EndpointSpec) {err : E}
      → (world.fn n spec).answer ≡ rejected err
      → settle n last_err (spec ∷ specs) ≡ settle (suc n) (some err) specs
  unfolding settle
  settle-cons_rejected n last_err spec specs e = rw (e, settle)

  pub settle-resolved :
      (policy : MeshPolicy) (left n : ℕ) (last_err : Option E) (ep : EndpointState) (v : T)
      → (attempt_endpoint world policy left n last_err ep).value ≡ some v
      → settle n last_err (attempt_endpoint world policy left n last_err ep).calls
        ≡ some (returned v)
  settle-resolved policy zero n last_err ep v e = absurd (unfold attempt_endpoint in cc e)
  settle-resolved policy (suc left) n last_err ep v e =
      let attempt = world.fn n ep.spec in
      elim (Answer-cases attempt.answer) [
        | inl (w, k) ↦
            let step = attempt_endpoint-resolved policy left n last_err ep k in
            rw step (
              settle-cons_resolved n last_err ep.spec k
              ∙ ap (λ u. some (returned u)) (eq_of_some (rw step at e)))
        | inr (err, k) ↦
            let step = attempt_endpoint-rejected policy left n last_err ep k in
            let ep' = (record_failure policy attempt.started ep).0 in
            rw step (
              settle-cons_rejected n last_err ep.spec _ k
              ∙ settle-resolved policy left (suc n) (some err) ep' v (rw step at e))
      ]

  pub settle-rejected :
      (policy : MeshPolicy) (left n : ℕ) (last_err : Option E) (ep : EndpointState)
      (rest : List EndpointSpec)
      → (attempt_endpoint world policy left n last_err ep).value ≡ none
      → let done = attempt_endpoint world policy left n last_err ep in
        settle n last_err (done.calls ++ rest) ≡ settle (n + length done.calls) done.last_err rest
  settle-rejected policy zero n last_err ep rest e =
      unfold attempt_endpoint in
      ap (λ k. settle k last_err rest) (let z : n ≡ n + 0 = omega arith in z)
  settle-rejected policy (suc left) n last_err ep rest e =
      let attempt = world.fn n ep.spec in
      elim (Answer-cases attempt.answer) [
        | inl (w, k) ↦
            let step = attempt_endpoint-resolved policy left n last_err ep k in
            let clash : some w ≡ none = rw step at e in absurd (cc clash)
        | inr (err, k) ↦
            let step = attempt_endpoint-rejected policy left n last_err ep k in
            let ep' = (record_failure policy attempt.started ep).0 in
            let done = attempt_endpoint world policy left (suc n) (some err) ep' in
            rw step (
              settle-cons_rejected n last_err ep.spec _ k
              ∙ settle-rejected policy left (suc n) (some err) ep' rest (rw step at e)
              ∙ ap (λ m. settle m done.last_err rest)
                  (let z : suc n + length done.calls ≡ n + suc (length done.calls) = omega arith in
                    z))
      ]

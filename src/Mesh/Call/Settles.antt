-- ===== src/Mesh/Call/Settles.antt =====
-- index.ts, `call`: its outcome is that of the sequence of calls of `fn`.
use phus.Prelude.{
  ℕ, zero, suc, ◌+◌, ◌≤◌, ◌<◌, ◌≡◌, refl, sym, ap, ◌∙◌, ◌≢◌, inl, inr, Option, none, some,
  eq_of_some, List, [], ◌∷◌, arith, ltb, ltb→lt, Bool-cases, Option-cases, length,
}
use phus.Mesh.{EndpointSpec}
use phus.Mesh.Circuit.{value_or}
use phus.Mesh.Call.{ProviderMesh, resolved, World, returned, out_of_fuel, call}
use phus.Mesh.Call.Retries.{
  settle, settle-resolved, settle-rejected, settle-cons_rejected, Answer-cases,
}
use phus.Mesh.Call.Rounds.{
  Round, loop_from, picked_in, attempts_on, next_round, loop-all_tried, loop-none_picked,
  loop-resolved, loop-rejected, next_round-tried, next_round-size,
}

module _ {ℓ} {T E : Type ℓ} (world : World T E) where
  loop-settles :
      (fuel : ℕ) (r : Round T E)
      → length r.tried ≤ length r.mesh.endpoints
      → length r.mesh.endpoints < fuel + length r.tried
      → settle world r.n r.last_err (loop_from world fuel r).calls
        ≡ some (loop_from world fuel r).outcome
  loop-settles zero r le h = absurd (omega arith)
  loop-settles (suc fuel) r le h =
      elim (Bool-cases (ltb (length r.tried) (length r.mesh.endpoints))) [
        | inr f ↦ rw (loop-all_tried world fuel r f) (unfold settle in refl)
        | inl t ↦ elim (Option-cases (picked_in world r).endpoint) [
          | inl e ↦ rw (loop-none_picked world fuel r t e) (unfold settle in refl)
          | inr (ep, e) ↦ elim (Option-cases (attempts_on world r ep).value) [
            | inr (v, k) ↦ rw (loop-resolved world fuel r t ep e k) (
                settle-resolved world r.mesh.policy
                  (value_or r.mesh.policy.max_retries_per_endpoint 0) r.n r.last_err ep v k)
            | inl k ↦ rw (loop-rejected world fuel r t ep e k) (
                settle-rejected world r.mesh.policy
                  (value_or r.mesh.policy.max_retries_per_endpoint 0) r.n r.last_err ep
                  (loop_from world fuel (next_round world r ep)).calls k
                ∙ loop-settles fuel (next_round world r ep)
                    (omega (
                      arith,
                      next_round-tried world r ep e,
                      next_round-size world r ep e,
                      ltb→lt (length r.tried) (length r.mesh.endpoints) t,
                    ))
                    (omega (arith, next_round-tried world r ep e, next_round-size world r ep e)))
          ]
        ]
      ]

  settle-ne-out_of_fuel :
      (n : ℕ) (last_err : Option E) (specs : List EndpointSpec)
      → settle world n last_err specs ≢ some out_of_fuel
  unfolding settle
  settle-ne-out_of_fuel n none [] e = cc
  settle-ne-out_of_fuel n (some err) [] e = cc
  settle-ne-out_of_fuel n last_err (spec ∷ specs) e = elim (Answer-cases (world.fn n spec).answer) [
    | inr (err, k) ↦
        settle-ne-out_of_fuel (suc n) (some err) specs
          (sym (settle-cons_rejected world n last_err spec specs k) ∙ e)
    | inl (v, k) ↦ not_after specs v k e
  ]
    where
      not_after :
          (specs : List EndpointSpec) (v : T)
          → (world.fn n spec).answer ≡ resolved v
          → settle world n last_err (spec ∷ specs) ≢ some out_of_fuel
      not_after [] v k e =
          let z : returned v ≡ out_of_fuel = eq_of_some (rw (k, settle) at e) in cc z
      not_after (s ∷ ss) v k e = let z : none ≡ some out_of_fuel = rw (k, settle) at e in cc z

  -- `call` always ends, and as its calls of `fn` say: it returns the value of the call that resolved,
  -- which is the last one made; if all were rejected it throws the last error; if none could be made
  -- it throws the error of a mesh whose endpoints have all failed. The calls are numbered from 0.
  pub call-settles :
      (mesh : ProviderMesh)
      → (settle world 0 none (call world mesh).calls ≡ some (call world mesh).outcome)
        × ((call world mesh).outcome ≢ out_of_fuel)
  unfolding call
  call-settles mesh =
      let start : Round T E = record {
        picks = 0;
        n = 0;
        tried = [];
        last_err = none;
        mesh = mesh;
      } in
      let done = loop-settles (suc (length mesh.endpoints)) start (omega arith) (omega arith) in
      (done, λ e. settle-ne-out_of_fuel 0 none (call world mesh).calls (done ∙ ap some e))

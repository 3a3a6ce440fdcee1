-- ===== src/Mesh/Call/Rounds.antt =====
-- index.ts, the outer loop of `call`: one round for each way that it may go.
use phus.Prelude.{
  ℕ, suc, ◌+◌, String, ◌≡◌, sym, ap, ◌∙◌, true, false, Option, none, some, List, [], ◌++◌, ltb,
  length,
}
use phus.Mesh.{EndpointState}
use phus.Mesh.Circuit.{value_or}
use phus.Mesh.Call.{
  ProviderMesh, Picked, World, returned, throw_last, Attempts, Run, set_endpoint, add_name,
  pick_endpoint, attempt_endpoint, call_loop,
}
use phus.Mesh.Call.Picks.{
  names, picked-IsFresh, names-pick_endpoint, names-set_endpoint, length-names, length-add_name,
}
use phus.Mesh.Call.Retries.{spec-attempt_endpoint}

-- The state before a round: the loop's variables.
pub record Round {ℓ} (T E : Type ℓ) : Type ℓ where
  pub picks : ℕ
  pub n : ℕ
  pub tried : List String
  pub last_err : Option E
  pub mesh : ProviderMesh

module _ {ℓ} {T E : Type ℓ} (world : World T E) where
  abbrev pub loop_from : ℕ → Round T E → Run T E
  loop_from fuel r = call_loop world fuel r.picks r.n r.tried r.last_err r.mesh

  abbrev pub picked_in : Round T E → Picked
  picked_in r = pick_endpoint (world.clock r.picks) (world.rng r.picks) r.tried r.mesh

  abbrev pub attempts_on : Round T E → EndpointState → Attempts T E
  attempts_on r ep =
      attempt_endpoint world r.mesh.policy (value_or r.mesh.policy.max_retries_per_endpoint 0) r.n
        r.last_err ep

  abbrev pub next_round : Round T E → EndpointState → Round T E
  next_round r ep =
      let done = attempts_on r ep in
      record {
        picks = suc r.picks;
        n = r.n + length done.calls;
        tried = add_name r.tried ep.spec.name;
        last_err = done.last_err;
        mesh = record (r.mesh) {
          endpoints = set_endpoint done.endpoint (picked_in r).mesh.endpoints;
        };
      }

  module _ (fuel : ℕ) (r : Round T E) where
    pub loop-all_tried :
        ltb (length r.tried) (length r.mesh.endpoints) ≡ false
        → loop_from (suc fuel) r
          ≡ record { mesh = r.mesh; outcome = throw_last world r.last_err; calls = []; events = [] }
    unfolding call_loop
    loop-all_tried f = rw (f, call_loop)

    module _ (t : ltb (length r.tried) (length r.mesh.endpoints) ≡ true) where
      pub loop-none_picked :
          (picked_in r).endpoint ≡ none
          → loop_from (suc fuel) r ≡ record {
            mesh = (picked_in r).mesh;
            outcome = throw_last world r.last_err;
            calls = [];
            events = (picked_in r).events;
          }
      unfolding call_loop
      loop-none_picked e = rw (t, e, call_loop)

      module _ (ep : EndpointState) (e : (picked_in r).endpoint ≡ some ep) where
        pub loop-resolved :
            {v : T}
            → (attempts_on r ep).value ≡ some v
            → loop_from (suc fuel) r ≡ record {
              mesh = (next_round r ep).mesh;
              outcome = returned v;
              calls = (attempts_on r ep).calls;
              events = (picked_in r).events ++ (attempts_on r ep).events;
            }
        unfolding call_loop
        loop-resolved k = rw (t, e, k, call_loop)

        pub loop-rejected :
            (attempts_on r ep).value ≡ none
            → loop_from (suc fuel) r ≡ (
                let rest = loop_from fuel (next_round r ep) in
                record rest {
                  calls = (attempts_on r ep).calls ++ rest.calls;
                  events = (picked_in r).events ++ ((attempts_on r ep).events ++ rest.events);
                })
        unfolding call_loop
        loop-rejected k = rw (t, e, k, call_loop)

  -- A round tries one more endpoint, and keeps the mesh's endpoints.
  pub next_round-tried :
      (r : Round T E) (ep : EndpointState)
      → (picked_in r).endpoint ≡ some ep
      → length (next_round r ep).tried ≡ length r.tried + 1
  next_round-tried r ep e =
      length-add_name r.tried ep.spec.name
        (picked-IsFresh (world.clock r.picks) (world.rng r.picks) r.tried r.mesh ep e).0

  pub next_round-names :
      (r : Round T E) (ep : EndpointState)
      → (picked_in r).endpoint ≡ some ep
      → names (next_round r ep).mesh.endpoints ≡ names r.mesh.endpoints
  next_round-names r ep e =
      let done = attempts_on r ep in
      let same = names-pick_endpoint (world.clock r.picks) (world.rng r.picks) r.tried r.mesh in
      let known =
        (picked-IsFresh (world.clock r.picks) (world.rng r.picks) r.tried r.mesh ep e).1 in
      let kept =
        ap (λ s. s.name)
          (spec-attempt_endpoint world r.mesh.policy
            (value_or r.mesh.policy.max_retries_per_endpoint 0) r.n r.last_err ep) in
      names-set_endpoint done.endpoint (picked_in r).mesh.endpoints (rw (same, kept) known) ∙ same

  pub next_round-size :
      (r : Round T E) (ep : EndpointState)
      → (picked_in r).endpoint ≡ some ep
      → length (next_round r ep).mesh.endpoints ≡ length r.mesh.endpoints
  next_round-size r ep e =
      sym (length-names (next_round r ep).mesh.endpoints)
      ∙ ap length (next_round-names r ep e)
      ∙ length-names r.mesh.endpoints

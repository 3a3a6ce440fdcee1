-- ===== src/Mesh/Circuit/Latencies.antt =====
-- circuit.ts: the sliding window of latencies.
use phus.Prelude.{
  ℕ, ◌+◌, ◌-◌, ◌≡◌, refl, sym, ap, ◌∙◌, inl, inr, List, [], ◌∷◌, ◌++◌, append-nil, append_assoc,
  arith, ltb, ltb→lt, Bool-cases, length, drop, length-append, length-drop, drop-append_le,
  drop-drop,
}
use phus.Mesh.{EndpointSpec, new_state, EndpointState}
use phus.Mesh.Health.{check_one}
use phus.Mesh.Circuit.{is_available, record_success, record_failure, slide}
use phus.Mesh.Circuit.Machine.{Op, ask, success, failure, ping, apply, apply_all}

-- The last 20 of a history.
abbrev pub last_20 : List ℕ → List ℕ
last_20 history = drop (length history - 20) history

slide-last_20 : (history : List ℕ) (x : ℕ) → slide (last_20 history) x ≡ last_20 (history ++ x ∷ [])
slide-last_20 history x =
    let d = length history - 20 in
    let whole = history ++ x ∷ [] in
    let longer : drop d history ++ x ∷ [] ≡ drop d whole =
      sym (drop-append_le d history (x ∷ []) (omega arith)) in
    let size = length-append history (x ∷ []) in
    elim (Bool-cases (ltb 20 (length (drop d whole)))) [
      | inl t ↦
          let one_more : d + 1 ≡ length whole - 20 =
            omega (arith, length-drop d whole, ltb→lt 20 (length (drop d whole)) t) in
          rw (longer, t) (drop-drop 1 d whole ∙ ap (λ k. drop k whole) one_more)
      | inr f ↦
          let none_more : d ≡ length whole - 20 = ground (arith, length-drop d whole) in
          rw (longer, f) (ap (λ k. drop k whole) none_more)
    ]

-- The latencies of the calls that succeeded, in order.
unfoldable pub successes : List Op → List ℕ
successes [] = []
successes (success latency ∷ ops) = latency ∷ successes ops
successes (op ∷ ops) = successes ops

latencies-apply :
    (op : Op) (ep : EndpointState) (history : List ℕ)
    → ep.latencies ≡ last_20 history
    → (apply op ep).0.latencies ≡ last_20 (history ++ successes (op ∷ []))
unfolding apply successes is_available record_success record_failure check_one
latencies-apply (ask policy now) ep history e = ground (arith, append-nil history)
latencies-apply (success latency) ep history e = ground (arith, slide-last_20 history latency)
latencies-apply (failure policy now) ep history e = ground (arith, append-nil history)
latencies-apply (ping result) ep history e = ground (arith, append-nil history)

successes-cons :
    (op : Op) (ops : List Op) (history : List ℕ)
    → (history ++ successes (op ∷ [])) ++ successes ops ≡ history ++ successes (op ∷ ops)
unfolding successes
successes-cons (success latency) ops history = append_assoc history (latency ∷ []) (successes ops)
successes-cons (ask policy now) ops history = append_assoc history [] (successes ops)
successes-cons (failure policy now) ops history = append_assoc history [] (successes ops)
successes-cons (ping result) ops history = append_assoc history [] (successes ops)

latencies-apply_all :
    (ops : List Op) (ep : EndpointState) (history : List ℕ)
    → ep.latencies ≡ last_20 history
    → (apply_all ops ep).latencies ≡ last_20 (history ++ successes ops)
unfolding apply_all successes
latencies-apply_all [] ep history e = e ∙ ap last_20 (sym (append-nil history))
latencies-apply_all (op ∷ ops) ep history e =
    latencies-apply_all ops (apply op ep).0 (history ++ successes (op ∷ []))
      (latencies-apply op ep history e)
    ∙ ap last_20 (successes-cons op ops history)

-- Whatever happens to a new endpoint, its window holds the latencies of the last 20 calls that
-- succeeded, in order; failures, questions and health checks leave it alone.
pub window_is_last_20 :
    (ops : List Op) (spec : EndpointSpec)
    → (apply_all ops (new_state spec)).latencies ≡ last_20 (successes ops)
window_is_last_20 ops spec = latencies-apply_all ops (new_state spec) [] refl

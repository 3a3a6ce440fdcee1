-- ===== src/Fuse/Hours.antt =====
-- llm-fuse.ts: the budget of the rolling hour, over whole runs.
use phus.Prelude.{
  ℕ, ◌≤◌, ◌<◌, ◌≡◌, refl, ap, ◌∙◌, ◌≢◌, inl, inr, Bool, Option, none, some, List, [], ◌∷◌, ◌++◌,
  arith, ltb, Bool-cases, length, filter, length-append, filter-append,
}
use phus.Fuse.{
  billing, turn_budget, hour_budget, over_budget, LlmFuse, FuseTripReason, RobustnessConfig,
  is_recent, check, report, reset_turn, count_call, status,
}
use phus.Fuse.Window.{
  Ascending, Ascending-snoc, filter-filter_recent, count_call-window, length-filter_recent_mono,
}
use phus.Fuse.Trace.{Event, Trace, start, observe, run, InHours, last_check, add_sent, add_counted}

-- The hourly invariant, at the last counted call.
record IsWindowed (n now : ℕ) (tr : Trace) : Type 0 where
  last : ℕ
  last_le : last ≤ now
  ordered : Ascending last tr.counted
  window : tr.fuse.hour_window ≡ filter (is_recent last) tr.counted
  fewer : (p : ℕ → Bool) → length (filter p tr.sent) ≤ length (filter p tr.counted)
  bounded : (later : ℕ) → last ≤ later → length (filter (is_recent later) tr.sent) ≤ n

module _ (n then' now : ℕ) (tr : Trace) (le : then' ≤ now) (w : IsWindowed n then' tr) where
  abbrev counted_trace : List ℕ → Trace
  counted_trace sent = record {
    fuse = count_call now tr.fuse;
    counted = tr.counted ++ now ∷ [];
    sent = sent;
  }

  window_after :
      (count_call now tr.fuse).hour_window ≡ filter (is_recent now) (tr.counted ++ now ∷ [])
  window_after = count_call-window w.last now tr.fuse tr.counted w.ordered (omega arith) w.window

  fewer_held :
      (p : ℕ → Bool) → length (filter p tr.sent) ≤ length (filter p (tr.counted ++ now ∷ []))
  fewer_held p =
      rw (filter-append p tr.counted (now ∷ []))
        (omega (arith, w.fewer p, length-append (filter p tr.counted) (filter p (now ∷ []))))

  fewer_sent :
      (p : ℕ → Bool)
      → length (filter p (tr.sent ++ now ∷ [])) ≤ length (filter p (tr.counted ++ now ∷ []))
  fewer_sent p =
      rw (filter-append p tr.counted (now ∷ []), filter-append p tr.sent (now ∷ []))
        (omega (
          arith,
          w.fewer p,
          length-append (filter p tr.counted) (filter p (now ∷ [])),
          length-append (filter p tr.sent) (filter p (now ∷ [])),
        ))

  held-IsWindowed : IsWindowed n now (counted_trace tr.sent)
  held-IsWindowed = record {
    last = now;
    last_le = omega arith;
    ordered = Ascending-snoc w.last now tr.counted w.ordered (omega arith);
    window = window_after;
    fewer = fewer_held;
    bounded = λ later h. w.bounded later (omega arith);
  }

  sent-IsWindowed :
      length (count_call now tr.fuse).hour_window ≤ n
      → IsWindowed n now (counted_trace (tr.sent ++ now ∷ []))
  sent-IsWindowed fits = record {
    last = now;
    last_le = omega arith;
    ordered = Ascending-snoc w.last now tr.counted w.ordered (omega arith);
    window = window_after;
    fewer = fewer_sent;
    bounded = λ later h. omega (
      arith,
      fewer_sent (is_recent later),
      ap length window_after,
      length-filter_recent_mono now later (tr.counted ++ now ∷ []) h,
    );
  }

  kept-IsWindowed : IsWindowed n now tr
  kept-IsWindowed = record {
    last = w.last;
    last_le = omega arith;
    ordered = w.ordered;
    window = w.window;
    fewer = w.fewer;
    bounded = w.bounded;
  }

-- A verdict on the budgets, with what it says of the window.
counted_verdict-IsWindowed :
    (n then' now : ℕ) (tr : Trace) (verdict : Option FuseTripReason)
    → then' ≤ now
    → IsWindowed n then' tr
    → verdict ≢ some billing
    → (verdict ≡ none → length (count_call now tr.fuse).hour_window ≤ n)
    → IsWindowed n now (record {
      fuse = count_call now tr.fuse;
      counted = add_counted verdict now tr.counted;
      sent = add_sent verdict now tr.sent;
    })
counted_verdict-IsWindowed n then' now tr none le w ne fits =
    sent-IsWindowed n then' now tr le w (fits refl)
counted_verdict-IsWindowed n then' now tr (some billing) le w ne fits = absurd (ne refl)
counted_verdict-IsWindowed n then' now tr (some turn_budget) le w ne fits =
    held-IsWindowed n then' now tr le w
counted_verdict-IsWindowed n then' now tr (some hour_budget) le w ne fits =
    held-IsWindowed n then' now tr le w

request-IsWindowed :
    (n then' now : ℕ) (cfg : RobustnessConfig) (tr : Trace)
    → 0 < cfg.llm_calls_per_hour
    → cfg.llm_calls_per_hour ≤ n
    → then' ≤ now
    → IsWindowed n then' tr
    → IsWindowed n now (observe (Event.request cfg now) tr)
unfolding observe check
request-IsWindowed n then' now cfg tr pos le later w =
    elim (Bool-cases (ltb now tr.fuse.billing_open_until)) [
      | inl shut ↦ rw shut (kept-IsWindowed n then' now tr later w)
      | inr free ↦ rw free (
          counted_verdict-IsWindowed n then' now tr (over_budget cfg (count_call now tr.fuse)) later
            w (ground arith) (ground arith))
    ]

same_window-IsWindowed :
    (n then' : ℕ) (tr : Trace) (fuse : LlmFuse)
    → fuse.hour_window ≡ tr.fuse.hour_window
    → IsWindowed n then' tr
    → IsWindowed n then' (record tr { fuse = fuse })
same_window-IsWindowed n then' tr fuse same w = record {
  last = w.last;
  last_le = w.last_le;
  ordered = w.ordered;
  window = same ∙ w.window;
  fewer = w.fewer;
  bounded = w.bounded;
}

run-IsWindowed :
    (n then' : ℕ) (es : List Event) (tr : Trace)
    → InHours n then' es
    → IsWindowed n then' tr
    → IsWindowed n (last_check then' es) (run es tr)
unfolding run observe reset_turn report
run-IsWindowed n then' [] tr h w = w
run-IsWindowed n then' (Event.request cfg now ∷ es) tr (pos, le, later, h) w =
    run-IsWindowed n now es (observe (Event.request cfg now) tr) h
      (request-IsWindowed n then' now cfg tr pos le later w)
run-IsWindowed n then' (Event.new_turn ∷ es) tr h w =
    run-IsWindowed n then' es (observe Event.new_turn tr) h
      (same_window-IsWindowed n then' tr (reset_turn tr.fuse) (ground arith) w)
run-IsWindowed n then' (Event.failure cfg now now' msg ∷ es) tr h w =
    run-IsWindowed n then' es (observe (Event.failure cfg now now' msg) tr) h
      (same_window-IsWindowed n then' tr (report cfg now now' msg tr.fuse) (ground arith) w)

start-IsWindowed : (n : ℕ) → IsWindowed n 0 start
start-IsWindowed n = record {
  last = 0;
  last_le = omega arith;
  ordered = tt;
  window = refl;
  fewer = λ p. omega arith;
  bounded = λ later h. omega arith;
}

-- Over any run of a new fuse in which the clock does not run backwards and every check is under
-- an hourly budget from 1 to n: at the time of the last check and at every later one, at most n
-- requests have been sent within the last hour.
pub hour_budget_holds :
    (n : ℕ) (es : List Event)
    → InHours n 0 es
    → (later : ℕ) → last_check 0 es ≤ later
    → length (filter (is_recent later) (run es start).sent) ≤ n
hour_budget_holds n es h later le =
    let w = run-IsWindowed n 0 es start h (start-IsWindowed n) in
    w.bounded later (omega (arith, w.last_le))

-- In such a run `status` counts exactly the calls of the last hour, those that a budget refused
-- included, though the window has been shortened at each check.
pub status_counts :
    (n : ℕ) (es : List Event)
    → InHours n 0 es
    → (later : ℕ) → last_check 0 es ≤ later
    → (status later (run es start).fuse).calls_this_hour
      ≡ length (filter (is_recent later) (run es start).counted)
unfolding status
status_counts n es h later le =
    let w = run-IsWindowed n 0 es start h (start-IsWindowed n) in
    rw w.window (
      ap length
        (filter-filter_recent w.last later (run es start).counted (omega (arith, w.last_le))))

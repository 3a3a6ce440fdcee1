-- ===== src/Plan/Pass/Trace.antt =====
-- What is read off the events of a pass.
use phus.Prelude.{ℕ, suc, ◌+◌, ◌-◌, ◌≤◌, String, ◌≡◌, refl, true, List, [], ◌∷◌, ◌++◌, arith, All}
use phus.Plan.Order.{has_id}
use phus.Plan.Pass.{PlanEvent, plan_step_started, plan_step_completed, plan_step_failed}

-- The ids that are complete after these events, if `ids` were before, the latest first.
abbrev pub completed_after : List String → List PlanEvent → List String
completed_after ids [] = ids
completed_after ids (plan_step_completed s ∷ events) = completed_after (s.id ∷ ids) events
completed_after ids (_ ∷ events) = completed_after ids events

abbrev pub AllDone : List String → List String → Type 0
AllDone ids deps = All (λ id. has_id ids id ≡ true) deps

-- No step starts before every step that it depends on is complete.
abbrev pub IsOrdered : List String → List PlanEvent → Type 0
IsOrdered ids [] = Unit
IsOrdered ids (plan_step_started s ∷ events) = AllDone ids s.depends_on × IsOrdered ids events
IsOrdered ids (plan_step_completed s ∷ events) = IsOrdered (s.id ∷ ids) events
IsOrdered ids (_ ∷ events) = IsOrdered ids events

-- How many steps run after these events, if `n` did before.
abbrev pub running_after : ℕ → List PlanEvent → ℕ
running_after n [] = n
running_after n (plan_step_started s ∷ events) = running_after (suc n) events
running_after n (plan_step_completed s ∷ events) = running_after (n - 1) events
running_after n (plan_step_failed s ∷ events) = running_after (n - 1) events
running_after n (_ ∷ events) = running_after n events

-- At no point do more than `cap` steps run.
abbrev pub IsCapped : ℕ → ℕ → List PlanEvent → Type 0
IsCapped cap n [] = n ≤ cap
IsCapped cap n (plan_step_started s ∷ events) = (n ≤ cap) × IsCapped cap (suc n) events
IsCapped cap n (plan_step_completed s ∷ events) = (n ≤ cap) × IsCapped cap (n - 1) events
IsCapped cap n (plan_step_failed s ∷ events) = (n ≤ cap) × IsCapped cap (n - 1) events
IsCapped cap n (_ ∷ events) = (n ≤ cap) × IsCapped cap n events

-- How many steps start.
abbrev pub starts : List PlanEvent → ℕ
starts [] = 0
starts (plan_step_started s ∷ events) = suc (starts events)
starts (_ ∷ events) = starts events

pub completed_after-append :
    (ids : List String) (xs ys : List PlanEvent)
    → completed_after ids (xs ++ ys) ≡ completed_after (completed_after ids xs) ys
completed_after-append ids [] ys = refl
completed_after-append ids (plan_step_completed s ∷ xs) ys =
    completed_after-append (s.id ∷ ids) xs ys
completed_after-append ids (_ ∷ xs) ys = completed_after-append ids xs ys

pub IsOrdered-append :
    (ids : List String) (xs ys : List PlanEvent)
    → IsOrdered ids xs
    → IsOrdered (completed_after ids xs) ys
    → IsOrdered ids (xs ++ ys)
IsOrdered-append ids [] ys h k = k
IsOrdered-append ids (plan_step_started s ∷ xs) ys (d, h) k = (d, IsOrdered-append ids xs ys h k)
IsOrdered-append ids (plan_step_completed s ∷ xs) ys h k = IsOrdered-append (s.id ∷ ids) xs ys h k
IsOrdered-append ids (_ ∷ xs) ys h k = IsOrdered-append ids xs ys h k

pub IsCapped-append :
    (cap n : ℕ) (xs ys : List PlanEvent)
    → IsCapped cap n xs
    → IsCapped cap (running_after n xs) ys
    → IsCapped cap n (xs ++ ys)
IsCapped-append cap n [] ys h k = k
IsCapped-append cap n (plan_step_started s ∷ xs) ys (le, h) k =
    (le, IsCapped-append cap (suc n) xs ys h k)
IsCapped-append cap n (plan_step_completed s ∷ xs) ys (le, h) k =
    (le, IsCapped-append cap (n - 1) xs ys h k)
IsCapped-append cap n (plan_step_failed s ∷ xs) ys (le, h) k =
    (le, IsCapped-append cap (n - 1) xs ys h k)
IsCapped-append cap n (_ ∷ xs) ys (le, h) k = (le, IsCapped-append cap n xs ys h k)

pub starts-append : (xs ys : List PlanEvent) → starts (xs ++ ys) ≡ starts xs + starts ys
starts-append [] ys = omega arith
starts-append (plan_step_started s ∷ xs) ys = omega (arith, starts-append xs ys)
starts-append (_ ∷ xs) ys = starts-append xs ys

pub running_after-append :
    (n : ℕ) (xs ys : List PlanEvent)
    → running_after n (xs ++ ys) ≡ running_after (running_after n xs) ys
running_after-append n [] ys = refl
running_after-append n (plan_step_started s ∷ xs) ys = running_after-append (suc n) xs ys
running_after-append n (plan_step_completed s ∷ xs) ys = running_after-append (n - 1) xs ys
running_after-append n (plan_step_failed s ∷ xs) ys = running_after-append (n - 1) xs ys
running_after-append n (_ ∷ xs) ys = running_after-append n xs ys

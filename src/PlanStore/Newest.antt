-- ===== src/PlanStore/Newest.antt =====
-- plan-store.ts: the plans table. What is saved is loaded, and the active plan is the newest one.
use phus.Prelude.{
  ◌≤◌, String, ◌≡◌, refl, ap, ◌∙◌, inl, inr, Bool, true, false, Option, none, some, List, [], ◌∷◌,
  ◌++◌, map, arith, eq_iff, if◌then◌else◌, Bool-cases, Option-cases, filter, find?, All,
}
use phus.Prelude.Sort.{sort}
use text.Mathlib.Text.{◌==◌ as str_eq}
use phus.Prelude.Json.{is_kept, reread_field-kept}
use phus.Plan.{Step, Plan}
use phus.PlanStore.{
  PlanRow, PlanStore, is_other, reread_step, reread_plan, row_of, save, load, delete, payload_of,
  newer, of_session, is_active, first_active, load_active_for_session,
}
use phus.PlanStore.Sorted.{
  IsNewestFirst, sort-All, All-sort, All-filtered, filtered-All, sort-IsNewestFirst,
}

abbrev has_key : String → PlanRow → Bool
has_key id row = str_eq row.id id

-- After the row of a key is gone, only the other keys are found, with the rows that they had.
find-filter :
    (key id : String) (rows : List PlanRow)
    → find? (has_key id) (filter (is_other key) rows)
      ≡ (if str_eq key id then none else find? (has_key id) rows)
find-filter key id [] = ground arith
find-filter key id (row ∷ rows) = elim (Bool-cases (str_eq row.id key)) [
  | inl t ↦
      ground (arith, t, find-filter key id rows, eq_iff row.id key, eq_iff row.id id, eq_iff key id)
  | inr f ↦
      ground (arith, f, find-filter key id rows, eq_iff row.id key, eq_iff row.id id, eq_iff key id)
]

find-append :
    (id : String) (rows : List PlanRow) (row : PlanRow)
    → find? (has_key id) (rows ++ row ∷ []) ≡ elim (find? (has_key id) rows) [
      | some found ↦ some found
      | none ↦ if str_eq row.id id then some row else none
    ]
find-append id [] row = refl
find-append id (x ∷ rows) row = elim (Bool-cases (str_eq x.id id)) [
  | inl t ↦ rw t refl
  | inr f ↦ rw f (find-append id rows row)
]

-- After a save JSON's reading of the plan is loaded under its id, and under any other id what was
-- before.
load-save_reread :
    (plan : Plan) (store : PlanStore) (id : String)
    → load (save plan store) id
      ≡ (if str_eq plan.id id then some (reread_plan plan) else load store id)
unfolding load save
load-save_reread plan store id =
    let found = find-append id (filter (is_other plan.id) store.plans) (row_of plan) in
    let kept = find-filter plan.id id store.plans in
    ap payload_of found ∙ elim (Bool-cases (str_eq plan.id id)) [
      | inl t ↦ rw (kept, t, t) refl
      | inr f ↦ elim (Option-cases (find? (has_key id) store.plans)) [
        | inl e ↦ rw (kept, f, e, f) refl
        | inr (row, e) ↦ rw (kept, f, e) refl
      ]
    ]

-- The steps whose results are values that JSON can write, or `undefined`, come back as they were.
map-reread_step :
    (steps : List Step)
    → All (λ (step : Step). is_kept step.result ≡ true) steps
    → map reread_step steps ≡ steps
map-reread_step [] h = refl
map-reread_step (step ∷ steps) (kept, h) =
    let e = reread_field-kept step.result kept in
    ap (λ r. record step { result = r } ∷ map reread_step steps) e
    ∙ ap (λ ss. step ∷ ss) (map-reread_step steps h)

-- For a plan in which the result of every step is `undefined` or a value that JSON can write as it is
-- (no Error, no function, and no `undefined` within): after a save the plan is loaded under its id as
-- it was, and under any other id what was before.
pub load-save :
    (plan : Plan) (store : PlanStore) (id : String)
    → All (λ (step : Step). is_kept step.result ≡ true) plan.steps
    → load (save plan store) id ≡ (if str_eq plan.id id then some plan else load store id)
load-save plan store id kept =
    let same : reread_plan plan ≡ plan =
      ap (λ steps. record plan { steps = steps }) (map-reread_step plan.steps kept) in
    load-save_reread plan store id
    ∙ ap (λ p. if str_eq plan.id id then some p else load store id) same

-- After a deletion nothing is loaded under the id, and under any other id what was before.
pub load-delete :
    (key : String) (store : PlanStore) (id : String)
    → load (delete key store) id ≡ (if str_eq key id then none else load store id)
unfolding load delete
load-delete key store id =
    rw (find-filter key id store.plans)
      (elim (Bool-cases (str_eq key id)) [ inl t ↦ rw t refl | inr f ↦ rw f refl ])

abbrev pub is_active_row : PlanRow → Bool
is_active_row row = elim row.payload [ none ↦ false | some plan ↦ is_active plan.status ]

-- Which of the rows of a session a result is: an active one, and of the active ones the newest.
pub data IsNewestActive (session_id : String) (rows : List PlanRow) : Option Plan → Type 1 where
  nothing_active :
      All (λ r. of_session session_id r ≡ true → is_active_row r ≡ false) rows
      → IsNewestActive session_id rows none
  newest :
      (row : PlanRow) (plan : Plan)
      → ((P : PlanRow → Type 0) → All (λ r. of_session session_id r ≡ true → P r) rows → P row)
      → row.payload ≡ some plan
      → is_active plan.status ≡ true
      → All
          (λ r.
            of_session session_id r ≡ true → is_active_row r ≡ true → r.updated_at ≤ row.updated_at)
          rows
      → IsNewestActive session_id rows (some plan)

-- The same of sorted rows, all of one session.
data IsFirstActive (rows : List PlanRow) : Option Plan → Type 1 where
  nothing : All (λ r. is_active_row r ≡ false) rows → IsFirstActive rows none
  first :
      (row : PlanRow) (plan : Plan)
      → ((P : PlanRow → Type 0) → All P rows → P row)
      → row.payload ≡ some plan
      → is_active plan.status ≡ true
      → All (λ r. is_active_row r ≡ true → r.updated_at ≤ row.updated_at) rows
      → IsFirstActive rows (some plan)

skip-IsFirstActive :
    (row : PlanRow) (rows : List PlanRow) (found : Option Plan)
    → is_active_row row ≡ false
    → IsFirstActive rows found
    → IsFirstActive (row ∷ rows) found
skip-IsFirstActive row rows none f (nothing h) = nothing (f, h)
skip-IsFirstActive row rows (some plan) f (first r plan' is_in p a h) =
    first r plan' (λ P k. is_in P k.1) p a ((λ t. absurd (cc t)), h)

head-IsFirstActive :
    (row : PlanRow) (rows : List PlanRow) (plan : Plan)
    → row.payload ≡ some plan
    → is_active plan.status ≡ true
    → All (λ r. r.updated_at ≤ row.updated_at) rows
    → IsFirstActive (row ∷ rows) (some plan)
head-IsFirstActive row rows plan p a h =
    first row plan (λ P k. k.0) p a ((λ t. omega arith), weaken rows h)
  where
    weaken :
        (rows : List PlanRow)
        → All (λ r. r.updated_at ≤ row.updated_at) rows
        → All (λ r. is_active_row r ≡ true → r.updated_at ≤ row.updated_at) rows
    weaken [] h = tt
    weaken (r ∷ rows) (le, h) = ((λ t. le), weaken rows h)

payload-IsFirstActive :
    (row : PlanRow) (rows : List PlanRow) (payload found : Option Plan)
    → row.payload ≡ payload
    → All (λ r. r.updated_at ≤ row.updated_at) rows
    → IsFirstActive rows found
    → IsFirstActive (row ∷ rows) (elim payload [
      | none ↦ found
      | some plan ↦ if is_active plan.status then some plan else found
    ])
payload-IsFirstActive row rows none found e p h = skip-IsFirstActive row rows found (rw e refl) h
payload-IsFirstActive row rows (some plan) found e p h = elim (Bool-cases (is_active plan.status)) [
  | inl t ↦ rw t (head-IsFirstActive row rows plan e t p)
  | inr f ↦ rw f (skip-IsFirstActive row rows found (rw e f) h)
]

first_active-IsFirstActive :
    (rows : List PlanRow) → IsNewestFirst rows → IsFirstActive rows (first_active rows)
unfolding first_active
first_active-IsFirstActive [] h = nothing tt
first_active-IsFirstActive (row ∷ rows) (p, h) =
    payload-IsFirstActive row rows row.payload (first_active rows) refl p
      (first_active-IsFirstActive rows h)

-- loadActiveForSession gives the newest of the active plans of a session, or nothing where no plan
-- of the session is active.
pub load_active-IsNewestActive :
    (store : PlanStore) (session_id : String)
    → IsNewestActive session_id store.plans (load_active_for_session store session_id)
unfolding load_active_for_session
load_active-IsNewestActive store session_id = transfer (load_active_for_session store session_id) (
    first_active-IsFirstActive (sort newer (filter (of_session session_id) store.plans))
      (sort-IsNewestFirst (filter (of_session session_id) store.plans)))
  where
    transfer :
        (found : Option Plan)
        → IsFirstActive (sort newer (filter (of_session session_id) store.plans)) found
        → IsNewestActive session_id store.plans found
    transfer found (nothing h) = nothing_active (
        All-filtered _ (of_session session_id) store.plans
          (All-sort _ (filter (of_session session_id) store.plans) h))
    transfer found (first row plan is_in p a h) =
        newest row plan
          (λ P k. is_in P (sort-All P _ (filtered-All P (of_session session_id) store.plans k))) p a
          (All-filtered _ (of_session session_id) store.plans
            (All-sort _ (filter (of_session session_id) store.plans) h))

-- ===== src/PlanStore/Sorted.antt =====
-- plan-store.ts: ORDER BY updated_at DESC, and what holds of all rows before and after it.
use phus.Prelude.{
  ℕ, ◌≤◌, ◌≡◌, inl, inr, Bool, true, List, [], ◌∷◌, arith, ltb, ltb→lt, not_ltb→le, Bool-cases,
  filter, All,
}
use phus.Prelude.Sort.{sort, insert}
use phus.PlanStore.{PlanRow, newer}

-- The newest first.
abbrev pub IsNewestFirst : List PlanRow → Type 0
IsNewestFirst [] = Unit
IsNewestFirst (row ∷ rows) =
    All (λ (r : PlanRow). r.updated_at ≤ row.updated_at) rows × IsNewestFirst rows

module _ (P : PlanRow → Type 0) where
  insert-All : (x : PlanRow) (rows : List PlanRow) → P x → All P rows → All P (insert newer x rows)
  unfolding insert
  insert-All x [] h k = (h, tt)
  insert-All x (row ∷ rows) h (p, k) = elim (Bool-cases (newer row x)) [
    | inl t ↦ rw t (p, insert-All x rows h k)
    | inr f ↦ rw f (h, (p, k))
  ]

  pub sort-All : (rows : List PlanRow) → All P rows → All P (sort newer rows)
  unfolding sort
  sort-All [] h = tt
  sort-All (row ∷ rows) (p, h) = insert-All row (sort newer rows) p (sort-All rows h)

  All-insert : (x : PlanRow) (rows : List PlanRow) → All P (insert newer x rows) → P x × All P rows
  unfolding insert
  All-insert x [] h = h
  All-insert x (row ∷ rows) h = elim (Bool-cases (newer row x)) [
    | inl t ↦ let (p, k) = (rw t at h) in let (q, l) = All-insert x rows k in (q, (p, l))
    | inr f ↦ rw f at h
  ]

  pub All-sort : (rows : List PlanRow) → All P (sort newer rows) → All P rows
  unfolding sort
  All-sort [] h = tt
  All-sort (row ∷ rows) h = let (p, k) = All-insert row (sort newer rows) h in (p, All-sort rows k)

  pub All-filtered :
      (q : PlanRow → Bool) (rows : List PlanRow)
      → All P (filter q rows)
      → All (λ r. q r ≡ true → P r) rows
  All-filtered q [] h = tt
  All-filtered q (row ∷ rows) h = elim (Bool-cases (q row)) [
    | inl t ↦ let (p, k) = (rw t at h) in ((λ _. p), All-filtered q rows k)
    | inr f ↦ ((λ t. absurd (ground (arith, f, t))), All-filtered q rows (rw f at h))
  ]

  pub filtered-All :
      (q : PlanRow → Bool) (rows : List PlanRow)
      → All (λ r. q r ≡ true → P r) rows
      → All P (filter q rows)
  filtered-All q [] h = tt
  filtered-All q (row ∷ rows) (p, h) = elim (Bool-cases (q row)) [
    | inl t ↦ rw t (p t, filtered-All q rows h)
    | inr f ↦ rw f (filtered-All q rows h)
  ]

All-le :
    (n m : ℕ) (rows : List PlanRow)
    → n ≤ m
    → All (λ (r : PlanRow). r.updated_at ≤ n) rows
    → All (λ (r : PlanRow). r.updated_at ≤ m) rows
All-le n m [] le h = tt
All-le n m (row ∷ rows) le (p, h) = (omega arith, All-le n m rows le h)

insert-IsNewestFirst :
    (x : PlanRow) (rows : List PlanRow) → IsNewestFirst rows → IsNewestFirst (insert newer x rows)
unfolding insert
insert-IsNewestFirst x [] h = (tt, tt)
insert-IsNewestFirst x (row ∷ rows) (p, h) = elim (Bool-cases (ltb x.updated_at row.updated_at)) [
  | inl t ↦ rw t (
    insert-All _ x rows (ground (arith, ltb→lt x.updated_at row.updated_at t)) p,
    insert-IsNewestFirst x rows h,
  )
  | inr f ↦
      let le = not_ltb→le x.updated_at row.updated_at f in
      rw f ((le, All-le row.updated_at x.updated_at rows le p), (p, h))
]

pub sort-IsNewestFirst : (rows : List PlanRow) → IsNewestFirst (sort newer rows)
unfolding sort
sort-IsNewestFirst [] = tt
sort-IsNewestFirst (row ∷ rows) =
    insert-IsNewestFirst row (sort newer rows) (sort-IsNewestFirst rows)

-- ===== src/Prelude/Sort/Stable.antt =====
-- The stable sort orders the list and keeps the order of equals.
use mathlib.Core.Path.{◌≡◌, refl, ap, ◌∙◌}
use mathlib.Core.Bool.{Bool, true, false, ◌||◌}
use mathlib.Core.Logic.{inl, inr}
use mathlib.Core.List.{List, [], ◌∷◌, ◌++◌}
use native.Mathlib.Omega.{arith}
use phus.Prelude.Tests.{if◌then◌else◌, Bool-cases}
use phus.Prelude.Lists.{All, All-filter, any, filter}
use phus.Prelude.Sort.{IsWeakOrder, insert, sort}

module _ {ℓ} {A : Type ℓ} (lt : A → A → Bool) where
  -- No member is less than one before it.
  abbrev pub IsSorted : List A → Type 0
  IsSorted [] = Unit
  IsSorted (x ∷ xs) = All (λ y. lt y x ≡ false) xs × IsSorted xs

  All-insert :
      (z x : A) (ys : List A)
      → lt x z ≡ false
      → All (λ y. lt y z ≡ false) ys
      → All (λ y. lt y z ≡ false) (insert lt x ys)
  unfolding insert
  All-insert z x [] h a = (h, tt)
  All-insert z x (y ∷ ys) h (k, a) = elim (Bool-cases (lt y x)) [
    | inl t ↦ rw t (k, All-insert z x ys h a)
    | inr f ↦ rw f (h, (k, a))
  ]

  filter-insert :
      (p : A → Bool) (x : A) (ys : List A)
      → ((x y : A) → p x ≡ true → p y ≡ true → lt x y ≡ false)
      → filter p (insert lt x ys) ≡ filter p (x ∷ ys)
  unfolding insert
  filter-insert p x [] c = refl
  filter-insert p x (y ∷ ys) c = elim (Bool-cases (lt y x)) [
    | inl t ↦ ground (arith, t, filter-insert p x ys c, c y x)
    | inr f ↦ rw f refl
  ]

  any-insert : (p : A → Bool) (x : A) (ys : List A) → any p (insert lt x ys) ≡ any p (x ∷ ys)
  unfolding insert
  any-insert p x [] = refl
  any-insert p x (y ∷ ys) = ground (arith, any-insert p x ys)

  pub any-sort : (p : A → Bool) (xs : List A) → any p (sort lt xs) ≡ any p xs
  unfolding sort
  any-sort p [] = refl
  any-sort p (x ∷ xs) = any-insert p x (sort lt xs) ∙ ap (λ r. p x || r) (any-sort p xs)

  pub filter-sort :
      (p : A → Bool) (xs : List A)
      → ((x y : A) → p x ≡ true → p y ≡ true → lt x y ≡ false)
      → filter p (sort lt xs) ≡ filter p xs
  unfolding sort
  filter-sort p [] c = refl
  filter-sort p (x ∷ xs) c =
      filter-insert p x (sort lt xs) c ∙ ap (λ r. if p x then x ∷ r else r) (filter-sort p xs c)

  module _ (weak : IsWeakOrder lt) (irrefl : (x : A) → lt x x ≡ false) where
    asym : (x y : A) → lt x y ≡ true → lt y x ≡ false
    asym x y h = elim (Bool-cases (lt y x)) [
      | inl t ↦ let e = weak.trans x y x h t in let f = irrefl x in cc
      | inr f ↦ f
    ]

    All-weaken :
        (x y : A) (zs : List A)
        → lt y x ≡ false
        → All (λ z. lt z y ≡ false) zs
        → All (λ z. lt z x ≡ false) zs
    All-weaken x y [] h a = tt
    All-weaken x y (z ∷ zs) h (k, a) = (weak.negatively z y x k h, All-weaken x y zs h a)

    insert-IsSorted : (x : A) (ys : List A) → IsSorted ys → IsSorted (insert lt x ys)
    unfolding insert
    insert-IsSorted x [] s = (tt, tt)
    insert-IsSorted x (y ∷ ys) (a, s) = elim (Bool-cases (lt y x)) [
      | inl t ↦ rw t (All-insert y x ys (asym y x t) a, insert-IsSorted x ys s)
      | inr f ↦ rw f ((f, All-weaken x y ys f a), (a, s))
    ]

    pub sort-IsSorted : (xs : List A) → IsSorted (sort lt xs)
    unfolding sort
    sort-IsSorted [] = tt
    sort-IsSorted (x ∷ xs) = insert-IsSorted x (sort lt xs) (sort-IsSorted xs)

    above-insert :
        (x y : A) (zs : List A)
        → lt y x ≡ false
        → All (λ z. lt z y ≡ false) zs
        → insert lt x zs ≡ x ∷ zs
    unfolding insert
    above-insert x y [] h a = refl
    above-insert x y (z ∷ zs) h (k, a) = rw (weak.negatively z y x k h) refl

    filter-insert_swap :
        (p : A → Bool) (x : A) (ys : List A)
        → IsSorted ys
        → filter p (insert lt x ys) ≡ (if p x then insert lt x (filter p ys) else filter p ys)
    unfolding insert
    filter-insert_swap p x [] s = refl
    filter-insert_swap p x (y ∷ ys) (a, s) = elim (Bool-cases (lt y x)) [
      | inl t ↦ ground (arith, t, filter-insert_swap p x ys s)
      | inr f ↦
          let top = above-insert x y (filter p ys) f (All-filter (λ z. lt z y ≡ false) p ys a) in
          ground (arith, f, top)
    ]

    -- A part of the list is sorted as the whole is.
    pub filter-sort_swap :
        (p : A → Bool) (xs : List A) → filter p (sort lt xs) ≡ sort lt (filter p xs)
    unfolding sort
    filter-sort_swap p [] = refl
    filter-sort_swap p (x ∷ xs) =
        filter-insert_swap p x (sort lt xs) (sort-IsSorted xs)
        ∙ let rest = filter-sort_swap p xs in
          elim (Bool-cases (p x)) [
            | inl t ↦ ground (arith, t, rest)
            | inr f ↦ ground (arith, f, rest)
          ]

  insert-append_last :
      (x r : A) (zs : List A)
      → lt r x ≡ false
      → insert lt x (zs ++ r ∷ []) ≡ insert lt x zs ++ r ∷ []
  unfolding insert
  insert-append_last x r [] h = ground (arith, h)
  insert-append_last x r (z ∷ zs) h = ground (arith, insert-append_last x r zs h)

  -- What is less than none before it stays at the end.
  pub sort-append_last :
      (r : A) (xs : List A)
      → All (λ x. lt r x ≡ false) xs
      → sort lt (xs ++ r ∷ []) ≡ sort lt xs ++ r ∷ []
  unfolding sort
  sort-append_last r [] h = ground arith
  sort-append_last r (x ∷ xs) (h, a) =
      ap (insert lt x) (sort-append_last r xs a) ∙ insert-append_last x r (sort lt xs) h

-- ===== src/Prelude/Sort.antt =====
-- `Array.prototype.sort` with a comparison function: the stable sort, by insertion.
pub mod Stable
use mathlib.Core.Path.{◌≡◌, refl, ap, subst, sym}
use mathlib.Core.Bool.{Bool, true, false}
use mathlib.Core.Option.{Option, none, some}
use mathlib.Core.Logic.{inl, inr}
use mathlib.Core.List.{List, [], ◌∷◌, ◌++◌}
use native.Mathlib.Omega.{arith}
use phus.Prelude.Tests.{if◌then◌else◌, Bool-cases}
use phus.Prelude.Lists.{All, All-append}

abbrev pub first? {ℓ} : {A : Type ℓ} → List A → Option A
first? [] = none
first? (x ∷ xs) = some x

-- A comparison that sorts: `lt a b` where the function returns a negative number.
pub record IsWeakOrder {ℓ} {A : Type ℓ} (lt : A → A → Bool) : Type ℓ where
  pub trans : (a b c : A) → lt a b ≡ true → lt b c ≡ true → lt a c ≡ true
  pub negatively : (a b c : A) → lt a b ≡ false → lt b c ≡ false → lt a c ≡ false

module _ {ℓ} {A : Type ℓ} (lt : A → A → Bool) where
  -- `x` stood before `ys`, so it stays before its equals.
  unfoldable pub insert : A → List A → List A
  insert x [] = x ∷ []
  insert x (y ∷ ys) = let later = y ∷ insert x ys in if lt y x then later else x ∷ y ∷ ys

  unfoldable pub sort : List A → List A
  unfolding insert
  sort [] = []
  sort (x ∷ xs) = insert x (sort xs)

  -- `best` is the first of the least of `xs`.
  pub record IsFirstLeast (best : A) (xs : List A) : Type ℓ where
    pub before : List A
    pub after : List A
    pub splits : xs ≡ before ++ best ∷ after
    pub less : All (λ y. lt best y ≡ true) before
    pub least : All (λ y. lt y best ≡ false) after

  first-insert :
      (x y : A) (ys : List A)
      → first? ys ≡ some y
      → first? (insert x ys) ≡ some (if lt y x then y else x)
  unfolding insert
  first-insert x y [] e = cc
  first-insert x y (z ∷ zs) e = ground arith

  module _ (weak : IsWeakOrder lt) where
    not_less-All :
        (x y : A) (zs : List A)
        → lt y x ≡ false
        → All (λ z. lt z y ≡ false) zs
        → All (λ z. lt z x ≡ false) zs
    not_less-All x y [] h a = tt
    not_less-All x y (z ∷ zs) h (p, a) = (weak.negatively z y x p h, not_less-All x y zs h a)

    -- What `y` is less than cannot be less than `x`, unless `y` is.
    above-All :
        (x y : A) (zs : List A)
        → lt y x ≡ false
        → All (λ z. lt y z ≡ true) zs
        → All (λ z. lt z x ≡ false) zs
    above-All x y [] h a = tt
    above-All x y (z ∷ zs) h (p, a) = (
      elim (Bool-cases (lt z x)) [ inl t ↦ let less = weak.trans y z x p t in cc | inr f ↦ f ],
      above-All x y zs h a,
    )

    IsFirstLeast-cons :
        (x y : A) (xs : List A)
        → IsFirstLeast y xs
        → IsFirstLeast (if lt y x then y else x) (x ∷ xs)
    IsFirstLeast-cons x y xs f = elim (Bool-cases (lt y x)) [
      | inl t ↦ rw t (record {
        before = x ∷ f.before;
        after = f.after;
        splits = ap (◌∷◌ x) f.splits;
        less = (t, f.less);
        least = f.least;
      })
      | inr e ↦ rw e (record {
        before = [];
        after = xs;
        splits = refl;
        less = tt;
        least = subst (All (λ z. lt z x ≡ false)) (sym f.splits) (
            All-append (λ z. lt z x ≡ false) f.before (y ∷ f.after)
              (above-All x y f.before e f.less) (e, not_less-All x y f.after e f.least));
      })
    ]

    -- Sorting puts the first of the least to the front.
    pub first-sort :
        (x : A) (xs : List A)
        → (best : A) × (first? (sort (x ∷ xs)) ≡ some best) × IsFirstLeast best (x ∷ xs)
    unfolding sort insert
    first-sort x [] =
        (x, refl, record { before = []; after = []; splits = refl; less = tt; least = tt })
    first-sort x (z ∷ zs) =
        let (y, e, f) = first-sort z zs in
        (
          if lt y x then y else x,
          first-insert x y (sort (z ∷ zs)) e,
          IsFirstLeast-cons x y (z ∷ zs) f,
        )

-- ===== src/Prelude/Lists.antt =====
-- List functions over the native numbers, with Boolean predicates, and their laws.
use Prim.Native.Nat.{ℕ, zero, suc, ◌+◌, ◌-◌, ◌≤◌, min}
use mathlib.Core.Path.{◌≡◌, refl, sym, ap, ◌∙◌, subst}
use mathlib.Core.Bool.{Bool, true, false, ◌&&◌, ◌||◌}
use mathlib.Core.Option.{Option, none, some}
use mathlib.Core.List.{List, [], ◌∷◌, ◌++◌, map}
use native.Mathlib.Omega.{arith}
use mathlib.Core.Logic.{inl, inr}
use phus.Prelude.Tests.{if◌then◌else◌, ◌==◌, Bool-cases, eq_of_some}

module _ {ℓ} {A : Type ℓ} where
  abbrev pub length : List A → ℕ
  length [] = 0
  length (x ∷ xs) = suc (length xs)

  -- `xs[i]`: `undefined` out of range is `none`.
  abbrev pub get_elem? : List A → ℕ → Option A
  get_elem? [] i = none
  get_elem? (x ∷ xs) zero = some x
  get_elem? (x ∷ xs) (suc i) = get_elem? xs i

  -- `xs.slice(0, n)`
  abbrev pub take : ℕ → List A → List A
  take zero xs = []
  take (suc n) [] = []
  take (suc n) (x ∷ xs) = x ∷ take n xs

  -- `xs.slice(n)`
  abbrev pub drop : ℕ → List A → List A
  drop zero xs = xs
  drop (suc n) [] = []
  drop (suc n) (x ∷ xs) = drop n xs

  -- `xs.some(p)`
  abbrev pub any : (A → Bool) → List A → Bool
  any p [] = false
  any p (x ∷ xs) = p x || any p xs

  -- `xs.every(p)`
  abbrev pub all : (A → Bool) → List A → Bool
  all p [] = true
  all p (x ∷ xs) = p x && all p xs

  -- `xs.filter(p)`
  abbrev pub filter : (A → Bool) → List A → List A
  filter p [] = []
  filter p (x ∷ xs) = let rest = filter p xs in if p x then x ∷ rest else rest

  -- `xs.find(p)`
  abbrev pub find? : (A → Bool) → List A → Option A
  find? p [] = none
  find? p (x ∷ xs) = let rest = find? p xs in if p x then some x else rest

  pub length-append : (xs ys : List A) → length (xs ++ ys) ≡ length xs + length ys
  length-append [] ys = omega arith
  length-append (x ∷ xs) ys = omega (arith, length-append xs ys)

  pub filter-append :
      (p : A → Bool) (xs ys : List A) → filter p (xs ++ ys) ≡ filter p xs ++ filter p ys
  filter-append p [] ys = refl
  filter-append p (x ∷ xs) ys = ground (arith, filter-append p xs ys)

  pub length-filter-le : (p : A → Bool) (xs : List A) → length (filter p xs) ≤ length xs
  length-filter-le p [] = omega arith
  length-filter-le p (x ∷ xs) = ground (arith, length-filter-le p xs)

  pub any-append : (p : A → Bool) (xs ys : List A) → any p (xs ++ ys) ≡ (any p xs || any p ys)
  any-append p [] ys = refl
  any-append p (x ∷ xs) ys = ground (arith, any-append p xs ys)

  pub drop-eq-nil : (n : ℕ) (xs : List A) → length xs ≤ n → drop n xs ≡ []
  drop-eq-nil zero [] h = refl
  drop-eq-nil zero (x ∷ xs) h = absurd (omega arith)
  drop-eq-nil (suc n) [] h = refl
  drop-eq-nil (suc n) (x ∷ xs) h = drop-eq-nil n xs (omega arith)

  pub take-eq_of_le : (n : ℕ) (xs : List A) → length xs ≤ n → take n xs ≡ xs
  take-eq_of_le zero [] h = refl
  take-eq_of_le zero (x ∷ xs) h = absurd (omega arith)
  take-eq_of_le (suc n) [] h = refl
  take-eq_of_le (suc n) (x ∷ xs) h = ap (◌∷◌ x) (take-eq_of_le n xs (omega arith))

  pub take-append-drop : (n : ℕ) (xs : List A) → take n xs ++ drop n xs ≡ xs
  take-append-drop zero xs = refl
  take-append-drop (suc n) [] = refl
  take-append-drop (suc n) (x ∷ xs) = ap (◌∷◌ x) (take-append-drop n xs)

  pub length-drop : (n : ℕ) (xs : List A) → length (drop n xs) ≡ length xs - n
  length-drop zero xs = omega arith
  length-drop (suc n) [] = omega arith
  length-drop (suc n) (x ∷ xs) = omega (arith, length-drop n xs)

  pub length-take : (n : ℕ) (xs : List A) → length (take n xs) ≡ min n (length xs)
  length-take zero xs = omega arith
  length-take (suc n) [] = omega arith
  length-take (suc n) (x ∷ xs) = omega (arith, length-take n xs)

  pub drop-append_le :
      (n : ℕ) (xs ys : List A) → n ≤ length xs → drop n (xs ++ ys) ≡ drop n xs ++ ys
  drop-append_le zero xs ys h = refl
  drop-append_le (suc n) [] ys h = absurd (omega arith)
  drop-append_le (suc n) (x ∷ xs) ys h = drop-append_le n xs ys (omega arith)

  drop-nil : (n : ℕ) → drop n [] ≡ []
  drop-nil zero = refl
  drop-nil (suc n) = refl

  pub drop-drop : (m n : ℕ) (xs : List A) → drop m (drop n xs) ≡ drop (n + m) xs
  drop-drop m zero xs = ap (λ k. drop k xs) (omega arith)
  drop-drop m (suc n) [] = drop-nil m ∙ sym (drop-nil (suc n + m))
  drop-drop m (suc n) (x ∷ xs) =
      drop-drop m n xs
      ∙ ap (λ k. drop k (x ∷ xs)) (let e : suc (n + m) ≡ suc n + m = omega arith in e)

  pub any-filter : (p q : A → Bool) (xs : List A) → any p (filter q xs) ≡ any (λ x. q x && p x) xs
  any-filter p q [] = refl
  any-filter p q (x ∷ xs) = ground (arith, any-filter p q xs)

  pub any_mono :
      (p q : A → Bool)
      → ((x : A) → p x ≡ true → q x ≡ true)
      → (xs : List A) → any p xs ≡ true
      → any q xs ≡ true
  any_mono p q h [] e = e
  any_mono p q h (x ∷ xs) e = ground (arith, e, h x, any_mono p q h xs)

  pub any-of_length :
      (p : A → Bool) (xs : List A) → (length (filter p xs) == 0) ≡ false → any p xs ≡ true
  any-of_length p [] h = ground (arith, h)
  any-of_length p (x ∷ xs) h = ground (arith, h, any-of_length p xs)

  -- What `find` gives satisfies the test, and any other that it satisfies is found by `some`.
  pub find?-holds : (p : A → Bool) (xs : List A) (x : A) → find? p xs ≡ some x → p x ≡ true
  find?-holds p [] x e = absurd cc
  find?-holds p (y ∷ ys) x e = elim (Bool-cases (p y)) [
    | inl t ↦ let same : y ≡ x = eq_of_some (rw t at e) in subst (λ z. p z ≡ true) same t
    | inr f ↦ find?-holds p ys x (rw f at e)
  ]

  pub any-find? :
      (p q : A → Bool) (xs : List A) (x : A) → find? p xs ≡ some x → q x ≡ true → any q xs ≡ true
  any-find? p q [] x e h = absurd cc
  any-find? p q (y ∷ ys) x e h = elim (Bool-cases (p y)) [
    | inl t ↦
        let same : y ≡ x = eq_of_some (rw t at e) in
        let k : q y ≡ true = subst (λ z. q z ≡ true) (sym same) h in ground (arith, k)
    | inr f ↦ let k = any-find? p q ys x (rw f at e) h in ground (arith, k)
  ]

  pub find?-of_any :
      (p : A → Bool) (xs : List A) → any p xs ≡ true → (x : A) × (find? p xs ≡ some x)
  find?-of_any p [] h = absurd cc
  find?-of_any p (x ∷ xs) h = elim (Bool-cases (p x)) [
    | inl t ↦ (x, rw t refl)
    | inr f ↦ let (y, e) = find?-of_any p xs (rw f at h) in (y, rw f e)
  ]

  pub find?-none : (p : A → Bool) (xs : List A) → any p xs ≡ false → find? p xs ≡ none
  find?-none p [] h = refl
  find?-none p (x ∷ xs) h = ground (arith, h, find?-none p xs)

  pub find?-append_some :
      (p : A → Bool) (xs ys : List A) (x : A) → find? p xs ≡ some x → find? p (xs ++ ys) ≡ some x
  find?-append_some p [] ys x h = absurd cc
  find?-append_some p (z ∷ zs) ys x h = elim (Bool-cases (p z)) [
    | inl t ↦ rw t (rw t at h)
    | inr f ↦ rw f (find?-append_some p zs ys x (rw f at h))
  ]

  pub find?-append_none :
      (p : A → Bool) (xs ys : List A) → any p xs ≡ false → find? p (xs ++ ys) ≡ find? p ys
  find?-append_none p [] ys h = refl
  find?-append_none p (x ∷ xs) ys h = ground (arith, h, find?-append_none p xs ys)

module _ {ℓ κ} {A : Type ℓ} (P : A → Type κ) where
  -- `P` holds of every member.
  abbrev pub All : List A → Type κ
  All [] = Unit
  All (x ∷ xs) = P x × All xs

  pub All-append : (xs ys : List A) → All xs → All ys → All (xs ++ ys)
  All-append [] ys h k = k
  All-append (x ∷ xs) ys (p, h) k = (p, All-append xs ys h k)

  All-filter_step : (b : Bool) (x : A) (xs : List A) → P x → All xs → All (if b then x ∷ xs else xs)
  All-filter_step true x xs q h = (q, h)
  All-filter_step false x xs q h = h

  pub All-filter : (p : A → Bool) (xs : List A) → All xs → All (filter p xs)
  All-filter p [] h = tt
  All-filter p (x ∷ xs) (q, h) = All-filter_step (p x) x (filter p xs) q (All-filter p xs h)

  pub All-find? : (p : A → Bool) (xs : List A) (x : A) → All xs → find? p xs ≡ some x → P x
  All-find? p [] x h e = absurd cc
  All-find? p (y ∷ ys) x (q, h) e = elim (Bool-cases (p y)) [
    | inl t ↦ let same : y ≡ x = eq_of_some (rw t at e) in subst P same q
    | inr f ↦ All-find? p ys x h (rw f at e)
  ]

pub any-map {ℓ κ} :
    {A : Type ℓ} {B : Type κ} (p : B → Bool) (f : A → B) (xs : List A)
    → any p (map f xs) ≡ any (λ x. p (f x)) xs
any-map p f [] = refl
any-map p f (x ∷ xs) = ap (λ r. p (f x) || r) (any-map p f xs)

pub All-mono {ℓ κ μ} :
    {A : Type ℓ} (P : A → Type κ) (Q : A → Type μ)
    → ((x : A) → P x → Q x)
    → (xs : List A) → All P xs
    → All Q xs
All-mono P Q h [] a = tt
All-mono P Q h (x ∷ xs) (p, a) = (h x p, All-mono P Q h xs a)

-- ===== src/Prelude/Maps.antt =====
-- `Map` with texts as keys: the entries in the order of their insertion.
use mathlib.Core.Path.{◌≡◌, refl}
use mathlib.Core.Bool.{false}
use mathlib.Core.Option.{Option, none, some}
use mathlib.Core.List.{List, [], ◌∷◌}
use Prim.Native.String.{String}
use native.Mathlib.Omega.{arith}
use text.Mathlib.Text.{◌==◌ as str_eq}
use text.Mathlib.TextEquality.{eq_iff}
use text.Mathlib.TextPositions.{eq_refl}
use phus.Prelude.Tests.{if◌then◌else◌}

module _ {ℓ} {A : Type ℓ} where
  -- `m.get(key)`
  unfoldable pub lookup : String → List (String × A) → Option A
  lookup key [] = none
  lookup key (e ∷ m) = let rest = lookup key m in if str_eq e.0 key then some e.1 else rest

  -- `m.set(key, value)`: an entry that is there keeps its place.
  unfoldable pub put : String → A → List (String × A) → List (String × A)
  put key value [] = (key, value) ∷ []
  put key value (e ∷ m) =
      let rest = put key value m in if str_eq e.0 key then (e.0, value) ∷ m else e ∷ rest

  -- `m.delete(key)`
  unfoldable pub remove : String → List (String × A) → List (String × A)
  remove key [] = []
  remove key (e ∷ m) = let rest = remove key m in if str_eq e.0 key then rest else e ∷ rest

  pub lookup-put :
      (key : String) (value : A) (m : List (String × A)) → lookup key (put key value m) ≡ some value
  unfolding lookup put
  lookup-put key value [] = ground (arith, eq_refl key)
  lookup-put key value (e ∷ m) = ground (arith, lookup-put key value m)

  pub lookup-put_other :
      (key other : String) (value : A) (m : List (String × A))
      → str_eq key other ≡ false
      → lookup other (put key value m) ≡ lookup other m
  unfolding lookup put
  lookup-put_other key other value [] h = ground (arith, h)
  lookup-put_other key other value (e ∷ m) h =
      ground (arith, h, lookup-put_other key other value m h, eq_iff e.0 key)

  pub lookup-remove : (key : String) (m : List (String × A)) → lookup key (remove key m) ≡ none
  unfolding lookup remove
  lookup-remove key [] = refl
  lookup-remove key (e ∷ m) = ground (arith, lookup-remove key m)

  pub lookup-remove_other :
      (key other : String) (m : List (String × A))
      → str_eq key other ≡ false
      → lookup other (remove key m) ≡ lookup other m
  unfolding lookup remove
  lookup-remove_other key other [] h = refl
  lookup-remove_other key other (e ∷ m) h =
      ground (arith, h, lookup-remove_other key other m h, eq_iff e.0 key)

-- ===== src/Prelude/Integers.antt =====
-- The integers over the native numbers, with their order.
use Prim.Native.Nat.{ℕ}
use mathlib.Core.Path.{◌≡◌, refl}
use mathlib.Core.Bool.{Bool, true, false}
use native.Mathlib.Omega.{arith}
use phus.Prelude.Tests.{ltb}

pub data ℤ : Type 0 where
  pos negsuc : ℕ → ℤ

-- `a < b`
unfoldable pub ltb_int : ℤ → ℤ → Bool
ltb_int (pos a) (pos b) = ltb a b
ltb_int (pos a) (negsuc b) = false
ltb_int (negsuc a) (pos b) = true
ltb_int (negsuc a) (negsuc b) = ltb b a

pub ltb_int_irrefl : (a : ℤ) → ltb_int a a ≡ false
unfolding ltb_int
ltb_int_irrefl (pos a) = ground arith
ltb_int_irrefl (negsuc a) = ground arith

pub ltb_int_trans : (a b c : ℤ) → ltb_int a b ≡ true → ltb_int b c ≡ true → ltb_int a c ≡ true
unfolding ltb_int
ltb_int_trans (pos a) (pos b) (pos c) h k = ground (arith, h, k)
ltb_int_trans (pos a) (pos b) (negsuc c) h k = ground (arith, k)
ltb_int_trans (pos a) (negsuc b) c h k = ground (arith, h)
ltb_int_trans (negsuc a) b (pos c) h k = refl
ltb_int_trans (negsuc a) (pos b) (negsuc c) h k = ground (arith, k)
ltb_int_trans (negsuc a) (negsuc b) (negsuc c) h k = ground (arith, h, k)

pub ltb_int_negatively :
    (a b c : ℤ) → ltb_int a b ≡ false → ltb_int b c ≡ false → ltb_int a c ≡ false
unfolding ltb_int
ltb_int_negatively (pos a) (pos b) (pos c) h k = ground (arith, h, k)
ltb_int_negatively (pos a) b (negsuc c) h k = refl
ltb_int_negatively (pos a) (negsuc b) (pos c) h k = ground (arith, k)
ltb_int_negatively (negsuc a) (pos b) c h k = ground (arith, h)
ltb_int_negatively (negsuc a) (negsuc b) (pos c) h k = ground (arith, k)
ltb_int_negatively (negsuc a) (negsuc b) (negsuc c) h k = ground (arith, h, k)

-- ===== src/Prelude/Words.antt =====
-- `u64` arithmetic: wrapping, saturating, shifts and rotations.
use Prim.Native.Nat.{ℕ, ◌+◌, ◌-◌, ◌*◌, ◌/◌, ◌%◌, ◌^◌, ◌<◌, min}
use mathlib.Core.Path.{◌≡◌}
use mathlib.Core.List.{List, [], ◌∷◌}
use native.Mathlib.Omega.{arith}
use linnix.Prelude.Lists.{sum}

abbrev pub u64_mod : ℕ
u64_mod = 2 ^ 64

abbrev pub u64_max : ℕ
u64_max = 2 ^ 64 - 1

abbrev pub u32_mod : ℕ
u32_mod = 2 ^ 32

-- `a + b` in a release build, and `wrapping_add`.
abbrev pub add64 : ℕ → ℕ → ℕ
add64 a b = (a + b) % u64_mod

-- `saturating_add`, `saturating_mul`
abbrev pub saturating_add : ℕ → ℕ → ℕ
saturating_add a b = min (a + b) u64_max

abbrev pub saturating_mul : ℕ → ℕ → ℕ
saturating_mul a b = min (a * b) u64_max

-- `a << k` and `a >> k` on `u64`.
abbrev pub shl64 : ℕ → ℕ → ℕ
shl64 a k = (a * 2 ^ k) % u64_mod

abbrev pub shr64 : ℕ → ℕ → ℕ
shr64 a k = a / 2 ^ k

-- `u64::rotate_left`
abbrev pub rotate_left : ℕ → ℕ → ℕ
rotate_left a k = (a * 2 ^ k) % u64_mod + a / 2 ^ (64 - k)

-- `iter().sum::<u64>()` in a release build.
unfoldable pub sum64_from : ℕ → List ℕ → ℕ
sum64_from acc [] = acc
sum64_from acc (x ∷ xs) = sum64_from (add64 acc x) xs

unfoldable pub sum64 : List ℕ → ℕ
unfolding sum64_from
sum64 xs = sum64_from 0 xs

pub sum64_from-eq :
    (acc : ℕ) (xs : List ℕ) → acc < u64_mod → sum64_from acc xs ≡ (acc + sum xs) % u64_mod
unfolding sum64_from
sum64_from-eq acc [] h = omega arith
sum64_from-eq acc (x ∷ xs) h = omega (arith, sum64_from-eq (add64 acc x) xs (omega arith))

-- The wrapped sum is the true sum, reduced.
pub sum64-eq : (xs : List ℕ) → sum64 xs ≡ sum xs % u64_mod
unfolding sum64
sum64-eq xs = omega (arith, sum64_from-eq 0 xs (omega arith))

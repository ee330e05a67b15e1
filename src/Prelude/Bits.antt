-- ===== src/Prelude/Bits.antt =====
-- The bit operations at variables. The native operations stand for a recursion on binary digits
-- with fuel; each gets an equation for its lowest digit, and from it the laws used here.
use Prim.Native.Nat.{
  ℕ, zero, suc, ◌+◌, ◌-◌, ◌*◌, ◌/◌, ◌%◌, ◌^◌, ◌≤◌, ◌<◌, min, max, bit_and, bit_or, bit_xor, digits,
  differ, bit_and-bitwise, bit_or-bitwise, bit_xor-bitwise,
}
use mathlib.Core.Path.{◌≡◌, refl, ap}
use native.Mathlib.Nat.{pow-suc, one-le-pow}
use native.Mathlib.Omega.{arith}

-- More fuel than digits changes nothing.
enough_digits :
    (z : ℕ → ℕ) (f : ℕ → ℕ → ℕ) (n m a b : ℕ) → a ≤ n → a ≤ m → digits z f n a b ≡ digits z f m a b
enough_digits z f zero zero a b hn hm = refl
enough_digits z f zero (suc m) zero b hn hm = refl
enough_digits z f zero (suc m) (suc a) b hn hm = absurd (omega arith)
enough_digits z f (suc n) zero zero b hn hm = refl
enough_digits z f (suc n) zero (suc a) b hn hm = absurd (omega arith)
enough_digits z f (suc n) (suc m) zero b hn hm = refl
enough_digits z f (suc n) (suc m) (suc a) b hn hm =
    omega (arith, enough_digits z f n m (suc a / 2) (b / 2) (omega arith) (omega arith))

abbrev HalfFuel : (ℕ → ℕ) → (ℕ → ℕ → ℕ) → ℕ → ℕ → Type 0
HalfFuel z f a b = digits z f a (suc a / 2) (b / 2) ≡ digits z f (suc a / 2) (suc a / 2) (b / 2)

halves : (z : ℕ → ℕ) (f : ℕ → ℕ → ℕ) (a b : ℕ) → HalfFuel z f a b
halves z f a b = enough_digits z f a (suc a / 2) (suc a / 2) (b / 2) (omega arith) (omega arith)

zero-bit_and : (b : ℕ) → bit_and 0 b ≡ 0
zero-bit_and b = bit_and-bitwise 0 b

zero-bit_or : (b : ℕ) → bit_or 0 b ≡ b
zero-bit_or b = bit_or-bitwise 0 b

zero-bit_xor : (b : ℕ) → bit_xor 0 b ≡ b
zero-bit_xor b = bit_xor-bitwise 0 b

lowest_and : (a b : ℕ) → bit_and a b ≡ bit_and (a / 2) (b / 2) * 2 + min (a % 2) (b % 2)
lowest_and zero b = omega (arith, zero-bit_and b, zero-bit_and (b / 2))
lowest_and (suc a) b = omega (
  arith,
  bit_and-bitwise (suc a) b,
  bit_and-bitwise (suc a / 2) (b / 2),
  halves (λ b. zero) min a b,
)

lowest_or : (a b : ℕ) → bit_or a b ≡ bit_or (a / 2) (b / 2) * 2 + max (a % 2) (b % 2)
lowest_or zero b = omega (arith, zero-bit_or b, zero-bit_or (b / 2))
lowest_or (suc a) b =
    omega
      (arith, bit_or-bitwise (suc a) b, bit_or-bitwise (suc a / 2) (b / 2), halves (λ b. b) max a b)

digit_differs : (x y : ℕ) → x < 2 → y < 2 → differ x y < 2
digit_differs zero y hx hy = hy
digit_differs (suc zero) zero hx hy = omega arith
digit_differs (suc zero) (suc y) hx hy = omega arith
digit_differs (suc (suc x)) y hx hy = absurd (omega arith)

lowest_xor : (a b : ℕ) → bit_xor a b ≡ bit_xor (a / 2) (b / 2) * 2 + differ (a % 2) (b % 2)
lowest_xor zero b = omega (arith, zero-bit_xor b, zero-bit_xor (b / 2), differ_zero (b % 2))
  where
    differ_zero : (y : ℕ) → differ 0 y ≡ y
    differ_zero y = refl
lowest_xor (suc a) b = omega (
  arith,
  bit_xor-bitwise (suc a) b,
  bit_xor-bitwise (suc a / 2) (b / 2),
  halves (λ b. b) differ a b,
)

-- Exclusive or stays inside a width.
pub bit_xor-lt : (k a b : ℕ) → a < 2 ^ k → b < 2 ^ k → bit_xor a b < 2 ^ k
bit_xor-lt zero a b ha hb = xor_zeros a b (omega arith) (omega arith)
  where
    xor_zeros : (a b : ℕ) → a ≤ 0 → b ≤ 0 → bit_xor a b < 1
    xor_zeros zero zero p q = omega arith
    xor_zeros zero (suc b) p q = absurd (omega arith)
    xor_zeros (suc a) b p q = absurd (omega arith)
bit_xor-lt (suc k) a b ha hb = omega (
  arith,
  lowest_xor a b,
  digit_differs (a % 2) (b % 2) (omega arith) (omega arith),
  pow-suc 2 k,
  bit_xor-lt k (a / 2) (b / 2) (omega (arith, pow-suc 2 k)) (omega (arith, pow-suc 2 k)),
)

-- So does inclusive or.
pub bit_or-lt : (k a b : ℕ) → a < 2 ^ k → b < 2 ^ k → bit_or a b < 2 ^ k
bit_or-lt zero a b ha hb = or_zeros a b (omega arith) (omega arith)
  where
    or_zeros : (a b : ℕ) → a ≤ 0 → b ≤ 0 → bit_or a b < 1
    or_zeros zero zero p q = omega arith
    or_zeros zero (suc b) p q = absurd (omega arith)
    or_zeros (suc a) b p q = absurd (omega arith)
bit_or-lt (suc k) a b ha hb = omega (
  arith,
  lowest_or a b,
  pow-suc 2 k,
  bit_or-lt k (a / 2) (b / 2) (omega (arith, pow-suc 2 k)) (omega (arith, pow-suc 2 k)),
)

bit_or-zero : (n a : ℕ) → a ≤ n → bit_or a 0 ≡ a
bit_or-zero n zero h = refl
bit_or-zero zero (suc a) h = absurd (omega arith)
bit_or-zero (suc n) (suc a) h =
    omega (arith, lowest_or (suc a) 0, bit_or-zero n (suc a / 2) (omega arith))

bit_and-zero : (n a : ℕ) → a ≤ n → bit_and a 0 ≡ 0
bit_and-zero n zero h = refl
bit_and-zero zero (suc a) h = absurd (omega arith)
bit_and-zero (suc n) (suc a) h =
    omega (arith, lowest_and (suc a) 0, bit_and-zero n (suc a / 2) (omega arith))

shifted : (q k : ℕ) → q * 2 ^ suc k ≡ 2 * (q * 2 ^ k)
shifted q k = omega (arith, ap (λ (t : ℕ). q * t) (pow-suc 2 k))

-- A number shifted past the digits of another: `|` adds them.
pub bit_or-add : (k q r : ℕ) → r < 2 ^ k → bit_or (q * 2 ^ k) r ≡ q * 2 ^ k + r
bit_or-add zero q r h = ground (arith, bit_or-zero q q)
bit_or-add (suc k) q r h = ground (
  arith,
  lowest_or (q * 2 ^ suc k) r,
  shifted q k,
  pow-suc 2 k,
  bit_or-add k q (r / 2) (omega (arith, pow-suc 2 k)),
)

and_low : (k q r : ℕ) → r < 2 ^ k → bit_and (q * 2 ^ k + r) (2 ^ k - 1) ≡ r
and_low zero q r h = ground (arith, bit_and-zero (q * 1 + r) (q * 1 + r))
and_low (suc k) q r h = ground (
  arith,
  lowest_and (q * 2 ^ suc k + r) (2 ^ suc k - 1),
  shifted q k,
  pow-suc 2 k,
  one-le-pow k 2,
  and_low k q (r / 2) (omega (arith, pow-suc 2 k)),
)

-- A mask of `k` ones takes the remainder.
pub bit_and-mask : (k a : ℕ) → bit_and a (2 ^ k - 1) ≡ a % 2 ^ k
bit_and-mask k a = ground (arith, one-le-pow k 2, and_low k (a / 2 ^ k) (a % 2 ^ k))

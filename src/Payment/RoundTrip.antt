-- ===== src/Payment/RoundTrip.antt =====
-- cognitod/src/payment.rs: cents are read back from base units.
use native.Mathlib.Nat.{mul-le-mul, mul-div_cancel, pow-le-pow_right}
use linnix.Prelude.{ℕ, ◌-◌, ◌*◌, ◌/◌, ◌^◌, ◌≤◌, ◌<◌, ◌≡◌, refl, ap, false, some, ltb, arith}
use linnix.Prelude.Keys.{◌==◌, nat_eq}
use linnix.Prelude.Words.{u64_mod}
use linnix.Payment.{TokenInfo, pow10, u128_mod, cents_to_base_units, base_units_to_cents}

scale-small : (k : ℕ) → k ≤ 19 → 10 ^ k ≤ 10 ^ 19
scale-small k h = pow-le-pow_right (omega arith) h

scale-positive : (k : ℕ) → 1 ≤ 10 ^ k
scale-positive k = pow-le-pow_right {n = 10} (omega arith) {i = 0} {j = k} (omega arith)

-- What an amount is in base units, and that nothing wraps.
amount-fits : (cents k : ℕ) → cents < u64_mod → k ≤ 19 → cents * 10 ^ k < u128_mod
amount-fits cents k small h =
    let most : cents ≤ 18446744073709551615 = omega arith in
    omega (arith, mul-le-mul most (scale-small k h))

enough_decimals : (d : ℕ) → 2 ≤ d → ltb d 2 ≡ false
enough_decimals d low = ground arith

not_zero : (n : ℕ) → 1 ≤ n → (n == 0) ≡ false
not_zero n positive = ground arith

-- For a token of two to twenty-one decimals, as USDC and DAI have, any amount of
-- cents is the amount times the token's units for a cent, without wrapping, and is read back from it.
pub base_units_to_cents-cents_to_base_units :
    (token : TokenInfo) (cents : ℕ)
    → 2 ≤ token.decimals
    → token.decimals ≤ 21
    → cents < u64_mod
    → (base : ℕ) × (base ≡ cents * 10 ^ (token.decimals - 2))
      × (cents_to_base_units token cents ≡ some base)
      × (base_units_to_cents token base ≡ some cents)
unfolding cents_to_base_units base_units_to_cents
base_units_to_cents-cents_to_base_units token cents low high small =
    let k = token.decimals - 2 in
    let scale : 10 ^ k ≤ 10 ^ 19 = scale-small k (omega arith) in
    let fits : cents * 10 ^ k < u128_mod = amount-fits cents k small (omega arith) in
    let positive : 1 ≤ 10 ^ k = scale-positive k in
    let back : (cents * 10 ^ k) / 10 ^ k ≡ cents = mul-div_cancel cents positive in
    let whole : pow10 k ≡ 10 ^ k = omega arith in
    (
      cents * 10 ^ k,
      refl,
      rw (enough_decimals token.decimals low, whole) (ap some (omega arith)),
      rw (enough_decimals token.decimals low, whole, not_zero (10 ^ k) positive, back)
          (ap some (omega arith)),
    )

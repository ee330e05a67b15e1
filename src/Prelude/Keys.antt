-- ===== src/Prelude/Keys.antt =====
-- `PartialEq` of the types that are compared or used as keys.
use Prim.Native.Nat.{ℕ}
use Prim.Native.String.{String}
use mathlib.Core.Path.{◌≡◌, refl}
use mathlib.Core.Logic.{◌↔◌}
use mathlib.Core.Bool.{Bool, true, false}
use text.Mathlib.Text.{◌==◌ as str_eq}
use text.Mathlib.TextEquality.{eq_iff}
use native.Mathlib.Omega.{arith}
use linnix.Prelude.Tests.{nat_beq, nat_beq_iff}

-- `PartialEq` with its law.
pub record Eq {ℓ} (K : Type ℓ) : Type ℓ where
  pub equals : K → K → Bool
  pub equals_iff : (x y : K) → (equals x y ≡ true) ↔ (x ≡ y)

instance abbrev pub string_eq : Eq String
string_eq = record { equals_iff = eq_iff; equals = str_eq }

instance abbrev pub nat_eq : Eq ℕ
nat_eq = record { equals_iff = nat_beq_iff; equals = nat_beq }

infix 50 ◌==◌
abbrev pub ◌==◌ {ℓ} : {K : Type ℓ} ⦃keys : Eq K⦄ → K → K → Bool
◌==◌ ⦃keys⦄ x y = keys.equals x y

module _ {ℓ} {A : Type ℓ} ⦃e : Eq A⦄ where
  pub ==_refl : (a : A) → (a == a) ≡ true
  ==_refl a = (e.equals_iff a a).1 refl

  pub ==→eq : (a b : A) → (a == b) ≡ true → a ≡ b
  ==→eq a b h = (e.equals_iff a b).0 h

  pub ==_sym_false : (a b : A) → (a == b) ≡ false → (b == a) ≡ false
  ==_sym_false a b h = ground (arith, e.equals_iff a b, e.equals_iff b a, h)

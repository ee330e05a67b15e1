-- ===== src/Siphash/Tests.antt =====
-- Test vectors, and the properties at concrete inputs.
use linnix.Prelude.{◌≡◌, refl, ℕ, List, [], ◌∷◌, ◌^◌, ◌-◌, arith}
use linnix.Siphash.Digest.{siphash_2_4_agree}
use linnix.Siphash.Kernel
use linnix.Siphash.Userspace

abbrev fifteen : List ℕ
fifteen = 0 ∷ 1 ∷ 2 ∷ 3 ∷ 4 ∷ 5 ∷ 6 ∷ 7 ∷ 8 ∷ 9 ∷ 10 ∷ 11 ∷ 12 ∷ 13 ∷ 14 ∷ []

-- The vector of the SipHash paper, as in the source's tests.
reference_vector :
    Kernel.siphash_2_4 (0x0706050403020100, 0x0f0e0d0c0b0a0908) fifteen ≡ 0xa129ca6149be45e5
unfolding Kernel.siphash_2_4 Kernel.new Kernel.write Kernel.finish Kernel.write_byte Kernel.compress
    Kernel.sipround Kernel.rotl
reference_vector = refl

siphash_2_4_agree_example :
    Kernel.siphash_2_4 (1, 2 ^ 64 - 1) fifteen ≡ Userspace.siphash_2_4 (1, 2 ^ 64 - 1) fifteen
siphash_2_4_agree_example = siphash_2_4_agree (1, 2 ^ 64 - 1) fifteen (omega arith) (omega arith)

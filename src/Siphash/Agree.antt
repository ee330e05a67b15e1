-- ===== src/Siphash/Agree.antt =====
-- The rounds of the kernel and of the daemon are the same functions on words.
use linnix.Prelude.{ℕ, ◌*◌, ◌/◌, ◌%◌, ◌^◌, ◌<◌, ◌≡◌, bit_xor, arith}
use linnix.Prelude.Bits.{bit_xor-lt, bit_or-add}
use linnix.Prelude.Words.{u64_mod, add64, shl64}
use linnix.Siphash.State.{SipHasher}
use linnix.Siphash.Kernel
use linnix.Siphash.Userspace

-- Every lane and the buffer fit a u64.
pub record IsWords (h : SipHasher) : Type 0 where
  pub v0_fits : h.v0 < u64_mod
  pub v1_fits : h.v1 < u64_mod
  pub v2_fits : h.v2 < u64_mod
  pub v3_fits : h.v3 < u64_mod
  pub buf_fits : h.buf < u64_mod

pub xor-fits : (a b : ℕ) → a < u64_mod → b < u64_mod → bit_xor a b < u64_mod
xor-fits a b ha hb = bit_xor-lt 64 a b ha hb

rotl-fits :
    (x : ℕ)
    → x < u64_mod
    → (Userspace.rotl x 13 < u64_mod)
      × (Userspace.rotl x 16 < u64_mod)
      × (Userspace.rotl x 17 < u64_mod)
      × (Userspace.rotl x 21 < u64_mod)
      × (Userspace.rotl x 32 < u64_mod)
unfolding Userspace.rotl
rotl-fits x h = omega arith

-- The bits that a left shift keeps.
split_13 : (x : ℕ) → shl64 x 13 ≡ x % 2 ^ 51 * 2 ^ 13
split_13 x = omega arith

split_16 : (x : ℕ) → shl64 x 16 ≡ x % 2 ^ 48 * 2 ^ 16
split_16 x = omega arith

split_17 : (x : ℕ) → shl64 x 17 ≡ x % 2 ^ 47 * 2 ^ 17
split_17 x = omega arith

split_21 : (x : ℕ) → shl64 x 21 ≡ x % 2 ^ 43 * 2 ^ 21
split_21 x = omega arith

split_32 : (x : ℕ) → shl64 x 32 ≡ x % 2 ^ 32 * 2 ^ 32
split_32 x = omega arith

-- The shifts and `|` of the kernel's `rotl` are `rotate_left`, at each amount that is used.
rotl_agree :
    (x : ℕ)
    → x < u64_mod
    → (Kernel.rotl x 13 ≡ Userspace.rotl x 13)
      × (Kernel.rotl x 16 ≡ Userspace.rotl x 16)
      × (Kernel.rotl x 17 ≡ Userspace.rotl x 17)
      × (Kernel.rotl x 21 ≡ Userspace.rotl x 21)
      × (Kernel.rotl x 32 ≡ Userspace.rotl x 32)
unfolding Kernel.rotl Userspace.rotl
rotl_agree x h = (
  rw (split_13 x, bit_or-add 13 (x % 2 ^ 51) (x / 2 ^ 51) (omega arith)),
  rw (split_16 x, bit_or-add 16 (x % 2 ^ 48) (x / 2 ^ 48) (omega arith)),
  rw (split_17 x, bit_or-add 17 (x % 2 ^ 47) (x / 2 ^ 47) (omega arith)),
  rw (split_21 x, bit_or-add 21 (x % 2 ^ 43) (x / 2 ^ 43) (omega arith)),
  rw (split_32 x, bit_or-add 32 (x % 2 ^ 32) (x / 2 ^ 32) (omega arith)),
)

-- The values inside a round, each a word.
module _ (h : SipHasher) (w : IsWords h) where
  abbrev a0 : ℕ
  a0 = add64 h.v0 h.v1

  abbrev a1 : ℕ
  a1 = bit_xor (Userspace.rotl h.v1 13) a0

  abbrev a2 : ℕ
  a2 = add64 h.v2 h.v3

  abbrev a3 : ℕ
  a3 = bit_xor (Userspace.rotl h.v3 16) a2

  abbrev b2 : ℕ
  b2 = add64 a2 a1

  abbrev c0 : ℕ
  c0 = add64 (Userspace.rotl a0 32) a3

  a1-fits : a1 < u64_mod
  a1-fits = xor-fits _ _ ((rotl-fits h.v1 w.v1_fits).0) (omega arith)

  a3-fits : a3 < u64_mod
  a3-fits = xor-fits _ _ ((rotl-fits h.v3 w.v3_fits).1) (omega arith)

  -- One round of both implementations.
  pub sipround_agree : Kernel.sipround h ≡ Userspace.sipround h
  unfolding Kernel.sipround Userspace.sipround
  sipround_agree = rw (
    (rotl_agree h.v1 w.v1_fits).0,
    (rotl_agree h.v3 w.v3_fits).1,
    (rotl_agree a1 a1-fits).2,
    (rotl_agree a3 a3-fits).3,
    (rotl_agree a0 (omega arith)).4,
    (rotl_agree b2 (omega arith)).4,
  )

  pub sipround-IsWords : IsWords (Userspace.sipround h)
  unfolding Userspace.sipround
  sipround-IsWords = record {
    v0_fits = omega arith;
    v1_fits = xor-fits _ _ ((rotl-fits a1 a1-fits).2) (omega arith);
    v2_fits = (rotl-fits b2 (omega arith)).4;
    v3_fits = xor-fits _ _ ((rotl-fits a3 a3-fits).3) (omega arith);
    buf_fits = w.buf_fits;
  }

pub mix_in-IsWords :
    (h : SipHasher) (m : ℕ) → IsWords h → m < u64_mod → IsWords (Userspace.mix_in m h)
mix_in-IsWords h m w f = record {
  v0_fits = w.v0_fits;
  v1_fits = w.v1_fits;
  v2_fits = w.v2_fits;
  v3_fits = xor-fits h.v3 m w.v3_fits f;
  buf_fits = w.buf_fits;
}

pub mix_out-IsWords :
    (h : SipHasher) (m : ℕ) → IsWords h → m < u64_mod → IsWords (Userspace.mix_out m h)
mix_out-IsWords h m w f = record {
  v0_fits = xor-fits h.v0 m w.v0_fits f;
  v1_fits = w.v1_fits;
  v2_fits = w.v2_fits;
  v3_fits = w.v3_fits;
  buf_fits = w.buf_fits;
}

-- Two rounds.
pub twice_agree :
    (h : SipHasher)
    → IsWords h
    → Kernel.sipround (Kernel.sipround h) ≡ Userspace.sipround (Userspace.sipround h)
twice_agree h w =
    rw (sipround_agree h w, sipround_agree (Userspace.sipround h) (sipround-IsWords h w))

pub twice-IsWords :
    (h : SipHasher) → IsWords h → IsWords (Userspace.sipround (Userspace.sipround h))
twice-IsWords h w = sipround-IsWords (Userspace.sipround h) (sipround-IsWords h w)

-- A block `m` goes in before two rounds and out after them.
pub block-IsWords :
    (h : SipHasher) (m : ℕ)
    → IsWords h
    → m < u64_mod
    → IsWords (Userspace.mix_out m (Userspace.sipround (Userspace.sipround (Userspace.mix_in m h))))
block-IsWords h m w f = mix_out-IsWords _ m (twice-IsWords _ (mix_in-IsWords h m w f)) f

pub compress_agree : (h : SipHasher) → IsWords h → Kernel.compress h ≡ Userspace.compress h
unfolding Kernel.compress Userspace.compress
compress_agree h w =
    rw (twice_agree (Userspace.mix_in h.buf h) (mix_in-IsWords h h.buf w w.buf_fits))

pub compress-IsWords : (h : SipHasher) → IsWords h → IsWords (Userspace.compress h)
unfolding Userspace.compress
compress-IsWords h w =
    let b = block-IsWords h h.buf w w.buf_fits in
    record {
      v0_fits = b.v0_fits;
      v1_fits = b.v1_fits;
      v2_fits = b.v2_fits;
      v3_fits = b.v3_fits;
      buf_fits = omega arith;
    }

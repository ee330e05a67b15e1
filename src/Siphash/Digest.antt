-- ===== src/Siphash/Digest.antt =====
-- The kernel's hash and the daemon's are one function of the key and the bytes: a mandate that the
-- daemon writes under its hash is found by the kernel under its own.
use linnix.Prelude.{
  ℕ, ◌*◌, ◌%◌, ◌<◌, ◌≡◌, refl, bit_or, bit_xor, List, [], ◌∷◌, arith, Bool-cases, inl, inr,
}
use linnix.Prelude.Keys.{◌==◌, nat_eq}
use linnix.Prelude.Bits.{bit_or-lt}
use linnix.Prelude.Words.{u64_mod, add64, shl64}
use linnix.Siphash.State.{SipHasher}
use linnix.Siphash.Kernel
use linnix.Siphash.Userspace
use linnix.Siphash.Agree.{
  IsWords, xor-fits, mix_in-IsWords, twice_agree, twice-IsWords, block-IsWords, compress_agree,
  compress-IsWords,
}

-- The hasher with a byte in its buffer, before it may compress.
abbrev buffered : SipHasher → ℕ → SipHasher
buffered h byte = record h {
  buf = bit_or h.buf (shl64 byte (h.count % 8 * 8));
  count = add64 h.count 1;
}

buffered-IsWords : (h : SipHasher) (byte : ℕ) → IsWords h → IsWords (buffered h byte)
buffered-IsWords h byte w = record {
  v0_fits = w.v0_fits;
  v1_fits = w.v1_fits;
  v2_fits = w.v2_fits;
  v3_fits = w.v3_fits;
  buf_fits = bit_or-lt 64 h.buf (shl64 byte (h.count % 8 * 8)) w.buf_fits (omega arith);
}

write_byte_agree :
    (h : SipHasher) (byte : ℕ) → IsWords h → Kernel.write_byte h byte ≡ Userspace.write_byte h byte
unfolding Kernel.write_byte Userspace.write_byte
write_byte_agree h byte w = rw (compress_agree (buffered h byte) (buffered-IsWords h byte w))

write_byte-IsWords : (h : SipHasher) (byte : ℕ) → IsWords h → IsWords (Userspace.write_byte h byte)
unfolding Userspace.write_byte
write_byte-IsWords h byte w = elim (Bool-cases (add64 h.count 1 % 8 == 0)) [
  | inl full ↦ rw full (compress-IsWords (buffered h byte) (buffered-IsWords h byte w))
  | inr more ↦ rw more (buffered-IsWords h byte w)
]

pub write_agree :
    (bytes : List ℕ) (h : SipHasher) → IsWords h → Kernel.write h bytes ≡ Userspace.write h bytes
unfolding Kernel.write Userspace.write
write_agree [] h w = refl
write_agree (b ∷ bytes) h w =
    rw (write_byte_agree h b w)
      (write_agree bytes (Userspace.write_byte h b) (write_byte-IsWords h b w))

pub write-IsWords : (bytes : List ℕ) (h : SipHasher) → IsWords h → IsWords (Userspace.write h bytes)
unfolding Userspace.write
write-IsWords [] h w = w
write-IsWords (b ∷ bytes) h w =
    write-IsWords bytes (Userspace.write_byte h b) (write_byte-IsWords h b w)

-- The final block, and the state that the last four rounds start from.
module _ (h : SipHasher) (w : IsWords h) where
  abbrev last_block : ℕ
  last_block = bit_or h.buf (shl64 h.count 56)

  abbrev padded : SipHasher
  padded = record h { buf = last_block }

  last_block-fits : last_block < u64_mod
  last_block-fits = bit_or-lt 64 h.buf (shl64 h.count 56) w.buf_fits (omega arith)

  padded-IsWords : IsWords padded
  padded-IsWords = record {
    v0_fits = w.v0_fits;
    v1_fits = w.v1_fits;
    v2_fits = w.v2_fits;
    v3_fits = w.v3_fits;
    buf_fits = last_block-fits;
  }

  abbrev absorbed : SipHasher
  absorbed =
      Userspace.mix_out last_block
        (Userspace.sipround (Userspace.sipround (Userspace.mix_in last_block padded)))

  absorbed-IsWords : IsWords absorbed
  absorbed-IsWords = block-IsWords padded last_block padded-IsWords last_block-fits

  abbrev finalised : SipHasher
  finalised = record absorbed { v2 = bit_xor absorbed.v2 0xff }

  finalised-IsWords : IsWords finalised
  finalised-IsWords = record {
    v0_fits = absorbed-IsWords.v0_fits;
    v1_fits = absorbed-IsWords.v1_fits;
    v2_fits = xor-fits absorbed.v2 0xff absorbed-IsWords.v2_fits (omega arith);
    v3_fits = absorbed-IsWords.v3_fits;
    buf_fits = absorbed-IsWords.buf_fits;
  }

pub finish_agree : (h : SipHasher) → IsWords h → Kernel.finish h ≡ Userspace.finish h
unfolding Kernel.finish Userspace.finish
finish_agree h w =
    let m = last_block h w in
    let f = finalised-IsWords h w in
    rw (
      twice_agree (Userspace.mix_in m (padded h w))
          (mix_in-IsWords (padded h w) m (padded-IsWords h w) (last_block-fits h w)),
      twice_agree (finalised h w) f,
      twice_agree (Userspace.sipround (Userspace.sipround (finalised h w)))
          (twice-IsWords (finalised h w) f),
    )

new-IsWords : (k0 k1 : ℕ) → k0 < u64_mod → k1 < u64_mod → IsWords (Userspace.new k0 k1)
unfolding Userspace.new
new-IsWords k0 k1 h0 h1 = record {
  v0_fits = xor-fits k0 _ h0 (omega arith);
  v1_fits = xor-fits k1 _ h1 (omega arith);
  v2_fits = xor-fits k0 _ h0 (omega arith);
  v3_fits = xor-fits k1 _ h1 (omega arith);
  buf_fits = omega arith;
}

-- For every key of two u64 words and every byte string, the kernel's SipHash-2-4 and the daemon's
-- give the same hash.
pub siphash_2_4_agree :
    (key : ℕ × ℕ) (bytes : List ℕ)
    → key.0 < u64_mod
    → key.1 < u64_mod
    → Kernel.siphash_2_4 key bytes ≡ Userspace.siphash_2_4 key bytes
unfolding Kernel.siphash_2_4 Userspace.siphash_2_4 Kernel.new Userspace.new
siphash_2_4_agree key bytes h0 h1 =
    let w = new-IsWords key.0 key.1 h0 h1 in
    rw (write_agree bytes (Userspace.new key.0 key.1) w) (
      finish_agree (Userspace.write (Userspace.new key.0 key.1) bytes)
        (write-IsWords bytes (Userspace.new key.0 key.1) w))

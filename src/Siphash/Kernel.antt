-- ===== src/Siphash/Kernel.antt =====
-- linnix-ai-ebpf/linnix-ai-ebpf-ebpf/src/siphash.rs: SipHash-2-4 as the eBPF programs run it.
use linnix.Prelude.{◌++◌, ℕ, ◌-◌, ◌*◌, ◌/◌, ◌%◌, bit_or, bit_xor, List, [], ◌∷◌, if◌then◌else◌}
use linnix.Prelude.Keys.{◌==◌, nat_eq}
use linnix.Prelude.Words.{add64, shl64, shr64}
use linnix.Siphash.State.{SipHasher}

unfoldable pub rotl : ℕ → ℕ → ℕ
rotl x b = bit_or (shl64 x b) (shr64 x (64 - b))

unfoldable pub sipround : SipHasher → SipHasher
sipround h =
    let a0 = add64 h.v0 h.v1 in
    let a1 = bit_xor (rotl h.v1 13) a0 in
    let b0 = rotl a0 32 in
    let a2 = add64 h.v2 h.v3 in
    let a3 = bit_xor (rotl h.v3 16) a2 in
    let c0 = add64 b0 a3 in
    let b3 = bit_xor (rotl a3 21) c0 in
    let b2 = add64 a2 a1 in
    let b1 = bit_xor (rotl a1 17) b2 in record h { v0 = c0; v1 = b1; v2 = rotl b2 32; v3 = b3 }

-- `SipHasher::new`
unfoldable pub new : ℕ → ℕ → SipHasher
new k0 k1 = record {
  v0 = bit_xor k0 0x736f6d6570736575;
  v1 = bit_xor k1 0x646f72616e646f6d;
  v2 = bit_xor k0 0x6c7967656e657261;
  v3 = bit_xor k1 0x7465646279746573;
  buf = 0;
  count = 0;
}

-- `self.v3 ^= m`, and `self.v0 ^= m`
abbrev pub mix_in : ℕ → SipHasher → SipHasher
mix_in m h = record h { v3 = bit_xor h.v3 m }

abbrev pub mix_out : ℕ → SipHasher → SipHasher
mix_out m h = record h { v0 = bit_xor h.v0 m }

unfoldable pub compress : SipHasher → SipHasher
compress h = let h' = mix_out h.buf (sipround (sipround (mix_in h.buf h))) in record h' { buf = 0 }

unfoldable pub write_byte : SipHasher → ℕ → SipHasher
write_byte h byte =
    let shift = h.count % 8 * 8 in
    let h' = record h { buf = bit_or h.buf (shl64 byte shift); count = add64 h.count 1 } in
    if h'.count % 8 == 0 then compress h' else h'

unfoldable pub write : SipHasher → List ℕ → SipHasher
write h [] = h
write h (b ∷ bytes) = write (write_byte h b) bytes

unfoldable pub finish : SipHasher → ℕ
finish h =
    let last = bit_or h.buf (shl64 h.count 56) in
    let h1 = mix_out last (sipround (sipround (mix_in last (record h { buf = last })))) in
    let h2 = record h1 { v2 = bit_xor h1.v2 0xff } in
    let h3 = sipround (sipround (sipround (sipround h2))) in
    bit_xor (bit_xor (bit_xor h3.v0 h3.v1) h3.v2) h3.v3

unfoldable pub siphash_2_4 : ℕ × ℕ → List ℕ → ℕ
siphash_2_4 key bytes = finish (write (new key.0 key.1) bytes)

-- `u32::to_le_bytes`
abbrev pub le_bytes4 : ℕ → List ℕ
le_bytes4 n = n % 256 ∷ n / 256 % 256 ∷ n / 65536 % 256 ∷ n / 16777216 % 256 ∷ []

unfoldable pub write_u32 : SipHasher → ℕ → SipHasher
write_u32 h n = write h (le_bytes4 n)

-- `to_le_bytes` of a `u64`.
abbrev le_bytes8 : ℕ → List ℕ
le_bytes8 n = le_bytes4 (n % 4294967296) ++ le_bytes4 (n / 4294967296)

abbrev write_u64 : SipHasher → ℕ → SipHasher
write_u64 h n = write h (le_bytes8 n)

-- ===== src/Probe/Device.antt =====
-- linnix-ai-ebpf/linnix-ai-ebpf-ebpf/src/program.rs: the encoding of a block device.
use linnix.Prelude.{ℕ, ◌*◌, ◌/◌, ◌%◌, ◌^◌, ◌≡◌, ◌∙◌, arith}
use linnix.Prelude.Words.{u32_mod}
use linnix.Prelude.Bits.{bit_and-mask, bit_or-add}
use linnix.Probe.{encode_block_dev}

-- The encoding is the device number itself, as the kernel's 32 bits of it.
pub encode_block_dev-eq : (dev : ℕ) → encode_block_dev dev ≡ dev % 2 ^ 32
unfolding encode_block_dev
encode_block_dev-eq dev =
    let major : ((dev / 2 ^ 20) % 2 ^ 12 % u32_mod * 2 ^ 20) % u32_mod
        ≡ ((dev / 2 ^ 20) % 2 ^ 12) * 2 ^ 20 =
      omega arith in
    let minor : dev % 2 ^ 20 % u32_mod ≡ dev % 2 ^ 20 = omega arith in
    rw (bit_and-mask 12 (dev / 2 ^ 20), bit_and-mask 20 dev, major, minor)
      (bit_or-add 20 ((dev / 2 ^ 20) % 2 ^ 12) (dev % 2 ^ 20) (omega arith) ∙ omega arith)

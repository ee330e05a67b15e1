-- ===== src/Protocol/Mandates.antt =====
-- The keys and values of MANDATE_MAP, and the mode of enforcement.
use linnix.Prelude.{ℕ, ◌*◌, ◌/◌, ◌≡◌, ◌↔◌, Bool, true, false, not, ◌&&◌, leb, bit_and, arith}
use linnix.Prelude.Keys.{Eq, ◌==◌, nat_eq}

-- `_pad` is always 0.
pub record MandateKey : Type 0 where
  pub pid : ℕ
  pub start_time_ns : ℕ
  pub cmd_hash : ℕ

abbrev pub key_beq : MandateKey → MandateKey → Bool
key_beq a b = a.pid == b.pid && a.start_time_ns == b.start_time_ns && a.cmd_hash == b.cmd_hash

pub key_beq_iff : (a b : MandateKey) → (key_beq a b ≡ true) ↔ (a ≡ b)
key_beq_iff a b = (λ h. ground arith, λ h. ground arith)

instance abbrev pub key_eq : Eq MandateKey
key_eq = record { equals = key_beq; equals_iff = key_beq_iff }

-- `_reserved` is always 0.
pub record MandateValue : Type 0 where
  pub expires_ns : ℕ
  pub flags : ℕ
  pub mandate_seq : ℕ

abbrev pub flag_monitor : ℕ
flag_monitor = 1

-- `MandateValue::is_expired`
abbrev pub is_expired : MandateValue → ℕ → Bool
is_expired v now_ns = leb v.expires_ns now_ns

-- `MandateValue::is_monitor_mode`
abbrev pub is_monitor_mode : MandateValue → Bool
is_monitor_mode v = not (bit_and v.flags flag_monitor == 0)

pub data MandateMode : Type 0 where
  monitor enforce : MandateMode

-- `mode as u32`
abbrev pub mode_code : MandateMode → ℕ
mode_code monitor = 0
mode_code enforce = 1

-- `self.mode == MandateMode::Enforce`
abbrev pub is_enforce : MandateMode → Bool
is_enforce monitor = false
is_enforce enforce = true

abbrev pub mandate_map_max_entries : ℕ
mandate_map_max_entries = 65536

abbrev pub mandate_map_watermark : ℕ
mandate_map_watermark = mandate_map_max_entries * 80 / 100

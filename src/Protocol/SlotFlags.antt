-- ===== src/Protocol/SlotFlags.antt =====
-- `mod slot_flags`: the states of a slot, as the u8 that the ring holds.
use linnix.Prelude.{ℕ}

abbrev pub empty : ℕ
empty = 0

abbrev pub writing : ℕ
writing = 1

abbrev pub ready : ℕ
ready = 2

abbrev pub abandoned : ℕ
abandoned = 3

-- ===== src/Protocol/Events.antt =====
-- Events and the slots of the sequencer's ring.
use linnix.Prelude.{ℕ, ◌-◌, ◌*◌, ◌^◌}
use linnix.Protocol.SlotFlags

-- A power of two, so that a mask wraps an index.
abbrev pub sequencer_ring_size : ℕ
sequencer_ring_size = 1024 * 1024

abbrev pub sequencer_ring_mask : ℕ
sequencer_ring_mask = sequencer_ring_size - 1

abbrev pub reaper_timeout_ns : ℕ
reaper_timeout_ns = 10000000

abbrev pub percent_milli_unknown : ℕ
percent_milli_unknown = 2 ^ 16 - 1

-- `comm`, sixteen bytes, is one number here, since the code only copies it; `data` and `data2` are
-- the fields `payload` and `payload2`.
pub record ProcessEvent : Type 0 where
  pub pid : ℕ
  pub ppid : ℕ
  pub uid : ℕ
  pub gid : ℕ
  pub event_type : ℕ
  pub ts_ns : ℕ
  pub seq : ℕ
  pub comm : ℕ
  pub exit_time_ns : ℕ
  pub cpu_pct_milli : ℕ
  pub mem_pct_milli : ℕ
  pub payload : ℕ
  pub payload2 : ℕ
  pub aux : ℕ
  pub aux2 : ℕ

-- The padding holds nothing that is read.
pub record SequencedSlot : Type 0 where
  pub flags : ℕ
  pub ticket_id : ℕ
  pub reserved_at_ns : ℕ
  pub event : ProcessEvent

-- `SequencedSlot::zeroed`, with its event.
abbrev pub zeroed_event : ProcessEvent
zeroed_event = record {
  pid = 0;
  ppid = 0;
  uid = 0;
  gid = 0;
  event_type = 0;
  ts_ns = 0;
  seq = 0;
  comm = 0;
  exit_time_ns = 0;
  cpu_pct_milli = 0;
  mem_pct_milli = 0;
  payload = 0;
  payload2 = 0;
  aux = 0;
  aux2 = 0;
}

abbrev pub zeroed : SequencedSlot
zeroed = record { flags = SlotFlags.empty; ticket_id = 0; reserved_at_ns = 0; event = zeroed_event }

-- `enum EventType`
pub data EventType : Type 0 where
  exec fork exit net file_io syscall block_io page_fault mandate_allow mandate_deny : EventType

-- `event_type as u32`
abbrev pub event_type_code : EventType → ℕ
event_type_code exec = 0
event_type_code fork = 1
event_type_code exit = 2
event_type_code net = 3
event_type_code file_io = 4
event_type_code syscall = 5
event_type_code block_io = 6
event_type_code page_fault = 7
event_type_code mandate_allow = 8
event_type_code mandate_deny = 9

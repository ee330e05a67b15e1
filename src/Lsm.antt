-- ===== src/Lsm.antt =====
-- linnix-ai-ebpf/linnix-ai-ebpf-ebpf/src/lsm.rs: the two LSM hooks that enforce mandates. What a
-- hook reads of kernel memory is an argument: `none` is a read that fails.
pub mod Filename
pub mod Decision
pub mod Connect
pub mod Accounting
pub mod Samples
mod Tests
use linnix.Prelude.{
  ℕ, zero, suc, ◌+◌, ◌%◌, ◌/◌, Bool, true, false, ◌&&◌, ◌||◌, not, Option, none, some, List, [],
  ◌∷◌, ◌++◌, leb, if◌then◌else◌,
}
use linnix.Prelude.Keys.{◌==◌, nat_eq}
use linnix.Prelude.Words.{add64}
use linnix.Protocol.{
  ProcessEvent, EventType, mandate_allow, mandate_deny, event_type_code, MandateKey, MandateValue,
  is_expired, MandateMode, monitor, enforce, mode_code, percent_milli_unknown,
}
use linnix.Siphash.State.{SipHasher}
use linnix.Siphash.Kernel.{new, write, write_byte, write_u32, finish}
use linnix.Sequencer.Producer.{Sequencer, submit_to_sequencer}
use linnix.BpfMap.{BpfHash}

-- What `current` shows: whether the task pointer is set, its tgid, and the offset and value of
-- `start_boottime`.
pub record Task : Type 0 where
  pub present : Bool
  pub tgid : Option ℕ
  pub start_boottime_offset : ℕ
  pub start_boottime : Option ℕ

-- `struct linux_binprm`: its pointer, the pointer to the name, and the bytes of the name.
pub record Binprm : Type 0 where
  pub present : Bool
  pub filename_ptr : Option ℕ
  pub byte_at : ℕ → Option ℕ

-- `struct sockaddr`: its pointer, the family, the port and the addresses.
pub record SockAddr : Type 0 where
  pub present : Bool
  pub family : Option ℕ
  pub port : Option ℕ
  pub addr : Option ℕ
  pub addr6 : ℕ → Option ℕ

-- MANDATE_METRICS
pub record Metrics : Type 0 where
  pub lookups : ℕ
  pub hits : ℕ
  pub misses : ℕ
  pub expired : ℕ

-- 0 and -1 (EPERM).
pub data Verdict : Type 0 where
  allow deny : Verdict

-- `.unwrap_or(0)`
abbrev pub or_zero : Option ℕ → ℕ
or_zero none = 0
or_zero (some n) = n

abbrev pub max_canon_bytes : ℕ
max_canon_bytes = 256

-- `read_start_time_ns`
abbrev pub read_start_time_ns : Task → ℕ
read_start_time_ns task = if task.start_boottime_offset == 0 then 0 else or_zero task.start_boottime

-- The loop that reads the name: up to a NUL or a failing read, `n` bytes at most.
pub read_bytes : ℕ → ℕ → (ℕ → Option ℕ) → List ℕ
read_bytes zero i byte_at = []
read_bytes (suc n) i byte_at = elim (byte_at i) [
  | none ↦ []
  | some b ↦ let rest = read_bytes n (i + 1) byte_at in if b == 0 then [] else b ∷ rest
]

abbrev pub hash_bytes : ℕ × ℕ → List ℕ → Option ℕ
hash_bytes key [] = none
hash_bytes key (b ∷ bytes) = some (finish (write (new key.0 key.1) (b ∷ bytes)))

abbrev pub hash_at : ℕ × ℕ → (ℕ → Option ℕ) → Option ℕ → Option ℕ
hash_at key byte_at none = none
hash_at key byte_at (some ptr) =
    if ptr == 0 then none else hash_bytes key (read_bytes max_canon_bytes 0 byte_at)

pub hash_binprm_filename : Binprm → ℕ × ℕ → Option ℕ
hash_binprm_filename binprm key =
    if binprm.present then hash_at key binprm.byte_at binprm.filename_ptr else none

-- The sixteen address bytes from the index `i` on, 0 where a read fails.
abbrev pub address_bytes : ℕ → ℕ → (ℕ → Option ℕ) → List ℕ
address_bytes zero i addr6 = []
address_bytes (suc n) i addr6 = or_zero (addr6 i) ∷ address_bytes n (i + 1) addr6

-- "connect" and a NUL
abbrev pub connect_prefix : List ℕ
connect_prefix = b'c' ∷ b'o' ∷ b'n' ∷ b'n' ∷ b'e' ∷ b'c' ∷ b't' ∷ 0 ∷ []

-- The hash of an address of the family `family`, 2 or 10.
unfoldable pub hash_sockaddr : SockAddr → ℕ → ℕ × ℕ → ℕ
hash_sockaddr a family key =
    let port = or_zero a.port in
    let start = write (new key.0 key.1) connect_prefix in
    let addressed =
      if family == 2
      then write_u32 start (or_zero a.addr)
      else write start (address_bytes 16 0 a.addr6) in
    finish (write_byte (write_byte addressed (port / 256)) (port % 256))

-- The event of `push_mandate_receipt`.
abbrev pub receipt : EventType → ℕ → ℕ → ℕ → ℕ → ℕ → ProcessEvent
receipt event_type pid cmd_hash mandate_seq mode ts_ns = record {
  pid = pid;
  ppid = 0;
  uid = 0;
  gid = 0;
  event_type = event_type_code event_type;
  ts_ns = ts_ns;
  seq = mandate_seq;
  comm = 0;
  exit_time_ns = 0;
  cpu_pct_milli = percent_milli_unknown;
  mem_pct_milli = percent_milli_unknown;
  payload = cmd_hash;
  payload2 = mandate_seq;
  aux = mode;
  aux2 = 0;
}

-- The key is not written yet.
abbrev pub key_unset : ℕ × ℕ → Bool
key_unset key = key.0 == 0 && key.1 == 0

module _ (bpf : BpfHash) where
  open bpf use {Map, get}

  -- The BPF maps, and the sequencer.
  pub record KernelState : Type 0 where
    pub mandates : Map
    pub mode : Option ℕ
    pub key0 : Option ℕ
    pub key1 : Option ℕ
    pub metrics : Metrics
    pub sequencer : Sequencer

  abbrev pub get_mandate_mode : KernelState → ℕ
  get_mandate_mode k = elim k.mode [ none ↦ mode_code monitor | some m ↦ m ]

  abbrev pub get_siphash_key : KernelState → ℕ × ℕ
  get_siphash_key k = (or_zero k.key0, or_zero k.key1)

  abbrev pub count_lookup : KernelState → KernelState
  count_lookup k =
      let m = k.metrics in record k { metrics = record m { lookups = add64 m.lookups 1 } }

  abbrev pub count_hit : KernelState → KernelState
  count_hit k = let m = k.metrics in record k { metrics = record m { hits = add64 m.hits 1 } }

  abbrev pub count_miss : KernelState → KernelState
  count_miss k = let m = k.metrics in record k { metrics = record m { misses = add64 m.misses 1 } }

  abbrev pub count_expired : KernelState → KernelState
  count_expired k =
      let m = k.metrics in record k { metrics = record m { expired = add64 m.expired 1 } }

  -- `reserved` is the time that the sequencer reads for itself.
  pub push_mandate_receipt : ℕ → ProcessEvent → KernelState → KernelState
  push_mandate_receipt reserved event k = record k {
    sequencer = submit_to_sequencer reserved event k.sequencer;
  }

  -- Refuse in enforce mode, with a receipt, and let pass in any other.
  abbrev pub refuse : ℕ → MandateKey → ℕ → ℕ → KernelState → Verdict × KernelState
  refuse reserved key mode now k =
      if mode == mode_code enforce
      then (
        deny,
        push_mandate_receipt reserved (receipt mandate_deny key.pid key.cmd_hash 0 mode now) k,
      )
      else (allow, k)

  -- The `match` on the mandate that was found.
  pub judge : ℕ → MandateKey → ℕ → ℕ → Option MandateValue → KernelState → Verdict × KernelState
  judge reserved key mode now none k = refuse reserved key mode now (count_miss k)
  judge reserved key mode now (some val) k =
      if is_expired val now then refuse reserved key mode now (count_expired k) else (
        allow,
        push_mandate_receipt reserved
            (receipt mandate_allow key.pid key.cmd_hash val.mandate_seq mode now) (count_hit k),
      )

  -- Both hooks from the hash on.
  pub check_hash : ℕ → ℕ → Task → ℕ → ℕ → KernelState → Verdict × KernelState
  check_hash now reserved task pid cmd_hash k =
      let key : MandateKey = record {
        pid = pid;
        start_time_ns = read_start_time_ns task;
        cmd_hash = cmd_hash;
      } in
      judge reserved key (get_mandate_mode k) now (get k.mandates key) (count_lookup k)

  abbrev pub execve_hashed : ℕ → ℕ → Task → ℕ → Option ℕ → KernelState → Verdict × KernelState
  execve_hashed now reserved task pid none k = (allow, k)
  execve_hashed now reserved task pid (some cmd_hash) k =
      check_hash now reserved task pid cmd_hash k

  abbrev pub execve_of : ℕ → ℕ → Task → Binprm → Option ℕ → KernelState → Verdict × KernelState
  execve_of now reserved task binprm none k = (allow, k)
  execve_of now reserved task binprm (some pid) k =
      if leb pid 1
      then (allow, k)
      else if key_unset (get_siphash_key k)
      then (allow, k)
      else execve_hashed now reserved task pid (hash_binprm_filename binprm (get_siphash_key k)) k

  -- `mandate_execve_check`: every failure to read lets the call pass.
  pub mandate_execve_check : ℕ → ℕ → Task → Binprm → KernelState → Verdict × KernelState
  mandate_execve_check now reserved task binprm k =
      if task.present then execve_of now reserved task binprm task.tgid k else (allow, k)

  abbrev pub connect_family :
      ℕ → ℕ → Task → SockAddr → ℕ → Option ℕ → KernelState → Verdict × KernelState
  connect_family now reserved task a pid none k = (allow, k)
  connect_family now reserved task a pid (some family) k =
      if not (family == 2 || family == 10)
      then (allow, k)
      else if key_unset (get_siphash_key k)
      then (allow, k)
      else check_hash now reserved task pid (hash_sockaddr a family (get_siphash_key k)) k

  abbrev pub connect_of : ℕ → ℕ → Task → SockAddr → Option ℕ → KernelState → Verdict × KernelState
  connect_of now reserved task a none k = (allow, k)
  connect_of now reserved task a (some pid) k =
      if leb pid 1
      then (allow, k)
      else if a.present
      then connect_family now reserved task a pid a.family k
      else (allow, k)

  -- `mandate_socket_connect`
  pub mandate_socket_connect : ℕ → ℕ → Task → SockAddr → KernelState → Verdict × KernelState
  mandate_socket_connect now reserved task a k =
      if task.present then connect_of now reserved task a task.tgid k else (allow, k)

-- ===== src/Lsm/Samples.antt =====
-- A task, a program and an address, for runs of the hooks at concrete inputs.
use linnix.Prelude.{ℕ, true, Option, none, some, List, [], ◌∷◌, if◌then◌else◌, refl, arith}
use linnix.Prelude.Keys.{◌==◌, nat_eq}
use linnix.Protocol.{MandateKey}
use linnix.Siphash.Kernel
use linnix.Siphash.Userspace
use linnix.Sequencer.Producer.{idle}
use linnix.BpfMap.Listed.{Entries, listed}
use linnix.Lsm.{
  Task, Binprm, SockAddr, KernelState, hash_binprm_filename, hash_sockaddr, read_bytes,
}
use linnix.Lsm.Decision.{Identified}
use linnix.Lsm.Connect.{Addressed}

abbrev pub agent : Task
agent = record {
  present = true;
  tgid = some 42;
  start_boottime_offset = 8;
  start_boottime = some 5000000000;
}

-- "/a"
abbrev pub path : List ℕ
path = 47 ∷ 97 ∷ []

abbrev pub path_byte : ℕ → Option ℕ
path_byte i =
    if i == 0 then some 47 else if i == 1 then some 97 else if i == 2 then some 0 else none

abbrev pub program : Binprm
program = record { present = true; filename_ptr = some 4096; byte_at = path_byte }

-- 127.0.0.1:443
abbrev pub address : SockAddr
address = record {
  present = true;
  family = some 2;
  port = some 47873;
  addr = some 16777343;
  addr6 = λ i. none;
}

abbrev pub secret : ℕ × ℕ
secret = (1, 2)

abbrev pub program_key : MandateKey
program_key = record {
  pid = 42;
  start_time_ns = 5000000000;
  cmd_hash = Userspace.siphash_2_4 secret path;
}

abbrev pub address_key : MandateKey
address_key = record {
  pid = 42;
  start_time_ns = 5000000000;
  cmd_hash = hash_sockaddr address 2 secret;
}

-- In Enforce mode, over the given entries.
abbrev pub enforcing : Entries → KernelState listed
enforcing entries = record {
  mandates = entries;
  mode = some 1;
  key0 = some 1;
  key1 = some 2;
  metrics = record { lookups = 0; hits = 0; misses = 0; expired = 0 };
  sequencer = idle;
}

pub program-Identified :
    (entries : Entries) → Identified listed agent program (enforcing entries) program_key
unfolding hash_binprm_filename read_bytes Kernel.new Kernel.write Kernel.finish Kernel.write_byte
    Kernel.compress Kernel.sipround Kernel.rotl Userspace.siphash_2_4 Userspace.new Userspace.write
    Userspace.finish Userspace.write_byte Userspace.compress Userspace.sipround Userspace.rotl
program-Identified entries = record {
  present = refl;
  tgid = refl;
  not_init = omega arith;
  keyed = refl;
  hashed = refl;
  started = refl;
}

pub address-Addressed :
    (entries : Entries) → Addressed listed agent address (enforcing entries) address_key
address-Addressed entries = record {
  present = refl;
  tgid = refl;
  not_init = omega arith;
  address = refl;
  family = 2;
  family_read = refl;
  inet = refl;
  keyed = refl;
  hashed = refl;
  started = refl;
}

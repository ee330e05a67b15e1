-- ===== src/Mandate/Manager.antt =====
-- `MandateManager` of cognitod/src/mandate.rs: its state and the operations that change it. The
-- maps are the kernel's (`BpfMap`), and a failed write to them is only logged.
use linnix.Prelude.{
  ℕ, ◌-◌, ◌%◌, Bool, ◌&&◌, Option, none, some, List, [], ◌∷◌, ◌++◌, map, String, leb, ltb,
  if◌then◌else◌, length, sum,
}
use linnix.Prelude.Keys.{◌==◌, nat_eq, string_eq}
use linnix.Prelude.Assoc.{Assoc, lookup, insert}
use linnix.Prelude.Words.{add64, saturating_add, saturating_mul, u32_mod}
use linnix.Prelude.Results.{Result, ok, err, ◌>>=◌, ◌>>◌, fail_if}
use linnix.Protocol.{
  MandateKey, MandateValue, MandateMode, monitor, enforce, is_enforce, flag_monitor,
  mandate_map_watermark,
}
use linnix.Siphash.Userspace
use linnix.BpfMap.{BpfHash}
use linnix.Mandate.Types.{
  MandateRequest, active, revoked, executed, is_active, MandateResponse, MandateRecord, CreateError,
  empty_args, too_many_args, args_too_large, backpressure, UpdateError, not_found, not_active,
}
use linnix.Mandate.Proc.{System, read_start_time_ns, resolve_container_pid}

abbrev pub max_args : ℕ
max_args = 128

abbrev pub max_arg_bytes : ℕ
max_arg_bytes = 4096

-- `enforcement_mode_str`
abbrev pub enforcement_mode_str : MandateMode → String
enforcement_mode_str monitor = "monitor"
enforcement_mode_str enforce = "enforce"

-- `hash_filename`: the first argument, or nothing.
unfoldable pub hash_filename : ℕ × ℕ → List (List ℕ) → ℕ
hash_filename key [] = Userspace.siphash_2_4 key []
hash_filename key (filename ∷ args) = Userspace.siphash_2_4 key filename

-- The bytes that `hash_args` writes: the arguments, with a NUL between two.
abbrev pub canonical_args : List (List ℕ) → List ℕ
canonical_args [] = []
canonical_args (a ∷ []) = a
canonical_args (a ∷ b ∷ args) = a ++ (0 ∷ canonical_args (b ∷ args))

abbrev pub hash_args : ℕ × ℕ → List (List ℕ) → ℕ
hash_args key args = Userspace.siphash_2_4 key (canonical_args args)

-- The clocks and the identifier that a call of `create` reads, and the system that it looks at.
pub record Moment : Type 0 where
  pub system : System
  -- CLOCK_BOOTTIME, 0 for an error.
  pub boottime_ns : ℕ
  -- Milliseconds since the epoch.
  pub wall_ms : ℕ
  pub instant : ℕ
  -- `Uuid::new_v4`
  pub new_id : String

module _ (bpf : BpfHash) (Receipt : Type 0) where
  -- `bpf_mandate_map` is `none` until the maps are connected.
  pub record MandateManager : Type 0 where
    pub mandates : Assoc String (MandateRecord Receipt)
    pub seq_to_id : Assoc ℕ String
    pub siphash_key : ℕ × ℕ
    pub bpf_available : Bool
    pub mode : MandateMode
    pub next_seq : ℕ
    pub total_created : ℕ
    pub total_expired : ℕ
    pub total_revoked : ℕ
    pub total_executed : ℕ
    pub bpf_map_count : ℕ
    pub bpf_mandate_map : Option bpf.Map

  -- `MandateManager::new`
  abbrev pub new : ℕ × ℕ → Bool → MandateMode → MandateManager
  new siphash_key bpf_available mode = record {
    mandates = [];
    seq_to_id = [];
    siphash_key = siphash_key;
    bpf_available = bpf_available;
    mode = mode;
    next_seq = 1;
    total_created = 0;
    total_expired = 0;
    total_revoked = 0;
    total_executed = 0;
    bpf_map_count = 0;
    bpf_mandate_map = none;
  }

  -- `count as u32 >= WATERMARK`
  abbrev pub is_backpressure_active : MandateManager → Bool
  is_backpressure_active m = leb mandate_map_watermark (m.bpf_map_count % u32_mod)

  -- A write to the kernel's map, where it is connected: a failure leaves the map.
  abbrev pub map_insert : MandateKey → MandateValue → Option bpf.Map → Option bpf.Map
  map_insert key value none = none
  map_insert key value (some kernel_map) =
      some (elim (bpf.insert kernel_map key value) [ none ↦ kernel_map | some changed ↦ changed ])

  abbrev pub map_remove : MandateKey → Option bpf.Map → Option bpf.Map
  map_remove key none = none
  map_remove key (some kernel_map) =
      some (elim (bpf.remove kernel_map key) [ none ↦ kernel_map | some changed ↦ changed ])

  -- The checks of `create`, in order, and the key that they end in.
  unfoldable pub prepare : Moment → MandateRequest → MandateManager → Result CreateError MandateKey
  prepare at_time req m = do
    fail_if (length req.args == 0) empty_args
    fail_if (ltb max_args (length req.args)) (too_many_args (length req.args))
    let total_bytes = sum (map length req.args)
    fail_if (ltb max_arg_bytes total_bytes) (args_too_large total_bytes)
    fail_if (is_backpressure_active m) backpressure
    effective_pid ← elim req.container_id [
      | none ↦ ok req.pid
      | some cid ↦ resolve_container_pid at_time.system req.pid cid
    ]
    start_time_ns ← read_start_time_ns at_time.system effective_pid
    ok (record {
      pid = effective_pid;
      start_time_ns = start_time_ns;
      cmd_hash = hash_filename m.siphash_key req.args;
    })

  abbrev pub new_value : Moment → MandateRequest → ℕ → MandateValue
  new_value at_time req seq = record {
    expires_ns = saturating_add at_time.boottime_ns (saturating_mul req.ttl_ms 1000000);
    flags = if req.monitor_only then flag_monitor else 0;
    mandate_seq = seq;
  }

  abbrev pub new_record :
      Moment → MandateRequest → MandateKey → MandateManager → MandateRecord Receipt
  new_record at_time req key m = record {
    id = at_time.new_id;
    key = key;
    value = new_value at_time req m.next_seq;
    args = req.args;
    status = active;
    created_at = at_time.instant;
    expires_at_ms = add64 at_time.wall_ms req.ttl_ms;
    bpf_committed = m.bpf_available;
    receipt = none;
  }

  -- `MandateResponse` of a record.
  abbrev pub response : MandateManager → MandateRecord Receipt → MandateResponse
  response m r = record {
    id = r.id;
    key = r.key;
    expires_at_ms = r.expires_at_ms;
    status = r.status;
    enforced = m.bpf_available && is_enforce m.mode;
    enforcement_mode = enforcement_mode_str m.mode;
  }

  -- What `create` changes once its checks have passed.
  unfoldable pub install : Moment → MandateRequest → MandateKey → MandateManager → MandateManager
  install at_time req key m = record m {
    next_seq = add64 m.next_seq 1;
    mandates = insert at_time.new_id (new_record at_time req key m) m.mandates;
    seq_to_id = insert m.next_seq at_time.new_id m.seq_to_id;
    bpf_mandate_map = map_insert key (new_value at_time req m.next_seq) m.bpf_mandate_map;
    total_created = add64 m.total_created 1;
    bpf_map_count = add64 m.bpf_map_count 1;
  }

  unfoldable pub create :
      Moment → MandateRequest → MandateManager → MandateManager × Result CreateError MandateResponse
  create at_time req m = elim (prepare at_time req m) [
    | err e ↦ (m, err e)
    | ok key ↦ (install at_time req key m, ok (response m (new_record at_time req key m)))
  ]

  -- `fetch_update(|v| Some(v.saturating_sub(n)))` is `v - n`, which stops at 0.
  abbrev pub mark_revoked : String → MandateRecord Receipt → MandateManager → MandateManager
  mark_revoked id r m = record m {
    mandates = insert id (record r { status = revoked }) m.mandates;
    bpf_mandate_map = map_remove r.key m.bpf_mandate_map;
    total_revoked = add64 m.total_revoked 1;
    bpf_map_count = m.bpf_map_count - 1;
  }

  abbrev pub revoke_found :
      String
      → MandateRecord Receipt
      → MandateManager
      → MandateManager × Result UpdateError (Unit {0})
  revoke_found id r m =
      if is_active r.status then (mark_revoked id r m, ok tt) else (m, err (not_active r.status))

  unfoldable pub revoke : String → MandateManager → MandateManager × Result UpdateError (Unit {0})
  revoke id m = elim (lookup id m.mandates) [
    | none ↦ (m, err not_found)
    | some r ↦ revoke_found id r m
  ]

  abbrev pub store_receipt :
      String → Receipt → MandateRecord Receipt → MandateManager → MandateManager
  store_receipt id receipt r m = record m {
    mandates = insert id (record r { status = executed; receipt = some receipt }) m.mandates;
    total_executed = add64 m.total_executed 1;
    bpf_map_count = m.bpf_map_count - 1;
  }

  abbrev pub execute_found :
      String
      → Receipt
      → MandateRecord Receipt
      → MandateManager
      → MandateManager × Result UpdateError (Unit {0})
  execute_found id receipt r m =
      if is_active r.status
      then (store_receipt id receipt r m, ok tt)
      else (m, err (not_active r.status))

  unfoldable pub mark_executed :
      String → Receipt → MandateManager → MandateManager × Result UpdateError (Unit {0})
  mark_executed id receipt m = elim (lookup id m.mandates) [
    | none ↦ (m, err not_found)
    | some r ↦ execute_found id receipt r m
  ]

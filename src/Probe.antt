-- ===== src/Probe.antt =====
-- linnix-ai-ebpf/linnix-ai-ebpf-ebpf/src/program.rs: what the tracepoint programs sample, throttle and
-- encode. A pointer is its address, 0 for null; what a read of the kernel's memory finds is a parameter.
pub mod Sampling
pub mod Device
pub mod Handlers
mod Tests
use linnix.Prelude.{
  ℕ, ◌+◌, ◌-◌, ◌*◌, ◌/◌, ◌%◌, ◌^◌, min, bit_and, bit_or, Bool, true, false, ◌&&◌, ◌||◌, not, ◌≡◌,
  Option, none, some, ltb, leb, if◌then◌else◌,
}
use linnix.Prelude.Keys.{◌==◌, nat_eq}
use linnix.Prelude.Words.{u32_mod, u64_mod, u64_max, saturating_add, shl64, shr64}
use linnix.Protocol.{ProcessEvent, percent_milli_unknown}

-- A BPF hash map whose keys are PIDs; `set` writes through the pointer of `get_ptr_mut`.
pub record PidMap (V : Type 0) : Type 1 where
  pub Map : Type 0
  pub get : Map → ℕ → Option V
  pub set : Map → ℕ → V → Map
  pub insert : Map → ℕ → V → Option Map
  pub remove : Map → ℕ → Option Map
  pub get-set :
      (m : Map) (pid : ℕ) (old v : V)
      → get m pid ≡ some old
      → (other : ℕ) → get (set m pid v) other ≡ (if pid == other then some v else get m other)
  pub get-insert :
      (m : Map) (pid : ℕ) (v : V) (m' : Map)
      → insert m pid v ≡ some m'
      → (other : ℕ) → get m' other ≡ (if pid == other then some v else get m other)

pub record TaskStats : Type 0 where
  pub last_runtime_ns : ℕ
  pub last_timestamp_ns : ℕ

-- The fields of `TelemetryConfig` that sampling reads.
pub record TelemetryConfig : Type 0 where
  pub task_real_parent_offset : ℕ
  pub task_tgid_offset : ℕ
  pub task_signal_offset : ℕ
  pub task_mm_offset : ℕ
  pub task_se_offset : ℕ
  pub se_sum_exec_runtime_offset : ℕ
  pub signal_rss_stat_offset : ℕ
  pub mm_rss_stat_offset : ℕ
  pub rss_count_offset : ℕ
  pub rss_item_size : ℕ
  pub rss_file_index : ℕ
  pub rss_anon_index : ℕ
  pub page_size : ℕ
  pub total_memory_bytes : ℕ
  pub rss_source : ℕ

-- `bpf_probe_read` of a `u64`, and of an `i64` or `i32` that is `none` inside where it is negative.
pub record Memory : Type 0 where
  pub read_u64 : ℕ → Option ℕ
  pub read_i64 : ℕ → Option (Option ℕ)
  pub read_i32 : ℕ → Option (Option ℕ)

abbrev pub device_minor_bits : ℕ
device_minor_bits = 20

abbrev pub device_major_mask : ℕ
device_major_mask = 2 ^ 12 - 1

abbrev pub device_minor_mask : ℕ
device_minor_mask = 2 ^ 20 - 1

unfoldable pub encode_block_dev : ℕ → ℕ
encode_block_dev dev =
    let major = bit_and (shr64 dev device_minor_bits) device_major_mask in
    let minor = bit_and dev device_minor_mask in
    bit_or (((major % u32_mod) * 2 ^ device_minor_bits) % u32_mod) (minor % u32_mod)

abbrev pub bytes_per_sector : ℕ
bytes_per_sector = 512

abbrev pub block_bytes_from_sectors : ℕ → ℕ
block_bytes_from_sectors sectors = sectors * bytes_per_sector

abbrev pub page_fault_min_interval_ns : ℕ
page_fault_min_interval_ns = 50000000

module _ (faults : PidMap ℕ) where
  -- By what the map has of the process, and by what an insertion would give.
  unfoldable pub throttle : ℕ → ℕ → faults.Map → Option ℕ → Option faults.Map → faults.Map × Bool
  throttle pid now m (some last) inserted =
      if ltb (now - last) page_fault_min_interval_ns
      then (m, false)
      else (faults.set m pid now, true)
  throttle pid now m none none = (m, true)
  throttle pid now m none (some m') = (m', true)

  -- The state afterwards, and whether the fault is reported.
  unfoldable pub throttle_page_fault : ℕ → ℕ → faults.Map → faults.Map × Bool
  throttle_page_fault pid now m = throttle pid now m (faults.get m pid) (faults.insert m pid now)

module _ (memory : Memory) where
  abbrev read_u64_field : ℕ → ℕ → Option ℕ
  read_u64_field base offset = if base == 0 then none else memory.read_u64 (base + offset)

  unfoldable pub read_ptr : ℕ → ℕ → Option ℕ
  read_ptr base offset = elim (read_u64_field base offset) [
    | none ↦ none
    | some addr ↦ if addr == 0 then none else some addr
  ]

  abbrev positive : Option (Option ℕ) → Option ℕ
  positive none = none
  positive (some none) = none
  positive (some (some n)) = if n == 0 then none else some n

  unfoldable pub parent_tgid : ℕ → TelemetryConfig → Option ℕ
  parent_tgid task config =
      if config.task_real_parent_offset == 0 || config.task_tgid_offset == 0
      then none
      else elim (read_ptr task config.task_real_parent_offset) [
        | none ↦ none
        | some parent ↦ positive (memory.read_i32 (parent + config.task_tgid_offset))
      ]

  unfoldable pub read_sum_exec_runtime : ℕ → TelemetryConfig → Option ℕ
  read_sum_exec_runtime task config =
      let offset = config.task_se_offset + config.se_sum_exec_runtime_offset in
      if config.task_se_offset == 0 || config.se_sum_exec_runtime_offset == 0
      then none
      else if leb u32_mod offset
      then none
      else read_u64_field task offset

  abbrev not_negative : Option (Option ℕ) → Option ℕ
  not_negative none = none
  not_negative (some found) = found

  unfoldable pub read_rss_count : ℕ → TelemetryConfig → ℕ → Option ℕ
  read_rss_count base config index =
      let offset = config.rss_item_size * index + config.rss_count_offset in
      if config.rss_item_size == 0
      then none
      else if leb u64_mod offset
      then none
      else if leb u32_mod offset
      then none
      else if base == 0
      then none
      else not_negative (memory.read_i64 (base + offset))

  unfoldable pub rss_bytes_from_base : ℕ → ℕ → TelemetryConfig → Option ℕ
  rss_bytes_from_base base_ptr rss_offset config =
      let rss_base = base_ptr + rss_offset in
      elim (read_rss_count rss_base config config.rss_file_index) [
        | none ↦ none
        | some file ↦ elim (read_rss_count rss_base config config.rss_anon_index) [
          | none ↦ none
          | some anon ↦
              if config.page_size == 0
              then none
              else some
                  (min (saturating_add file anon) (u64_max / config.page_size) * config.page_size)
        ]
      ]

  abbrev rss_bytes_at : ℕ → ℕ → ℕ → TelemetryConfig → Option ℕ
  rss_bytes_at task offset rss_offset config =
      if offset == 0 || (rss_offset == 0 || config.rss_item_size == 0)
      then none
      else elim (read_ptr task offset) [
        | none ↦ none
        | some base ↦ rss_bytes_from_base base rss_offset config
      ]

  abbrev pub rss_bytes_signal : ℕ → TelemetryConfig → Option ℕ
  rss_bytes_signal task config =
      rss_bytes_at task config.task_signal_offset config.signal_rss_stat_offset config

  abbrev pub rss_bytes_mm : ℕ → TelemetryConfig → Option ℕ
  rss_bytes_mm task config =
      rss_bytes_at task config.task_mm_offset config.mm_rss_stat_offset config

  unfoldable pub rss_bytes : ℕ → TelemetryConfig → Option ℕ
  rss_bytes task config =
      if config.rss_source == 0
      then rss_bytes_signal task config
      else if config.rss_source == 1
      then rss_bytes_mm task config
      else none

-- `x * 100_000`, or the largest `u64` where that is too much.
abbrev pub times_100_000 : ℕ → ℕ
times_100_000 x = if ltb (u64_max / 100000) x then u64_max else x * 100000

-- `value.min((PERCENT_MILLI_UNKNOWN - 1) as u64) as u16`
abbrev pub capped : ℕ → ℕ
capped value = min value (percent_milli_unknown - 1)

-- The share since the sample before, where there is one that can be compared.
unfoldable pub cpu_share : TaskStats → ℕ → ℕ → ℕ
cpu_share entry runtime now =
    if not (entry.last_timestamp_ns == 0)
      && (ltb entry.last_timestamp_ns now && leb entry.last_runtime_ns runtime)
    then capped (times_100_000 (runtime - entry.last_runtime_ns) / (now - entry.last_timestamp_ns))
    else percent_milli_unknown

abbrev pub stats_of : ℕ → ℕ → TaskStats
stats_of runtime now = record { last_runtime_ns = runtime; last_timestamp_ns = now }

module _ (stats : PidMap TaskStats) where
  -- By what the map has of the process, and by what an insertion would give.
  unfoldable pub sample :
      ℕ → ℕ → ℕ → stats.Map → Option TaskStats → Option stats.Map → stats.Map × ℕ
  sample pid runtime now m (some before) inserted =
      (stats.set m pid (stats_of runtime now), cpu_share before runtime now)
  sample pid runtime now m none none = (m, percent_milli_unknown)
  sample pid runtime now m none (some m') = (m', percent_milli_unknown)

  -- `sample_cpu`, from what `read_sum_exec_runtime` found.
  unfoldable pub sample_cpu : ℕ → Option ℕ → ℕ → stats.Map → stats.Map × ℕ
  sample_cpu pid none now m = (m, percent_milli_unknown)
  sample_cpu pid (some runtime) now m =
      sample pid runtime now m (stats.get m pid) (stats.insert m pid (stats_of runtime now))

-- `sample_mem`, from what `rss_bytes` found.
abbrev mem_share : Option ℕ → ℕ → ℕ
mem_share none total = percent_milli_unknown
mem_share (some bytes) total = capped (times_100_000 bytes / total)

unfoldable pub sample_mem : Memory → ℕ → TelemetryConfig → ℕ
sample_mem memory task config =
    if config.total_memory_bytes == 0 || config.page_size == 0
    then percent_milli_unknown
    else mem_share (rss_bytes memory task config) config.total_memory_bytes

-- `cleanup_process_state`; a failed removal is ignored.
abbrev removed_or : {A : Type 0} → A → Option A → A
removed_or m none = m
removed_or m (some m') = m'

unfoldable pub cleanup_process_state :
    (stats : PidMap TaskStats) (faults : PidMap ℕ)
    → ℕ
    → stats.Map
    → faults.Map
    → stats.Map × faults.Map
cleanup_process_state stats faults pid s f =
    if pid == 0
    then (s, f)
    else (removed_or s (stats.remove s pid), removed_or f (faults.remove f pid))

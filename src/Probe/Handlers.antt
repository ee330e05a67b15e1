-- ===== src/Probe/Handlers.antt =====
-- linnix-ai-ebpf/linnix-ai-ebpf-ebpf/src/program.rs: the tracepoint programs, from what they read of their
-- context to what they submit. The perf buffer is the list of its events, the newest first. The programs
-- for sockets, files and system calls return 0 and do nothing else.
use linnix.Prelude.{
  ℕ, ◌/◌, ◌%◌, ◌≡◌, Bool, true, false, not, Option, none, some, List, ◌∷◌, ltb, if◌then◌else◌,
  arith,
}
use linnix.Prelude.Keys.{◌==◌, nat_eq}
use linnix.Prelude.Words.{u32_mod}
use linnix.Protocol.{ProcessEvent, EventType, event_type_code, percent_milli_unknown}
use linnix.Sequencer.Producer.{Sequencer, submit_to_sequencer, submit_to_sequencer_direct}
use linnix.Probe.{
  PidMap, TaskStats, TelemetryConfig, Memory, encode_block_dev, block_bytes_from_sectors,
  throttle_page_fault, parent_tgid, read_sum_exec_runtime, sample_cpu, sample_mem,
  cleanup_process_state,
}

-- What a program is called with: the process, its user and group in one word, its name as one number
-- (0 where it cannot be read) and the address of its task.
pub record Context : Type 0 where
  pub pid : ℕ
  pub uid_gid : ℕ
  pub command : ℕ
  pub task : ℕ

pub data BlockOp : Type 0 where
  queue issue complete : BlockOp

abbrev pub block_op_code : BlockOp → ℕ
block_op_code queue = 0
block_op_code issue = 1
block_op_code complete = 2

pub data PageFaultOrigin : Type 0 where
  user kernel : PageFaultOrigin

abbrev pub origin_code : PageFaultOrigin → ℕ
origin_code user = 0
origin_code kernel = 1

module _ (stats : PidMap TaskStats) (faults : PidMap ℕ) where
  -- The maps and the two ways out; `buffer` is the entry of EVENT_BUFFER.
  pub record Kernel : Type 0 where
    pub task_stats : stats.Map
    pub page_fault_throttle : faults.Map
    pub sequencer_enabled : Option ℕ
    pub ring : Sequencer
    pub events : List ProcessEvent
    pub buffer : Option ProcessEvent
    pub config : TelemetryConfig

  abbrev enabled : Option ℕ → Bool
  enabled none = false
  enabled (some n) = not (n == 0)

  -- `submit_event`, where `clock` is read by the sequencer.
  unfoldable pub submit_event : ℕ → ProcessEvent → Kernel → Kernel
  submit_event clock event k =
      if enabled k.sequencer_enabled
      then record k { ring = submit_to_sequencer clock event k.ring }
      else record k { events = event ∷ k.events }

  -- `submit_event_direct`, of an event without an end.
  unfoldable pub submit_event_direct : ProcessEvent → Kernel → Kernel
  submit_event_direct e k =
      if enabled k.sequencer_enabled
      then record k {
        ring =
            submit_to_sequencer_direct e.pid e.ppid e.uid e.gid e.event_type e.ts_ns e.comm
              e.cpu_pct_milli e.mem_pct_milli e.payload e.payload2 e.aux e.aux2 k.ring;
      }
      else record k { events = e ∷ k.events }

  module _ (memory : Memory) (ctx : Context) where
    abbrev or_zero : Option ℕ → ℕ
    or_zero none = 0
    or_zero (some n) = n

    -- `init_event`, which sets every field of the event.
    unfoldable pub init_event : EventType → ℕ → ℕ → Kernel → Kernel × ProcessEvent
    init_event event_type now pid k =
        let known = not (ctx.task == 0) in
        let (task_stats, cpu) =
          sample_cpu stats pid (read_sum_exec_runtime memory ctx.task k.config) now k.task_stats in
        (
          if known then record k { task_stats = task_stats } else k,
          record {
            pid = pid;
            ppid = if known then or_zero (parent_tgid memory ctx.task k.config) else 0;
            uid = ctx.uid_gid % u32_mod;
            gid = ctx.uid_gid / u32_mod;
            event_type = event_type_code event_type;
            ts_ns = now;
            seq = 0;
            comm = ctx.command;
            exit_time_ns = 0;
            cpu_pct_milli = if known then cpu else percent_milli_unknown;
            mem_pct_milli =
                if known then sample_mem memory ctx.task k.config else percent_milli_unknown;
            payload = 0;
            payload2 = 0;
            aux = 0;
            aux2 = 0;
          },
        )

    abbrev switched_off : EventType → Bool
    switched_off EventType.net = true
    switched_off EventType.file_io = true
    switched_off EventType.syscall = true
    switched_off EventType.block_io = true
    switched_off other = false

    abbrev wants_data : EventType → Bool
    wants_data EventType.net = true
    wants_data EventType.file_io = true
    wants_data EventType.block_io = true
    wants_data other = false

    abbrev emit_into : EventType → ℕ → ℕ → ℕ → ℕ → ℕ → ℕ → Option ProcessEvent → Kernel → Kernel × ℕ
    emit_into event_type now clock payload payload2 aux aux2 none k = (k, 1)
    emit_into event_type now clock payload payload2 aux aux2 (some buffer) k =
        let (k', event) = init_event event_type now ctx.pid k in
        let filled : ProcessEvent = record event {
          payload = payload;
          payload2 = payload2;
          aux = aux;
          aux2 = aux2;
        } in
        (submit_event clock filled (record k' { buffer = some filled }), 0)

    -- `emit_activity_event`, with the state and the code that it returns.
    unfoldable pub emit_activity_event : EventType → ℕ → ℕ → ℕ → ℕ → ℕ → ℕ → Kernel → Kernel × ℕ
    emit_activity_event event_type now clock payload payload2 aux aux2 k =
        if switched_off event_type
        then (k, 0)
        else if (if wants_data event_type then payload == 0 else false)
        then (k, 0)
        else if ctx.pid == 0
        then (k, 0)
        else emit_into event_type now clock payload payload2 aux aux2 k.buffer k

    abbrev bytes_of : ℕ → Option ℕ → ℕ
    bytes_of sectors none = block_bytes_from_sectors sectors
    bytes_of sectors (some value) = if ltb 0 value then value else block_bytes_from_sectors sectors

    unfoldable pub emit_block_event_common :
        ℕ → ℕ → BlockOp → ℕ → ℕ → ℕ → Option ℕ → Kernel → Kernel × ℕ
    emit_block_event_common now clock op dev sector sectors bytes_override k =
        if sectors == 0
        then (k, 0)
        else emit_activity_event EventType.block_io now clock (bytes_of sectors bytes_override)
            sector (block_op_code op) (encode_block_dev dev) k

    unfoldable pub try_trace_page_fault : ℕ → ℕ → ℕ → ℕ → ℕ → PageFaultOrigin → Kernel → Kernel × ℕ
    try_trace_page_fault now clock address ip error origin k =
        let (throttled, reports) = throttle_page_fault faults ctx.pid now k.page_fault_throttle in
        let k' = record k { page_fault_throttle = throttled } in
        if ctx.pid == 0
        then (k, 0)
        else if reports
        then emit_activity_event EventType.page_fault now clock address ip error
            (origin_code origin) k'
        else (k', 0)

    abbrev exec_into : ℕ → ℕ → Option ProcessEvent → Kernel → Kernel × ℕ
    exec_into now clock none k = (k, 1)
    exec_into now clock (some buffer) k =
        let (k', event) = init_event EventType.exec now ctx.pid k in
        (submit_event clock event (record k' { buffer = some event }), 0)

    unfoldable pub try_handle_exec : ℕ → ℕ → Kernel → Kernel × ℕ
    try_handle_exec now clock k = if ctx.pid == 0 then (k, 0) else exec_into now clock k.buffer k

    abbrev forget : Kernel → Kernel
    forget k =
        let (s, f) =
          cleanup_process_state stats faults ctx.pid k.task_stats k.page_fault_throttle in
        record k { task_stats = s; page_fault_throttle = f }

    abbrev exit_into : ℕ → ℕ → Option ProcessEvent → Kernel → Kernel × ℕ
    exit_into now clock none k = (k, 1)
    exit_into now clock (some buffer) k =
        let (k', event) = init_event EventType.exit now ctx.pid k in
        let ended : ProcessEvent = record event { exit_time_ns = now } in
        (forget (submit_event clock ended (record k' { buffer = some ended })), 0)

    unfoldable pub try_handle_exit : ℕ → ℕ → Kernel → Kernel × ℕ
    try_handle_exit now clock k =
        if ctx.pid == 0 then (forget k, 0) else exit_into now clock k.buffer k

    -- `try_handle_fork`, by what it reads of the child.
    unfoldable pub try_handle_fork : ℕ → Option ℕ → Option ℕ → Kernel → Kernel × ℕ
    try_handle_fork now none comm k = (k, 1)
    try_handle_fork now (some child_pid) none k = (k, 1)
    try_handle_fork now (some child_pid) (some comm) k = (
      submit_event_direct
          (record {
            pid = child_pid;
            ppid = ctx.pid;
            uid = ctx.uid_gid % u32_mod;
            gid = ctx.uid_gid / u32_mod;
            event_type = event_type_code EventType.fork;
            ts_ns = now;
            seq = 0;
            comm = comm;
            exit_time_ns = 0;
            cpu_pct_milli = percent_milli_unknown;
            mem_pct_milli = percent_milli_unknown;
            payload = 0;
            payload2 = 0;
            aux = 0;
            aux2 = 0;
          })
          k,
      0,
    )

    -- No program for block devices submits anything.
    pub emit_block_event_common-silent :
        (now clock : ℕ) (op : BlockOp) (dev sector sectors : ℕ) (bytes_override : Option ℕ)
        (k : Kernel)
        → emit_block_event_common now clock op dev sector sectors bytes_override k ≡ (k, 0)
    unfolding emit_block_event_common emit_activity_event
    emit_block_event_common-silent now clock op dev sector sectors bytes_override k = ground arith

-- ===== src/Alerts/Detect.antt =====
-- cognitod/src/alerts.rs: what `on_event` and `on_snapshot` record, and what each detector finds before
-- anything is emitted. A message is kept as its parts.
use mathlib.Core.List.{reverse}
use linnix.Prelude.{
  ℕ, ◌-◌, ◌/◌, max, Bool, true, false, ◌&&◌, not, Option, none, some, String, List, [], ◌∷◌, ◌++◌,
  map, length, ltb, leb, if◌then◌else◌,
}
use linnix.Prelude.Keys.{◌==◌, nat_eq, string_eq}
use linnix.Prelude.Assoc.{Assoc, lookup, insert, erase}
use linnix.Protocol.{ProcessEvent, EventType, event_type_code}
use linnix.Alerts.Rules.{Windows}
use linnix.Alerts.Queues.{
  from_secs, trim_instant_queue, trim_completion_queue, take_while, sort_unstable, at_index,
  RuleState,
}

-- What the code does with `f32`: a count of thousandths as a number, the comparison `>`, the share of the
-- memory in megabytes, and rounding.
pub record Floats (Float : Type 0) : Type 0 where
  pub thousandths : ℕ → Float
  pub above : Float → Float → Bool
  pub share_in_mb : Float → ℕ → ℕ
  pub rounded : Float → ℕ

-- The pressures of `SystemSnapshot` (cognitod/src/types.rs) that the rules read.
pub record SystemSnapshot (Float : Type 0) : Type 0 where
  pub psi_cpu_some_avg10 : Float
  pub psi_memory_full_avg10 : Float
  pub psi_io_full_avg10 : Float

pub data Message (Float : Type 0) : Type 0 where
  fork_rate_exceeded : (threshold : ℕ) → Message Float
  forks_in : (count window_seconds : ℕ) → Message Float
  exec_rate_exceeded : (rate_per_min : ℕ) → Message Float
  short_lived_execs : (threshold max_exec_duration_ms window_seconds : ℕ) → Message Float
  ppid_spawned : (ppid count window_seconds : ℕ) → Message Float
  cpu_pct_over : (threshold : Float) (duration : ℕ) → Message Float
  rss_mb_over : (threshold duration : ℕ) → Message Float
  cpu_psi : (current threshold : Float) (duration : ℕ) → Message Float
  memory_psi : (current threshold : Float) (duration : ℕ) → Message Float
  io_psi : (current threshold : Float) (duration : ℕ) → Message Float

abbrev pub is_kind : EventType → ProcessEvent → Bool
is_kind kind event = event.event_type == event_type_code kind

-- `entry(ppid).or_insert_with(VecDeque::new)`
abbrev pub queue_of : ℕ → Assoc ℕ (List ℕ) → List ℕ
queue_of ppid queues = elim (lookup ppid queues) [ none ↦ [] | some queue ↦ queue ]

abbrev pub is_empty {ℓ} : {A : Type ℓ} → List A → Bool
is_empty [] = true
is_empty (x ∷ xs) = false

abbrev pub record_child_fork : Windows → ProcessEvent → ℕ → Assoc ℕ (List ℕ) → Assoc ℕ (List ℕ)
record_child_fork windows event now queues =
    let queue =
      trim_instant_queue (queue_of event.ppid queues ++ now ∷ [])
        (from_secs (max windows.runaway_window_secs 1)) now in
    let queues = insert event.ppid queue queues in
    if is_empty queue then erase event.ppid queues else queues

abbrev pub record_fork : Windows → ProcessEvent → ℕ → RuleState → RuleState
record_fork windows event now s = record s {
  fork_events =
      trim_instant_queue (s.fork_events ++ now ∷ []) (from_secs (max windows.fork_window_secs 1))
        now;
  forks_by_ppid =
      if ltb 0 windows.runaway_window_secs
      then record_child_fork windows event now s.forks_by_ppid
      else s.forks_by_ppid;
}

abbrev pub record_exec : Windows → ProcessEvent → ℕ → RuleState → RuleState
record_exec windows event now s = record s {
  exec_events =
      trim_instant_queue (s.exec_events ++ now ∷ []) (from_secs (max windows.exec_window_secs 1))
        now;
  exec_start = insert event.pid now s.exec_start;
}

abbrev pub record_exit : Windows → ProcessEvent → ℕ → RuleState → RuleState
record_exit windows event now s = elim (lookup event.pid s.exec_start) [
  | none ↦ s
  | some start ↦ record s {
    exec_start = erase event.pid s.exec_start;
    exec_completions =
        trim_completion_queue (s.exec_completions ++ (now, now - start) ∷ [])
          (from_secs (max windows.completion_window_secs 1)) now;
  }
]

-- The first half of `on_event`.
unfoldable pub record_event : Windows → ProcessEvent → ℕ → RuleState → RuleState
record_event windows event now s =
    if is_kind EventType.fork event
    then record_fork windows event now s
    else if is_kind EventType.exec event
    then record_exec windows event now s
    else if is_kind EventType.exit event
    then record_exit windows event now s
    else s

-- Where a value has been above its threshold since the moment kept under the name: what is kept then, and
-- whether it is so for longer than `duration` seconds.
abbrev pub since : String → ℕ → Assoc String ℕ → ℕ
since name now starts = elim (lookup name starts) [ none ↦ now | some start ↦ start ]

unfoldable pub exceed : String → Bool → ℕ → ℕ → Assoc String ℕ → Assoc String ℕ × Bool
exceed name over duration now starts =
    let start = since name now starts in
    if over
    then if ltb (from_secs duration) (now - start)
      then (erase name starts, true)
      else (insert name start starts, false)
    else (erase name starts, false)

-- The same for the pressures: for `duration` whole seconds at least.
unfoldable pub sustained : String → Bool → ℕ → ℕ → Assoc String ℕ → Assoc String ℕ × Bool
sustained name over duration now starts =
    let start = since name now starts in
    if over
    then if leb duration ((now - start) / 1000000000)
      then (erase name starts, true)
      else (insert name start starts, false)
    else (erase name starts, false)

-- The lifetimes, in seconds, of the execs completed within the last minute, the newest first.
abbrev pub recent_lifetimes : List (ℕ × ℕ) → ℕ → List ℕ
recent_lifetimes completions now =
    map (λ c. c.1 / 1000000000)
      (take_while (λ c. leb (now - c.0) (from_secs 60)) (reverse completions))

abbrev pub exec_rate_met : ℕ → ℕ → ℕ → RuleState → Bool
exec_rate_met rate_per_min median_lifetime now s =
    let durations = recent_lifetimes s.exec_completions now in
    leb rate_per_min (length s.exec_events)
    && not (is_empty durations)
    && leb (at_index (length durations / 2) (sort_unstable durations)) median_lifetime

abbrev pub when {ℓ} : {A : Type ℓ} → Bool → A → Option A
when true a = some a
when false a = none

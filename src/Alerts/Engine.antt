-- ===== src/Alerts/Engine.antt =====
-- cognitod/src/alerts.rs: `emit_alert` and the two handlers of the rule engine. The alerts that are
-- written to the file, sent and counted are one list, the newest first, each with the moment of its
-- emission and the rule that it comes from. `clock k` is the clock as it is read when
-- the rule at position `k` emits. A handler is one step: the calls of another task while an alert is
-- being written are not interleaved with it.
use linnix.Prelude.{
  ℕ, ◌+◌, suc, max, Bool, false, ◌&&◌, Option, none, some, String, List, [], ◌∷◌, ltb, leb,
  if◌then◌else◌,
}
use linnix.Prelude.Keys.{◌==◌, nat_eq, string_eq}
use linnix.Prelude.Assoc.{lookup, insert}
use linnix.Prelude.Words.{saturating_mul}
use linnix.Protocol.{ProcessEvent, EventType, percent_milli_unknown}
use linnix.Alerts.Rules.{Detector, RuleConfig, Severity, Windows, windows_of}
use linnix.Alerts.Queues.{from_secs, from_millis, count_recent, short_jobs, RuleState, no_state}
use linnix.Alerts.Detect.{
  Floats, SystemSnapshot, Message, is_kind, record_event, exceed, sustained, exec_rate_met, when,
}
use Prim.Native.String.{◌++◌}
use mathlib.Core.List.{reverse}

pub record RuleEngine (Float : Type 0) : Type 0 where
  pub rules : List (RuleConfig Float)
  pub windows : Windows
  pub total_memory_bytes : Option ℕ
  pub host : String

-- What `from_path` keeps of the rules it has parsed.
abbrev pub engine_of :
    {Float : Type 0} → List (RuleConfig Float) → Option ℕ → String → RuleEngine Float
engine_of rules total_memory_bytes host = record {
  rules = rules;
  windows = windows_of rules;
  total_memory_bytes = total_memory_bytes;
  host = host;
}

pub record Alert (Float : Type 0) : Type 0 where
  pub rule : String
  pub severity : Severity
  pub message : Message Float
  pub host : String

pub record Emission (Float : Type 0) : Type 0 where
  pub emitted_at : ℕ
  pub by : RuleConfig Float
  pub alert : Alert Float

pub record World (Float : Type 0) : Type 0 where
  pub state : RuleState
  pub emitted : List (Emission Float)

abbrev pub cooldown_ns : ℕ → ℕ
cooldown_ns cooldown = if cooldown == 0 then from_millis 100 else from_secs cooldown

abbrev pub quiet : Option ℕ → ℕ → Bool
quiet none now = false
quiet (some until) now = leb now until

module _ {Float : Type 0} where
  abbrev pub no_world : World Float
  no_world = record { state = no_state; emitted = [] }

  abbrev pub key_of : RuleEngine Float → RuleConfig Float → String
  key_of engine rule = engine.host ++ (":" ++ rule.name)

  abbrev pub issue :
      RuleEngine Float → RuleConfig Float → Message Float → ℕ → World Float → World Float
  issue engine rule message now w = record {
    state = record w.state {
      active = insert (key_of engine rule) (now + cooldown_ns rule.cooldown) w.state.active;
    };
    emitted =
        record {
          emitted_at = now;
          by = rule;
          alert = record {
            rule = rule.name;
            severity = rule.severity;
            message = message;
            host = engine.host;
          };
        }
        ∷ w.emitted;
  }

  unfoldable pub emit_alert :
      RuleEngine Float → RuleConfig Float → Message Float → ℕ → World Float → World Float
  emit_alert engine rule message now w =
      if quiet (lookup (key_of engine rule) w.state.active) now
      then w
      else issue engine rule message now w

  -- The queues that `ExecRate` empties once it has emitted.
  abbrev pub after_emission : Detector Float → World Float → World Float
  after_emission (Detector.exec_rate r n m) w = record w {
    state = record w.state { exec_events = []; exec_completions = [] };
  }
  after_emission other w = w

module _ {Float : Type 0} (floats : Floats Float) (engine : RuleEngine Float) where
  -- `event.cpu_percent()`, and `event.mem_percent()`
  abbrev percent : ℕ → Option Float
  percent milli = if milli == percent_milli_unknown then none else some (floats.thousandths milli)

  abbrev used_mb : Float → ℕ
  used_mb percent = elim engine.total_memory_bytes [
    | none ↦ floats.rounded percent
    | some total_bytes ↦ floats.share_in_mb percent total_bytes
  ]

  abbrev pub watch_cpu :
      String → Option Float → Float → ℕ → ℕ → RuleState → RuleState × Option (Message Float)
  watch_cpu name none threshold duration now s = (s, none)
  watch_cpu name (some cpu) threshold duration now s =
      let (starts, fires) = exceed name (floats.above cpu threshold) duration now s.cpu_exceed in
      (record s { cpu_exceed = starts }, when fires (Message.cpu_pct_over threshold duration))

  abbrev pub watch_rss :
      String → Option Float → ℕ → ℕ → ℕ → RuleState → RuleState × Option (Message Float)
  watch_rss name none threshold duration now s = (s, none)
  watch_rss name (some percent) threshold duration now s =
      let (starts, fires) =
        exceed name (ltb threshold (used_mb percent)) duration now s.rss_exceed in
      (record s { rss_exceed = starts }, when fires (Message.rss_mb_over threshold duration))

  abbrev pub watch_tree : ℕ → Option (List ℕ) → ℕ → ℕ → ℕ → Option (Message Float)
  watch_tree ppid none threshold window now = none
  watch_tree ppid (some queue) threshold window now =
      let count = count_recent queue (from_secs window) now in
      when (leb threshold count) (Message.ppid_spawned ppid count window)

  -- One round of the loop of `on_event`, up to the emission.
  unfoldable pub detect :
      ProcessEvent → ℕ → RuleConfig Float → RuleState → RuleState × Option (Message Float)
  detect event now rule s = elim rule.detector [
    | Detector.forks_per_sec threshold duration ↦
        let count = count_recent s.fork_events (from_secs duration) now in
        let target = saturating_mul threshold duration in
        (
          s,
          when (is_kind EventType.fork event && leb (max target threshold) count)
              (Message.fork_rate_exceeded threshold),
        )
    | Detector.fork_burst threshold window ↦
        let count = count_recent s.fork_events (from_secs window) now in
        (
          s,
          when (is_kind EventType.fork event && leb threshold count)
              (Message.forks_in count window),
        )
    | Detector.exec_rate regex rate_per_min median_lifetime ↦ (
      s,
      when (is_kind EventType.exec event && exec_rate_met rate_per_min median_lifetime now s)
          (Message.exec_rate_exceeded rate_per_min),
    )
    | Detector.short_job_flood threshold window max_exec_duration_ms ↦ (
      s,
      when
          (is_kind EventType.exit event
            && short_jobs threshold (from_secs window) (from_millis max_exec_duration_ms) now 0
                (reverse s.exec_completions))
          (Message.short_lived_execs threshold max_exec_duration_ms window),
    )
    | Detector.runaway_tree threshold window ↦ (
      s,
      if is_kind EventType.fork event
          then watch_tree event.ppid (lookup event.ppid s.forks_by_ppid) threshold window now
          else none,
    )
    | Detector.subtree_cpu_pct threshold duration ↦
        watch_cpu rule.name (percent event.cpu_pct_milli) threshold duration now s
    | Detector.subtree_rss_mb threshold duration ↦
        watch_rss rule.name (percent event.mem_pct_milli) threshold duration now s
    | Detector.zombie_count threshold duration ↦ (s, none)
    | Detector.system_psi_cpu threshold duration ↦ (s, none)
    | Detector.system_psi_memory threshold duration ↦ (s, none)
    | Detector.system_psi_io threshold duration ↦ (s, none)
  ]

  abbrev pub watch_pressure :
      String
      → Float
      → Float
      → ℕ
      → Message Float
      → ℕ
      → RuleState
      → RuleState × Option (Message Float)
  watch_pressure name current threshold duration message now s =
      let (starts, fires) =
        sustained name (floats.above current threshold) duration now s.psi_breach in
      (record s { psi_breach = starts }, when fires message)

  -- One round of the loop of `on_snapshot`, up to the emission.
  unfoldable pub detect_pressure :
      SystemSnapshot Float → ℕ → RuleConfig Float → RuleState → RuleState × Option (Message Float)
  detect_pressure snapshot now rule s = elim rule.detector [
    | Detector.system_psi_cpu threshold duration ↦
        let current = snapshot.psi_cpu_some_avg10 in
        watch_pressure rule.name current threshold duration
          (Message.cpu_psi current threshold duration) now s
    | Detector.system_psi_memory threshold duration ↦
        let current = snapshot.psi_memory_full_avg10 in
        watch_pressure rule.name current threshold duration
          (Message.memory_psi current threshold duration) now s
    | Detector.system_psi_io threshold duration ↦
        let current = snapshot.psi_io_full_avg10 in
        watch_pressure rule.name current threshold duration
          (Message.io_psi current threshold duration) now s
    | other ↦ (s, none)
  ]

  abbrev pub emit_found : RuleConfig Float → Option (Message Float) → ℕ → World Float → World Float
  emit_found rule none now w = w
  emit_found rule (some message) now w =
      after_emission rule.detector (emit_alert engine rule message now w)

  unfoldable pub over_rules :
      (RuleConfig Float → RuleState → RuleState × Option (Message Float))
      → (ℕ → ℕ)
      → ℕ
      → List (RuleConfig Float)
      → World Float
      → World Float
  over_rules find clock k [] w = w
  over_rules find clock k (rule ∷ rules) w =
      let (s, found) = find rule w.state in
      over_rules find clock (suc k) rules (emit_found rule found (clock k) (record w { state = s }))

  unfoldable pub on_event : ProcessEvent → ℕ → (ℕ → ℕ) → World Float → World Float
  on_event event now clock w =
      over_rules (detect event now) clock 0 engine.rules
        (record w { state = record_event engine.windows event now w.state })

  unfoldable pub on_snapshot : SystemSnapshot Float → ℕ → (ℕ → ℕ) → World Float → World Float
  on_snapshot snapshot now clock w =
      over_rules (detect_pressure snapshot now) clock 0 engine.rules w

-- ===== src/Alerts/Rules.antt =====
-- cognitod/src/alerts.rs: the rules, as they are read and as they are kept, and the windows of time that
-- `RuleEngine::from_path` derives from them. `Float` stands for `f32`.
use linnix.Prelude.{ℕ, max, Bool, Option, none, some, String, List, [], ◌∷◌, map, if◌then◌else◌}
use linnix.Prelude.Keys.{◌==◌, nat_eq, string_eq}
use linnix.Prelude.Results.{Result, ok, err}

pub data Severity : Type 0 where
  info low medium high : Severity

-- `Severity::from_str`, with `str::to_lowercase`.
abbrev pub severity_from_str : (String → String) → String → Severity
severity_from_str to_lowercase s =
    let lower = to_lowercase s in
    if lower == "low"
    then low
    else if lower == "medium"
    then medium
    else if lower == "high"
    then high
    else info

-- `Severity::as_str`
abbrev pub severity_as_str : Severity → String
severity_as_str info = "info"
severity_as_str low = "low"
severity_as_str medium = "medium"
severity_as_str high = "high"

pub data Detector (Float : Type 0) : Type 0 where
  forks_per_sec : (threshold duration : ℕ) → Detector Float
  fork_burst : (threshold window_seconds : ℕ) → Detector Float
  exec_rate : (regex : String) (rate_per_min median_lifetime : ℕ) → Detector Float
  short_job_flood : (threshold window_seconds max_exec_duration_ms : ℕ) → Detector Float
  runaway_tree : (threshold window_seconds : ℕ) → Detector Float
  subtree_cpu_pct : (threshold : Float) (duration : ℕ) → Detector Float
  subtree_rss_mb : (threshold duration : ℕ) → Detector Float
  zombie_count : (threshold duration : ℕ) → Detector Float
  system_psi_cpu : (threshold_pct : Float) (duration : ℕ) → Detector Float
  system_psi_memory : (threshold_pct : Float) (duration : ℕ) → Detector Float
  system_psi_io : (threshold_pct : Float) (duration : ℕ) → Detector Float

pub record RuleConfig (Float : Type 0) : Type 0 where
  pub name : String
  pub severity : Severity
  pub cooldown : ℕ
  pub detector : Detector Float

pub data RawDetector (Float : Type 0) : Type 0 where
  fork_burst : (threshold window_seconds : ℕ) → RawDetector Float
  short_job_flood : (threshold window_seconds max_exec_duration_ms : ℕ) → RawDetector Float
  runaway_tree : (threshold window_seconds : ℕ) → RawDetector Float
  forks_per_sec : (threshold duration : ℕ) → RawDetector Float
  exec_rate : (regex : String) (rate_per_min median_lifetime : ℕ) → RawDetector Float
  subtree_cpu_pct : (threshold : Float) (duration : ℕ) → RawDetector Float
  subtree_rss_mb : (threshold duration : ℕ) → RawDetector Float
  zombie_count : (threshold duration : ℕ) → RawDetector Float
  system_psi_cpu : (threshold_pct : Float) (duration : ℕ) → RawDetector Float
  system_psi_memory : (threshold_pct : Float) (duration : ℕ) → RawDetector Float
  system_psi_io : (threshold_pct : Float) (duration : ℕ) → RawDetector Float

pub record RawRule (Float : Type 0) : Type 0 where
  pub name : String
  pub severity : Option String
  pub cooldown : Option ℕ
  pub detector : RawDetector Float

abbrev pub default_cooldown_secs : ℕ
default_cooldown_secs = 60

-- `default_short_job_duration_ms`, which the parser puts where the field is missing.
abbrev pub default_short_job_duration_ms : ℕ
default_short_job_duration_ms = 1000

abbrev severity_of : (String → String) → Option String → Severity
severity_of to_lowercase none = info
severity_of to_lowercase (some s) = severity_from_str to_lowercase s

abbrev cooldown_of : Option ℕ → ℕ
cooldown_of none = default_cooldown_secs
cooldown_of (some secs) = secs

module _ {Float : Type 0} where
  unfoldable pub detector_of : RawDetector Float → Detector Float
  detector_of (RawDetector.fork_burst n w) = Detector.fork_burst n w
  detector_of (RawDetector.short_job_flood n w d) = Detector.short_job_flood n w d
  detector_of (RawDetector.runaway_tree n w) = Detector.runaway_tree n w
  detector_of (RawDetector.forks_per_sec n d) = Detector.forks_per_sec n d
  detector_of (RawDetector.exec_rate r n m) = Detector.exec_rate r n m
  detector_of (RawDetector.subtree_cpu_pct p d) = Detector.subtree_cpu_pct p d
  detector_of (RawDetector.subtree_rss_mb n d) = Detector.subtree_rss_mb n d
  detector_of (RawDetector.zombie_count n d) = Detector.zombie_count n d
  detector_of (RawDetector.system_psi_cpu p d) = Detector.system_psi_cpu p d
  detector_of (RawDetector.system_psi_memory p d) = Detector.system_psi_memory p d
  detector_of (RawDetector.system_psi_io p d) = Detector.system_psi_io p d

  -- `RuleConfig::try_from`, which refuses nothing.
  unfoldable pub try_from : (String → String) → RawRule Float → RuleConfig Float
  try_from to_lowercase raw = record {
    name = raw.name;
    severity = severity_of to_lowercase raw.severity;
    cooldown = cooldown_of raw.cooldown;
    detector = detector_of raw.detector;
  }

-- The windows, in seconds, for which the engine keeps what it saw.
pub record Windows : Type 0 where
  pub fork_window_secs : ℕ
  pub exec_window_secs : ℕ
  pub completion_window_secs : ℕ
  pub runaway_window_secs : ℕ

abbrev pub first_windows : Windows
first_windows = record {
  fork_window_secs = 0;
  exec_window_secs = 60;
  completion_window_secs = 60;
  runaway_window_secs = 0;
}

abbrev pub or_default : ℕ → ℕ → ℕ
or_default default n = if n == 0 then default else n

abbrev pub defaults : Windows → Windows
defaults w =
    let fork_window_secs = or_default 5 w.fork_window_secs in
    record w {
      fork_window_secs = fork_window_secs;
      runaway_window_secs = or_default fork_window_secs w.runaway_window_secs;
      completion_window_secs = or_default 60 w.completion_window_secs;
    }

module _ {Float : Type 0} where
  abbrev pub widen : Detector Float → Windows → Windows
  widen (Detector.forks_per_sec n d) w = record w { fork_window_secs = max w.fork_window_secs d }
  widen (Detector.fork_burst n s) w = record w { fork_window_secs = max w.fork_window_secs s }
  widen (Detector.runaway_tree n s) w = record w {
    fork_window_secs = max w.fork_window_secs s;
    runaway_window_secs = max w.runaway_window_secs s;
  }
  widen (Detector.short_job_flood n s m) w = record w {
    completion_window_secs = max w.completion_window_secs s;
  }
  widen (Detector.exec_rate r n m) w = record w {
    completion_window_secs = max w.completion_window_secs 60;
  }
  widen other w = w

  -- The loop over the rules, from the windows so far.
  unfoldable pub widen_all : List (RuleConfig Float) → Windows → Windows
  widen_all [] w = w
  widen_all (cfg ∷ cfgs) w = widen_all cfgs (widen cfg.detector w)

  -- The windows of `RuleEngine::from_path`.
  unfoldable pub windows_of : List (RuleConfig Float) → Windows
  windows_of cfgs = defaults (widen_all cfgs first_windows)

-- `parse_rules`, with `trim().is_empty()` as `blank` and the two readers of a document as parameters.
pub data RuleFormat : Type 0 where
  toml yaml : RuleFormat

-- `RuleFormat::as_str`
abbrev pub format_as_str : RuleFormat → String
format_as_str toml = "toml"
format_as_str yaml = "yaml"

-- The order in which the formats are tried, by the file's extension in lower case.
abbrev pub preferred : Option String → List RuleFormat
preferred none = toml ∷ yaml ∷ []
preferred (some hint) =
    if hint == "yaml"
    then yaml ∷ toml ∷ []
    else if hint == "yml"
    then yaml ∷ toml ∷ []
    else toml ∷ yaml ∷ []

module _ {Float Failure : Type 0} (to_lowercase to_ascii_lowercase : String → String)
    (blank : String → Bool)
    (read : RuleFormat → String → Result Failure (List (RawRule Float))) where
  abbrev parse_rules_with_format : RuleFormat → String → Result Failure (List (RuleConfig Float))
  parse_rules_with_format format text = elim (read format text) [
    | ok raw ↦ ok (map (try_from to_lowercase) raw)
    | err e ↦ err e
  ]

  -- The first format that can be read, or what each of them said, in order.
  unfoldable pub try_formats :
      List RuleFormat → String → Result (List (RuleFormat × Failure)) (List (RuleConfig Float))
  try_formats [] text = err []
  try_formats (format ∷ rest) text = elim (parse_rules_with_format format text) [
    | ok cfgs ↦ ok cfgs
    | err e ↦ elim (try_formats rest text) [ ok cfgs ↦ ok cfgs | err es ↦ err ((format, e) ∷ es) ]
  ]

  unfoldable pub parse_rules :
      String → Option String → Result (List (RuleFormat × Failure)) (List (RuleConfig Float))
  parse_rules text none = if blank text then ok [] else try_formats (preferred none) text
  parse_rules text (some hint) =
      if blank text then ok [] else try_formats (preferred (some (to_ascii_lowercase hint))) text

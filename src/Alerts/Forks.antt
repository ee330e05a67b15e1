-- ===== src/Alerts/Forks.antt =====
-- cognitod/src/alerts.rs: the two fork detectors count every fork there was, though the queue is trimmed.
use linnix.Prelude.{
  ℕ, suc, ◌≤◌, ◌≡◌, refl, ◌∙◌, ap, max, Bool, true, false, Option, none, List, [], ◌∷◌, ◌++◌, leb,
  arith,
}
use linnix.Prelude.Keys.{nat_eq}
use linnix.Prelude.Words.{saturating_mul}
use linnix.Protocol.{ProcessEvent, EventType}
use linnix.Alerts.Rules.{Detector, RuleConfig, Windows, widen, widen_all, first_windows, windows_of}
use linnix.Alerts.Queues.{RuleState, from_secs, trim_instant_queue, count_recent}
use linnix.Alerts.Detect.{Floats, SystemSnapshot, Message, is_kind, record_event, when}
use linnix.Alerts.Engine.{
  RuleEngine, engine_of, World, no_world, emit_alert, emit_found, detect, detect_pressure,
  over_rules, on_event, on_snapshot,
}
use linnix.Alerts.Counting.{
  within, Ascending, Below, trim-trim, count_recent-trim, Ascending-snoc, Below-later, Below-now,
}

-- The windows are never narrower than a rule asks for.
module _ {Float : Type 0} where
  -- The forks that a detector looks back for, in seconds.
  abbrev pub fork_window : Detector Float → ℕ
  fork_window (Detector.forks_per_sec n d) = d
  fork_window (Detector.fork_burst n s) = s
  fork_window other = 0

  widen-grows :
      (d : Detector Float) (w : Windows)
      → (w.fork_window_secs ≤ (widen d w).fork_window_secs)
        × (fork_window d ≤ (widen d w).fork_window_secs)
  widen-grows d w = ground arith

  widen_all-grows :
      (cfgs : List (RuleConfig Float)) (w : Windows)
      → w.fork_window_secs ≤ (widen_all cfgs w).fork_window_secs
  unfolding widen_all
  widen_all-grows [] w = omega arith
  widen_all-grows (cfg ∷ cfgs) w =
      omega (arith, widen_all-grows cfgs (widen cfg.detector w), (widen-grows cfg.detector w).0)

  widen_all-covers :
      (before after : List (RuleConfig Float)) (rule : RuleConfig Float) (w : Windows)
      → fork_window rule.detector ≤ (widen_all (before ++ rule ∷ after) w).fork_window_secs
  unfolding widen_all
  widen_all-covers [] after rule w =
      omega (arith, widen_all-grows after (widen rule.detector w), (widen-grows rule.detector w).1)
  widen_all-covers (cfg ∷ before) after rule w =
      widen_all-covers before after rule (widen cfg.detector w)

  windows_of-covers :
      (before after : List (RuleConfig Float)) (rule : RuleConfig Float)
      → fork_window rule.detector ≤ (windows_of (before ++ rule ∷ after)).fork_window_secs
  unfolding windows_of
  windows_of-covers before after rule =
      ground (arith, widen_all-covers before after rule first_windows)

  emit_found-fork_events :
      (floats : Floats Float) (engine : RuleEngine Float) (rule : RuleConfig Float)
      (found : Option (Message Float)) (now : ℕ) (w : World Float)
      → (emit_found floats engine rule found now w).state.fork_events ≡ w.state.fork_events
  unfolding emit_alert
  emit_found-fork_events floats engine rule found now w = ground arith

module _ {Float : Type 0} (floats : Floats Float) (engine : RuleEngine Float) where
  detect-fork_events :
      (event : ProcessEvent) (now : ℕ) (rule : RuleConfig Float) (s : RuleState)
      → (detect floats engine event now rule s).0.fork_events ≡ s.fork_events
  unfolding detect
  detect-fork_events event now rule s = ground arith

  detect_pressure-fork_events :
      (snapshot : SystemSnapshot Float) (now : ℕ) (rule : RuleConfig Float) (s : RuleState)
      → (detect_pressure floats engine snapshot now rule s).0.fork_events ≡ s.fork_events
  unfolding detect_pressure
  detect_pressure-fork_events snapshot now rule s = ground arith

  over_rules-fork_events :
      (find : RuleConfig Float → RuleState → RuleState × Option (Message Float)) (clock : ℕ → ℕ)
      → ((rule : RuleConfig Float) (s : RuleState) → (find rule s).0.fork_events ≡ s.fork_events)
      → (k : ℕ) (rules : List (RuleConfig Float)) (w : World Float)
      → (over_rules floats engine find clock k rules w).state.fork_events ≡ w.state.fork_events
  unfolding over_rules
  over_rules-fork_events find clock keeps k [] w = refl
  over_rules-fork_events find clock keeps k (rule ∷ rules) w =
      let s = find rule w.state in
      let w' = record w { state = s.0 } in
      over_rules-fork_events find clock keeps (suc k) rules
        (emit_found floats engine rule s.1 (clock k) w')
      ∙ emit_found-fork_events floats engine rule s.1 (clock k) w'
      ∙ keeps rule w.state

  abbrev keep : ℕ
  keep = from_secs (max engine.windows.fork_window_secs 1)

  -- The engine has handled events and snapshots, read in the order of the clock: the forks among them
  -- came at the moments of the history, the oldest first, and the last call at `last`.
  pub data Handled : World Float → List ℕ → ℕ → Type 0 where
    nothing : Handled no_world [] 0
    a_fork :
        {w : World Float} {history : List ℕ} {last : ℕ}
        → Handled w history last
        → (e : ProcessEvent) (now : ℕ) (clock : ℕ → ℕ) → last ≤ now
        → is_kind EventType.fork e ≡ true
        → Handled (on_event floats engine e now clock w) (history ++ now ∷ []) now
    no_fork :
        {w : World Float} {history : List ℕ} {last : ℕ}
        → Handled w history last
        → (e : ProcessEvent) (now : ℕ) (clock : ℕ → ℕ) → last ≤ now
        → is_kind EventType.fork e ≡ false
        → Handled (on_event floats engine e now clock w) history now
    a_snapshot :
        {w : World Float} {history : List ℕ} {last : ℕ}
        → Handled w history last
        → (s : SystemSnapshot Float) (now : ℕ) (clock : ℕ → ℕ) → last ≤ now
        → Handled (on_snapshot floats engine s now clock w) history now

  Trimmed : World Float → List ℕ → ℕ → Type 0
  Trimmed w history last =
      (at : ℕ) × Ascending history
      × Below last history
      × (at ≤ last)
      × (w.state.fork_events ≡ trim_instant_queue history keep at)

  record_event-fork :
      (e : ProcessEvent) (now : ℕ) (s : RuleState)
      → is_kind EventType.fork e ≡ true
      → (record_event engine.windows e now s).fork_events
        ≡ trim_instant_queue (s.fork_events ++ now ∷ []) keep now
  unfolding record_event
  record_event-fork e now s fork = ground arith

  record_event-other :
      (e : ProcessEvent) (now : ℕ) (s : RuleState)
      → is_kind EventType.fork e ≡ false
      → (record_event engine.windows e now s).fork_events ≡ s.fork_events
  unfolding record_event
  record_event-other e now s other = ground arith

  on_event-fork_events :
      (e : ProcessEvent) (now : ℕ) (clock : ℕ → ℕ) (w : World Float)
      → (on_event floats engine e now clock w).state.fork_events
        ≡ (record_event engine.windows e now w.state).fork_events
  unfolding on_event
  on_event-fork_events e now clock w =
      over_rules-fork_events (detect floats engine e now) clock (detect-fork_events e now) 0
        engine.rules (record w { state = record_event engine.windows e now w.state })

  on_snapshot-fork_events :
      (s : SystemSnapshot Float) (now : ℕ) (clock : ℕ → ℕ) (w : World Float)
      → (on_snapshot floats engine s now clock w).state.fork_events ≡ w.state.fork_events
  unfolding on_snapshot
  on_snapshot-fork_events s now clock w =
      over_rules-fork_events (detect_pressure floats engine s now) clock
        (detect_pressure-fork_events s now) 0 engine.rules w

  -- What a fork leaves in the queue is what trimming all the forks leaves.
  record_event-trim_instant_queue :
      (w : World Float) (history : List ℕ) (last : ℕ)
      → Trimmed w history last
      → (e : ProcessEvent) (now : ℕ) → last ≤ now
      → is_kind EventType.fork e ≡ true
      → (record_event engine.windows e now w.state).fork_events
        ≡ trim_instant_queue (history ++ now ∷ []) keep now
  unfolding Trimmed
  record_event-trim_instant_queue w history last (at, asc, below, early, queue) e now later fork =
      record_event-fork e now w.state fork
      ∙ ap (λ q. trim_instant_queue (q ++ now ∷ []) keep now) queue
      ∙ trim-trim keep at now (omega (arith, early, later)) history

  Handled-Trimmed :
      (w : World Float) (history : List ℕ) (last : ℕ)
      → Handled w history last
      → Trimmed w history last
  unfolding Trimmed trim_instant_queue
  Handled-Trimmed _ _ _ nothing = (0, tt, tt, omega arith, refl)
  Handled-Trimmed _ _ _ (a_fork {w} {history} {last} handled e now clock later fork) =
      let t = Handled-Trimmed w history last handled in
      let below = Below-later last now later history t.2 in
      (
        now,
        Ascending-snoc history now t.1 below,
        Below-now now history below,
        omega arith,
        on_event-fork_events e now clock w
            ∙ record_event-trim_instant_queue w history last t e now later fork,
      )
  Handled-Trimmed _ _ _ (no_fork {w} {history} {last} handled e now clock later other) =
      let t = Handled-Trimmed w history last handled in
      (
        t.0,
        t.1,
        Below-later last now later history t.2,
        omega (arith, t.3, later),
        on_event-fork_events e now clock w ∙ record_event-other e now w.state other ∙ t.4,
      )
  Handled-Trimmed _ _ _ (a_snapshot {w} {history} {last} handled s now clock later) =
      let t = Handled-Trimmed w history last handled in
      (
        t.0,
        t.1,
        Below-later last now later history t.2,
        omega (arith, t.3, later),
        on_snapshot-fork_events s now clock w ∙ t.4,
      )

  -- What a fork detector is to find, told by the number of forks within so many seconds.
  abbrev pub fork_finding : Detector Float → (ℕ → ℕ) → Option (Message Float)
  fork_finding (Detector.forks_per_sec threshold duration) forks =
      when (leb (max (saturating_mul threshold duration) threshold) (forks duration))
        (Message.fork_rate_exceeded threshold)
  fork_finding (Detector.fork_burst threshold window) forks =
      when (leb threshold (forks window)) (Message.forks_in (forks window) window)
  fork_finding other forks = none

  abbrev pub counts_forks : Detector Float → Bool
  counts_forks (Detector.forks_per_sec threshold duration) = true
  counts_forks (Detector.fork_burst threshold window) = true
  counts_forks other = false

  detect-count_recent :
      (e : ProcessEvent) (now : ℕ) (rule : RuleConfig Float) (s : RuleState)
      → is_kind EventType.fork e ≡ true
      → counts_forks rule.detector ≡ true
      → (detect floats engine e now rule s).1
        ≡ fork_finding rule.detector (λ secs. count_recent s.fork_events (from_secs secs) now)
  unfolding detect
  detect-count_recent e now rule s fork counts = ground arith

  -- What the finding depends on.
  fork_finding-ext :
      (d : Detector Float) (f g : ℕ → ℕ)
      → f (fork_window d) ≡ g (fork_window d)
      → fork_finding d f ≡ fork_finding d g
  fork_finding-ext d f g same = ground arith

  -- When the engine of `from_path`, after any events and snapshots read in the order of the clock,
  -- handles one more fork and its loop comes to a rule `forks_per_sec` or `fork_burst`, the rule finds
  -- what the number of all the forks there ever were within its window, this one included, tells: the
  -- queue, though trimmed, never lacks a fork that counts, and the rules before do not change it.
  pub detect-within :
      (w : World Float) (history : List ℕ) (last : ℕ)
      → Handled w history last
      → (e : ProcessEvent) (now : ℕ) (clock : ℕ → ℕ) → last ≤ now
      → is_kind EventType.fork e ≡ true
      → (before after : List (RuleConfig Float)) (rule : RuleConfig Float)
      → engine ≡ engine_of (before ++ rule ∷ after) engine.total_memory_bytes engine.host
      → counts_forks rule.detector ≡ true
      → let reached =
          over_rules floats engine
            (detect floats engine e now)
            clock
            0
            before
            (record w { state = record_event engine.windows e now w.state }) in
        (detect floats engine e now rule reached.state).1
        ≡ fork_finding rule.detector (λ secs. within (from_secs secs) now (history ++ now ∷ []))
  unfolding Trimmed
  detect-within w history last handled e now clock later fork before after rule made counts =
      let t = Handled-Trimmed w history last handled in
      let recorded = record w { state = record_event engine.windows e now w.state } in
      let reached = over_rules floats engine (detect floats engine e now) clock 0 before recorded in
      let queue : reached.state.fork_events ≡ trim_instant_queue (history ++ now ∷ []) keep now =
        over_rules-fork_events (detect floats engine e now) clock (detect-fork_events e now) 0
          before recorded
        ∙ record_event-trim_instant_queue w history last t e now later fork in
      let covers : fork_window rule.detector ≤ engine.windows.fork_window_secs =
        rw (ap (λ (m : RuleEngine Float). m.windows) made) (windows_of-covers before after rule) in
      detect-count_recent e now rule reached.state fork counts
      ∙ fork_finding-ext rule.detector
          (λ secs. count_recent reached.state.fork_events (from_secs secs) now)
          (λ secs. within (from_secs secs) now (history ++ now ∷ []))
          (ap (λ q. count_recent q (from_secs (fork_window rule.detector)) now) queue
            ∙ count_recent-trim (from_secs (fork_window rule.detector)) keep now
                (omega (arith, covers)) (history ++ now ∷ [])
                (Ascending-snoc history now t.1 (Below-later last now later history t.2)))

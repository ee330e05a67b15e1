-- ===== src/Alerts/Cooldown.antt =====
-- cognitod/src/alerts.rs: alerts of one name keep their distance, whatever events and snapshots come.
use linnix.Prelude.{
  ℕ, suc, ◌+◌, ◌≤◌, ◌<◌, ◌≡◌, refl, sym, ◌∙◌, ap, inl, inr, false, Bool-cases, Option, none, some,
  String, List, [], ◌∷◌, if◌then◌else◌, arith,
}
use linnix.Prelude.Keys.{◌==◌, string_eq, ==→eq, ==_refl}
use linnix.Prelude.Assoc.{lookup, lookup-insert}
use linnix.Protocol.{ProcessEvent}
use linnix.Alerts.Rules.{Detector, RuleConfig}
use linnix.Alerts.Queues.{RuleState}
use linnix.Alerts.Detect.{Floats, SystemSnapshot, Message, record_event}
use linnix.Alerts.Engine.{
  RuleEngine, World, Emission, no_world, key_of, cooldown_ns, quiet, issue, emit_alert,
  after_emission, emit_found, watch_cpu, watch_rss, detect, detect_pressure, over_rules, on_event,
  on_snapshot,
}

module _ {Float : Type 0} where
  abbrev pub quiet_until : Emission Float → ℕ
  quiet_until e = e.emitted_at + cooldown_ns e.by.cooldown

over_now : (until : ℕ) {now : ℕ} → quiet (some until) now ≡ false → until < now
over_now until loud = ground arith

module _ {Float : Type 0} (floats : Floats Float) (engine : RuleEngine Float) where
  -- Every older alert under the same key was over its cooldown.
  abbrev pub After : Emission Float → List (Emission Float) → Type 0
  After e [] = Unit
  After e (o ∷ older) =
      (key_of engine o.by ≡ key_of engine e.by → quiet_until o < e.emitted_at) × After e older

  abbrev pub Spaced : List (Emission Float) → Type 0
  Spaced [] = Unit
  Spaced (e ∷ older) = After e older × Spaced older

  -- Any sequence of calls of the two handlers, from the engine's first state.
  pub data Reach : World Float → Type 0 where
    here : Reach no_world
    after_event :
        {w : World Float}
        → Reach w
        → (e : ProcessEvent) (now : ℕ) (clock : ℕ → ℕ)
        → Reach (on_event floats engine e now clock w)
    after_snapshot :
        {w : World Float}
        → Reach w
        → (s : SystemSnapshot Float) (now : ℕ) (clock : ℕ → ℕ)
        → Reach (on_snapshot floats engine s now clock w)

  -- The moment until which the alerts so far keep a key quiet: the newest of them under it says so.
  abbrev pub quiet_by : String → List (Emission Float) → Option ℕ
  quiet_by key [] = none
  quiet_by key (e ∷ older) =
      if key_of engine e.by == key then some (quiet_until e) else quiet_by key older

  abbrev pub Mirrors : World Float → Type 0
  Mirrors w = (key : String) → lookup key w.state.active ≡ quiet_by key w.emitted

  Good : World Float → Type 0
  Good w = Spaced w.emitted × Mirrors w

  module _ (rule : RuleConfig Float) (message : Message Float) (now : ℕ) where
    abbrev pub issued : Emission Float
    issued = record {
      emitted_at = now;
      by = rule;
      alert = record {
        rule = rule.name;
        severity = rule.severity;
        message = message;
        host = engine.host;
      };
    }

    older_over-same :
        (o : Emission Float) (older : List (Emission Float))
        → key_of engine o.by ≡ key_of engine rule
        → o.emitted_at ≤ now
        → After o older
        → After issued older
    older_over-same o [] same earlier after = tt
    older_over-same o (p ∷ older) same earlier after =
        ((λ e. omega (arith, after.0 (e ∙ sym same))), older_over-same o older same earlier after.1)

    -- Where the newest entry under the key is over, every one under it is.
    older_over :
        (log : List (Emission Float))
        → Spaced log
        → quiet (quiet_by (key_of engine rule) log) now ≡ false
        → After issued log
    older_over [] spaced loud = tt
    older_over (o ∷ older) spaced loud =
        elim (Bool-cases (key_of engine o.by == key_of engine rule)) [
          | inl e ↦
              let over : quiet_until o < now = over_now (quiet_until o) (rw e at loud) in
              let same = ==→eq (key_of engine o.by) (key_of engine rule) e in
              ((λ h. over), older_over-same o older same (omega (arith, over)) spaced.0)
          | inr e ↦ (
            (λ h. cc (e, ap (λ k. k == key_of engine rule) h, ==_refl (key_of engine rule))),
            older_over older spaced.1 (rw e at loud),
          )
        ]

    issue-Good :
        (w : World Float)
        → Good w
        → quiet (lookup (key_of engine rule) w.state.active) now ≡ false
        → Good (issue engine rule message now w)
    unfolding Good
    issue-Good w good loud = (
      (older_over w.emitted good.0 (rw (good.1 (key_of engine rule)) at loud), good.0),
      λ key.
          lookup-insert (key_of engine rule) key (now + cooldown_ns rule.cooldown) w.state.active
          ∙ ap
              (λ t. if key_of engine rule == key then some (now + cooldown_ns rule.cooldown) else t)
              (good.1 key),
    )

    emit_alert-Good : (w : World Float) → Good w → Good (emit_alert engine rule message now w)
    unfolding emit_alert
    emit_alert-Good w good =
        elim (Bool-cases (quiet (lookup (key_of engine rule) w.state.active) now)) [
          | inl e ↦ rw e good
          | inr e ↦ rw e (issue-Good w good e)
        ]

  after_emission-Good :
      (detector : Detector Float) (w : World Float) → Good w → Good (after_emission detector w)
  unfolding Good
  after_emission-Good (Detector.forks_per_sec n d) w good = good
  after_emission-Good (Detector.fork_burst n s) w good = good
  after_emission-Good (Detector.exec_rate r n m) w good = good
  after_emission-Good (Detector.short_job_flood n s m) w good = good
  after_emission-Good (Detector.runaway_tree n s) w good = good
  after_emission-Good (Detector.subtree_cpu_pct p d) w good = good
  after_emission-Good (Detector.subtree_rss_mb n d) w good = good
  after_emission-Good (Detector.zombie_count n d) w good = good
  after_emission-Good (Detector.system_psi_cpu p d) w good = good
  after_emission-Good (Detector.system_psi_memory p d) w good = good
  after_emission-Good (Detector.system_psi_io p d) w good = good

  active_kept :
      (w : World Float) (s : RuleState)
      → s.active ≡ w.state.active
      → Good w
      → Good (record w { state = s })
  unfolding Good
  active_kept w s kept good = (good.0, λ key. ap (lookup key) kept ∙ good.1 key)

  emit_found-Good :
      (rule : RuleConfig Float) (found : Option (Message Float)) (now : ℕ) (w : World Float)
      → Good w
      → Good (emit_found floats engine rule found now w)
  emit_found-Good rule none now w good = good
  emit_found-Good rule (some message) now w good =
      after_emission-Good rule.detector _ (emit_alert-Good rule message now w good)

  over_rules-Good :
      (find : RuleConfig Float → RuleState → RuleState × Option (Message Float)) (clock : ℕ → ℕ)
      → ((rule : RuleConfig Float) (s : RuleState) → (find rule s).0.active ≡ s.active)
      → (k : ℕ) (rules : List (RuleConfig Float)) (w : World Float) → Good w
      → Good (over_rules floats engine find clock k rules w)
  unfolding over_rules
  over_rules-Good find clock keeps k [] w good = good
  over_rules-Good find clock keeps k (rule ∷ rules) w good =
      over_rules-Good find clock keeps (suc k) rules _ (
        emit_found-Good rule (find rule w.state).1 (clock k)
          (record w { state = (find rule w.state).0 })
          (active_kept w (find rule w.state).0 (keeps rule w.state) good))

  watch_cpu-active :
      (name : String) (percent : Option Float) (threshold : Float) (duration now : ℕ)
      (s : RuleState)
      → (watch_cpu floats engine name percent threshold duration now s).0.active ≡ s.active
  watch_cpu-active name none threshold duration now s = refl
  watch_cpu-active name (some cpu) threshold duration now s = refl

  watch_rss-active :
      (name : String) (percent : Option Float) (threshold duration now : ℕ) (s : RuleState)
      → (watch_rss floats engine name percent threshold duration now s).0.active ≡ s.active
  watch_rss-active name none threshold duration now s = refl
  watch_rss-active name (some cpu) threshold duration now s = refl

  detect-active :
      (event : ProcessEvent) (now : ℕ) (rule : RuleConfig Float) (s : RuleState)
      → (detect floats engine event now rule s).0.active ≡ s.active
  unfolding detect
  detect-active event now rule s = ground arith

  detect_pressure-active :
      (snapshot : SystemSnapshot Float) (now : ℕ) (rule : RuleConfig Float) (s : RuleState)
      → (detect_pressure floats engine snapshot now rule s).0.active ≡ s.active
  unfolding detect_pressure
  detect_pressure-active snapshot now rule s = ground arith

  record_event-active :
      (event : ProcessEvent) (now : ℕ) (s : RuleState)
      → (record_event engine.windows event now s).active ≡ s.active
  unfolding record_event
  record_event-active event now s = ground arith

  on_event-Good :
      (e : ProcessEvent) (now : ℕ) (clock : ℕ → ℕ) (w : World Float)
      → Good w
      → Good (on_event floats engine e now clock w)
  unfolding on_event
  on_event-Good e now clock w good =
      let s = record_event engine.windows e now w.state in
      over_rules-Good (detect floats engine e now) clock (detect-active e now) 0 engine.rules
        (record w { state = s }) (active_kept w s (record_event-active e now w.state) good)

  on_snapshot-Good :
      (s : SystemSnapshot Float) (now : ℕ) (clock : ℕ → ℕ) (w : World Float)
      → Good w
      → Good (on_snapshot floats engine s now clock w)
  unfolding on_snapshot
  on_snapshot-Good s now clock w good =
      over_rules-Good (detect_pressure floats engine s now) clock (detect_pressure-active s now) 0
        engine.rules w good

  Reach-Good : (w : World Float) → Reach w → Good w
  unfolding Good lookup
  Reach-Good _ here = (tt, λ key. refl)
  Reach-Good _ (after_event {w} reach e now clock) =
      on_event-Good e now clock w (Reach-Good w reach)
  Reach-Good _ (after_snapshot {w} reach s now clock) =
      on_snapshot-Good s now clock w (Reach-Good w reach)

  -- Whatever events and snapshots the engine has handled, an alert is later than the end of the cooldown
  -- of every older alert under the same key; and a message of a rule becomes an alert, the newest of the
  -- log, exactly when there is none under its key or the cooldown of the newest of them is over, the log
  -- being as it was otherwise.
  pub Reach-Spaced :
      (w : World Float)
      → Reach w
      → Spaced w.emitted
        × ((rule : RuleConfig Float) (message : Message Float) (now : ℕ)
            → (emit_alert engine rule message now w).emitted ≡ (
                if quiet (quiet_by (key_of engine rule) w.emitted) now
                then w.emitted
                else issued rule message now ∷ w.emitted))
  unfolding emit_alert Good
  Reach-Spaced w reach =
      let good = Reach-Good w reach in
      (good.0, λ rule message now. ground (arith, good.1 (key_of engine rule)))

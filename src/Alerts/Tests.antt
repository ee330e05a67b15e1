-- ===== src/Alerts/Tests.antt =====
-- The rule engine at concrete inputs. A float is a number of hundredths here.
use linnix.Prelude.{
  ℕ, ◌/◌, ◌*◌, ◌≡◌, refl, none, some, [], ◌∷◌, ◌++◌, map, ltb, if◌then◌else◌, arith,
}
use linnix.Prelude.Keys.{nat_eq}
use linnix.Prelude.Assoc.{lookup, insert, erase}
use linnix.Protocol.{ProcessEvent, zeroed_event}
use linnix.Alerts.Rules.{Detector, RuleConfig, Severity, windows_of, widen_all}
use linnix.Alerts.Queues.{from_secs, trim_instant_queue, count_recent, take_while}
use linnix.Alerts.Detect.{Floats, SystemSnapshot, Message, record_event, sustained}
use linnix.Alerts.Engine.{
  RuleEngine, engine_of, World, no_world, key_of, quiet, emit_alert, detect, detect_pressure,
  over_rules, on_event, on_snapshot,
}
use linnix.Alerts.Cooldown.{Spaced, Reach, here, after_event, quiet_by, issued, Reach-Spaced}
use linnix.Alerts.Forks.{Handled, nothing, a_fork, detect-within}

abbrev hundredths : Floats ℕ
hundredths = record {
  thousandths = λ n. n / 10;
  above = λ a b. ltb b a;
  share_in_mb = λ percent bytes. percent * bytes / 10485760000;
  rounded = λ percent. percent / 100;
}

abbrev burst : RuleConfig ℕ
burst = record {
  name = "burst";
  severity = Severity.high;
  cooldown = 10;
  detector = Detector.fork_burst 2 3;
}

abbrev pressure : RuleConfig ℕ
pressure = record {
  name = "pressure";
  severity = Severity.low;
  cooldown = 0;
  detector = Detector.system_psi_cpu 2000 1;
}

abbrev engine : RuleEngine ℕ
engine = engine_of (pressure ∷ burst ∷ []) none "node"

abbrev a_child : ProcessEvent
a_child = record zeroed_event { event_type = 1; ppid = 7; pid = 8 }

abbrev forked : ℕ → World ℕ → World ℕ
forked secs w = on_event hundredths engine a_child (from_secs secs) (λ k. from_secs secs) w

abbrev busy : SystemSnapshot ℕ
busy = record { psi_cpu_some_avg10 = 2500; psi_memory_full_avg10 = 0; psi_io_full_avg10 = 0 }

-- Forks at seconds 1, 2, 3 and 13.
abbrev after_forks : World ℕ
after_forks = forked 13 (forked 3 (forked 2 (forked 1 no_world)))

after_forks_reached : Reach hundredths engine after_forks
after_forks_reached =
    after_event
      (after_event
        (after_event (after_event here a_child (from_secs 1) (λ k. from_secs 1)) a_child
          (from_secs 2) (λ k. from_secs 2))
        a_child (from_secs 3) (λ k. from_secs 3))
      a_child (from_secs 13) (λ k. from_secs 13)

Reach-Spaced_example :
    Spaced hundredths engine after_forks.emitted
    × ((rule : RuleConfig ℕ) (message : Message ℕ) (now : ℕ)
        → (emit_alert engine rule message now after_forks).emitted ≡ (
            if quiet (quiet_by hundredths engine (key_of engine rule) after_forks.emitted) now
            then after_forks.emitted
            else issued hundredths engine rule message now ∷ after_forks.emitted))
Reach-Spaced_example = Reach-Spaced hundredths engine after_forks after_forks_reached

abbrev two_forks : World ℕ
two_forks = forked 2 (forked 1 no_world)

two_forks-Handled :
    Handled hundredths engine two_forks (([] ++ from_secs 1 ∷ []) ++ from_secs 2 ∷ []) (from_secs 2)
two_forks-Handled =
    a_fork (a_fork nothing a_child (from_secs 1) (λ k. from_secs 1) (omega arith) refl) a_child
      (from_secs 2) (λ k. from_secs 2) (omega arith) refl

detect-within_example :
    (detect hundredths engine a_child
      (from_secs 5)
      burst
      (over_rules hundredths engine
        (detect hundredths engine a_child (from_secs 5))
        (λ k. from_secs 5)
        0
        (pressure ∷ [])
        (record two_forks {
          state = record_event engine.windows a_child (from_secs 5) two_forks.state;
        })).state).1
    ≡ some (Message.forks_in 2 3)
detect-within_example =
    detect-within hundredths engine two_forks (from_secs 1 ∷ from_secs 2 ∷ []) (from_secs 2)
      two_forks-Handled a_child (from_secs 5) (λ k. from_secs 5) (omega arith) refl (pressure ∷ [])
      [] burst refl refl

-- The third fork is met by the quiet of the first alert, which ends at second twelve, and
-- the fork at second 13 is alone.
one_alert : map (λ e. e.emitted_at) after_forks.emitted ≡ from_secs 2 ∷ []
unfolding on_event over_rules record_event detect emit_alert trim_instant_queue count_recent
    take_while lookup insert windows_of widen_all
one_alert = refl

-- A parent that forked once is kept for good, whatever its queue's window is.
abbrev another_parent : ProcessEvent
another_parent = record a_child { ppid = 9 }

parent_is_kept :
    lookup 7
      (record_event engine.windows another_parent
        (from_secs 86400)
        (forked 1 no_world).state).forks_by_ppid
    ≡ some (from_secs 1 ∷ [])
unfolding on_event over_rules record_event detect emit_alert trim_instant_queue count_recent
    take_while lookup insert windows_of widen_all
parent_is_kept = refl

-- Four readings of pressure, a second apart, give two alerts: each of them starts the second anew.
abbrev pressed : ℕ → World ℕ → World ℕ
pressed secs w = on_snapshot hundredths engine busy (from_secs secs) (λ k. from_secs secs) w

pressure_alerts :
    map (λ e. e.emitted_at) (pressed 4 (pressed 3 (pressed 2 (pressed 1 no_world)))).emitted
    ≡ from_secs 4 ∷ from_secs 2 ∷ []
unfolding on_snapshot over_rules detect_pressure sustained emit_alert lookup insert erase
pressure_alerts = refl

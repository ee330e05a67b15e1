-- ===== src/Spend/Tests.antt =====
-- The spend engine at concrete inputs.
use linnix.Prelude.{
  ℕ, ◌+◌, ◌-◌, ◌*◌, ◌<◌, ◌≡◌, ◌↔◌, refl, Option, none, some, List, [], ◌∷◌, String, arith,
}
use linnix.Prelude.Keys.{string_eq}
use linnix.Prelude.Assoc.{lookup}
use linnix.Prelude.Results.{ok, err}
use linnix.Spend.{
  daily, SpendLimitsConfig, SpendTracker, PerAgentLimit, seconds, total, check_spend, gc,
}
use linnix.Spend.Check.{Allows, Exceeds, Fits, UnderAgentCap, check_spend_iff, check_spend-Exceeds}
use linnix.Spend.Limits.{WithinLimits}
use linnix.Spend.Retention.{check_spend-gc}
use linnix.Spend.History.{Event, spend, collect, run, run-WithinLimits}

abbrev limits : SpendLimitsConfig
limits = record {
  per_mandate_cents = 500;
  hourly_cents = some 900;
  daily_cents = 1000;
  monthly_cents = 5000;
  per_agent = ("did:a", record { daily_cents = 600 }) ∷ [];
}

abbrev monday : ℕ
monday = seconds (400 * 86400)

-- Two records of the last day and one of last week.
abbrev tracker : SpendTracker
tracker = record {
  limits = limits;
  ledger =
      record { amount_cents = 400; agent_did = none; timestamp = monday - seconds (7 * 86400) }
      ∷ record { amount_cents = 300; agent_did = some "did:a"; timestamp = monday - seconds 7200 }
      ∷ record { amount_cents = 450; agent_did = none; timestamp = monday - seconds 60 }
      ∷ [];
}

tracker-Fits : Fits tracker monday 300
tracker-Fits = omega arith

check_spend_iff_example :
    (check_spend tracker monday 300 (some "did:a") ≡ ok tt)
    ↔ Allows tracker monday 300 (some "did:a")
check_spend_iff_example = check_spend_iff tracker monday 300 (some "did:a") tracker-Fits

tracker_refuses : check_spend tracker monday 300 none ≡ err (daily 750 300 1000)
unfolding check_spend total linnix.Prelude.Words.sum64
tracker_refuses = refl

check_spend-Exceeds_example : Exceeds tracker monday 300 none (daily 750 300 1000)
check_spend-Exceeds_example =
    check_spend-Exceeds tracker monday 300 none (daily 750 300 1000) tracker-Fits tracker_refuses

check_spend-gc_example :
    check_spend (gc tracker monday) (monday + 5) 300 (some "did:a")
    ≡ check_spend tracker (monday + 5) 300 (some "did:a")
check_spend-gc_example = check_spend-gc tracker monday (monday + 5) (omega arith) 300 (some "did:a")

abbrev empty_tracker : SpendTracker
empty_tracker = record { limits = limits; ledger = [] }

abbrev events : List Event
events =
    spend monday (monday + 1) 450 none
    ∷ spend (monday + 2) (monday + 3) 300 (some "did:a")
    ∷ collect (monday + 9)
    ∷ []

UnderAgentCap-zero : (cap : Option PerAgentLimit) → UnderAgentCap cap 0
UnderAgentCap-zero none = tt
UnderAgentCap-zero (some limit) = omega arith

empty-WithinLimits : WithinLimits empty_tracker monday
empty-WithinLimits = record {
  sane = omega arith;
  hour_cap = omega arith;
  day_cap = omega arith;
  month_cap = omega arith;
  agent_caps = λ did. UnderAgentCap-zero (lookup did limits.per_agent);
}

run-WithinLimits_example : WithinLimits (run empty_tracker events) (monday + 9)
run-WithinLimits_example =
    run-WithinLimits events empty_tracker monday empty-WithinLimits
      (omega arith, omega arith, (omega arith, omega arith, (omega arith, tt)))

-- ===== src/Spend/History.antt =====
-- Requests one after another, each checked and then recorded, keep the true sums under the limits.
use linnix.Prelude.{ℕ, ◌≤◌, inl, inr, Option, List, [], ◌∷◌, String, arith}
use linnix.Prelude.Results.{ok, err, Result-cases}
use linnix.Spend.{SpendTracker, check_spend, record_spend, gc}
use linnix.Spend.Check.{check_spend_iff, check_spend-le-per_mandate}
use linnix.Spend.Limits.{WithinLimits, WithinLimits-later, Allows-later, record_spend-WithinLimits}
use linnix.Spend.Retention.{gc-WithinLimits}

pub data Event : Type 0 where
  -- The time of the check, the time of the record, the amount, the counterparty.
  spend : ℕ → ℕ → ℕ → Option String → Event
  -- A collection of old records.
  collect : ℕ → Event

-- A refused request records nothing.
pub step : SpendTracker → Event → SpendTracker
step t (spend checked recorded amount did) = elim (check_spend t checked amount did) [
  | ok done ↦ record_spend t recorded amount did
  | err v ↦ t
]
step t (collect now) = gc t now

pub run : SpendTracker → List Event → SpendTracker
unfolding step
run t [] = t
run t (e ∷ es) = run (step t e) es

-- The clock does not go back.
abbrev pub InOrder : ℕ → List Event → Type 0
InOrder now [] = Unit
InOrder now (spend checked recorded amount did ∷ es) =
    (now ≤ checked) × (checked ≤ recorded) × InOrder recorded es
InOrder now (collect later ∷ es) = (now ≤ later) × InOrder later es

abbrev pub last_time : ℕ → List Event → ℕ
last_time now [] = now
last_time now (spend checked recorded amount did ∷ es) = last_time recorded es
last_time now (collect later ∷ es) = last_time later es

-- One request, whatever its outcome.
spend-WithinLimits :
    (t : SpendTracker) (now checked recorded amount : ℕ) (did : Option String)
    → now ≤ checked
    → checked ≤ recorded
    → WithinLimits t now
    → WithinLimits (step t (spend checked recorded amount did)) recorded
unfolding step
spend-WithinLimits t now checked recorded amount did h k w =
    let w' = WithinLimits-later t now checked h w in
    elim (Result-cases (check_spend t checked amount did)) [
      | inl done ↦
          rw (done, step)
            (record_spend-WithinLimits t recorded amount did
              (WithinLimits-later t checked recorded k w')
              (Allows-later t checked recorded k amount did (
                (check_spend_iff t checked amount did
                    (omega (arith, check_spend-le-per_mandate t checked amount did done))).0
                  done)))
      | inr (v, refused) ↦ rw (refused, step) (WithinLimits-later t checked recorded k w')
    ]

-- From a ledger within the limits, any sequence of requests and collections under a clock that
-- does not go back leaves the hour's, the day's, the month's and each agent's true sum within its
-- limit, where the month's limit and the cap of a mandate together fit a u64.
pub run-WithinLimits :
    (es : List Event) (t : SpendTracker) (now : ℕ)
    → WithinLimits t now
    → InOrder now es
    → WithinLimits (run t es) (last_time now es)
unfolding run
run-WithinLimits [] t now w o = w
run-WithinLimits (spend checked recorded amount did ∷ es) t now w o =
    run-WithinLimits es (step t (spend checked recorded amount did)) recorded
      (spend-WithinLimits t now checked recorded amount did o.0 o.1 w) o.2
run-WithinLimits (collect later ∷ es) t now w o =
    run-WithinLimits es (gc t later) later (gc-WithinLimits t now later o.0 w) o.1

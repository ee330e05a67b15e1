-- ===== src/Spend.antt =====
-- cognitod/src/spend.rs: the spend control engine, with its limits from cognitod/src/config.rs.
-- Times are nanoseconds since the epoch; `now - Duration` stops at the epoch, before which no
-- record is stamped. Amounts are u64 cents, and sums wrap as in a release build.
pub mod Totals
pub mod Check
pub mod Limits
pub mod Agents
pub mod Retention
pub mod History
mod Tests
use linnix.Prelude.{
  ℕ, ◌+◌, ◌-◌, ◌*◌, ◌^◌, Bool, false, ◌&&◌, Option, none, some, List, [], ◌∷◌, ◌++◌, map, String,
  ltb, leb, if◌then◌else◌, length, keep_if,
}
use linnix.Prelude.Keys.{◌==◌, string_eq}
use linnix.Prelude.Assoc.{Assoc, lookup, insert}
use linnix.Prelude.Words.{add64, sum64}
use linnix.Prelude.Results.{Result, ok, err, ◌>>=◌, ◌>>◌, fail_if}

pub data SpendLimitViolation : Type 0 where
  -- requested, limit
  per_mandate : ℕ → ℕ → SpendLimitViolation
  -- current, requested, limit
  hourly daily monthly : ℕ → ℕ → ℕ → SpendLimitViolation
  per_agent_daily : String → ℕ → ℕ → ℕ → SpendLimitViolation

pub record PerAgentLimit : Type 0 where
  pub daily_cents : ℕ

pub record SpendLimitsConfig : Type 0 where
  pub per_mandate_cents : ℕ
  pub hourly_cents : Option ℕ
  pub daily_cents : ℕ
  pub monthly_cents : ℕ
  pub per_agent : Assoc String PerAgentLimit

pub record SpendRecord : Type 0 where
  pub amount_cents : ℕ
  pub agent_did : Option String
  pub timestamp : ℕ

pub record SpendTracker : Type 0 where
  pub limits : SpendLimitsConfig
  pub ledger : List SpendRecord

abbrev pub seconds : ℕ → ℕ
seconds n = n * 10 ^ 9

abbrev pub hour : ℕ
hour = seconds 3600

abbrev pub day : ℕ
day = seconds 86400

abbrev pub month : ℕ
month = seconds (30 * 86400)

abbrev pub retention : ℕ
retention = seconds (31 * 86400)

-- `r.timestamp >= cutoff`
abbrev pub since : ℕ → SpendRecord → Bool
since cutoff r = leb cutoff r.timestamp

-- `r.agent_did.as_deref() == Some(did)`
abbrev pub paid_to : String → SpendRecord → Bool
paid_to did r = elim r.agent_did [ none ↦ false | some d ↦ d == did ]

abbrev pub agent_since : String → ℕ → SpendRecord → Bool
agent_since did cutoff r = since cutoff r && paid_to did r

-- `ledger.iter().filter(p).map(|r| r.amount_cents).sum()`
unfoldable pub total : (SpendRecord → Bool) → List SpendRecord → ℕ
total p ledger = sum64 (map (λ r. r.amount_cents) (keep_if p ledger))

-- `Default for SpendLimitsConfig`
abbrev pub default_limits : SpendLimitsConfig
default_limits = record {
  per_mandate_cents = 5000;
  hourly_cents = none;
  daily_cents = 50000;
  monthly_cents = 500000;
  per_agent = [];
}

-- `SpendTracker::new`
abbrev pub new : SpendLimitsConfig → SpendTracker
new limits = record { limits = limits; ledger = [] }

module _ (t : SpendTracker) (now amount : ℕ) where
  abbrev check_hourly : Option ℕ → Result SpendLimitViolation (Unit {0})
  check_hourly none = ok tt
  check_hourly (some limit) =
      let current = total (since (now - hour)) t.ledger in
      fail_if (ltb limit (add64 current amount)) (hourly current amount limit)

  abbrev check_agent_limit : String → Option PerAgentLimit → Result SpendLimitViolation (Unit {0})
  check_agent_limit did none = ok tt
  check_agent_limit did (some limit) =
      let current = total (agent_since did (now - day)) t.ledger in
      fail_if (ltb limit.daily_cents (add64 current amount))
        (per_agent_daily did current amount limit.daily_cents)

  abbrev check_agent : Option String → Result SpendLimitViolation (Unit {0})
  check_agent none = ok tt
  check_agent (some did) = check_agent_limit did (lookup did t.limits.per_agent)

-- `check_spend` at the time `now`.
unfoldable pub check_spend :
    SpendTracker → ℕ → ℕ → Option String → Result SpendLimitViolation (Unit {0})
check_spend t now amount counterparty_did = do
  fail_if (ltb t.limits.per_mandate_cents amount) (per_mandate amount t.limits.per_mandate_cents)
  check_hourly t now amount t.limits.hourly_cents
  let day_total = total (since (now - day)) t.ledger
  fail_if (ltb t.limits.daily_cents (add64 day_total amount))
      (daily day_total amount t.limits.daily_cents)
  let month_total = total (since (now - month)) t.ledger
  fail_if (ltb t.limits.monthly_cents (add64 month_total amount))
      (monthly month_total amount t.limits.monthly_cents)
  check_agent t now amount counterparty_did

pub record_spend : SpendTracker → ℕ → ℕ → Option String → SpendTracker
record_spend t now amount counterparty_did = record t {
  ledger =
      t.ledger
      ++ (record { amount_cents = amount; agent_did = counterparty_did; timestamp = now } ∷ []);
}

pub gc : SpendTracker → ℕ → SpendTracker
gc t now = record t { ledger = keep_if (since (now - retention)) t.ledger }

pub record SpendTotals : Type 0 where
  pub hourly_cents : ℕ
  pub daily_cents : ℕ
  pub monthly_cents : ℕ
  pub record_count : ℕ

abbrev pub totals : SpendTracker → ℕ → SpendTotals
totals t now = record {
  hourly_cents = total (since (now - hour)) t.ledger;
  daily_cents = total (since (now - day)) t.ledger;
  monthly_cents = total (since (now - month)) t.ledger;
  record_count = length t.ledger;
}

-- `*totals.entry(did).or_default() += amount`
abbrev pub credit : Assoc String ℕ → SpendRecord → Assoc String ℕ
credit m r = elim r.agent_did [
  | none ↦ m
  | some did ↦ insert did (add64 (elim (lookup did m) [ none ↦ 0 | some n ↦ n ]) r.amount_cents) m
]

pub credit_all : Assoc String ℕ → List SpendRecord → Assoc String ℕ
credit_all m [] = m
credit_all m (r ∷ rs) = credit_all (credit m r) rs

pub per_agent_totals : SpendTracker → ℕ → Assoc String ℕ
unfolding credit_all
per_agent_totals t now = credit_all [] (keep_if (since (now - day)) t.ledger)

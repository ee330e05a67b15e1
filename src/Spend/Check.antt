-- ===== src/Spend/Check.antt =====
-- `check_spend` against the limits over the true sums: it accepts exactly what they allow, and a
-- refusal names a limit that is exceeded.
use linnix.Prelude.{ℕ, ◌+◌, ◌-◌, ◌≤◌, ◌<◌, ◌≡◌, ◌↔◌, Option, none, some, String, arith}
use linnix.Prelude.Keys.{string_eq}
use linnix.Prelude.Assoc.{lookup}
use linnix.Prelude.Words.{u64_mod}
use linnix.Prelude.Results.{ok, err}
use linnix.Spend.{
  SpendLimitViolation, per_mandate, hourly, daily, monthly, per_agent_daily, SpendTracker,
  PerAgentLimit, since, agent_since, total, hour, day, month, check_spend,
}
use linnix.Spend.Totals.{spent, total-eq, MonthBounds, month_bounds, agent-le-month}

-- An optional cap on a sum.
abbrev pub UnderCap : Option ℕ → ℕ → Type 0
UnderCap none x = Unit
UnderCap (some limit) x = x ≤ limit

abbrev pub UnderAgentCap : Option PerAgentLimit → ℕ → Type 0
UnderAgentCap none x = Unit
UnderAgentCap (some limit) x = x ≤ limit.daily_cents

abbrev pub UnderAgent : SpendTracker → ℕ → ℕ → Option String → Type 0
UnderAgent t now amount none = Unit
UnderAgent t now amount (some did) =
    UnderAgentCap (lookup did t.limits.per_agent)
      (spent (agent_since did (now - day)) t.ledger + amount)

-- The spend fits every limit.
pub record Allows (t : SpendTracker) (now amount : ℕ) (did : Option String) : Type 0 where
  pub mandate : amount ≤ t.limits.per_mandate_cents
  pub hour_cap : UnderCap t.limits.hourly_cents (spent (since (now - hour)) t.ledger + amount)
  pub day_cap : spent (since (now - day)) t.ledger + amount ≤ t.limits.daily_cents
  pub month_cap : spent (since (now - month)) t.ledger + amount ≤ t.limits.monthly_cents
  pub agent_cap : UnderAgent t now amount did

pub UnderCap-mono : (cap : Option ℕ) (x y : ℕ) → x ≤ y → UnderCap cap y → UnderCap cap x
UnderCap-mono none x y h c = tt
UnderCap-mono (some limit) x y h c = omega arith

pub UnderAgentCap-mono :
    (cap : Option PerAgentLimit) (x y : ℕ) → x ≤ y → UnderAgentCap cap y → UnderAgentCap cap x
UnderAgentCap-mono none x y h c = tt
UnderAgentCap-mono (some limit) x y h c = omega arith

-- What a refusal says: the sum it shows is the true one, and with the request it is too much.
abbrev pub Exceeds : SpendTracker → ℕ → ℕ → Option String → SpendLimitViolation → Type 0
Exceeds t now amount did (per_mandate requested limit) =
    (requested ≡ amount) × (limit ≡ t.limits.per_mandate_cents) × (limit < amount)
Exceeds t now amount did (hourly current requested limit) =
    (current ≡ spent (since (now - hour)) t.ledger)
    × (requested ≡ amount)
    × (t.limits.hourly_cents ≡ some limit)
    × (limit < current + amount)
Exceeds t now amount did (daily current requested limit) =
    (current ≡ spent (since (now - day)) t.ledger)
    × (requested ≡ amount)
    × (limit ≡ t.limits.daily_cents)
    × (limit < current + amount)
Exceeds t now amount did (monthly current requested limit) =
    (current ≡ spent (since (now - month)) t.ledger)
    × (requested ≡ amount)
    × (limit ≡ t.limits.monthly_cents)
    × (limit < current + amount)
Exceeds t now amount did (per_agent_daily agent current requested limit) =
    (did ≡ some agent)
    × (current ≡ spent (agent_since agent (now - day)) t.ledger)
    × (requested ≡ amount)
    × (lookup agent t.limits.per_agent ≡ some (record { daily_cents = limit }))
    × (limit < current + amount)

-- Nothing accepted is above the cap of one mandate.
pub check_spend-le-per_mandate :
    (t : SpendTracker) (now amount : ℕ) (did : Option String)
    → check_spend t now amount did ≡ ok tt
    → amount ≤ t.limits.per_mandate_cents
unfolding check_spend
check_spend-le-per_mandate t now amount did h = ground arith

module _ (t : SpendTracker) (now amount : ℕ) where
  -- The month's sum and the request fit a u64.
  abbrev pub Fits : Type 0
  Fits = spent (since (now - month)) t.ledger + amount < u64_mod

  abbrev Unwrapped : Type 0
  Unwrapped =
      (total (since (now - hour)) t.ledger ≡ spent (since (now - hour)) t.ledger)
      × (total (since (now - day)) t.ledger ≡ spent (since (now - day)) t.ledger)
      × (total (since (now - month)) t.ledger ≡ spent (since (now - month)) t.ledger)

  no_wrap : Fits → Unwrapped
  no_wrap f =
      let b = month_bounds t.ledger now in
      (
        omega (arith, total-eq (since (now - hour)) t.ledger, b.in_hour),
        omega (arith, total-eq (since (now - day)) t.ledger, b.in_day),
        omega (arith, total-eq (since (now - month)) t.ledger),
      )

  agent_no_wrap :
      (did : String)
      → Fits
      → total (agent_since did (now - day)) t.ledger ≡ spent (agent_since did (now - day)) t.ledger
  agent_no_wrap did f =
      omega
        (arith, total-eq (agent_since did (now - day)) t.ledger, agent-le-month did t.ledger now)

  -- The facts that the tests turn on.
  whole_no_wrap :
      (did : String)
      → Fits
      → Unwrapped
        × MonthBounds t.ledger now
        × (total (agent_since did (now - day)) t.ledger
            ≡ spent (agent_since did (now - day)) t.ledger)
        × (spent (agent_since did (now - day)) t.ledger ≤ spent (since (now - month)) t.ledger)
  whole_no_wrap did f =
      (no_wrap f, month_bounds t.ledger now, agent_no_wrap did f, agent-le-month did t.ledger now)

  -- Where the month's true sum and the request together fit a u64, `check_spend` accepts exactly
  -- what all the limits allow, over the true sums.
  pub check_spend_iff :
      (did : Option String)
      → Fits
      → (check_spend t now amount did ≡ ok tt) ↔ Allows t now amount did
  unfolding check_spend
  check_spend_iff none f = (
    λ h. ground (arith, no_wrap f, month_bounds t.ledger now),
    λ h. ground (arith, no_wrap f, month_bounds t.ledger now),
  )
  check_spend_iff (some did) f =
      (λ h. ground (arith, whole_no_wrap did f), λ h. ground (arith, whole_no_wrap did f))

  -- Where the month's true sum and the request together fit a u64, a refusal names a limit that
  -- the spend exceeds, with that limit and the true sum spent so far.
  pub check_spend-Exceeds :
      (did : Option String) (v : SpendLimitViolation)
      → Fits
      → check_spend t now amount did ≡ err v
      → Exceeds t now amount did v
  unfolding check_spend
  check_spend-Exceeds none v f h = ground (arith, no_wrap f)
  check_spend-Exceeds (some did) v f h = ground (arith, no_wrap f, agent_no_wrap did f)

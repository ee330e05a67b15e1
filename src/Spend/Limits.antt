-- ===== src/Spend/Limits.antt =====
-- The limits as an invariant of the ledger: kept as time passes and by an accepted spend.
use linnix.Prelude.{
  ℕ, ◌+◌, ◌-◌, ◌≤◌, ◌<◌, inl, inr, Option, none, some, [], ◌∷◌, ◌++◌, String, arith, Bool-cases,
}
use mathlib.Core.Path.{subst}
use linnix.Prelude.Keys.{string_eq, ◌==◌, ==→eq}
use linnix.Prelude.Assoc.{lookup}
use linnix.Prelude.Words.{u64_mod}
use linnix.Spend.{SpendRecord, SpendTracker, since, agent_since, hour, day, month, record_spend}
use linnix.Spend.Totals.{
  spent, spent-append, spent-append-le, spent_mono, since_mono, agent_since_mono,
}
use linnix.Spend.Check.{
  UnderCap, UnderAgentCap, UnderAgent, Allows, UnderCap-mono, UnderAgentCap-mono,
}

pub record WithinLimits (t : SpendTracker) (now : ℕ) : Type 0 where
  -- No sum that the limits allow can wrap.
  pub sane : t.limits.monthly_cents + t.limits.per_mandate_cents < u64_mod
  pub hour_cap : UnderCap t.limits.hourly_cents (spent (since (now - hour)) t.ledger)
  pub day_cap : spent (since (now - day)) t.ledger ≤ t.limits.daily_cents
  pub month_cap : spent (since (now - month)) t.ledger ≤ t.limits.monthly_cents
  pub agent_caps :
      (did : String)
      → UnderAgentCap (lookup did t.limits.per_agent) (spent (agent_since did (now - day)) t.ledger)

-- Each window is the same or smaller at a later time.
module _ (t : SpendTracker) (now later : ℕ) (h : now ≤ later) where
  hour_later : spent (since (later - hour)) t.ledger ≤ spent (since (now - hour)) t.ledger
  hour_later =
      spent_mono (since (later - hour)) (since (now - hour)) t.ledger (since_mono _ _ (omega arith))

  day_later : spent (since (later - day)) t.ledger ≤ spent (since (now - day)) t.ledger
  day_later =
      spent_mono (since (later - day)) (since (now - day)) t.ledger (since_mono _ _ (omega arith))

  month_later : spent (since (later - month)) t.ledger ≤ spent (since (now - month)) t.ledger
  month_later =
      spent_mono (since (later - month)) (since (now - month)) t.ledger
        (since_mono _ _ (omega arith))

  agent_later :
      (did : String)
      → spent (agent_since did (later - day)) t.ledger
        ≤ spent (agent_since did (now - day)) t.ledger
  agent_later did =
      spent_mono (agent_since did (later - day)) (agent_since did (now - day)) t.ledger
        (agent_since_mono did _ _ (omega arith))

  -- As time passes the windows only lose records.
  pub WithinLimits-later : WithinLimits t now → WithinLimits t later
  WithinLimits-later w = record {
    sane = w.sane;
    hour_cap = UnderCap-mono _ _ _ hour_later w.hour_cap;
    day_cap = omega (arith, day_later);
    month_cap = omega (arith, month_later);
    agent_caps = λ did. UnderAgentCap-mono _ _ _ (agent_later did) (w.agent_caps did);
  }

  UnderAgent-later :
      (amount : ℕ) (did : Option String)
      → UnderAgent t now amount did
      → UnderAgent t later amount did
  UnderAgent-later amount none a = tt
  UnderAgent-later amount (some did) a =
      UnderAgentCap-mono (lookup did t.limits.per_agent) _ _ (omega (arith, agent_later did)) a

  pub Allows-later :
      (amount : ℕ) (did : Option String) → Allows t now amount did → Allows t later amount did
  Allows-later amount did a = record {
    mandate = a.mandate;
    hour_cap = UnderCap-mono _ _ _ (omega (arith, hour_later)) a.hour_cap;
    day_cap = omega (arith, day_later);
    month_cap = omega (arith, month_later);
    agent_cap = UnderAgent-later amount did a.agent_cap;
  }

-- An accepted spend, recorded at once, leaves every sum under its limit.
module _ (t : SpendTracker) (now amount : ℕ) where
  abbrev new_record : Option String → SpendRecord
  new_record did = record { amount_cents = amount; agent_did = did; timestamp = now }

  -- A record counts for its own agent only.
  agent_caps-record :
      (did : Option String) (agent : String)
      → UnderAgentCap
          (lookup agent t.limits.per_agent)
          (spent (agent_since agent (now - day)) t.ledger)
      → UnderAgent t now amount did
      → UnderAgentCap
          (lookup agent t.limits.per_agent)
          (spent (agent_since agent (now - day)) (t.ledger ++ (new_record did ∷ [])))
  agent_caps-record none agent w a =
      UnderAgentCap-mono _ _ _
        (ground (arith, spent-append (agent_since agent (now - day)) t.ledger (new_record none))) w
  agent_caps-record (some did) agent w a = elim (Bool-cases (did == agent)) [
    | inl same ↦
        UnderAgentCap-mono (lookup agent t.limits.per_agent) _ _
          (spent-append-le (agent_since agent (now - day)) t.ledger (new_record (some did)))
          (subst
            (λ d.
              UnderAgentCap (lookup d t.limits.per_agent)
                (spent (agent_since d (now - day)) t.ledger + amount))
            (==→eq did agent same) a)
    | inr other ↦
        UnderAgentCap-mono (lookup agent t.limits.per_agent) _ _
          (ground
            (arith, spent-append (agent_since agent (now - day)) t.ledger (new_record (some did))))
          w
  ]

  pub record_spend-WithinLimits :
      (did : Option String)
      → WithinLimits t now
      → Allows t now amount did
      → WithinLimits (record_spend t now amount did) now
  unfolding record_spend
  record_spend-WithinLimits did w a = record {
    sane = w.sane;
    hour_cap =
        UnderCap-mono _ _ _ (spent-append-le (since (now - hour)) t.ledger (new_record did))
          a.hour_cap;
    day_cap = omega (arith, spent-append-le (since (now - day)) t.ledger (new_record did));
    month_cap = omega (arith, spent-append-le (since (now - month)) t.ledger (new_record did));
    agent_caps = λ agent. agent_caps-record did agent (w.agent_caps agent) a.agent_cap;
  }

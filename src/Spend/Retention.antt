-- ===== src/Spend/Retention.antt =====
-- The collection of old records: it forgets only what no later decision reads.
use linnix.Prelude.{◌-◌, ◌≤◌, ◌≡◌, ℕ, Option, none, some, String, arith, List, keep_if, map, ap}
use linnix.Prelude.Words.{sum64}
use linnix.Spend.{
  SpendTracker, SpendRecord, since, agent_since, total, hour, day, month, retention, check_spend,
  gc,
}
use linnix.Spend.Limits.{WithinLimits, WithinLimits-later}
use linnix.Spend.Totals.{keep_if-keep_if, since_mono, agent_since_wide}

module _ (t : SpendTracker) (now later : ℕ) (h : now ≤ later) where
  abbrev kept : List SpendRecord
  kept = keep_if (since (now - retention)) t.ledger

  -- A window that ends after the collection is whole.
  window-gc :
      (width : ℕ)
      → width ≤ retention
      → keep_if (since (later - width)) kept ≡ keep_if (since (later - width)) t.ledger
  window-gc width le =
      keep_if-keep_if (since (later - width)) (since (now - retention)) t.ledger
        (since_mono _ _ (omega arith))

  agent-gc :
      (did : String)
      → keep_if (agent_since did (later - day)) kept
        ≡ keep_if (agent_since did (later - day)) t.ledger
  agent-gc did =
      keep_if-keep_if (agent_since did (later - day)) (since (now - retention)) t.ledger
        (agent_since_wide did _ _ (omega arith))

  window_total-gc :
      (width : ℕ)
      → width ≤ retention
      → total (since (later - width)) kept ≡ total (since (later - width)) t.ledger
  unfolding total
  window_total-gc width le = ap (λ l. sum64 (map (λ r. r.amount_cents) l)) (window-gc width le)

  agent_total-gc :
      (did : String)
      → total (agent_since did (later - day)) kept ≡ total (agent_since did (later - day)) t.ledger
  unfolding total
  agent_total-gc did = ap (λ l. sum64 (map (λ r. r.amount_cents) l)) (agent-gc did)

  -- A collection changes no decision of `check_spend` at the time of the collection or later, the
  -- error included.
  pub check_spend-gc :
      (amount : ℕ) (did : Option String)
      → check_spend (gc t now) later amount did ≡ check_spend t later amount did
  unfolding check_spend gc
  check_spend-gc amount none = ground (
    arith,
    window_total-gc hour (omega arith),
    window_total-gc day (omega arith),
    window_total-gc month (omega arith),
  )
  check_spend-gc amount (some did) = ground (
    arith,
    window_total-gc hour (omega arith),
    window_total-gc day (omega arith),
    window_total-gc month (omega arith),
    agent_total-gc did,
  )

-- A collection drops only records that no window counts any more.
pub gc-WithinLimits :
    (t : SpendTracker) (now later : ℕ)
    → now ≤ later
    → WithinLimits t now
    → WithinLimits (gc t later) later
unfolding gc
gc-WithinLimits t now later h w =
    let w' = WithinLimits-later t now later h w in
    record {
      sane = w'.sane;
      hour_cap = rw (window-gc t later later (omega arith) hour (omega arith)) w'.hour_cap;
      day_cap = rw (window-gc t later later (omega arith) day (omega arith)) w'.day_cap;
      month_cap = rw (window-gc t later later (omega arith) month (omega arith)) w'.month_cap;
      agent_caps = λ did. rw (agent-gc t later later (omega arith) did) (w'.agent_caps did);
    }

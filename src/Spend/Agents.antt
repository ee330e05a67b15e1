-- ===== src/Spend/Agents.antt =====
-- `per_agent_totals` reports for each agent the very sum that `check_spend` tests.
use linnix.Prelude.{
  ℕ, ◌-◌, ◌≡◌, refl, Option, none, some, List, [], ◌∷◌, map, String, arith, keep_if, if◌then◌else◌,
}
use linnix.Prelude.Keys.{string_eq}
use linnix.Prelude.Assoc.{Assoc, lookup, lookup-insert}
use linnix.Prelude.Words.{sum64_from, sum64, add64}
use linnix.Spend.{
  SpendRecord, SpendTracker, since, agent_since, paid_to, total, day, credit, credit_all,
  per_agent_totals,
}

-- `.get(did).unwrap_or(&0)`
abbrev pub or_zero : Option ℕ → ℕ
or_zero none = 0
or_zero (some n) = n

paid : String → List SpendRecord → List ℕ
paid did ledger = map (λ r. r.amount_cents) (keep_if (paid_to did) ledger)

credit-lookup :
    (did : String) (m : Assoc String ℕ) (r : SpendRecord)
    → or_zero (lookup did (credit m r)) ≡ (
        if paid_to did r
        then add64 (or_zero (lookup did m)) r.amount_cents
        else or_zero (lookup did m))
credit-lookup did m r = go r.agent_did
  where
    go :
        (d : Option String)
        → or_zero (lookup did (credit m (record r { agent_did = d }))) ≡ (
            if paid_to did (record r { agent_did = d })
            then add64 (or_zero (lookup did m)) r.amount_cents
            else or_zero (lookup did m))
    go none = refl
    go (some d) = ground (
      arith,
      lookup-insert d did (add64 (or_zero (lookup d m)) r.amount_cents) m,
      string_eq.equals_iff d did,
    )

credit_all-lookup :
    (did : String) (m : Assoc String ℕ) (ledger : List SpendRecord)
    → or_zero (lookup did (credit_all m ledger))
      ≡ sum64_from (or_zero (lookup did m)) (paid did ledger)
unfolding credit_all paid sum64_from
credit_all-lookup did m [] = refl
credit_all-lookup did m (r ∷ rs) =
    rw (credit_all-lookup did (credit m r) rs, credit-lookup did m r) (ground arith)

agent_part :
    (did : String) (cutoff : ℕ) (ledger : List SpendRecord)
    → keep_if (paid_to did) (keep_if (since cutoff) ledger)
      ≡ keep_if (agent_since did cutoff) ledger
agent_part did cutoff [] = refl
agent_part did cutoff (r ∷ rs) = ground (arith, agent_part did cutoff rs)

-- The total reported for an agent, 0 where none is, is the sum over the last day that
-- `check_spend` compares with the agent's limit.
per_agent_totals-eq :
    (t : SpendTracker) (now : ℕ) (did : String)
    → or_zero (lookup did (per_agent_totals t now)) ≡ total (agent_since did (now - day)) t.ledger
unfolding per_agent_totals total paid sum64 lookup
per_agent_totals-eq t now did = rw (
  credit_all-lookup did [] (keep_if (since (now - day)) t.ledger),
  agent_part did (now - day) t.ledger,
)

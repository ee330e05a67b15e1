-- ===== src/Spend/Totals.antt =====
-- The sums of `SpendTracker` over a part of the ledger.
use linnix.Prelude.{
  ℕ, ◌+◌, ◌-◌, ◌%◌, ◌≤◌, ◌≡◌, refl, Bool, true, List, [], ◌∷◌, ◌++◌, map, String, arith,
  if◌then◌else◌, keep_if, sum,
}
use linnix.Prelude.Words.{u64_mod, sum64-eq}
use linnix.Spend.{SpendRecord, since, agent_since, total, hour, day, month}

-- The true sum of the amounts of the records that pass `p`.
abbrev pub spent : (SpendRecord → Bool) → List SpendRecord → ℕ
spent p ledger = sum (map (λ r. r.amount_cents) (keep_if p ledger))

pub total-eq :
    (p : SpendRecord → Bool) (ledger : List SpendRecord) → total p ledger ≡ spent p ledger % u64_mod
unfolding total
total-eq p ledger = sum64-eq (map (λ r. r.amount_cents) (keep_if p ledger))

pub spent-append :
    (p : SpendRecord → Bool) (ledger : List SpendRecord) (r : SpendRecord)
    → spent p (ledger ++ (r ∷ [])) ≡ spent p ledger + (if p r then r.amount_cents else 0)
spent-append p [] r = ground arith
spent-append p (x ∷ xs) r = ground (arith, spent-append p xs r)

pub spent-append-le :
    (p : SpendRecord → Bool) (ledger : List SpendRecord) (r : SpendRecord)
    → spent p (ledger ++ (r ∷ [])) ≤ spent p ledger + r.amount_cents
spent-append-le p ledger r = ground (arith, spent-append p ledger r)

-- A wider choice of records has a larger sum.
pub spent_mono :
    (p q : SpendRecord → Bool) (ledger : List SpendRecord)
    → ((r : SpendRecord) → p r ≡ true → q r ≡ true)
    → spent p ledger ≤ spent q ledger
spent_mono p q [] h = omega arith
spent_mono p q (x ∷ xs) h = ground (arith, h x, spent_mono p q xs h)

-- Dropping records that do not count changes nothing.
pub keep_if-keep_if :
    (p q : SpendRecord → Bool) (ledger : List SpendRecord)
    → ((r : SpendRecord) → p r ≡ true → q r ≡ true)
    → keep_if p (keep_if q ledger) ≡ keep_if p ledger
keep_if-keep_if p q [] h = refl
keep_if-keep_if p q (x ∷ xs) h = ground (arith, h x, keep_if-keep_if p q xs h)

pub since_mono : (c d : ℕ) → d ≤ c → (r : SpendRecord) → since c r ≡ true → since d r ≡ true
since_mono c d h r e = ground arith

pub agent_since_mono :
    (did : String) (c d : ℕ)
    → d ≤ c
    → (r : SpendRecord) → agent_since did c r ≡ true
    → agent_since did d r ≡ true
agent_since_mono did c d h r e = ground arith

pub agent_since_wide :
    (did : String) (c d : ℕ)
    → d ≤ c
    → (r : SpendRecord) → agent_since did c r ≡ true
    → since d r ≡ true
agent_since_wide did c d h r e = ground arith

-- What fits the month fits every shorter window.
pub record MonthBounds (ledger : List SpendRecord) (now : ℕ) : Type 0 where
  pub in_hour : spent (since (now - hour)) ledger ≤ spent (since (now - month)) ledger
  pub in_day : spent (since (now - day)) ledger ≤ spent (since (now - month)) ledger

pub month_bounds : (ledger : List SpendRecord) (now : ℕ) → MonthBounds ledger now
month_bounds ledger now = record {
  in_hour =
      spent_mono (since (now - hour)) (since (now - month)) ledger (since_mono _ _ (omega arith));
  in_day =
      spent_mono (since (now - day)) (since (now - month)) ledger (since_mono _ _ (omega arith));
}

pub agent-le-month :
    (did : String) (ledger : List SpendRecord) (now : ℕ)
    → spent (agent_since did (now - day)) ledger ≤ spent (since (now - month)) ledger
agent-le-month did ledger now =
    spent_mono (agent_since did (now - day)) (since (now - month)) ledger
      (agent_since_wide did _ _ (omega arith))

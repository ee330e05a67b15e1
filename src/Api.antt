-- ===== src/Api.antt =====
-- cognitod/src/api/mod.rs: the handler `create_mandate`, which joins the commerce policy, the spend
-- engine, the compliance engine and the mandate manager.
pub mod Create
pub mod Screening
pub mod Receipts
pub mod Disclosure
mod Tests
use linnix.Prelude.{
  ℕ, ◌+◌, ◌≡◌, refl, Bool, true, false, ◌&&◌, Option, none, some, List, String, if◌then◌else◌,
  arith, Bool-cases, Option-cases, inl, inr,
}
use linnix.Prelude.Words.{add64}
use linnix.Prelude.Results.{Result, ok, err, ◌>>=◌, ◌>>◌, fail_if, Result-split}
use linnix.BpfMap.{BpfHash}
use linnix.Commerce.{CommercePolicy, check_commerce}
use linnix.Compliance.Providers.{ScreeningResult}
use linnix.Compliance.{ComplianceEngine, Instants, pre_task_screen, has_hard_block}
use linnix.Spend.{SpendLimitViolation, SpendTracker, check_spend, record_spend}
use linnix.Mandate.Types.{
  MandateRequest, is_commerce_request, MandateResponse, CreateError, is_some,
}
use linnix.Mandate.Manager.{Moment, MandateManager, is_backpressure_active, create}

-- The answers that are not 201, in the order of the checks.
pub data Rejection : Type 0 where
  commerce_rejected : String → Rejection
  not_enabled : Rejection
  backpressure_active : Rejection
  spend_limit_exceeded : SpendLimitViolation → Rejection
  compliance_blocked : Rejection
  bad_request : CreateError → Rejection

-- The times that a call of the handler reads, and the standard library's `to_uppercase`.
pub record Call : Type 0 where
  pub checked_at : ℕ
  pub recorded_at : ℕ
  pub creation : Moment
  pub screening : Instants
  pub to_uppercase : String → String

abbrev pub unwrap_or_zero : Option ℕ → ℕ
unwrap_or_zero none = 0
unwrap_or_zero (some n) = n

module _ (bpf : BpfHash) (Receipt : Type 0) where
  -- The parts of `AppState` that the handler uses. Metrics: created, rejected, commerce rejections.
  pub record AppState : Type 0 where
    pub commerce_policy : Option CommercePolicy
    pub mandate : Option (MandateManager bpf Receipt)
    pub spend_tracker : Option SpendTracker
    pub compliance_engine : Option ComplianceEngine
    pub created : ℕ
    pub rejected : ℕ
    pub commerce_rejections : ℕ

  -- The commerce gate.
  abbrev pub commerce_gate : MandateRequest → Option CommercePolicy → Result Rejection (Unit {0})
  commerce_gate req none = ok tt
  commerce_gate req (some policy) =
      if is_commerce_request req
      then elim (check_commerce policy true) [
        | ok done ↦ ok tt
        | err mode ↦ err (commerce_rejected mode)
      ]
      else ok tt

  abbrev pub spend_of : ℕ → Option String → ℕ → Option SpendTracker → Result Rejection (Unit {0})
  spend_of now did amount none = ok tt
  spend_of now did amount (some tracker) = elim (check_spend tracker now amount did) [
    | ok done ↦ ok tt
    | err v ↦ err (spend_limit_exceeded v)
  ]

  -- The check of the spend limits.
  abbrev pub spend_gate : ℕ → MandateRequest → Option SpendTracker → Result Rejection (Unit {0})
  spend_gate now req tracker = elim req.max_spend_cents [
    | none ↦ ok tt
    | some amount ↦ spend_of now req.counterparty_did amount tracker
  ]

  abbrev pub screened_gate :
      ComplianceEngine × List ScreeningResult
      → Option ComplianceEngine × Result Rejection (Unit {0})
  screened_gate (engine, results) =
      (some engine, fail_if (has_hard_block results) compliance_blocked)

  abbrev pub screen_counterparty :
      Call
      → MandateRequest
      → Option String
      → ComplianceEngine
      → Option ComplianceEngine × Result Rejection (Unit {0})
  screen_counterparty call req none engine = (some engine, ok tt)
  screen_counterparty call req (some did) engine =
      if is_commerce_request req
      then screened_gate (
          pre_task_screen call.to_uppercase call.screening did req.wallet_address req.jurisdiction
            (unwrap_or_zero req.max_spend_cents) engine)
      else (some engine, ok tt)

  -- The compliance screening: the engine after it, and whether the request may go on.
  abbrev pub compliance_gate :
      Call
      → MandateRequest
      → Option ComplianceEngine
      → Option ComplianceEngine × Result Rejection (Unit {0})
  compliance_gate call req none = (none, ok tt)
  compliance_gate call req (some engine) = screen_counterparty call req req.counterparty_did engine

  abbrev pub manager_of :
      Option (MandateManager bpf Receipt) → Result Rejection (MandateManager bpf Receipt)
  manager_of none = err not_enabled
  manager_of (some m) = ok m

  -- The checks before the screening.
  pub admit_unscreened :
      Call → MandateRequest → AppState → Result Rejection (MandateManager bpf Receipt)
  admit_unscreened call req state = do
    commerce_gate req state.commerce_policy
    m ← manager_of state.mandate
    fail_if (is_backpressure_active bpf Receipt m) backpressure_active
    spend_gate call.checked_at req state.spend_tracker
    ok m

  -- The checks before `create`.
  pub admit : Call → MandateRequest → AppState → Result Rejection (MandateManager bpf Receipt)
  admit call req state = do
    m ← admit_unscreened call req state
    (compliance_gate call req state.compliance_engine).1
    ok m

  -- The state after the checks: the screening may have filled the engine's cache.
  abbrev pub after_checks : Call → MandateRequest → AppState → AppState
  after_checks call req state = elim (admit_unscreened call req state) [
    | err rejection ↦ state
    | ok m ↦ record state {
      compliance_engine = (compliance_gate call req state.compliance_engine).0;
    }
  ]

  abbrev pub record_for : ℕ → Option ℕ → Option String → Option SpendTracker → Option SpendTracker
  record_for now none did tracker = tracker
  record_for now (some amount) did none = none
  record_for now (some amount) did (some tracker) = some (record_spend tracker now amount did)

  -- The metrics of a rejection: one for `not_enabled` is not counted.
  abbrev pub count_rejection : Rejection → AppState → AppState
  count_rejection (commerce_rejected mode) state = record state {
    rejected = add64 state.rejected 1;
    commerce_rejections = add64 state.commerce_rejections 1;
  }
  count_rejection not_enabled state = state
  count_rejection backpressure_active state = record state { rejected = add64 state.rejected 1 }
  count_rejection (spend_limit_exceeded v) state = record state {
    rejected = add64 state.rejected 1;
  }
  count_rejection compliance_blocked state = record state { rejected = add64 state.rejected 1 }
  count_rejection (bad_request e) state = record state { rejected = add64 state.rejected 1 }

  pub finish_create :
      Call
      → MandateRequest
      → MandateManager bpf Receipt × Result CreateError MandateResponse
      → AppState
      → AppState × Result Rejection MandateResponse
  finish_create call req (m', ok resp) state = (
    record state {
      mandate = some m';
      created = add64 state.created 1;
      spend_tracker =
          record_for call.recorded_at req.max_spend_cents req.counterparty_did state.spend_tracker;
    },
    ok resp,
  )
  finish_create call req (m', err e) state =
      (count_rejection (bad_request e) (record state { mandate = some m' }), err (bad_request e))

  pub create_mandate :
      Call → MandateRequest → AppState → AppState × Result Rejection MandateResponse
  create_mandate call req state = elim (admit call req state) [
    | err rejection ↦ (count_rejection rejection (after_checks call req state), err rejection)
    | ok m ↦
        finish_create call req (create bpf Receipt call.creation req m)
          (after_checks call req state)
  ]

-- ===== src/Api/Tests.antt =====
-- The handler at concrete inputs.
use linnix.Prelude.{
  arith, ◌⊎◌, ℕ, ◌+◌, ◌≡◌, ◌≢◌, ◌↔◌, refl, Bool, true, false, Option, none, some, [], ◌∷◌, ap,
  if◌then◌else◌,
}
use linnix.Prelude.Results.{ok, err}
use linnix.Protocol.{enforce}
use linnix.BpfMap.Listed.{listed}
use linnix.Commerce.{detect, check_commerce}
use linnix.Spend.{
  SpendTracker, default_limits, new as new_tracker, check_spend, record_spend, total, per_mandate,
}
use linnix.Mandate.Types.{MandateRequest, MandateResponse}
use linnix.Mandate.Proc.{read_start_time_ns}
use linnix.Mandate.Manager.{
  Moment, MandateManager, new as new_manager, new_record, response, prepare, create, hash_filename,
}
use linnix.Lsm.Samples.{path, secret, program_key}
use linnix.Api.{
  Rejection, Call, AppState, spend_limit_exceeded, create_mandate, admit, admit_unscreened,
  finish_create,
}
use linnix.Compliance.Providers.{OfacSdnProvider, load_blocklist, new as no_list, ofac_sdn}
use linnix.Compliance.{ComplianceConfig, ComplianceEngine, default_config, new as new_engine}
use linnix.Compliance.Verdict.{fresh}
use linnix.Privacy.{ReceiptRedactor, external, redact_level}
use linnix.Receipt.Encoding.{pos}
use linnix.Receipt.{
  ExecutionDetails, ExecutionReceipt, new_builder, unsigned_of, strip_signatures,
  compute_eip712_hash,
}
use linnix.Receipt.Signing.{attach, recoverable}
use linnix.Receipt.Samples.{packages, signature}
use linnix.Receipt.Binding.{Collision}
use linnix.Mandate.Types.{executed}
use linnix.Mandate.Queries.{get_receipt, get_status}
use linnix.Api.Receipts.{redact_receipt, get_mandate_receipt}
use linnix.Api.Disclosure.{get_mandate_receipt-binds}
use linnix.Api.Screening.{create_mandate_screens}
use linnix.Api.Create.{create_mandate_accepts}

abbrev morning : Moment
morning = record {
  system = record { proc = []; starttime_ticks = λ pid. some 500; clk_tck = 100 };
  boottime_ns = 1000;
  wall_ms = 70000;
  instant = 9;
  new_id = "m-7";
}

abbrev paid_call : Call
paid_call = record {
  checked_at = 50;
  recorded_at = 60;
  creation = morning;
  screening = record { did_looked = 51; did_stored = 52; wallet_looked = 53; wallet_stored = 54 };
  to_uppercase = λ text. text;
}

abbrev paid_request : ℕ → MandateRequest
paid_request amount = record {
  pid = 42;
  args = path ∷ [];
  ttl_ms = 5;
  container_id = none;
  monitor_only = false;
  task_id = some "t-1";
  max_spend_cents = some amount;
  counterparty_did = none;
  wallet_address = none;
  jurisdiction = none;
}

abbrev tracker : SpendTracker
tracker = new_tracker default_limits

abbrev manager : MandateManager listed ℕ
manager = new_manager listed ℕ secret true enforce

abbrev state : AppState listed ℕ
state = record {
  commerce_policy = some (detect true "enforce" false);
  mandate = some manager;
  spend_tracker = some tracker;
  compliance_engine = none;
  created = 0;
  rejected = 0;
  commerce_rejections = 0;
}

abbrev answer : MandateResponse
answer =
    response listed ℕ manager (new_record listed ℕ morning (paid_request 300) program_key manager)

accepted : (create_mandate listed ℕ paid_call (paid_request 300) state).1 ≡ ok answer
unfolding create_mandate admit admit_unscreened finish_create check_commerce detect check_spend
    total linnix.Prelude.Words.sum64 create prepare read_start_time_ns hash_filename
accepted = refl

create_mandate_accepts_example :
    let state' = (create_mandate listed ℕ paid_call (paid_request 300) state).0 in
    (check_spend tracker 50 300 none ≡ ok tt)
    × (state'.spend_tracker ≡ some (record_spend tracker 60 300 none))
    × ((m : MandateManager listed ℕ) × (some manager ≡ some m)
        × ((create listed ℕ morning (paid_request 300) m).1 ≡ ok answer)
        × (state'.mandate ≡ some (create listed ℕ morning (paid_request 300) m).0))
create_mandate_accepts_example =
    create_mandate_accepts listed ℕ paid_call (paid_request 300) state answer 300 tracker refl refl
      accepted

refused :
    (create_mandate listed ℕ paid_call (paid_request 9000) state).1
    ≡ err (spend_limit_exceeded (per_mandate 9000 5000))
unfolding create_mandate admit admit_unscreened check_commerce detect check_spend total
    linnix.Prelude.Words.sum64
refused = refl

abbrev block_list : OfacSdnProvider
block_list = load_blocklist (λ text. text) 5 ("did:web:bad" ∷ []) no_list

abbrev strict : ComplianceConfig
strict = record default_config { enabled = true }

abbrev engine : ComplianceEngine
engine = new_engine (λ text. text) strict (ofac_sdn (λ text. text) block_list)

abbrev bad_request_300 : MandateRequest
bad_request_300 = record (paid_request 300) { counterparty_did = some "did:web:bad" }

abbrev screened_state : AppState listed ℕ
screened_state = record state { compliance_engine = some engine }

create_mandate_screens_example :
    (rejection : Rejection) × ((create_mandate listed ℕ paid_call bad_request_300 screened_state).1
      ≡ err rejection)
create_mandate_screens_example =
    create_mandate_screens listed ℕ paid_call bad_request_300 screened_state (λ text. text)
      block_list strict engine "did:web:bad" refl fresh refl refl refl refl

abbrev details : ExecutionDetails ℕ
details = record {
  pid = 42;
  ppid = none;
  binary = b'l' ∷ b's' ∷ [];
  args_hash = "0x00000000000000ff";
  exit_code = pos 0;
  started_at_ns = some 9;
  finished_at_ns = none;
  duration_ms = 0;
  cpu_pct = none;
  mem_pct = none;
}

abbrev Signed : Type 0
Signed = ExecutionReceipt ℕ

abbrev stored : Signed
stored =
    attach packages (unsigned_of "did:web:a" (new_builder none "m-7" details)) signature
      (recoverable packages (signature, 1))

abbrev fresh_manager : MandateManager listed Signed
fresh_manager = new_manager listed Signed secret true enforce

abbrev executed_manager : MandateManager listed Signed
executed_manager = record fresh_manager {
  mandates =
      (
        "m-7",
        record (new_record listed Signed morning (paid_request 300) program_key fresh_manager) {
          status = executed;
          receipt = some stored;
        },
      )
      ∷ [];
}

abbrev redactor : Option ReceiptRedactor
redactor = some (record { level = external })

is_stored : get_receipt listed Signed "m-7" executed_manager ≡ some stored
unfolding linnix.Prelude.Assoc.lookup
is_stored = refl

is_served : get_mandate_receipt listed packages redactor "m-7" (some executed_manager) ≡ ok stored
unfolding linnix.Prelude.Assoc.lookup get_mandate_receipt redact_level
is_served = refl

-- A binary without a directory is not changed by the redaction.
get_mandate_receipt-binds_example :
    (get_status listed Signed "m-7" executed_manager ≡ some executed)
    × (stored ≡ redact_receipt listed packages redactor stored)
    × ((stored ≡ stored)
        ⊎ ((compute_eip712_hash packages (strip_signatures stored)
              ≢ compute_eip712_hash packages (strip_signatures stored))
            ⊎ Collision packages))
get_mandate_receipt-binds_example =
    get_mandate_receipt-binds listed packages redactor "m-7" executed_manager stored stored
      is_stored is_served (omega arith, omega arith, omega arith, omega arith)

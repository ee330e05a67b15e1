-- ===== src/Handler/Tests.antt =====
-- A mandate for a listed program, its receipt in the kernel, and the signed one.
use linnix.Prelude.{ℕ, ◌≡◌, refl, false, true, none, some, [], ◌∷◌}
use linnix.Prelude.Keys.{nat_eq}
use linnix.Prelude.Results.{ok}
use linnix.Protocol.{ProcessEvent, mandate_allow, enforce}
use linnix.BpfMap.Listed.{listed}
use linnix.Lsm.{receipt}
use linnix.Lsm.Samples.{path, secret, program_key}
use linnix.Mandate.Proc.{read_start_time_ns}
use linnix.Mandate.Types.{MandateRequest, MandateResponse, executed}
use linnix.Mandate.Manager.{Moment, new, new_record, response, prepare, create, hash_filename}
use linnix.Mandate.Queries.{get_receipt, get_status}
use linnix.Receipt.{ExecutionReceipt, unsigned_of}
use linnix.Receipt.Signing.{attach, recoverable, sign}
use linnix.Receipt.Samples.{packages, identity, serde, signature}
use linnix.Handler.{Manager, Context, builder_of, on_event}
use linnix.Handler.Path.{create-on_event}

abbrev context : Context listed packages
context = record {
  identity = identity;
  serde = serde;
  boot_id = some "boot";
  hash_text = λ hash. "0x00000000000000ff";
}

abbrev morning : Moment
morning = record {
  system = record { proc = []; starttime_ticks = λ pid. some 500; clk_tck = 100 };
  boottime_ns = 1000;
  wall_ms = 70000;
  instant = 9;
  new_id = "m-7";
}

abbrev request : MandateRequest
request = record {
  pid = 42;
  args = path ∷ [];
  ttl_ms = 5;
  container_id = none;
  monitor_only = false;
  task_id = none;
  max_spend_cents = none;
  counterparty_did = none;
  wallet_address = none;
  jurisdiction = none;
}

abbrev Signed : Type 0
Signed = ExecutionReceipt ℕ

abbrev manager : Manager listed packages
manager = new listed Signed secret true enforce

abbrev answer : MandateResponse
answer =
    response listed Signed manager (new_record listed Signed morning request program_key manager)

created : (create listed Signed morning request manager).1 ≡ ok answer
unfolding create prepare read_start_time_ns hash_filename
created = refl

abbrev event : ProcessEvent
event = receipt mandate_allow 42 255 1 1 2000

abbrev signed : Signed
signed =
    attach packages
      (unsigned_of "did:web:a" (builder_of listed packages context event "m-7" (path ∷ []) 1))
      signature (recoverable packages (signature, 1))

is_signed :
    sign packages serde identity (builder_of listed packages context event "m-7" (path ∷ []) 1)
    ≡ ok signed
unfolding sign
is_signed = refl

create-on_event_example :
    let m' =
      on_event listed packages context event (create listed Signed morning request manager).0 in
    (get_status listed Signed "m-7" m' ≡ some executed)
    × (get_receipt listed Signed "m-7" m' ≡ some signed)
    × (signed.mandate_id ≡ answer.id)
    × (signed.attestation.kernel_seq ≡ some 1)
create-on_event_example =
    create-on_event listed packages context morning request manager answer 42 255 1 2000 signed
      created refl is_signed

-- ===== src/Handler.antt =====
-- cognitod/src/handler/mod.rs: the handler that turns the kernel's receipts into signed ones and marks
-- mandates as executed. What `read_boot_id` returns and the text of a hash are arguments.
pub mod Path
mod Tests
use linnix.Prelude.{
  ℕ, Bool, true, false, not, Option, none, some, List, [], ◌∷◌, String, if◌then◌else◌,
}
use linnix.Prelude.Keys.{◌==◌, nat_eq, string_eq}
use linnix.Prelude.Assoc.{lookup}
use linnix.Prelude.Results.{Result, ok, err}
use linnix.Protocol.{ProcessEvent, mandate_allow, event_type_code}
use linnix.BpfMap.{BpfHash}
use linnix.Mandate.Manager.{MandateManager, mark_executed}
use linnix.Mandate.Queries.{find_id_by_seq, get_execution_data}
use linnix.Receipt.Crates.{Bytes, Packages}
use linnix.Receipt.Encoding.{pos}
use linnix.Receipt.Identity.{AgentIdentity}
use linnix.Receipt.{
  ExecutionDetails, ExecutionReceipt, ReceiptBuilder, new_builder, kernel_seq, enforcement_mode,
}
use linnix.Receipt.Signing.{ReceiptError, Serde, sign}

-- `args.first().cloned().unwrap_or_default()`
abbrev pub first_or_empty : List Bytes → Bytes
first_or_empty [] = []
first_or_empty (arg ∷ args) = arg

module _ (bpf : BpfHash) (packages : Packages) where
  abbrev pub Manager : Type 0
  Manager = MandateManager bpf (ExecutionReceipt packages.Percent)

  -- `MandateReceiptHandler` without its manager, and what a call reads of the system.
  pub record Context : Type 0 where
    pub identity : AgentIdentity packages
    pub serde : Serde packages
    pub boot_id : Option String
    -- `format!("{:#018x}", hash)`
    pub hash_text : ℕ → String

  abbrev pub execution_of : Context → ProcessEvent → List Bytes → ExecutionDetails packages.Percent
  execution_of ctx event args = record {
    pid = event.pid;
    ppid = none;
    binary = first_or_empty args;
    args_hash = ctx.hash_text event.payload;
    exit_code = pos 0;
    started_at_ns = some event.ts_ns;
    finished_at_ns = none;
    duration_ms = 0;
    cpu_pct = none;
    mem_pct = none;
  }

  -- The receipt to be signed.
  abbrev pub builder_of :
      Context → ProcessEvent → String → List Bytes → ℕ → ReceiptBuilder packages.Percent
  builder_of ctx event mandate_id args seq =
      enforcement_mode (if event.aux == 1 then "enforce" else "monitor")
        (kernel_seq seq (new_builder ctx.boot_id mandate_id (execution_of ctx event args)))

  -- A receipt that was signed is stored; a failure is only logged.
  abbrev pub store :
      String → Result ReceiptError (ExecutionReceipt packages.Percent) → Manager → Manager
  store mandate_id (err e) m = m
  store mandate_id (ok signed) m =
      (mark_executed bpf (ExecutionReceipt packages.Percent) mandate_id signed m).0

  abbrev pub attest : Context → ProcessEvent → String → Option (List Bytes × ℕ) → Manager → Manager
  attest ctx event mandate_id none m = m
  attest ctx event mandate_id (some (args, seq)) m =
      store mandate_id
        (sign packages ctx.serde ctx.identity (builder_of ctx event mandate_id args seq)) m

  abbrev pub on_allowed : Context → ProcessEvent → Option String → Manager → Manager
  on_allowed ctx event none m = m
  on_allowed ctx event (some mandate_id) m =
      attest ctx event mandate_id
        (get_execution_data bpf (ExecutionReceipt packages.Percent) mandate_id m) m

  -- `on_event`
  pub on_event : Context → ProcessEvent → Manager → Manager
  on_event ctx event m =
      if not (event.event_type == event_type_code mandate_allow)
      then m
      else if event.payload2 == 0
      then m
      else on_allowed ctx event
          (find_id_by_seq bpf (ExecutionReceipt packages.Percent) event.payload2 m) m

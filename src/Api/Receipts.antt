-- ===== src/Api/Receipts.antt =====
-- cognitod/src/api/mod.rs: the handler `get_mandate_receipt`, which serves receipts with their binary
-- redacted. The change of the member `binary` of the JSON is the change of the field.
use linnix.Prelude.{Option, none, some, String}
use linnix.Prelude.Results.{Result, ok, err}
use linnix.BpfMap.{BpfHash}
use linnix.Mandate.Types.{MandateStatus, active, executed}
use linnix.Mandate.Manager.{MandateManager}
use linnix.Mandate.Queries.{get_status, get_receipt}
use linnix.Privacy.{ReceiptRedactor, redact_binary}
use linnix.Receipt.Crates.{Packages}
use linnix.Receipt.{ExecutionReceipt}

pub data NoReceipt : Type 0 where
  system_not_enabled mandate_not_found pending_execution not_yet_available : NoReceipt
  no_receipt : MandateStatus → NoReceipt

module _ (bpf : BpfHash) (packages : Packages) where
  abbrev Receipt : Type 0
  Receipt = ExecutionReceipt packages.Percent

  abbrev pub redact_receipt : Option ReceiptRedactor → Receipt → Receipt
  redact_receipt none r = r
  redact_receipt (some redactor) r = record r {
    execution = record r.execution { binary = redact_binary redactor r.execution.binary };
  }

  abbrev pub serve : Option ReceiptRedactor → Option Receipt → Result NoReceipt Receipt
  serve redactor none = err not_yet_available
  serve redactor (some r) = ok (redact_receipt redactor r)

  -- By the status of the mandate.
  abbrev pub answer_for :
      Option ReceiptRedactor → Option Receipt → Option MandateStatus → Result NoReceipt Receipt
  answer_for redactor receipt none = err mandate_not_found
  answer_for redactor receipt (some active) = err pending_execution
  answer_for redactor receipt (some executed) = serve redactor receipt
  answer_for redactor receipt (some status) = err (no_receipt status)

  unfoldable pub get_mandate_receipt :
      Option ReceiptRedactor
      → String
      → Option (MandateManager bpf Receipt)
      → Result NoReceipt Receipt
  get_mandate_receipt redactor id none = err system_not_enabled
  get_mandate_receipt redactor id (some mgr) =
      answer_for redactor (get_receipt bpf Receipt id mgr) (get_status bpf Receipt id mgr)

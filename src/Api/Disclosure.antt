-- ===== src/Api/Disclosure.antt =====
-- What a counterparty can verify of a receipt that `get_mandate_receipt` serves.
use linnix.Prelude.{◌≡◌, ◌≢◌, refl, sym, ap, ◌⊎◌, inl, inr, Option, none, some, String, arith}
use mathlib.Core.Path.{subst}
use mathlib.Core.List.{List-discrete}
use native.Mathlib.Decide.{ℕ_discrete}
use linnix.Prelude.Results.{ok}
use linnix.BpfMap.{BpfHash}
use linnix.Mandate.Types.{MandateStatus, active, executed, revoked, expired}
use linnix.Mandate.Manager.{MandateManager}
use linnix.Mandate.Queries.{get_status, get_receipt}
use linnix.Privacy.{ReceiptRedactor}
use linnix.Receipt.Crates.{Packages, Bytes}
use linnix.Receipt.{ExecutionReceipt, strip_signatures, compute_eip712_hash}
use linnix.Receipt.Binding.{SmallNumbers, Collision, compute_eip712_hash-binds}
use linnix.Api.Receipts.{redact_receipt, answer_for, get_mandate_receipt}

module _ (bpf : BpfHash) (packages : Packages) where
  abbrev Served : Type 0
  Served = ExecutionReceipt packages.Percent

  answer_for-executed :
      (redactor : Option ReceiptRedactor) (stored : Served) (status : Option MandateStatus)
      (answer : Served)
      → answer_for bpf packages redactor (some stored) status ≡ ok answer
      → (status ≡ some executed) × (redact_receipt bpf packages redactor stored ≡ answer)
  answer_for-executed redactor stored none answer h = absurd (ground (arith, h))
  answer_for-executed redactor stored (some active) answer h = absurd (ground (arith, h))
  answer_for-executed redactor stored (some executed) answer h = (refl, ground (arith, h))
  answer_for-executed redactor stored (some revoked) answer h = absurd (ground (arith, h))
  answer_for-executed redactor stored (some expired) answer h = absurd (ground (arith, h))

  -- A redaction that leaves the binary leaves the receipt.
  redact_receipt-same :
      (redactor : Option ReceiptRedactor) (r : Served)
      → (redact_receipt bpf packages redactor r).execution.binary ≡ r.execution.binary
      → redact_receipt bpf packages redactor r ≡ r
  redact_receipt-same none r h = refl
  redact_receipt-same (some redactor) r h =
      ap (λ (b : Bytes). record r { execution = record r.execution { binary = b } }) h

  redact_receipt-SmallNumbers :
      (redactor : Option ReceiptRedactor) (r : Served)
      → SmallNumbers packages (strip_signatures r)
      → SmallNumbers packages (strip_signatures (redact_receipt bpf packages redactor r))
  redact_receipt-SmallNumbers none r small = small
  redact_receipt-SmallNumbers (some redactor) r small = small

  -- The redacted receipt is the stored one, or has another hash, or there is a collision.
  redact_receipt-binds :
      (redactor : Option ReceiptRedactor) (r : Served)
      → SmallNumbers packages (strip_signatures r)
      → let answer = redact_receipt bpf packages redactor r in
        (answer ≡ r)
        ⊎ ((compute_eip712_hash packages (strip_signatures answer)
              ≢ compute_eip712_hash packages (strip_signatures r))
            ⊎ Collision packages)
  redact_receipt-binds redactor r small =
      let answer = redact_receipt bpf packages redactor r in
      elim (List-discrete ℕ_discrete (compute_eip712_hash packages (strip_signatures answer))
        (compute_eip712_hash packages (strip_signatures r))) [
          | no differ ↦ inr (inl differ)
          | yes same ↦
              elim (compute_eip712_hash-binds packages (strip_signatures answer)
                (strip_signatures r) (redact_receipt-SmallNumbers redactor r small) small same) [
                  | inl (fields, chain) ↦ inl (redact_receipt-same redactor r fields.3)
                  | inr collision ↦ inr (inr collision)
                ]
        ]

  -- A receipt that is served for a mandate belongs to an Executed one, and is the stored receipt but for
  -- the redaction of its binary. Either it is the stored receipt itself, or its EIP-712 hash is not the one
  -- of the stored receipt, which was signed, or Keccak-256 collides. The numbers of the stored receipt are
  -- inside their types.
  pub get_mandate_receipt-binds :
      (redactor : Option ReceiptRedactor) (id : String) (mgr : MandateManager bpf Served)
      (stored answer : Served)
      → get_receipt bpf Served id mgr ≡ some stored
      → get_mandate_receipt bpf packages redactor id (some mgr) ≡ ok answer
      → SmallNumbers packages (strip_signatures stored)
      → (get_status bpf Served id mgr ≡ some executed)
        × (answer ≡ redact_receipt bpf packages redactor stored)
        × ((answer ≡ stored)
            ⊎ ((compute_eip712_hash packages (strip_signatures answer)
                  ≢ compute_eip712_hash packages (strip_signatures stored))
                ⊎ Collision packages))
  unfolding get_mandate_receipt
  get_mandate_receipt-binds redactor id mgr stored answer there served small =
      let status = get_status bpf Served id mgr in
      let served' =
        subst (λ r. answer_for bpf packages redactor r status ≡ ok answer) there served in
      let facts = answer_for-executed redactor stored status answer served' in
      (
        facts.0,
        sym facts.1,
        subst
            (λ (a : Served).
              (a ≡ stored)
              ⊎ ((compute_eip712_hash packages (strip_signatures a)
                    ≢ compute_eip712_hash packages (strip_signatures stored))
                  ⊎ Collision packages))
            facts.1 (redact_receipt-binds redactor stored small),
      )

-- ===== src/Api/Screening.antt =====
-- The handler `create_mandate` and the compliance engine: what becomes of a listed counterparty.
use linnix.Prelude.{◌≡◌, true, map, some, String, arith, inl, inr, Bool-cases}
use linnix.Prelude.Results.{err, Result-split}
use linnix.BpfMap.{BpfHash}
use linnix.Compliance.Providers.{OfacSdnProvider, has}
use linnix.Compliance.{ComplianceConfig, ComplianceEngine}
use linnix.Compliance.Verdict.{Used, listed, marked, pre_task_screen_blocks}
use linnix.Mandate.Types.{MandateRequest, is_commerce_request}
use linnix.Api.{
  Rejection, compliance_blocked, Call, AppState, compliance_gate, unwrap_or_zero, admit,
  admit_unscreened, create_mandate,
}

module _ (bpf : BpfHash) (Receipt : Type 0) (call : Call) (req : MandateRequest)
    (state : AppState bpf Receipt) where
  gate_blocks :
      (to_lowercase : String → String) (p : OfacSdnProvider) (config : ComplianceConfig)
      (e : ComplianceEngine) (did : String)
      → Used to_lowercase call.to_uppercase p config e
      → config.enabled ≡ true
      → is_commerce_request req ≡ true
      → req.counterparty_did ≡ some did
      → listed to_lowercase p did ≡ true
      → (compliance_gate bpf Receipt call req (some e)).1 ≡ err compliance_blocked
  gate_blocks to_lowercase p config e did used on commerce named bad =
      let amount = unwrap_or_zero req.max_spend_cents in
      let verdict =
        pre_task_screen_blocks to_lowercase call.to_uppercase p config call.screening did
          req.wallet_address req.jurisdiction amount e used in
      let zones = map call.to_uppercase config.blocked_jurisdictions in
      elim (Bool-cases (marked (λ j. has (call.to_uppercase j) zones) req.jurisdiction)) [
        | inl zone ↦ ground (arith, verdict)
        | inr elsewhere ↦ ground (arith, verdict)
      ]

  admit_refuses :
      (e : ComplianceEngine)
      → state.compliance_engine ≡ some e
      → (compliance_gate bpf Receipt call req (some e)).1 ≡ err compliance_blocked
      → (rejection : Rejection) × (admit bpf Receipt call req state ≡ err rejection)
  unfolding admit
  admit_refuses e there blocks = elim (Result-split (admit_unscreened bpf Receipt call req state)) [
    | inl (rejection, refused) ↦ (rejection, ground arith)
    | inr (m, passed) ↦ (compliance_blocked, ground arith)
  ]

  -- Where screening is enabled and the engine has kept its block list since it was made, a commerce
  -- request whose counterparty is on the list, as normalised, is never answered with a mandate.
  pub create_mandate_screens :
      (to_lowercase : String → String) (p : OfacSdnProvider) (config : ComplianceConfig)
      (e : ComplianceEngine) (did : String)
      → state.compliance_engine ≡ some e
      → Used to_lowercase call.to_uppercase p config e
      → config.enabled ≡ true
      → is_commerce_request req ≡ true
      → req.counterparty_did ≡ some did
      → listed to_lowercase p did ≡ true
      → (rejection : Rejection) × ((create_mandate bpf Receipt call req state).1 ≡ err rejection)
  unfolding create_mandate
  create_mandate_screens to_lowercase p config e did there used on commerce named bad =
      let blocks = gate_blocks to_lowercase p config e did used on commerce named bad in
      let refused = admit_refuses e there blocks in (refused.0, ground (arith, refused.1))

-- ===== src/Api/Create.antt =====
-- What an accepted and a rejected request of `create_mandate` leave behind.
use linnix.Prelude.{ℕ, ◌≡◌, refl, some, arith, inl, inr}
use linnix.Prelude.Results.{ok, err, Result-split}
use linnix.BpfMap.{BpfHash}
use linnix.Spend.{SpendTracker, check_spend, record_spend}
use linnix.Mandate.Types.{MandateRequest, MandateResponse, CreateError}
use linnix.Mandate.Manager.{MandateManager, prepare, create}
use linnix.Api.{
  Rejection, commerce_rejected, not_enabled, backpressure_active, spend_limit_exceeded,
  compliance_blocked, bad_request, count_rejection, Call, AppState, admit, admit_unscreened,
  after_checks, finish_create, create_mandate,
}

module _ (bpf : BpfHash) (Receipt : Type 0) (call : Call) (req : MandateRequest)
    (state : AppState bpf Receipt) where
  create_unchanged :
      (m : MandateManager bpf Receipt) (e : CreateError)
      → (create bpf Receipt call.creation req m).1 ≡ err e
      → (create bpf Receipt call.creation req m).0 ≡ m
  unfolding create
  create_unchanged m e h = elim (Result-split (prepare bpf Receipt call.creation req m)) [
    | inl (e', failed) ↦ ground arith
    | inr (key, prepared) ↦ absurd (ground arith)
  ]

  admit-manager :
      (m : MandateManager bpf Receipt)
      → admit bpf Receipt call req state ≡ ok m
      → state.mandate ≡ some m
  unfolding admit admit_unscreened
  admit-manager m h = ground arith

  after_checks_keeps :
      ((after_checks bpf Receipt call req state).mandate ≡ state.mandate)
      × ((after_checks bpf Receipt call req state).spend_tracker ≡ state.spend_tracker)
      × ((after_checks bpf Receipt call req state).created ≡ state.created)
  after_checks_keeps = elim (Result-split (admit_unscreened bpf Receipt call req state)) [
    | inl (e, refused) ↦ (ground arith, ground arith, ground arith)
    | inr (m, passed) ↦ (ground arith, ground arith, ground arith)
  ]

  count_rejection_keeps :
      (e : Rejection) (s : AppState bpf Receipt)
      → let s' = count_rejection bpf Receipt e s in
        (s'.mandate ≡ s.mandate) × (s'.spend_tracker ≡ s.spend_tracker) × (s'.created ≡ s.created)
  count_rejection_keeps (commerce_rejected mode) s = (refl, refl, refl)
  count_rejection_keeps not_enabled s = (refl, refl, refl)
  count_rejection_keeps backpressure_active s = (refl, refl, refl)
  count_rejection_keeps (spend_limit_exceeded v) s = (refl, refl, refl)
  count_rejection_keeps compliance_blocked s = (refl, refl, refl)
  count_rejection_keeps (bad_request e) s = (refl, refl, refl)

  admit-spend :
      (m : MandateManager bpf Receipt) (amount : ℕ) (tracker : SpendTracker)
      → req.max_spend_cents ≡ some amount
      → state.spend_tracker ≡ some tracker
      → admit bpf Receipt call req state ≡ ok m
      → (check_spend tracker call.checked_at amount req.counterparty_did ≡ ok tt)
        × (state.mandate ≡ some m)
  unfolding admit admit_unscreened
  admit-spend m amount tracker capped tracked h = (ground arith, admit-manager m h)

  -- Where a spend tracker is set up, a request with a spending cap that is answered with a
  -- mandate passed the spend check at the time of the check, the manager made the mandate, and
  -- the tracker records the cap, once: at the creation, before the mandate is used.
  pub create_mandate_accepts :
      (resp : MandateResponse) (amount : ℕ) (tracker : SpendTracker)
      → req.max_spend_cents ≡ some amount
      → state.spend_tracker ≡ some tracker
      → (create_mandate bpf Receipt call req state).1 ≡ ok resp
      → let state' = (create_mandate bpf Receipt call req state).0 in
        (check_spend tracker call.checked_at amount req.counterparty_did ≡ ok tt)
        × (state'.spend_tracker
            ≡ some (record_spend tracker call.recorded_at amount req.counterparty_did))
        × ((m : MandateManager bpf Receipt) × (state.mandate ≡ some m)
            × ((create bpf Receipt call.creation req m).1 ≡ ok resp)
            × (state'.mandate ≡ some (create bpf Receipt call.creation req m).0))
  unfolding create_mandate finish_create
  create_mandate_accepts resp amount tracker capped tracked h =
      let kept = after_checks_keeps in
      elim (Result-split (admit bpf Receipt call req state)) [
        | inl (e, refused) ↦ absurd (ground arith)
        | inr (m, admitted) ↦ elim (Result-split (create bpf Receipt call.creation req m).1) [
          | inl (e, failed) ↦ absurd (ground arith)
          | inr (resp', made) ↦
              let facts = admit-spend m amount tracker capped tracked admitted in
              (facts.0, ground arith, (m, facts.1, ground arith, ground arith))
        ]
      ]

  -- A rejected request changes neither the mandates nor the recorded spends, and counts no creation.
  create_mandate_rejects :
      (rejection : Rejection)
      → (create_mandate bpf Receipt call req state).1 ≡ err rejection
      → let state' = (create_mandate bpf Receipt call req state).0 in
        (state'.mandate ≡ state.mandate)
        × (state'.spend_tracker ≡ state.spend_tracker)
        × (state'.created ≡ state.created)
  unfolding create_mandate finish_create
  create_mandate_rejects rejection h =
      let checked = after_checks_keeps in
      elim (Result-split (admit bpf Receipt call req state)) [
        | inl (e, refused) ↦
            let kept = count_rejection_keeps e (after_checks bpf Receipt call req state) in
            (ground arith, ground arith, ground arith)
        | inr (m, admitted) ↦ elim (Result-split (create bpf Receipt call.creation req m).1) [
          | inl (e, failed) ↦
              let kept = create_unchanged m e failed in
              let there = admit-manager m admitted in
              (ground (arith, kept, there), ground arith, ground arith)
          | inr (resp', made) ↦ absurd (ground arith)
        ]
      ]

-- ===== src/Handler/Path.antt =====
-- The way from a mandate through the kernel's receipt to the signed one.
use linnix.Prelude.{ℕ, ◌≡◌, refl, ap, ◌∙◌, true, false, some, String, arith, inl, inr}
use mathlib.Core.Path.{subst}
use linnix.Prelude.Keys.{◌==◌, nat_eq, string_eq, ==_refl}
use linnix.Prelude.Assoc.{lookup, lookup-insert}
use linnix.Prelude.Results.{ok, Result-split}
use linnix.Protocol.{ProcessEvent, mandate_allow, event_type_code}
use linnix.BpfMap.{BpfHash}
use linnix.Lsm.{receipt}
use linnix.Mandate.Types.{MandateRequest, MandateRecord, MandateResponse, executed, is_active}
use linnix.Mandate.Manager.{
  Moment, prepare, new_record, install, create, store_receipt, mark_executed,
}
use linnix.Mandate.Queries.{get_execution_data, get_receipt, get_status}
use linnix.Receipt.Crates.{Packages}
use linnix.Receipt.{
  AttestationDetails, ExecutionReceipt, ReceiptBuilder, unsigned_of, compute_eip712_hash,
}
use linnix.Receipt.Signing.{canonical_json, sign_secp256k1, sign}
use linnix.Handler.{Manager, Context, builder_of, store, attest, on_event}

module _ (bpf : BpfHash) (packages : Packages) (ctx : Context bpf packages) where
  abbrev Signed : Type 0
  Signed = ExecutionReceipt packages.Percent

  mark_executed-active :
      (id : String) (signed : Signed) (r : MandateRecord Signed) (m : Manager bpf packages)
      → lookup id m.mandates ≡ some r
      → is_active r.status ≡ true
      → (mark_executed bpf Signed id signed m).0 ≡ store_receipt bpf Signed id signed r m
  unfolding mark_executed
  mark_executed-active id signed r m found live = ground arith

  get_execution_data-active :
      (id : String) (r : MandateRecord Signed) (m : Manager bpf packages)
      → lookup id m.mandates ≡ some r
      → is_active r.status ≡ true
      → get_execution_data bpf Signed id m ≡ some (r.args, r.value.mandate_seq)
  get_execution_data-active id r m found live = ground arith

  on_event-allowed :
      (event : ProcessEvent) (m : Manager bpf packages) (id : String)
      → event.event_type ≡ event_type_code mandate_allow
      → (event.payload2 == 0) ≡ false
      → lookup event.payload2 m.seq_to_id ≡ some id
      → on_event bpf packages ctx event m
        ≡ attest bpf packages ctx event id (get_execution_data bpf Signed id m) m
  unfolding on_event
  on_event-allowed event m id allows numbered filed = ground arith

  -- The receipt event of a mandate that is filed, active and signed for stores the receipt.
  on_event_stores :
      (event : ProcessEvent) (m : Manager bpf packages) (id : String) (r : MandateRecord Signed)
      (signed : Signed)
      → event.event_type ≡ event_type_code mandate_allow
      → (event.payload2 == 0) ≡ false
      → lookup event.payload2 m.seq_to_id ≡ some id
      → lookup id m.mandates ≡ some r
      → is_active r.status ≡ true
      → sign packages ctx.serde ctx.identity
          (builder_of bpf packages ctx event id r.args r.value.mandate_seq)
        ≡ ok signed
      → on_event bpf packages ctx event m ≡ store_receipt bpf Signed id signed r m
  on_event_stores event m id r signed allows numbered filed found live made =
      on_event-allowed event m id allows numbered filed
      ∙ ap (λ x. attest bpf packages ctx event id x m) (get_execution_data-active id r m found live)
      ∙ ap (λ x. store bpf packages id x m) made
      ∙ mark_executed-active id signed r m found live

  -- What a successful `create` files.
  create_files :
      (at_time : Moment) (req : MandateRequest) (m : Manager bpf packages) (resp : MandateResponse)
      → (create bpf Signed at_time req m).1 ≡ ok resp
      → let m' = (create bpf Signed at_time req m).0 in
        (resp.id ≡ at_time.new_id)
        × (lookup m.next_seq m'.seq_to_id ≡ some at_time.new_id)
        × (lookup at_time.new_id m'.mandates ≡ some (new_record bpf Signed at_time req resp.key m))
  unfolding create install
  create_files at_time req m resp created = elim (Result-split (prepare bpf Signed at_time req m)) [
    | inl (e, failed) ↦ absurd (ground arith)
    | inr (key, prepared) ↦
        let same : key ≡ resp.key = ground arith in
        let record_of = new_record bpf Signed at_time req in
        (
          ground arith,
          rw
              (
                create,
                prepared,
                install,
                lookup-insert m.next_seq m.next_seq at_time.new_id m.seq_to_id,
                ==_refl m.next_seq,
              )
              refl,
          rw
              (
                create,
                prepared,
                install,
                lookup-insert at_time.new_id at_time.new_id (record_of key m) m.mandates,
                ==_refl at_time.new_id,
              )
              (ap (λ k. some (record_of k m)) same),
        )
  ]

  sign-fields :
      (b : ReceiptBuilder packages.Percent) (signed : Signed)
      → sign packages ctx.serde ctx.identity b ≡ ok signed
      → (signed.mandate_id ≡ b.mandate_id) × (signed.attestation ≡ b.attestation)
  unfolding sign
  sign-fields b signed made =
      elim (Result-split (canonical_json packages ctx.serde (unsigned_of ctx.identity.did b))) [
        | inl (e, failed) ↦ absurd (ground arith)
        | inr (json, serialized) ↦
            elim (Result-split (
              sign_secp256k1 packages ctx.identity
                (compute_eip712_hash packages (unsigned_of ctx.identity.did b)))) [
                  | inl (e, failed) ↦ absurd (ground arith)
                  | inr (sig, done) ↦ (ground arith, ground arith)
                ]
      ]

  get_receipt-found :
      (id : String) (r : MandateRecord Signed) (m : Manager bpf packages)
      → lookup id m.mandates ≡ some r
      → get_receipt bpf Signed id m ≡ r.receipt
  get_receipt-found id r m found = ground arith

  -- A mandate that `create` made, the counter not being 0, and then the event that the hook sends when
  -- it lets the mandate's call pass: if signing the handler's receipt succeeds, the mandate is Executed
  -- and keeps that receipt, which names the mandate and its sequence number.
  pub create-on_event :
      (at_time : Moment) (req : MandateRequest) (m : Manager bpf packages) (resp : MandateResponse)
      (pid cmd_hash mode now : ℕ) (signed : Signed)
      → (create bpf Signed at_time req m).1 ≡ ok resp
      → (m.next_seq == 0) ≡ false
      → let event = receipt mandate_allow pid cmd_hash m.next_seq mode now in
        sign packages ctx.serde ctx.identity
            (builder_of bpf packages ctx event resp.id req.args m.next_seq)
          ≡ ok signed
        → let m' =
            on_event bpf packages ctx
              (receipt mandate_allow pid cmd_hash m.next_seq mode now)
              (create bpf Signed at_time req m).0 in
          (get_status bpf Signed resp.id m' ≡ some executed)
          × (get_receipt bpf Signed resp.id m' ≡ some signed)
          × (signed.mandate_id ≡ resp.id)
          × (signed.attestation.kernel_seq ≡ some m.next_seq)
  create-on_event at_time req m resp pid cmd_hash mode now signed created numbered made =
      let event = receipt mandate_allow pid cmd_hash m.next_seq mode now in
      let m1 = (create bpf Signed at_time req m).0 in
      let filed = create_files at_time req m resp created in
      let r = new_record bpf Signed at_time req resp.key m in
      let id = at_time.new_id in
      let made' =
        subst
          (λ i.
            sign packages ctx.serde ctx.identity
              (builder_of bpf packages ctx event i req.args m.next_seq)
            ≡ ok signed)
          filed.0 made in
      let stored = on_event_stores event m1 id r signed refl numbered filed.1 filed.2 refl made' in
      let there : lookup resp.id (store_receipt bpf Signed id signed r m1).mandates
          ≡ some (record r { status = executed; receipt = some signed }) =
        ground (
          arith,
          filed.0,
          lookup-insert id resp.id (record r { status = executed; receipt = some signed })
              m1.mandates,
          ==_refl id,
        ) in
      let fields =
        sign-fields (builder_of bpf packages ctx event resp.id req.args m.next_seq) signed made in
      (
        rw (stored, there) refl,
        ap (get_receipt bpf Signed resp.id) stored
            ∙ get_receipt-found resp.id (record r { status = executed; receipt = some signed })
                (store_receipt bpf Signed id signed r m1) there,
        fields.0,
        ap (λ (a : AttestationDetails). a.kernel_seq) fields.1,
      )

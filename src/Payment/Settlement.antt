-- ===== src/Payment/Settlement.antt =====
-- cognitod/src/onchain.rs: what a settlement that succeeds has done, and what the chain says of it.
use linnix.Prelude.{
  ℕ, ◌≡◌, ◌↔◌, refl, sym, ◌∙◌, ap, Bool, String, true, false, Option, none, some, length,
  if◌then◌else◌,
}
use linnix.Prelude.Keys.{nat_eq}
use linnix.Prelude.Results.{Result, ok, err, ◌>>=◌, fail_if}
use linnix.Receipt.Crates.{Bytes, Packages}
use linnix.Payment.{
  on_chain, settled_on_chain, confirmed, reverted, PaymentResult, PaymentError, cents_to_base_units,
}
use linnix.Payment.OnChain.{
  Chain, Tx, Call, submit_receipt, OnChainAdapter, without_prefix, or_fail, to_bytes32,
  compute_solidity_eip712_signature, submit_receipt_onchain, task_id_of, settle, check_status,
  build_provider, parse_address, base_units, send, tx_reference, status_of,
}

module _ {A B : Type 0} where
  bind_ok :
      (m : Result PaymentError A) (f : A → Result PaymentError B) (b : B)
      → (m >>= f) ≡ ok b
      → (a : A) × (m ≡ ok a) × (f a ≡ ok b)
  bind_ok (ok a) f b h = (a, refl, h)
  bind_ok (err e) f b h = absurd (cc h)

or_fail_ok :
    {A : Type 0} (e : PaymentError) (o : Option A) (a : A) → or_fail e o ≡ ok a → o ≡ some a
or_fail_ok e none a h = absurd (cc h)
or_fail_ok e (some b) a h = cc h

fail_if_ok : (b : Bool) (e : PaymentError) (u : Unit {0}) → fail_if b e ≡ ok u → b ≡ false
fail_if_ok true e u h = absurd (cc h)
fail_if_ok false e u h = refl

ok_injective : {A : Type 0} {a b : A} → ◌≡◌ {A = Result PaymentError A} (ok a) (ok b) → a ≡ b
ok_injective h = cc h

module _ (packages : Packages) (chain : Chain packages)
    (adapter : OnChainAdapter packages chain) where
  -- A settlement on the chain, step by step: the `submitReceipt` for the task of the receipt was mined,
  -- with the amount in base units, and the result that is made of it. It does not ask for the status.
  pub record Submitted (receipt_json : Bytes) (amount_cents : ℕ) (r : PaymentResult) : Type 0 where
    pub value : chain.Json
    pub settlement : Bytes
    pub amount : ℕ
    pub sig : Bytes
    pub tx : Tx
    pub parsed : chain.json_from_str receipt_json ≡ some value
    pub provider : build_provider packages chain adapter ≡ ok tt
    pub located : chain.parse_address adapter.config.settlement_contract ≡ some settlement
    pub converted : cents_to_base_units adapter.token amount_cents ≡ some amount
    pub signed :
        compute_solidity_eip712_signature packages chain adapter
          (to_bytes32 packages chain (task_id_of packages chain adapter value))
          amount
          receipt_json
        ≡ ok sig
    pub mined :
        chain.mined (
          submit_receipt settlement
            (to_bytes32 packages chain (task_id_of packages chain adapter value))
            amount
            receipt_json
            sig)
        ≡ some tx
    pub result : r ≡ record {
      success = true;
      reference = some (tx_reference packages chain adapter tx);
      message = settled_on_chain amount_cents adapter.config.chain_id;
      settled_cents = amount_cents;
    }

  check_status-reference :
      (tx : Tx)
      → length tx.hash ≡ 32
      → chain.transaction tx.hash ≡ some (some tx)
      → build_provider packages chain adapter ≡ ok tt
      → check_status packages chain adapter (tx_reference packages chain adapter tx)
        ≡ ok (status_of packages chain adapter (tx_reference packages chain adapter tx) (some tx))
  unfolding check_status
  check_status-reference tx long there provider =
      let decoded : packages.hex_decode (without_prefix (tx_reference packages chain adapter tx))
          ≡ some tx.hash =
        packages.hex_decode-encode tx.hash in
      rw (provider, decoded, long, there) refl

  -- What a settlement that returns a result has done.
  settle-Submitted :
      (receipt_json : Bytes) (amount_cents chain_id : ℕ) (token : String) (r : PaymentResult)
      → settle packages chain adapter receipt_json amount_cents (on_chain chain_id token) ≡ ok r
      → Submitted receipt_json amount_cents r
  unfolding settle submit_receipt_onchain
  settle-Submitted receipt_json amount_cents chain_id token r h =
      let (value, parsed, h) =
        bind_ok (or_fail PaymentError.bad_json (chain.json_from_str receipt_json)) _ r h in
      let task = to_bytes32 packages chain (task_id_of packages chain adapter value) in
      let (u, provider, h) = bind_ok (build_provider packages chain adapter) _ r h in
      let (settlement, located, h) =
        bind_ok (parse_address packages chain adapter adapter.config.settlement_contract) _ r h in
      let (amount, converted, h) = bind_ok (base_units packages chain adapter amount_cents) _ r h in
      let (sig, signed, h) =
        bind_ok (compute_solidity_eip712_signature packages chain adapter task amount receipt_json)
          _ r h in
      let (tx, sent, h) =
        bind_ok
          (send packages chain adapter (submit_receipt settlement task amount receipt_json sig)) _ r
          h in
      record {
        value = value;
        settlement = settlement;
        amount = amount;
        sig = sig;
        tx = tx;
        parsed = or_fail_ok PaymentError.bad_json (chain.json_from_str receipt_json) value parsed;
        provider = provider;
        located = or_fail_ok PaymentError.bad_address _ settlement located;
        converted = or_fail_ok PaymentError.panicked _ amount converted;
        signed = signed;
        mined = or_fail_ok PaymentError.send_failed _ tx sent;
        result = sym (ok_injective h);
      }

  -- A settlement that has got as far as a mined transaction, of either status, returns its result.
  Submitted-settle :
      (receipt_json : Bytes) (amount_cents chain_id : ℕ) (token : String) (r : PaymentResult)
      → Submitted receipt_json amount_cents r
      → settle packages chain adapter receipt_json amount_cents (on_chain chain_id token) ≡ ok r
  unfolding settle submit_receipt_onchain
  Submitted-settle receipt_json amount_cents chain_id token r done =
      rw (done.parsed, done.provider, done.located, done.converted, done.signed, done.mined)
        (ap (λ (p : PaymentResult). ok p) (sym done.result))

  -- Where a transaction that was mined has a hash of 32 bytes and can be looked up by it: a settlement on
  -- the chain returns a result exactly when the receipt, the addresses and the amount can be read, it can be
  -- signed, and the `submitReceipt` for the receipt's task, with the amount in base units, was mined, be it
  -- reverted or not. The result reports success, the whole amount as settled and the transaction's hash; and
  -- `check_status` of that reference says of the same transaction what its status is.
  pub settle-check_status :
      (receipt_json : Bytes) (amount_cents chain_id : ℕ) (token : String) (r : PaymentResult)
      → ((call : Call) (tx : Tx)
          → chain.mined call ≡ some tx
          → (length tx.hash ≡ 32) × (chain.transaction tx.hash ≡ some (some tx)))
      → (settle packages chain adapter receipt_json amount_cents (on_chain chain_id token) ≡ ok r)
        ↔ ((done : Submitted receipt_json amount_cents r) × (check_status packages chain adapter
                (tx_reference packages chain adapter done.tx)
              ≡ ok (record {
                success = done.tx.status;
                reference = r.reference;
                message = if done.tx.status then confirmed else reverted;
                settled_cents = 0;
              })))
  settle-check_status receipt_json amount_cents chain_id token r looked_up = (
    λ h.
        let done = settle-Submitted receipt_json amount_cents chain_id token r h in
        let known = looked_up _ done.tx done.mined in
        (
          done,
          check_status-reference done.tx known.0 known.1 done.provider
              ∙ ap
                  (λ reference. ok (record {
                    success = done.tx.status;
                    reference = reference;
                    message = if done.tx.status then confirmed else reverted;
                    settled_cents = 0;
                  }))
                  (ap (λ (p : PaymentResult). p.reference) (sym done.result)),
        ),
    λ both. Submitted-settle receipt_json amount_cents chain_id token r both.0,
  )

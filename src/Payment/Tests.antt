-- ===== src/Payment/Tests.antt =====
-- Amounts and settlement at concrete inputs.
use linnix.Prelude.{
  ℕ, ◌*◌, ◌^◌, ◌≡◌, ◌↔◌, refl, sym, ap, true, false, Option, none, some, [], ◌∷◌, length, arith,
  if◌then◌else◌,
}
use linnix.Prelude.Results.{ok}
use linnix.Receipt.Crates.{Bytes}
use linnix.Receipt.Encoding.{zeros}
use linnix.Receipt.Samples.{packages}
use linnix.Payment.{
  usdc_base, dai_mainnet, cents_to_base_units, base_units_to_cents, on_chain, confirmed, reverted,
  settled_on_chain, PaymentResult,
}
use linnix.Payment.OnChain.{
  Chain, Tx, OnChainAdapter, settle, submit_receipt_onchain, compute_solidity_eip712_signature,
  check_status, tx_reference,
}
use linnix.Payment.RoundTrip.{base_units_to_cents-cents_to_base_units}
use linnix.Payment.Settlement.{Submitted, settle-check_status}

base_units_to_cents-cents_to_base_units_example :
    (base : ℕ) × (base ≡ 15 * 10 ^ 16)
    × (cents_to_base_units dai_mainnet 15 ≡ some base)
    × (base_units_to_cents dai_mainnet base ≡ some 15)
base_units_to_cents-cents_to_base_units_example =
    base_units_to_cents-cents_to_base_units dai_mainnet 15 (omega arith) (omega arith) (omega arith)

-- Every call is mined, and reverted.
abbrev reverted_tx : Tx
reverted_tx = record { hash = zeros 32; status = false }

abbrev chain : Chain packages
chain = record {
  Json = Bytes;
  json_from_str = λ text. some text;
  get_str = λ value field. some (some value);
  parse_address = λ text. some text;
  parse_url = λ text. true;
  parse_key = λ text. some tt;
  env_key = none;
  address_of_key = λ key. zeros 20;
  is_registered = λ registry did. false;
  mined = λ call. some reverted_tx;
  transaction = λ hash. some (some reverted_tx);
}

abbrev adapter : OnChainAdapter packages chain
adapter = record {
  config = record {
    rpc_url = [];
    chain_id = 8453;
    settlement_contract = zeros 20;
    registry_contract = zeros 20;
    token_address = zeros 20;
    token_decimals = 6;
    private_key = [];
  };
  token = usdc_base;
  signer = tt;
}

abbrev result : PaymentResult
result = record {
  success = true;
  reference = some (tx_reference packages chain adapter reverted_tx);
  message = settled_on_chain 15 8453;
  settled_cents = 15;
}

mined_is_known :
    (tx : Tx)
    → ◌≡◌ {A = Option Tx} (some reverted_tx) (some tx)
    → (length tx.hash ≡ 32)
      × (◌≡◌ {A = Option (Option Tx)} (some (some reverted_tx)) (some (some tx)))
mined_is_known tx h =
    let same : reverted_tx ≡ tx = cc h in
    (ap (λ (t : Tx). length t.hash) (sym same), ap (λ (t : Tx). some (some t)) same)

settled : settle packages chain adapter (b'x' ∷ []) 15 (on_chain 8453 "") ≡ ok result
unfolding settle submit_receipt_onchain compute_solidity_eip712_signature cents_to_base_units
settled = refl

settle-check_status_example :
    (settle packages chain adapter (b'x' ∷ []) 15 (on_chain 8453 "") ≡ ok result) ↔ (
      (done : Submitted packages chain adapter (b'x' ∷ []) 15 result) × (check_status packages chain
          adapter
          (tx_reference packages chain adapter done.tx)
        ≡ ok (record {
          success = done.tx.status;
          reference = result.reference;
          message = if done.tx.status then confirmed else reverted;
          settled_cents = 0;
        })))
settle-check_status_example =
    settle-check_status packages chain adapter (b'x' ∷ []) 15 8453 "" result
      (λ call tx h. mined_is_known tx h)

-- ===== src/Payment/OnChain.antt =====
-- cognitod/src/onchain.rs: the adapter for settlement on a chain. The chain is what the package alloy
-- gives: addresses, keys, and the answers to the calls of the contracts. A call that waits for its receipt
-- answers with the transaction that was mined, which may have been reverted.
use linnix.Prelude.{
  ℕ, ◌+◌, Bool, true, false, not, Option, none, some, String, [], ◌∷◌, ◌++◌, length, if◌then◌else◌,
}
use linnix.Prelude.Keys.{◌==◌, nat_eq}
use linnix.Prelude.Bytes.{strip_prefix}
use linnix.Prelude.Results.{Result, ok, err, ◌>>=◌, ◌>>◌, fail_if}
use linnix.Receipt.Crates.{Bytes, Packages}
use linnix.Receipt.Encoding.{be_bytes, zeros, word}
use linnix.Payment.{
  TokenInfo, cents_to_base_units, SettlementPath, on_chain, webhook, manual, settled_on_chain,
  confirmed, reverted, not_found, PaymentResult, PaymentError,
}

-- The fields of `ChainConfig` (cognitod/src/config.rs) that the adapter reads.
pub record ChainConfig : Type 0 where
  pub rpc_url : Bytes
  pub chain_id : ℕ
  pub settlement_contract : Bytes
  pub registry_contract : Bytes
  pub token_address : Bytes
  pub token_decimals : ℕ
  pub private_key : Bytes

pub record Tx : Type 0 where
  pub hash : Bytes
  pub status : Bool

-- What the adapter does to the chain.
pub data Call : Type 0 where
  register : (contract did_hash ed25519_key address : Bytes) → Call
  create_task : (contract task_id payee_hash token : Bytes) (max_amount deadline_blocks : ℕ) → Call
  approve : (token spender : Bytes) (amount : ℕ) → Call
  submit_receipt : (contract task_id : Bytes) (amount : ℕ) (receipt sig : Bytes) → Call

pub record Chain (packages : Packages) : Type 1 where
  pub Json : Type 0
  pub json_from_str : Bytes → Option Json
  pub get_str : Json → String → Option (Option Bytes)
  pub parse_address : Bytes → Option Bytes
  pub parse_url : Bytes → Bool
  pub parse_key : Bytes → Option packages.SecpKey
  pub env_key : Option Bytes
  pub address_of_key : packages.SecpKey → Bytes
  pub is_registered : Bytes → Bytes → Bool
  -- `send` and `get_receipt`
  pub mined : Call → Option Tx
  -- `get_transaction_receipt`: an error, or the transaction if it is there.
  pub transaction : Bytes → Option (Option Tx)

abbrev pub hex_prefix : Bytes
hex_prefix = b'0' ∷ b'x' ∷ []

abbrev pub unknown_task : Bytes
unknown_task = b'u' ∷ b'n' ∷ b'k' ∷ b'n' ∷ b'o' ∷ b'w' ∷ b'n' ∷ []

abbrev pub is_empty : Bytes → Bool
is_empty [] = true
is_empty (b ∷ bs) = false

-- `strip_prefix("0x").unwrap_or(text)`
abbrev pub without_prefix : Bytes → Bytes
without_prefix text = elim (strip_prefix hex_prefix text) [ none ↦ text | some rest ↦ rest ]

abbrev pub or_fail : {A : Type 0} → PaymentError → Option A → Result PaymentError A
or_fail e none = err e
or_fail e (some a) = ok a

module _ (packages : Packages) (chain : Chain packages) where
  -- `did_to_bytes32`, `string_to_bytes32`
  abbrev pub to_bytes32 : Bytes → Bytes
  to_bytes32 text = packages.keccak256 text

  unfoldable pub resolve_signer :
      ChainConfig → packages.SecpKey → Result PaymentError packages.SecpKey
  resolve_signer config identity_key =
      if is_empty config.private_key
      then elim chain.env_key [
        | none ↦ ok identity_key
        | some key_hex ↦
            or_fail PaymentError.bad_private_key (chain.parse_key (without_prefix key_hex))
      ]
      else or_fail PaymentError.bad_private_key
          (chain.parse_key (without_prefix config.private_key))

  pub record OnChainAdapter : Type 0 where
    pub config : ChainConfig
    pub token : TokenInfo
    pub signer : packages.SecpKey

  unfoldable pub new_adapter :
      ChainConfig → String → packages.SecpKey → Result PaymentError OnChainAdapter
  new_adapter config token_address identity_key =
      fail_if (is_empty config.settlement_contract) PaymentError.settlement_contract_missing
      >> (fail_if (is_empty config.registry_contract) PaymentError.registry_contract_missing
          >> (fail_if (is_empty config.token_address) PaymentError.token_address_missing
              >> (resolve_signer config identity_key >>= λ signer. ok (record {
                config = config;
                token = record {
                  name = "USD Coin";
                  symbol = "USDC";
                  decimals = config.token_decimals;
                  address = token_address;
                  chain_id = config.chain_id;
                };
                signer = signer;
              }))))

  module _ (adapter : OnChainAdapter) where
    -- `build_provider`
    abbrev pub build_provider : Result PaymentError (Unit {0})
    build_provider = fail_if (not (chain.parse_url adapter.config.rpc_url)) PaymentError.bad_rpc_url

    abbrev pub parse_address : Bytes → Result PaymentError Bytes
    parse_address text = or_fail PaymentError.bad_address (chain.parse_address text)

    abbrev pub base_units : ℕ → Result PaymentError ℕ
    base_units cents = or_fail PaymentError.panicked (cents_to_base_units adapter.token cents)

    abbrev pub send : Call → Result PaymentError Tx
    send call = or_fail PaymentError.send_failed (chain.mined call)

    abbrev pub tx_reference : Tx → Bytes
    tx_reference tx = hex_prefix ++ packages.hex_encode tx.hash

    abbrev hash_text : String → Bytes
    hash_text t = packages.keccak256 (packages.as_bytes t)

    abbrev pub domain_encoded : Bytes → Bytes
    domain_encoded settlement_addr =
        hash_text
          "EIP712Domain(string name,string version,uint256 chainId,address verifyingContract)"
        ++ (hash_text "Linnix-Claw"
            ++ (hash_text "0.1.0"
                ++ (word 8 adapter.config.chain_id ++ (zeros 12 ++ settlement_addr))))

    abbrev pub struct_encoded : Bytes → ℕ → Bytes → Bytes
    struct_encoded task_id amount receipt_bytes =
        hash_text "Receipt(bytes32 taskId,uint256 actualAmount,bytes32 receiptHash)"
        ++ (task_id ++ (be_bytes 32 amount ++ packages.keccak256 receipt_bytes))

    unfoldable pub compute_solidity_eip712_signature : Bytes → ℕ → Bytes → Result PaymentError Bytes
    compute_solidity_eip712_signature task_id amount receipt_bytes =
        parse_address adapter.config.settlement_contract >>= λ settlement_addr.
        or_fail PaymentError.signing_failed (
          packages.sign_prehash adapter.signer (
            packages.keccak256 (
              25
              ∷ 1
              ∷ (packages.keccak256 (domain_encoded settlement_addr)
                  ++ packages.keccak256 (struct_encoded task_id amount receipt_bytes)))))
        >>= λ signed. ok (signed.0 ++ (signed.1 + 27) ∷ [])

    unfoldable pub register_agent : Bytes → Bytes → Bytes → Result PaymentError (Option Tx)
    register_agent did ed25519_key eth_addr =
        build_provider
        >> (parse_address adapter.config.registry_contract >>= λ registry.
            if chain.is_registered registry (to_bytes32 did)
            then ok none
            else (send (register registry (to_bytes32 did) ed25519_key eth_addr) >>= λ tx.
                ok (some tx)))

    unfoldable pub create_task_onchain : Bytes → Bytes → ℕ → ℕ → Result PaymentError Bytes
    create_task_onchain task_id payee_did max_amount_cents deadline_blocks =
        build_provider
        >> (parse_address adapter.config.settlement_contract >>= λ settlement.
            parse_address adapter.config.token_address >>= λ token.
            base_units max_amount_cents >>= λ max_amount.
            send (
              create_task settlement (to_bytes32 task_id) (to_bytes32 payee_did) token max_amount
                deadline_blocks)
            >>= λ tx. ok (tx_reference tx))

    unfoldable pub approve_token : ℕ → Result PaymentError Bytes
    approve_token amount_cents =
        build_provider
        >> (parse_address adapter.config.token_address >>= λ token.
            parse_address adapter.config.settlement_contract >>= λ settlement.
            base_units amount_cents >>= λ amount.
            send (approve token settlement amount) >>= λ tx. ok (tx_reference tx))

    unfoldable pub submit_receipt_onchain : Bytes → Bytes → ℕ → Result PaymentError PaymentResult
    submit_receipt_onchain task_id receipt_json amount_cents =
        build_provider
        >> (parse_address adapter.config.settlement_contract >>= λ settlement.
            base_units amount_cents >>= λ amount.
            compute_solidity_eip712_signature (to_bytes32 task_id) amount receipt_json >>= λ sig.
            send (submit_receipt settlement (to_bytes32 task_id) amount receipt_json sig) >>= λ tx.
            ok (record {
              success = true;
              reference = some (tx_reference tx);
              message = settled_on_chain amount_cents adapter.config.chain_id;
              settled_cents = amount_cents;
            }))

    -- `get("task_id").or_else(get("mandate_id")).and_then(as_str).unwrap_or("unknown")`
    abbrev text_or_unknown : Option (Option Bytes) → Bytes
    text_or_unknown none = unknown_task
    text_or_unknown (some none) = unknown_task
    text_or_unknown (some (some text)) = text

    unfoldable pub task_id_of : chain.Json → Bytes
    task_id_of value = elim (chain.get_str value "task_id") [
      | some field ↦ text_or_unknown (some field)
      | none ↦ text_or_unknown (chain.get_str value "mandate_id")
    ]

    abbrev pub resolve_settlement_path : Bytes → Result PaymentError SettlementPath
    resolve_settlement_path counterparty_did =
        ok (on_chain adapter.config.chain_id adapter.token.address)

    unfoldable pub settle : Bytes → ℕ → SettlementPath → Result PaymentError PaymentResult
    settle receipt_json amount_cents (on_chain chain_id token) =
        or_fail PaymentError.bad_json (chain.json_from_str receipt_json) >>= λ value.
        submit_receipt_onchain (task_id_of value) receipt_json amount_cents
    settle receipt_json amount_cents (webhook endpoint) = err PaymentError.wrong_path
    settle receipt_json amount_cents manual = err PaymentError.wrong_path

    abbrev pub status_of : Bytes → Option Tx → PaymentResult
    status_of reference none = record {
      success = false;
      reference = some reference;
      message = not_found;
      settled_cents = 0;
    }
    status_of reference (some tx) = record {
      success = tx.status;
      reference = some reference;
      message = if tx.status then confirmed else reverted;
      settled_cents = 0;
    }

    unfoldable pub check_status : Bytes → Result PaymentError PaymentResult
    check_status reference =
        build_provider
        >> (or_fail PaymentError.bad_hash (packages.hex_decode (without_prefix reference))
            >>= λ hash.
                fail_if (not (length hash == 32)) (PaymentError.wrong_hash_length (length hash))
                >> (or_fail PaymentError.fetch_failed (chain.transaction hash) >>= λ found.
                    ok (status_of reference found)))

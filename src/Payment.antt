-- ===== src/Payment.antt =====
-- cognitod/src/payment.rs: amounts in cents and in a token's base units, and the adapters for settlement.
-- A message is told by its case.
pub mod OnChain
pub mod RoundTrip
pub mod Settlement
mod Tests
use linnix.Prelude.{
  ℕ, ◌+◌, ◌-◌, ◌*◌, ◌/◌, ◌%◌, ◌^◌, Bool, true, false, Option, none, some, String, List, [], ◌∷◌,
  ◌++◌, ltb, if◌then◌else◌,
}
use linnix.Prelude.Keys.{◌==◌, nat_eq}
use linnix.Prelude.Words.{u64_mod}
use linnix.Prelude.Results.{Result, ok, err}
use Prim.Native.String.{◌++◌ as push_str}

abbrev pub u128_mod : ℕ
u128_mod = 2 ^ 128

pub record TokenInfo : Type 0 where
  pub name : String
  pub symbol : String
  pub decimals : ℕ
  pub address : String
  pub chain_id : ℕ

-- `10u128.pow(n)` in a release build.
abbrev pub pow10 : ℕ → ℕ
pow10 n = 10 ^ n % u128_mod

-- `a / b` on `u128`, where a division by zero panics.
abbrev pub div128 : ℕ → ℕ → Option ℕ
div128 a b = if b == 0 then none else some (a / b)

unfoldable pub cents_to_base_units : TokenInfo → ℕ → Option ℕ
cents_to_base_units token cents =
    if ltb token.decimals 2
    then div128 cents (pow10 (2 - token.decimals))
    else some ((cents * pow10 (token.decimals - 2)) % u128_mod)

abbrev as_u64 : Option ℕ → Option ℕ
as_u64 none = none
as_u64 (some n) = some (n % u64_mod)

unfoldable pub base_units_to_cents : TokenInfo → ℕ → Option ℕ
base_units_to_cents token base_units =
    if ltb token.decimals 2
    then some (((base_units * pow10 (2 - token.decimals)) % u128_mod) % u64_mod)
    else as_u64 (div128 base_units (pow10 (token.decimals - 2)))

abbrev pub usdc_base : TokenInfo
usdc_base = record {
  name = "USD Coin";
  symbol = "USDC";
  decimals = 6;
  address = "0x833589fCD6eDb6E08f4c7C32D4f71b54bdA02913";
  chain_id = 8453;
}

abbrev pub usdc_base_sepolia : TokenInfo
usdc_base_sepolia = record {
  name = "USD Coin";
  symbol = "USDC";
  decimals = 6;
  address = "0x036CbD53842c5426634e7929541eC2318f3dCF7e";
  chain_id = 84532;
}

abbrev pub dai_mainnet : TokenInfo
dai_mainnet = record {
  name = "Dai Stablecoin";
  symbol = "DAI";
  decimals = 18;
  address = "0x6B175474E89094C44Da98b954EedeAC495271d0F";
  chain_id = 1;
}

pub data SettlementPath : Type 0 where
  on_chain : (chain_id : ℕ) (token : String) → SettlementPath
  webhook : (endpoint : String) → SettlementPath
  manual : SettlementPath

pub data Note : Type 0 where
  stub_recorded stub_confirmed noop_settled noop_status : Note
  settled_on_chain : (amount_cents chain_id : ℕ) → Note
  confirmed reverted not_found : Note

pub record PaymentResult : Type 0 where
  pub success : Bool
  pub reference : Option (List ℕ)
  pub message : Note
  pub settled_cents : ℕ

pub data PaymentError : Type 0 where
  live_mode_missing wrong_path bad_json bad_address bad_hash bad_rpc_url bad_private_key :
      PaymentError
  settlement_contract_missing registry_contract_missing token_address_missing : PaymentError
  send_failed fetch_failed signing_failed panicked : PaymentError
  wrong_hash_length : ℕ → PaymentError

-- The trait; a text is its bytes.
pub record PaymentAdapter : Type 0 where
  pub name : String
  pub resolve_settlement_path : (counterparty_did : List ℕ) → Result PaymentError SettlementPath
  pub settle :
      (receipt_json : List ℕ) (amount_cents : ℕ) (path : SettlementPath)
      → Result PaymentError PaymentResult
  pub check_status : (reference : List ℕ) → Result PaymentError PaymentResult

-- `"stub_pi_"`
abbrev stub_prefix : List ℕ
stub_prefix = b's' ∷ b't' ∷ b'u' ∷ b'b' ∷ b'_' ∷ b'p' ∷ b'i' ∷ b'_' ∷ []

-- `StripeStubAdapter`, by whether it is live and the identifier that `Uuid::new_v4` makes.
abbrev pub stripe_stub : Bool → List ℕ → PaymentAdapter
stripe_stub live uuid = record {
  name = if live then "stripe-live" else "stripe-stub";
  resolve_settlement_path = λ did. ok (webhook "https://api.stripe.com/v1/payment_intents");
  settle = λ receipt amount_cents path.
      if live
      then err live_mode_missing
      else ok (record {
        success = true;
        reference = some (stub_prefix ++ uuid);
        message = stub_recorded;
        settled_cents = amount_cents;
      });
  check_status = λ reference.
      if live
      then err live_mode_missing
      else ok (record {
        success = true;
        reference = some reference;
        message = stub_confirmed;
        settled_cents = 0;
      });
}

abbrev pub noop_adapter : PaymentAdapter
noop_adapter = record {
  name = "noop";
  resolve_settlement_path = λ did. ok manual;
  settle = λ receipt amount_cents path. ok (record {
    success = true;
    reference = none;
    message = noop_settled;
    settled_cents = amount_cents;
  });
  check_status = λ reference.
      ok (record { success = true; reference = none; message = noop_status; settled_cents = 0 });
}

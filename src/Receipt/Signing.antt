-- ===== src/Receipt/Signing.antt =====
-- cognitod/src/receipt.rs: how a receipt is signed, with Ed25519 over its canonical JSON and with
-- secp256k1 over its EIP-712 hash, and how the two signatures are verified.
use linnix.Prelude.{
  ℕ, zero, suc, ◌+◌, ◌-◌, ◌%◌, Bool, true, false, not, ◌&&◌, Option, none, some, [], ◌∷◌, ◌++◌,
  length, take, ltb,
}
use linnix.Prelude.Keys.{◌==◌, nat_eq}
use linnix.Prelude.Bytes.{strip_prefix}
use linnix.Prelude.Results.{Result, ok, err, ◌>>=◌, ◌>>◌, fail_if}
use linnix.Receipt.Crates.{Bytes, Packages}
use linnix.Receipt.Json.{Json, sort_json_value}
use linnix.Receipt.Identity.{AgentIdentity, address_of}
use linnix.Receipt.{
  ReceiptBuilder, UnsignedReceipt, ExecutionReceipt, unsigned_of, strip_signatures,
  compute_eip712_hash,
}

pub data ReceiptError : Type 0 where
  serialize_failed signing_failed missing_prefix bad_encoding : ReceiptError
  bad_length : ℕ → ReceiptError
  invalid_recovery_id invalid_signature recovery_failed : ReceiptError

-- `[u8; 20]` and `[u8]` are compared byte by byte.
abbrev pub same_bytes : Bytes → Bytes → Bool
same_bytes [] [] = true
same_bytes [] (c ∷ cs) = false
same_bytes (b ∷ bs) [] = false
same_bytes (b ∷ bs) (c ∷ cs) = b == c && same_bytes bs cs

-- `bytes[n]`; the one use follows a test of the length.
abbrev pub byte_at : ℕ → Bytes → ℕ
byte_at n [] = 0
byte_at zero (b ∷ bytes) = b
byte_at (suc n) (b ∷ bytes) = byte_at n bytes

abbrev pub ed25519_prefix : Bytes
ed25519_prefix = b'e' ∷ b'd' ∷ b'2' ∷ b'5' ∷ b'5' ∷ b'1' ∷ b'9' ∷ b':' ∷ []

abbrev pub hex_prefix : Bytes
hex_prefix = b'0' ∷ b'x' ∷ []

-- `ok_or`: an option whose lack is an error.
abbrev pub or_error : {A : Type 0} → ReceiptError → Option A → Result ReceiptError A
or_error e none = err e
or_error e (some a) = ok a

module _ (packages : Packages) where
  -- What the receipt needs of serde_json: to a value, and from a value to a text.
  pub record Serde : Type 0 where
    pub to_value : UnsignedReceipt packages.Percent → Option Json
    pub to_string : Json → Option Bytes

  abbrev pub canonical_json : Serde → UnsignedReceipt packages.Percent → Result ReceiptError Bytes
  canonical_json serde receipt = or_error serialize_failed (serde.to_value receipt) >>= λ value.
      or_error serialize_failed (serde.to_string (sort_json_value value))

  abbrev pub sign_ed25519 : AgentIdentity packages → Bytes → Bytes
  sign_ed25519 identity message = packages.ed_sign identity.ed25519_signing message

  abbrev pub recoverable : Bytes × ℕ → Bytes
  recoverable (sig, recid) = sig ++ (((recid + 27) % 256) ∷ [])

  abbrev pub sign_secp256k1 : AgentIdentity packages → Bytes → Result ReceiptError Bytes
  sign_secp256k1 identity digest =
      or_error signing_failed (packages.sign_prehash identity.secp256k1_signing digest)
      >>= λ signed. ok (recoverable signed)

  -- `ReceiptBuilder::sign`, from the unsigned receipt on.
  abbrev pub attach :
      UnsignedReceipt packages.Percent → Bytes → Bytes → ExecutionReceipt packages.Percent
  attach r ed25519_sig secp256k1_sig = record {
    version = r.version;
    mandate_id = r.mandate_id;
    task_id = r.task_id;
    agent_did = r.agent_did;
    execution = r.execution;
    attestation = r.attestation;
    domain = r.domain;
    signature = ed25519_prefix ++ packages.base64_encode ed25519_sig;
    secp256k1_signature = hex_prefix ++ packages.hex_encode secp256k1_sig;
  }

  unfoldable pub sign :
      Serde
      → AgentIdentity packages
      → ReceiptBuilder packages.Percent
      → Result ReceiptError (ExecutionReceipt packages.Percent)
  sign serde identity b = canonical_json serde (unsigned_of identity.did b) >>= λ json.
      sign_secp256k1 identity (compute_eip712_hash packages (unsigned_of identity.did b)) >>= λ sig.
      ok (attach (unsigned_of identity.did b) (sign_ed25519 identity json) sig)

  unfoldable pub verify_ed25519 :
      Serde → ExecutionReceipt packages.Percent → packages.EdPublic → Result ReceiptError Bool
  verify_ed25519 serde receipt pubkey =
      or_error missing_prefix (strip_prefix ed25519_prefix receipt.signature) >>= λ sig_b64.
      or_error bad_encoding (packages.base64_decode sig_b64) >>= λ sig_bytes.
      fail_if (not (length sig_bytes == 64)) (bad_length (length sig_bytes))
      >> (canonical_json serde (strip_signatures receipt) >>= λ canonical.
          ok (packages.ed_verify pubkey canonical sig_bytes))

  -- `v.wrapping_sub(27)`
  abbrev pub recovery_id : ℕ → ℕ
  recovery_id v = (v + 256 - 27) % 256

  unfoldable pub verify_secp256k1 :
      ExecutionReceipt packages.Percent → Bytes → Result ReceiptError Bool
  verify_secp256k1 receipt expected_address =
      or_error missing_prefix (strip_prefix hex_prefix receipt.secp256k1_signature) >>= λ hex_str.
      or_error bad_encoding (packages.hex_decode hex_str) >>= λ sig_bytes.
      fail_if (not (length sig_bytes == 65)) (bad_length (length sig_bytes))
      >> (let recid = recovery_id (byte_at 64 sig_bytes) in
          fail_if (not (ltb recid 4)) invalid_recovery_id
          >> (fail_if (not (packages.is_signature (take 64 sig_bytes))) invalid_signature
              >> (or_error recovery_failed (
                    packages.recover (compute_eip712_hash packages (strip_signatures receipt))
                      (take 64 sig_bytes) recid)
                  >>= λ recovered_key.
                      ok (same_bytes (address_of packages recovered_key) expected_address))))

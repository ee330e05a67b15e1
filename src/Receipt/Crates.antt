-- ===== src/Receipt/Crates.antt =====
-- What cognitod/src/receipt.rs and cognitod/src/identity.rs use of the packages for signatures, hashes
-- and texts: ed25519_dalek, k256, tiny_keccak, hkdf, base64 and hex, with the laws that they document.
use linnix.Prelude.{ℕ, ◌≡◌, ◌<◌, Bool, true, Option, some, List, String, length}

abbrev pub Bytes : Type 0
Bytes = List ℕ

pub record Packages : Type 1 where
  -- `f32`
  pub Percent : Type 0
  pub as_bytes : String → Bytes
  pub keccak256 : Bytes → Bytes
  pub length-keccak256 : (bytes : Bytes) → length (keccak256 bytes) ≡ 32
  pub base64_encode : Bytes → Bytes
  pub base64_decode : Bytes → Option Bytes
  pub base64_decode-encode : (bytes : Bytes) → base64_decode (base64_encode bytes) ≡ some bytes
  pub hex_encode : Bytes → Bytes
  pub hex_decode : Bytes → Option Bytes
  pub hex_decode-encode : (bytes : Bytes) → hex_decode (hex_encode bytes) ≡ some bytes
  -- HKDF-SHA256 of a seed, expanded with an info text to 32 bytes.
  pub expand : Bytes → Bytes → Option Bytes
  -- Ed25519: keys, their public halves, signatures of 64 bytes.
  pub EdKey : Type 0
  pub EdPublic : Type 0
  pub ed_from_bytes : Bytes → EdKey
  pub ed_public : EdKey → EdPublic
  pub ed_public_bytes : EdPublic → Bytes
  pub ed_sign : EdKey → Bytes → Bytes
  pub ed_verify : EdPublic → Bytes → Bytes → Bool
  pub length-ed_sign : (key : EdKey) (message : Bytes) → length (ed_sign key message) ≡ 64
  pub ed_verify-sign :
      (key : EdKey) (message : Bytes)
      → ed_verify (ed_public key) message (ed_sign key message) ≡ true
  -- secp256k1: keys, their public halves, recoverable signatures of 64 bytes and an identifier.
  pub SecpKey : Type 0
  pub SecpPublic : Type 0
  pub secp_from_slice : Bytes → Option SecpKey
  pub secp_public : SecpKey → SecpPublic
  pub uncompressed_point : SecpPublic → Bytes
  pub sign_prehash : SecpKey → Bytes → Option (Bytes × ℕ)
  pub is_signature : Bytes → Bool
  pub recover : Bytes → Bytes → ℕ → Option SecpPublic
  pub sign_prehash_lem :
      (key : SecpKey) (digest : Bytes) (sig : Bytes) (recid : ℕ)
      → sign_prehash key digest ≡ some (sig, recid)
      → (length sig ≡ 64)
        × (recid < 4)
        × (is_signature sig ≡ true)
        × (recover digest sig recid ≡ some (secp_public key))

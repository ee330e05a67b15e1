-- ===== src/Receipt/Identity.antt =====
-- cognitod/src/identity.rs: the agent's keys, derived from one seed, and the file that keeps it. The
-- time of creation is an argument, and so is the file once its JSON is parsed.
use linnix.Prelude.{
  ℕ, zero, suc, ◌≡◌, not, Option, none, some, [], ◌∷◌, String, length, if◌then◌else◌, arith, inl,
  inr,
}
use linnix.Prelude.Keys.{◌==◌, nat_eq, string_eq}
use linnix.Prelude.Results.{Result, ok, err, ◌>>=◌, ◌>>◌, fail_if, Result-split}
use linnix.Receipt.Crates.{Bytes, Packages}

pub data IdentityError : Type 0 where
  expand_failed : IdentityError
  invalid_key : IdentityError
  unsupported_version : ℕ → IdentityError
  bad_base64 : IdentityError
  bad_seed_length : ℕ → IdentityError

pub record IdentityFile : Type 0 where
  pub version : ℕ
  pub did : String
  pub seed : Bytes
  pub ed25519_pubkey : Bytes
  pub secp256k1_address : Bytes
  pub created_at : String
  pub rotated_from : Option String

abbrev pub identity_version : ℕ
identity_version = 1

-- A slice from `n` on.
abbrev pub drop : ℕ → Bytes → Bytes
drop zero bytes = bytes
drop (suc n) [] = []
drop (suc n) (b ∷ bytes) = drop n bytes

module _ (packages : Packages) where
  pub record AgentIdentity : Type 0 where
    pub seed : Bytes
    pub ed25519_signing : packages.EdKey
    pub secp256k1_signing : packages.SecpKey
    pub did : String
    pub created_at : String

  -- The seed, expanded for one use.
  abbrev pub expand_seed : Bytes → String → Result IdentityError Bytes
  expand_seed seed info = elim (packages.expand seed (packages.as_bytes info)) [
    | none ↦ err expand_failed
    | some okm ↦ ok okm
  ]

  abbrev pub derive_ed25519 : Bytes → Result IdentityError packages.EdKey
  derive_ed25519 seed =
      expand_seed seed "linnix-claw-ed25519" >>= λ okm. ok (packages.ed_from_bytes okm)

  abbrev pub secp256k1_of : Bytes → Result IdentityError packages.SecpKey
  secp256k1_of okm = elim (packages.secp_from_slice okm) [
    | none ↦ err invalid_key
    | some key ↦ ok key
  ]

  abbrev pub derive_secp256k1 : Bytes → Result IdentityError packages.SecpKey
  derive_secp256k1 seed = expand_seed seed "linnix-claw-secp256k1" >>= secp256k1_of

  unfoldable pub from_seed : Bytes → String → String → Result IdentityError AgentIdentity
  from_seed seed did now = derive_ed25519 seed >>= λ ed. derive_secp256k1 seed >>= λ secp.
      ok (record {
        seed = seed;
        ed25519_signing = ed;
        secp256k1_signing = secp;
        did = did;
        created_at = now;
      })

  -- The last 20 bytes of the hash of a public key.
  abbrev pub address_of : packages.SecpPublic → Bytes
  address_of pubkey = drop 12 (packages.keccak256 (drop 1 (packages.uncompressed_point pubkey)))

  abbrev pub ethereum_address : AgentIdentity → Bytes
  ethereum_address identity = address_of (packages.secp_public identity.secp256k1_signing)

  abbrev pub to_identity_file : AgentIdentity → IdentityFile
  to_identity_file identity = record {
    version = identity_version;
    did = identity.did;
    seed = packages.base64_encode identity.seed;
    ed25519_pubkey =
        packages.base64_encode
          (packages.ed_public_bytes (packages.ed_public identity.ed25519_signing));
    secp256k1_address = b'0' ∷ b'x' ∷ packages.hex_encode (ethereum_address identity);
    created_at = identity.created_at;
    rotated_from = none;
  }

  abbrev pub decode_seed : Option Bytes → Result IdentityError Bytes
  decode_seed none = err bad_base64
  decode_seed (some seed_bytes) =
      if length seed_bytes == 32 then ok seed_bytes else err (bad_seed_length (length seed_bytes))

  -- `load`, once the file is read and parsed.
  pub load : String → IdentityFile → Result IdentityError AgentIdentity
  load now file =
      fail_if (not (file.version == identity_version)) (unsupported_version file.version)
      >> (decode_seed (packages.base64_decode file.seed) >>= λ seed.
          from_seed seed file.did now >>= λ identity.
          ok (record identity { created_at = file.created_at }))

  from_seed_moved :
      (seed : Bytes) (did now later : String) (identity : AgentIdentity)
      → from_seed seed did now ≡ ok identity
      → (from_seed seed did later ≡ ok (record identity { created_at = later }))
        × (identity.seed ≡ seed)
        × (identity.did ≡ did)
  unfolding from_seed
  from_seed_moved seed did now later identity made = elim (Result-split (derive_ed25519 seed)) [
    | inl (e, failed) ↦ absurd (ground arith)
    | inr (ed, derived) ↦ elim (Result-split (derive_secp256k1 seed)) [
      | inl (e, failed) ↦ absurd (ground arith)
      | inr (secp, derived') ↦ (ground arith, ground arith, ground arith)
    ]
  ]

  -- An identity that was made from a seed of 32 bytes is loaded from its file again, whenever that is.
  load-to_identity_file :
      (seed : Bytes) (did now later : String) (identity : AgentIdentity)
      → length seed ≡ 32
      → from_seed seed did now ≡ ok identity
      → load later (to_identity_file identity) ≡ ok identity
  unfolding load
  load-to_identity_file seed did now later identity size made =
      let facts = from_seed_moved seed did now later identity made in
      ground (arith, facts.0, facts.1, facts.2, packages.base64_decode-encode identity.seed)

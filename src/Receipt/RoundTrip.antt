-- ===== src/Receipt/RoundTrip.antt =====
-- Receipts that cognitod/src/receipt.rs has signed pass both of its verifications.
use linnix.Prelude.{
  ℕ, ◌+◌, ◌%◌, ◌<◌, ◌≡◌, refl, ap, ◌∙◌, true, some, [], ◌∷◌, ◌++◌, length, take, ltb, arith, inl,
  inr, Option-cases, length-append,
}
use mathlib.Core.Path.{subst}
use linnix.Prelude.Keys.{nat_eq, ==_refl}
use linnix.Prelude.Results.{ok, Result-split}
use linnix.Receipt.Crates.{Bytes, Packages}
use linnix.Receipt.Identity.{AgentIdentity, ethereum_address}
use linnix.Receipt.{
  ReceiptBuilder, UnsignedReceipt, ExecutionReceipt, unsigned_of, compute_eip712_hash,
}
use linnix.Receipt.Signing.{
  same_bytes, byte_at, Serde, canonical_json, sign_ed25519, recoverable, attach, sign, recovery_id,
  verify_ed25519, verify_secp256k1,
}

same_bytes_refl : (bytes : Bytes) → same_bytes bytes bytes ≡ true
same_bytes_refl [] = refl
same_bytes_refl (b ∷ bytes) = rw (==_refl b) (same_bytes_refl bytes)

take-append : (xs ys : Bytes) → take (length xs) (xs ++ ys) ≡ xs
take-append [] ys = refl
take-append (x ∷ xs) ys = ap (λ t. x ∷ t) (take-append xs ys)

byte_at-append : (xs : Bytes) (y : ℕ) → byte_at (length xs) (xs ++ (y ∷ [])) ≡ y
byte_at-append [] y = refl
byte_at-append (x ∷ xs) y = byte_at-append xs y

module _ (packages : Packages) (serde : Serde packages) (identity : AgentIdentity packages) where
  verify_ed25519-attach :
      (r : UnsignedReceipt packages.Percent) (json sig : Bytes)
      → canonical_json packages serde r ≡ ok json
      → verify_ed25519 packages serde
          (attach packages r (sign_ed25519 packages identity json) sig)
          (packages.ed_public identity.ed25519_signing)
        ≡ ok true
  unfolding verify_ed25519
  verify_ed25519-attach r json sig serialized =
      let signature = packages.ed_sign identity.ed25519_signing json in
      rw
        (
          verify_ed25519,
          packages.base64_decode-encode signature,
          packages.length-ed_sign identity.ed25519_signing json,
          serialized,
          packages.ed_verify-sign identity.ed25519_signing json,
        )
        refl

  -- The parts of a recoverable signature of 64 bytes, as the verification takes them.
  recoverable_parts :
      (sig : Bytes) (recid : ℕ)
      → length sig ≡ 64
      → recid < 4
      → let bytes = recoverable packages (sig, recid) in
        (length bytes ≡ 65)
        × (take 64 bytes ≡ sig)
        × (recovery_id packages (byte_at 64 bytes) ≡ recid)
  recoverable_parts sig recid size small =
      let v = (recid + 27) % 256 in
      let front = take-append sig (v ∷ []) in
      let last = byte_at-append sig v in
      (
        omega (arith, length-append sig (v ∷ [])),
        subst (λ (n : ℕ). take n (sig ++ (v ∷ [])) ≡ sig) size front,
        ap (recovery_id packages) (subst (λ (n : ℕ). byte_at n (sig ++ (v ∷ [])) ≡ v) size last)
            ∙ omega arith,
      )

  verify_secp256k1-attach :
      (r : UnsignedReceipt packages.Percent) (ed sig : Bytes) (recid : ℕ)
      → packages.sign_prehash identity.secp256k1_signing (compute_eip712_hash packages r)
        ≡ some (sig, recid)
      → verify_secp256k1 packages
          (attach packages r ed (recoverable packages (sig, recid)))
          (ethereum_address packages identity)
        ≡ ok true
  unfolding verify_secp256k1
  verify_secp256k1-attach r ed sig recid signed =
      let laws =
        packages.sign_prehash_lem identity.secp256k1_signing (compute_eip712_hash packages r) sig
          recid signed in
      let parts = recoverable_parts sig recid laws.0 laws.1 in
      let small : ltb recid 4 ≡ true = ground (arith, laws.1) in
      rw
        (
          verify_secp256k1,
          packages.hex_decode-encode (recoverable packages (sig, recid)),
          parts.0,
          parts.2,
          small,
          parts.1,
          laws.2,
          laws.3,
          same_bytes_refl (ethereum_address packages identity),
        )
        refl

  -- A receipt that `sign` made with an agent's keys passes the Ed25519 verification with the agent's
  -- public key, and the secp256k1 verification with its Ethereum address.
  pub sign-verify :
      (b : ReceiptBuilder packages.Percent) (receipt : ExecutionReceipt packages.Percent)
      → sign packages serde identity b ≡ ok receipt
      → (verify_ed25519 packages serde receipt (packages.ed_public identity.ed25519_signing)
          ≡ ok true)
        × (verify_secp256k1 packages receipt (ethereum_address packages identity) ≡ ok true)
  unfolding sign
  sign-verify b receipt made =
      let r = unsigned_of identity.did b in
      elim (Result-split (canonical_json packages serde r)) [
        | inl (e, failed) ↦ absurd (ground arith)
        | inr (json, serialized) ↦
            elim (Option-cases
              (packages.sign_prehash identity.secp256k1_signing (compute_eip712_hash packages r))) [
                | inl failed ↦ absurd (ground arith)
                | inr ((sig, recid), signed) ↦
                    let whole =
                      attach packages r (sign_ed25519 packages identity json)
                        (recoverable packages (sig, recid)) in
                    let same : whole ≡ receipt = ground arith in
                    (
                      subst
                          (λ x.
                            verify_ed25519 packages serde x
                              (packages.ed_public identity.ed25519_signing)
                            ≡ ok true)
                          same
                          (verify_ed25519-attach r json (recoverable packages (sig, recid))
                            serialized),
                      subst
                          (λ x.
                            verify_secp256k1 packages x (ethereum_address packages identity)
                            ≡ ok true)
                          same
                          (verify_secp256k1-attach r (sign_ed25519 packages identity json) sig recid
                            signed),
                    )
              ]
      ]

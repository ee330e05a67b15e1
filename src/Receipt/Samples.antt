-- ===== src/Receipt/Samples.antt =====
-- Packages that are simple enough to compute with: the hash of a text is the sum of its bytes, and
-- there is one key of each kind. For the tests of this library.
use Prim.Native.String.{len}
use linnix.Prelude.{ℕ, ◌≡◌, ◌<◌, refl, true, Option, some, [], ◌∷◌, length, sum, arith, ap, sym}
use linnix.Prelude.Keys.{◌==◌, nat_eq}
use linnix.Receipt.Crates.{Bytes, Packages}
use linnix.Receipt.Encoding.{zeros, word}
use linnix.Receipt.Json.{object, text, no_members, member}
use linnix.Receipt.Identity.{AgentIdentity}
use linnix.Receipt.Signing.{same_bytes, Serde}

abbrev pub signature : Bytes
signature = zeros 64

pub only_signature :
    (digest sig : Bytes) (recid : ℕ)
    → ◌≡◌ {A = Option (Bytes × ℕ)} (some (signature, 1)) (some (sig, recid))
    → (length sig ≡ 64)
      × (recid < 4)
      × ((length sig == 64) ≡ true)
      × (◌≡◌ {A = Option (Unit {0})} (some tt) (some tt))
only_signature digest sig recid h =
    let same : signature ≡ sig = ground (arith, h) in
    let one : 1 ≡ recid = ground (arith, h) in
    (ap length (sym same), omega arith, ground (arith, ap length same), refl)

abbrev pub packages : Packages
packages = record {
  Percent = ℕ;
  as_bytes = λ s. len s ∷ [];
  keccak256 = λ bytes. word 4 (sum bytes);
  length-keccak256 = λ bytes. refl;
  base64_encode = λ bytes. bytes;
  base64_decode = λ bytes. some bytes;
  base64_decode-encode = λ bytes. refl;
  hex_encode = λ bytes. bytes;
  hex_decode = λ bytes. some bytes;
  hex_decode-encode = λ bytes. refl;
  expand = λ seed info. some seed;
  EdKey = Bytes;
  EdPublic = Bytes;
  ed_from_bytes = λ bytes. bytes;
  ed_public = λ key. key;
  ed_public_bytes = λ key. key;
  ed_sign = λ key message. signature;
  ed_verify = λ key message sig. same_bytes sig signature;
  length-ed_sign = λ key message. refl;
  ed_verify-sign = λ key message. refl;
  SecpKey = Unit;
  SecpPublic = Unit;
  secp_from_slice = λ bytes. some tt;
  secp_public = λ key. key;
  uncompressed_point = λ key. zeros 65;
  sign_prehash = λ key digest. some (signature, 1);
  is_signature = λ sig. length sig == 64;
  recover = λ digest sig recid. some tt;
  sign_prehash_lem = λ key digest sig recid h. only_signature digest sig recid h;
}

abbrev pub identity : AgentIdentity packages
identity = record {
  seed = zeros 32;
  ed25519_signing = zeros 32;
  secp256k1_signing = tt;
  did = "did:web:a";
  created_at = "today";
}

abbrev pub serde : Serde packages
serde = record {
  to_value = λ r. some (object (member (b'p' ∷ []) (text (r.execution.binary)) no_members));
  to_string = λ value. some (b'{' ∷ b'}' ∷ []);
}

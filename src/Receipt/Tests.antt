-- ===== src/Receipt/Tests.antt =====
-- Receipts that simple packages sign.
use linnix.Prelude.{ℕ, ◌≡◌, ◌↔◌, ◌⊎◌, refl, true, none, some, [], ◌∷◌, arith}
use linnix.Prelude.Keys.{nat_eq}
use linnix.Prelude.Results.{ok}
use linnix.Receipt.Encoding.{
  pos, negsuc, zeros, exit_code_word, abi_int256, NonNegative, exit_code_word_iff,
}
use linnix.Receipt.Json.{Json, object, no_members, member, sort_json_value}
use linnix.Receipt.Identity.{from_seed, ethereum_address}
use linnix.Receipt.{
  ReceiptBuilder, ExecutionReceipt, ExecutionDetails, new_builder, kernel_seq, unsigned_of,
  compute_eip712_hash,
}
use linnix.Receipt.Signing.{attach, recoverable, sign, verify_ed25519, verify_secp256k1}
use linnix.Receipt.Samples.{packages, identity, serde, signature}
use linnix.Receipt.RoundTrip.{sign-verify}
use linnix.Receipt.Binding.{SameFields, Collision, compute_eip712_hash-binds}

abbrev details : ExecutionDetails ℕ
details = record {
  pid = 42;
  ppid = none;
  binary = b'l' ∷ b's' ∷ [];
  args_hash = "0x00000000000000ff";
  exit_code = pos 0;
  started_at_ns = some 9;
  finished_at_ns = none;
  duration_ms = 0;
  cpu_pct = none;
  mem_pct = none;
}

abbrev builder : ReceiptBuilder ℕ
builder = kernel_seq 7 (new_builder (some "boot") "m-7" details)

abbrev receipt : ExecutionReceipt ℕ
receipt =
    attach packages (unsigned_of "did:web:a" builder) signature
      (recoverable packages (signature, 1))

signed : sign packages serde identity builder ≡ ok receipt
unfolding sign
signed = refl

sign-verify_example :
    (verify_ed25519 packages serde receipt (zeros 32) ≡ ok true)
    × (verify_secp256k1 packages receipt (ethereum_address packages identity) ≡ ok true)
sign-verify_example = sign-verify packages serde identity builder receipt signed

same_hash :
    compute_eip712_hash packages (unsigned_of "did:web:a" builder)
    ≡ compute_eip712_hash packages (unsigned_of "did:web:a" (kernel_seq 8 builder))
unfolding compute_eip712_hash
same_hash = refl

-- The sequence number of the kernel is not among the hashed fields.
compute_eip712_hash-binds_example :
    (SameFields packages
        (unsigned_of "did:web:a" builder)
        (unsigned_of "did:web:a" (kernel_seq 8 builder))
      × (◌≡◌ {A = ℕ} 8453 8453))
    ⊎ Collision packages
compute_eip712_hash-binds_example =
    compute_eip712_hash-binds packages (unsigned_of "did:web:a" builder)
      (unsigned_of "did:web:a" (kernel_seq 8 builder))
      (omega arith, omega arith, omega arith, omega arith)
      (omega arith, omega arith, omega arith, omega arith) same_hash

exit_code_word_iff_example :
    (exit_code_word (negsuc 0) ≡ abi_int256 (negsuc 0)) ↔ NonNegative (negsuc 0)
exit_code_word_iff_example = exit_code_word_iff (negsuc 0) (omega arith)

made : from_seed packages (zeros 32) "did:web:a" "today" ≡ ok identity
unfolding from_seed
made = refl

abbrev unsorted : Json
unsorted = object (member (b'b' ∷ []) Json.null (member (b'a' ∷ []) Json.null no_members))

sorted :
    sort_json_value unsorted
    ≡ object (member (b'a' ∷ []) Json.null (member (b'b' ∷ []) Json.null no_members))
unfolding sort_json_value
sorted = refl

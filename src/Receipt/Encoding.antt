-- ===== src/Receipt/Encoding.antt =====
-- Numbers as bytes: the `to_be_bytes` of Rust and the 32-byte words of cognitod/src/receipt.rs.
use linnix.Prelude.{
  ℕ, zero, suc, ◌+◌, ◌-◌, ◌/◌, ◌%◌, ◌^◌, ◌<◌, ◌≡◌, refl, ap, sym, ◌∙◌, ◌↔◌, List, [], ◌∷◌, ◌++◌,
  arith, length, length-append,
}
use native.Mathlib.Nat.{pow-suc}
use linnix.Receipt.Crates.{Bytes}

-- `i32`
pub data ℤ : Type 0 where
  pos negsuc : ℕ → ℤ

abbrev pub zeros : ℕ → Bytes
zeros zero = []
zeros (suc n) = 0 ∷ zeros n

-- The lowest `n` bytes of a number, highest first.
abbrev pub be_bytes : ℕ → ℕ → Bytes
be_bytes zero x = []
be_bytes (suc n) x = be_bytes n (x / 256) ++ (x % 256 ∷ [])

-- `[0u8; 32]` with the `n` bytes of a number copied to its end.
abbrev pub word : ℕ → ℕ → Bytes
word n x = zeros (32 - n) ++ be_bytes n x

-- The bits of an `i32`.
abbrev pub i32_bits : ℤ → ℕ
i32_bits (pos n) = n
i32_bits (negsuc n) = 2 ^ 32 - 1 - n

-- `exit_code.to_be_bytes()` in a word.
abbrev pub exit_code_word : ℤ → Bytes
exit_code_word x = word 4 (i32_bits x)

pub length-be_bytes : (n x : ℕ) → length (be_bytes n x) ≡ n
length-be_bytes zero x = refl
length-be_bytes (suc n) x =
    omega (arith, length-append (be_bytes n (x / 256)) (x % 256 ∷ []), length-be_bytes n (x / 256))

pub length-zeros : (n : ℕ) → length (zeros n) ≡ n
length-zeros zero = refl
length-zeros (suc n) = ap suc (length-zeros n)

tail_eq {ℓ} : {A : Type ℓ} {x y : A} {xs ys : List A} → x ∷ xs ≡ y ∷ ys → (x ≡ y) × (xs ≡ ys)
tail_eq h = (ground (arith, h), ground (arith, h))

-- Equal texts with front parts of the same length have equal parts.
pub append-split {ℓ} :
    {A : Type ℓ} (xs ys xs' ys' : List A)
    → length xs ≡ length xs'
    → xs ++ ys ≡ xs' ++ ys'
    → (xs ≡ xs') × (ys ≡ ys')
append-split [] ys [] ys' same h = (refl, h)
append-split [] ys (x' ∷ xs') ys' same h = absurd (omega arith)
append-split (x ∷ xs) ys [] ys' same h = absurd (omega arith)
append-split (x ∷ xs) ys (x' ∷ xs') ys' same h =
    let heads = tail_eq h in
    let rest = append-split xs ys xs' ys' (omega arith) heads.1 in
    (ground (arith, heads.0, rest.0), rest.1)

append_assoc {ℓ} : {A : Type ℓ} (xs ys zs : List A) → (xs ++ ys) ++ zs ≡ xs ++ (ys ++ zs)
append_assoc [] ys zs = refl
append_assoc (x ∷ xs) ys zs = ap (λ t. x ∷ t) (append_assoc xs ys zs)

pub be_bytes-injective :
    (n x y : ℕ) → x < 256 ^ n → y < 256 ^ n → be_bytes n x ≡ be_bytes n y → x ≡ y
be_bytes-injective zero x y hx hy h = omega arith
be_bytes-injective (suc n) x y hx hy h =
    let parts =
      append-split (be_bytes n (x / 256)) (x % 256 ∷ []) (be_bytes n (y / 256)) (y % 256 ∷ [])
        (length-be_bytes n (x / 256) ∙ sym (length-be_bytes n (y / 256))) h in
    let low = tail_eq parts.1 in
    let high =
      be_bytes-injective n (x / 256) (y / 256) (omega (arith, pow-suc 256 n))
        (omega (arith, pow-suc 256 n)) parts.0 in
    omega (arith, low.0, high)

zeros_snoc : (k : ℕ) → zeros k ++ (0 ∷ []) ≡ 0 ∷ zeros k
zeros_snoc zero = refl
zeros_snoc (suc k) = ap (λ t. 0 ∷ t) (zeros_snoc k)

be_bytes-zero : (k : ℕ) → be_bytes k 0 ≡ zeros k
be_bytes-zero zero = refl
be_bytes-zero (suc k) = ap (λ t. t ++ (0 ∷ [])) (be_bytes-zero k) ∙ zeros_snoc k

-- A number that fits its last bytes has zeros before them.
pub be_bytes-add : (k n x : ℕ) → x < 256 ^ n → be_bytes (n + k) x ≡ zeros k ++ be_bytes n x
be_bytes-add k zero x small = ground (arith, be_bytes-zero k, append_nil (zeros k))
  where
    append_nil : (xs : Bytes) → xs ++ [] ≡ xs
    append_nil [] = refl
    append_nil (x ∷ xs) = ap (λ t. x ∷ t) (append_nil xs)
be_bytes-add k (suc n) x small =
    let shifted : suc n + k ≡ suc (n + k) = omega arith in
    ap (λ (m : ℕ). be_bytes m x) shifted
    ∙ ap (λ t. t ++ (x % 256 ∷ [])) (be_bytes-add k n (x / 256) (omega (arith, pow-suc 256 n)))
    ∙ append_assoc (zeros k) (be_bytes n (x / 256)) (x % 256 ∷ [])

-- What the ABI of `int32` asks for: the two's complement in 256 bits.
abbrev pub abi_int256 : ℤ → Bytes
abi_int256 (pos n) = be_bytes 32 n
abi_int256 (negsuc n) = be_bytes 32 (2 ^ 256 - 1 - n)

abbrev pub InI32 : ℤ → Type 0
InI32 (pos n) = n < 2 ^ 31
InI32 (negsuc n) = n < 2 ^ 31

abbrev pub NonNegative : ℤ → Type 0
NonNegative (pos n) = Unit
NonNegative (negsuc n) = ⊥

small_word : (n : ℕ) → n < 2 ^ 32 → word 4 n ≡ be_bytes 32 n
small_word n small = sym (be_bytes-add 28 4 n small)

negative_differs :
    (n : ℕ) → n < 2 ^ 31 → word 4 (2 ^ 32 - 1 - n) ≡ be_bytes 32 (2 ^ 256 - 1 - n) → ⊥
negative_differs n small h =
    let same : be_bytes 32 (2 ^ 32 - 1 - n) ≡ be_bytes 32 (2 ^ 256 - 1 - n) =
      sym (small_word (2 ^ 32 - 1 - n) (omega arith)) ∙ h in
    let numbers =
      be_bytes-injective 32 (2 ^ 32 - 1 - n) (2 ^ 256 - 1 - n) (omega arith) (omega arith) same in
    omega (arith, numbers)

-- The word that the receipt's struct hash uses for an exit code, an `i32`, is the one that EIP-712 asks
-- for `int32` exactly when the exit code is not negative.
pub exit_code_word_iff : (x : ℤ) → InI32 x → (exit_code_word x ≡ abi_int256 x) ↔ NonNegative x
exit_code_word_iff (pos n) small = ((λ h. tt), λ h. small_word n (omega arith))
exit_code_word_iff (negsuc n) small = ((λ h. negative_differs n small h), λ h. elim h [ ])

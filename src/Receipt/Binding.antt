-- ===== src/Receipt/Binding.antt =====
-- What the EIP-712 hash of cognitod/src/receipt.rs commits to: two receipts with one hash agree in the
-- hashed fields, or show two inputs on which Keccak-256 collides.
use linnix.Prelude.{
  ℕ, suc, ◌-◌, ◌^◌, ◌<◌, ◌≡◌, ◌≢◌, refl, sym, ap, ◌∙◌, ◌⊎◌, inl, inr, true, false, [], ◌∷◌, ◌++◌,
  length, arith, Bool-cases,
}
use linnix.Prelude.Keys.{nat_eq, ==→eq, ==_refl}
use linnix.Receipt.Crates.{Bytes, Packages}
use linnix.Receipt.Encoding.{
  ℤ, pos, negsuc, zeros, be_bytes, word, i32_bits, exit_code_word, InI32, append-split,
  be_bytes-injective,
}
use linnix.Receipt.Signing.{same_bytes}
use linnix.Receipt.{
  DomainSeparator, UnsignedReceipt, encoded, compute_domain_separator, compute_receipt_struct_hash,
  compute_eip712_hash,
}

same_bytes→eq : (xs ys : Bytes) → same_bytes xs ys ≡ true → xs ≡ ys
same_bytes→eq [] [] h = refl
same_bytes→eq [] (y ∷ ys) h = absurd (ground arith)
same_bytes→eq (x ∷ xs) [] h = absurd (ground arith)
same_bytes→eq (x ∷ xs) (y ∷ ys) h =
    let head = ==→eq x y (ground arith) in
    let tail = same_bytes→eq xs ys (ground arith) in ground (arith, head, tail)

same_bytes_same : (xs : Bytes) → same_bytes xs xs ≡ true
same_bytes_same [] = refl
same_bytes_same (x ∷ xs) = rw (==_refl x) (same_bytes_same xs)

word-injective : (n x y : ℕ) → x < 256 ^ n → y < 256 ^ n → word n x ≡ word n y → x ≡ y
word-injective n x y hx hy h =
    be_bytes-injective n x y hx hy
      (append-split (zeros (32 - n)) (be_bytes n x) (zeros (32 - n)) (be_bytes n y) refl h).1

i32_bits-injective : (x y : ℤ) → InI32 x → InI32 y → i32_bits x ≡ i32_bits y → x ≡ y
i32_bits-injective (pos m) (pos n) hx hy h = ap pos h
i32_bits-injective (pos m) (negsuc n) hx hy h = absurd (omega arith)
i32_bits-injective (negsuc m) (pos n) hx hy h = absurd (omega arith)
i32_bits-injective (negsuc m) (negsuc n) hx hy h = ap negsuc (omega arith)

i32_bits-lt : (x : ℤ) → InI32 x → i32_bits x < 256 ^ 4
i32_bits-lt (pos n) h = omega arith
i32_bits-lt (negsuc n) h = omega arith

module _ (packages : Packages) where
  -- Two inputs with one hash.
  abbrev pub Collision : Type 0
  Collision =
      (xs : Bytes) × (ys : Bytes) × (xs ≢ ys) × (packages.keccak256 xs ≡ packages.keccak256 ys)

  -- An answer, unless there is a collision.
  also : {A B : Type 0} → A ⊎ Collision → (A → B ⊎ Collision) → B ⊎ Collision
  also (inl a) f = f a
  also (inr c) f = inr c

  keccak-same :
      (xs ys : Bytes) → packages.keccak256 xs ≡ packages.keccak256 ys → (xs ≡ ys) ⊎ Collision
  keccak-same xs ys h = elim (Bool-cases (same_bytes xs ys)) [
    | inl same ↦ inl (same_bytes→eq xs ys same)
    | inr apart ↦ inr (xs, ys, (λ e. absurd (differ e apart)), h)
  ]
    where
      differ : xs ≡ ys → same_bytes xs ys ≡ false → ⊥
      differ e apart = ground (arith, same_bytes_same xs, ap (same_bytes xs) e)

  hash-length : (xs ys : Bytes) → length (packages.keccak256 xs) ≡ length (packages.keccak256 ys)
  hash-length xs ys = packages.length-keccak256 xs ∙ sym (packages.length-keccak256 ys)

  -- A front part that is a hash, split off.
  split_hash :
      (xs ys rest rest' : Bytes)
      → packages.keccak256 xs ++ rest ≡ packages.keccak256 ys ++ rest'
      → (packages.keccak256 xs ≡ packages.keccak256 ys) × (rest ≡ rest')
  split_hash xs ys rest rest' h =
      append-split (packages.keccak256 xs) rest (packages.keccak256 ys) rest' (hash-length xs ys) h

  abbrev pub SmallNumbers : UnsignedReceipt packages.Percent → Type 0
  SmallNumbers r =
      (r.execution.pid < 2 ^ 32)
      × InI32 r.execution.exit_code
      × (r.execution.duration_ms < 2 ^ 64)
      × (r.domain.chain_id < 2 ^ 64)

  -- The fields of the receipt's struct hash; texts as their bytes.
  abbrev pub SameFields :
      UnsignedReceipt packages.Percent → UnsignedReceipt packages.Percent → Type 0
  SameFields r s =
      (packages.as_bytes r.mandate_id ≡ packages.as_bytes s.mandate_id)
      × (packages.as_bytes r.agent_did ≡ packages.as_bytes s.agent_did)
      × (r.execution.pid ≡ s.execution.pid)
      × (r.execution.binary ≡ s.execution.binary)
      × (packages.as_bytes r.execution.args_hash ≡ packages.as_bytes s.execution.args_hash)
      × (r.execution.exit_code ≡ s.execution.exit_code)
      × (r.execution.duration_ms ≡ s.execution.duration_ms)
      × (packages.as_bytes r.attestation.enforcement_mode
          ≡ packages.as_bytes s.attestation.enforcement_mode)

  encoded-SameFields :
      (r s : UnsignedReceipt packages.Percent)
      → SmallNumbers r
      → SmallNumbers s
      → encoded packages r ≡ encoded packages s
      → SameFields r s ⊎ Collision
  encoded-SameFields r s small small' h =
      let s0 = split_hash _ _ _ _ h in
      let s1 = split_hash _ _ _ _ s0.1 in
      let s2 = split_hash _ _ _ _ s1.1 in
      let s3 = append-split (word 4 r.execution.pid) _ (word 4 s.execution.pid) _ refl s2.1 in
      let s4 = split_hash _ _ _ _ s3.1 in
      let s5 = split_hash _ _ _ _ s4.1 in
      let s6 =
        append-split (exit_code_word r.execution.exit_code) _ (exit_code_word s.execution.exit_code)
          _ refl s5.1 in
      let s7 =
        append-split (word 8 r.execution.duration_ms) _ (word 8 s.execution.duration_ms) _ refl
          s6.1 in
      let bits =
        word-injective 4 (i32_bits r.execution.exit_code) (i32_bits s.execution.exit_code)
          (i32_bits-lt r.execution.exit_code small.1) (i32_bits-lt s.execution.exit_code small'.1)
          s6.0 in
      let pid =
        word-injective 4 r.execution.pid s.execution.pid (omega (arith, small.0))
          (omega (arith, small'.0)) s3.0 in
      let duration =
        word-injective 8 r.execution.duration_ms s.execution.duration_ms (omega (arith, small.2))
          (omega (arith, small'.2)) s7.0 in
      let code =
        i32_bits-injective r.execution.exit_code s.execution.exit_code small.1 small'.1 bits in
      also (keccak-same _ _ s1.0) (λ mandate. also (keccak-same _ _ s2.0) (λ did.
        also (keccak-same _ _ s4.0) (λ binary. also (keccak-same _ _ s5.0) (λ args.
          also (keccak-same _ _ s7.1)
            (λ mode. inl (mandate, did, pid, binary, args, code, duration, mode))))))

  domain-chain_id :
      (d e : DomainSeparator)
      → d.chain_id < 2 ^ 64
      → e.chain_id < 2 ^ 64
      → compute_domain_separator packages d ≡ compute_domain_separator packages e
      → (d.chain_id ≡ e.chain_id) ⊎ Collision
  unfolding compute_domain_separator
  domain-chain_id d e small small' h = also (keccak-same _ _ h) (λ same.
      let s0 = split_hash _ _ _ _ same in
      let s1 = split_hash _ _ _ _ s0.1 in
      let s2 = split_hash _ _ _ _ s1.1 in
      let s3 = append-split (word 8 d.chain_id) _ (word 8 e.chain_id) _ refl s2.1 in
      inl (word-injective 8 d.chain_id e.chain_id (omega arith) (omega arith) s3.0))

  domain-length :
      (d e : DomainSeparator)
      → length (compute_domain_separator packages d) ≡ length (compute_domain_separator packages e)
  unfolding compute_domain_separator
  domain-length d e = hash-length _ _

  -- Two receipts with numbers inside their types and the same EIP-712 hash have the same mandate, agent,
  -- PID, binary, argument hash, exit code, duration, mode and chain, or there are two inputs with the
  -- same Keccak-256 hash.
  pub compute_eip712_hash-binds :
      (r s : UnsignedReceipt packages.Percent)
      → SmallNumbers r
      → SmallNumbers s
      → compute_eip712_hash packages r ≡ compute_eip712_hash packages s
      → (SameFields r s × (r.domain.chain_id ≡ s.domain.chain_id)) ⊎ Collision
  unfolding compute_eip712_hash
  compute_eip712_hash-binds r s small small' h = also (keccak-same _ _ h) (λ same.
      let parts =
        append-split (25 ∷ 1 ∷ compute_domain_separator packages r.domain)
          (compute_receipt_struct_hash packages r)
          (25 ∷ 1 ∷ compute_domain_separator packages s.domain)
          (compute_receipt_struct_hash packages s)
          (ap (λ (n : ℕ). suc (suc n)) (domain-length r.domain s.domain)) same in
      let domains : compute_domain_separator packages r.domain
          ≡ compute_domain_separator packages s.domain =
        ground (arith, parts.0) in
      also (keccak-same _ _ parts.1) (λ words.
        also (encoded-SameFields r s small small' words) (λ fields.
          also (domain-chain_id r.domain s.domain small.3 small'.3 domains)
            (λ chain. inl (fields, chain)))))

-- ===== src/Lsm/Filename.antt =====
-- The hash of a program's name in the kernel, against the hash that the daemon files it under.
use linnix.Prelude.{
  ℕ, zero, suc, ◌+◌, ◌<◌, ◌≡◌, ◌≢◌, refl, true, Option, some, List, [], ◌∷◌, arith, take,
}
use linnix.Prelude.Keys.{nat_eq}
use linnix.Prelude.Words.{u64_mod}
use linnix.Siphash.Kernel
use linnix.Siphash.Userspace
use linnix.Siphash.Digest.{siphash_2_4_agree}
use linnix.Lsm.{Binprm, read_bytes, max_canon_bytes, hash_binprm_filename}

-- The bytes stand in memory from the index `i` on, none of them NUL, with a NUL behind them.
abbrev pub Stands : List ℕ → (ℕ → Option ℕ) → ℕ → Type 0
Stands [] byte_at i = byte_at i ≡ some 0
Stands (b ∷ bytes) byte_at i = (byte_at i ≡ some b) × (b ≢ 0) × Stands bytes byte_at (i + 1)

read_bytes-take :
    (n i : ℕ) (bytes : List ℕ) (byte_at : ℕ → Option ℕ)
    → Stands bytes byte_at i
    → read_bytes n i byte_at ≡ take n bytes
unfolding read_bytes
read_bytes-take zero i bytes byte_at h = refl
read_bytes-take (suc n) i [] byte_at h = ground arith
read_bytes-take (suc n) i (b ∷ bytes) byte_at h =
    ground (arith, read_bytes-take n (i + 1) bytes byte_at h.2)

-- Under a key of two u64 words, for a path in memory that is not empty, with no NUL in it and one
-- behind it, the hook's hash is the daemon's SipHash of the path's first 256 bytes.
pub hash_binprm_filename-take :
    (binprm : Binprm) (key : ℕ × ℕ) (ptr b : ℕ) (path : List ℕ)
    → key.0 < u64_mod
    → key.1 < u64_mod
    → binprm.present ≡ true
    → binprm.filename_ptr ≡ some ptr
    → ptr ≢ 0
    → Stands (b ∷ path) binprm.byte_at 0
    → hash_binprm_filename binprm key
      ≡ some (Userspace.siphash_2_4 key (take max_canon_bytes (b ∷ path)))
unfolding hash_binprm_filename Kernel.siphash_2_4
hash_binprm_filename-take binprm key ptr b path h0 h1 present fp ne st = ground (
  arith,
  read_bytes-take max_canon_bytes 0 (b ∷ path) binprm.byte_at st,
  siphash_2_4_agree key (take max_canon_bytes (b ∷ path)) h0 h1,
)

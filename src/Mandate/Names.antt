-- ===== src/Mandate/Names.antt =====
-- A program's name as the hook of lsm.rs hashes it and as `hash_filename` of
-- cognitod/src/mandate.rs does.
use linnix.Prelude.{ℕ, ◌≤◌, ◌<◌, ◌≡◌, ◌≢◌, true, some, length, ap, ◌∙◌, List, ◌∷◌, take_all}
use linnix.Prelude.Keys.{string_eq, nat_eq}
use linnix.Prelude.Words.{u64_mod}
use linnix.Protocol.{key_eq}
use linnix.Siphash.Userspace
use linnix.Lsm.{Binprm, hash_binprm_filename, max_canon_bytes}
use linnix.Lsm.Filename.{Stands, hash_binprm_filename-take}
use linnix.Mandate.Manager.{hash_filename}

-- Under a key of two u64 words, for a path in memory of 1 to 256 bytes, with no NUL in it and one
-- behind it, the hook's hash is the hash that the manager files a mandate with that first
-- argument under.
pub hash_binprm_filename-hash_filename :
    (binprm : Binprm) (key : ℕ × ℕ) (ptr b : ℕ) (path : List ℕ) (args : List (List ℕ))
    → key.0 < u64_mod
    → key.1 < u64_mod
    → binprm.present ≡ true
    → binprm.filename_ptr ≡ some ptr
    → ptr ≢ 0
    → Stands (b ∷ path) binprm.byte_at 0
    → length (b ∷ path) ≤ max_canon_bytes
    → hash_binprm_filename binprm key ≡ some (hash_filename key ((b ∷ path) ∷ args))
unfolding hash_filename
hash_binprm_filename-hash_filename binprm key ptr b path args h0 h1 present fp ne st short =
    hash_binprm_filename-take binprm key ptr b path h0 h1 present fp ne st
    ∙ ap (λ bytes. some (Userspace.siphash_2_4 key bytes))
        (take_all max_canon_bytes (b ∷ path) short)

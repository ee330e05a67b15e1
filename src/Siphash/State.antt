-- ===== src/Siphash/State.antt =====
-- The state of a SipHash-2-4 hasher, which the two implementations declare alike.
use linnix.Prelude.{ℕ}

pub record SipHasher : Type 0 where
  pub v0 : ℕ
  pub v1 : ℕ
  pub v2 : ℕ
  pub v3 : ℕ
  pub buf : ℕ
  pub count : ℕ

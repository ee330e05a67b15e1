-- ===== src/Lsm/Accounting.antt =====
-- The metrics of the hooks: every look-up is a hit, a miss or an expired mandate.
use linnix.Prelude.{ℕ, ◌+◌, ◌%◌, ◌≡◌, Option, none, some, arith, inl, inr}
use linnix.Prelude.Words.{u64_mod}
use linnix.Protocol.{MandateKey, MandateValue}
use linnix.BpfMap.{BpfHash}
use linnix.Lsm.{
  Task, Binprm, SockAddr, Metrics, KernelState, judge, get_mandate_mode, count_lookup,
  push_mandate_receipt, mandate_execve_check, mandate_socket_connect,
}
use linnix.Lsm.Decision.{execve_cases, execve-Identified}
use linnix.Lsm.Connect.{connect_cases, connect-Addressed}

-- The counters wrap, so they agree modulo 2 ^ 64.
abbrev pub Balanced : Metrics → Type 0
Balanced m = (m.hits + m.misses + m.expired) % u64_mod ≡ m.lookups % u64_mod

module _ (bpf : BpfHash) where
  open bpf use {get}

  judge-Balanced :
      (reserved : ℕ) (key : MandateKey) (mode now : ℕ) (found : Option MandateValue)
      (k : KernelState bpf)
      → Balanced k.metrics
      → Balanced (judge bpf reserved key mode now found (count_lookup bpf k)).1.metrics
  unfolding judge push_mandate_receipt
  judge-Balanced reserved key mode now none k h = ground arith
  judge-Balanced reserved key mode now (some val) k h = ground arith

  -- If hits, misses and expired mandates add up to the look-ups, modulo 2 ^ 64, then they still
  -- do after a call of either hook.
  hooks-Balanced :
      (now reserved : ℕ) (task : Task) (binprm : Binprm) (a : SockAddr) (k : KernelState bpf)
      → Balanced k.metrics
      → Balanced (mandate_execve_check bpf now reserved task binprm k).1.metrics
        × Balanced (mandate_socket_connect bpf now reserved task a k).1.metrics
  hooks-Balanced now reserved task binprm a k h = (
    elim (execve_cases bpf now reserved task binprm k) [
      | inl passes ↦ rw passes h
      | inr (key, d) ↦
          rw (execve-Identified bpf now reserved task binprm k key d)
            (judge-Balanced reserved key (get_mandate_mode bpf k) now (get k.mandates key) k h)
    ],
    elim (connect_cases bpf now reserved task a k) [
      | inl passes ↦ rw passes h
      | inr (key, d) ↦
          rw (connect-Addressed bpf now reserved task a k key d)
            (judge-Balanced reserved key (get_mandate_mode bpf k) now (get k.mandates key) k h)
    ],
  )

-- ===== src/Lsm/Decision.antt =====
-- When a hook refuses, when it lets pass, and the receipt that it leaves.
use linnix.Prelude.{
  ℕ, ◌<◌, ◌≡◌, ◌≢◌, ◌↔◌, ◌⊎◌, inl, inr, refl, Bool, true, false, Option, none, some, arith, leb,
  ltb, Bool-cases, Option-cases, ap, sym, ◌∙◌, if◌then◌else◌,
}
use linnix.Prelude.Keys.{◌==◌, nat_eq}
use linnix.Protocol.{
  ProcessEvent, mandate_allow, mandate_deny, MandateKey, MandateValue, mode_code, enforce,
}
use linnix.Sequencer.Producer.{Sequencer, submit_to_sequencer}
use linnix.BpfMap.{BpfHash}
use linnix.Lsm.{
  Task, Binprm, Verdict, allow, deny, receipt, key_unset, read_start_time_ns, hash_binprm_filename,
  KernelState, get_mandate_mode, get_siphash_key, count_lookup, judge, check_hash,
  push_mandate_receipt, mandate_execve_check,
}

-- A mandate that is there and has not expired.
abbrev pub IsValid : ℕ → Option MandateValue → Type 0
IsValid now none = ⊥
IsValid now (some val) = now < val.expires_ns

abbrev pub seq_of : Option MandateValue → ℕ
seq_of none = 0
seq_of (some val) = val.mandate_seq

-- What a look-up leads to, written as a table: the verdict, and the receipt if there is one.
abbrev pub Outcome : Type 0
Outcome = Verdict × Option ProcessEvent

abbrev pub is_valid : ℕ → Option MandateValue → Bool
is_valid now none = false
is_valid now (some val) = ltb now val.expires_ns

abbrev pub outcome : MandateKey → ℕ → ℕ → Option MandateValue → Outcome
outcome key mode now found =
    if is_valid now found
    then (allow, some (receipt mandate_allow key.pid key.cmd_hash (seq_of found) mode now))
    else if mode == mode_code enforce
    then (deny, some (receipt mandate_deny key.pid key.cmd_hash 0 mode now))
    else (allow, none)

is_valid-some :
    (now : ℕ) (found : Option MandateValue)
    → is_valid now found ≡ true
    → (val : MandateValue) × (found ≡ some val) × (now < val.expires_ns)
is_valid-some now none h = absurd (ground (arith, h))
is_valid-some now (some val) h = (val, refl, ground (arith, h))

is_valid-IsValid :
    (now : ℕ) (found : Option MandateValue) → is_valid now found ≡ false → ¬ IsValid now found
is_valid-IsValid now none h = λ valid. valid
is_valid-IsValid now (some val) h = λ valid. ground (arith, h, valid)

-- The sequencer after an optional receipt.
abbrev pub after : ℕ → Option ProcessEvent → Sequencer → Sequencer
after reserved none s = s
after reserved (some event) s = submit_to_sequencer reserved event s

module _ (bpf : BpfHash) where
  open bpf use {get}

  -- The verdict of a hook is the table's, and the sequencer gets the table's receipt and no other.
  pub judge-outcome :
      (reserved : ℕ) (key : MandateKey) (mode now : ℕ) (found : Option MandateValue)
      (k : KernelState bpf)
      → ((judge bpf reserved key mode now found k).0 ≡ (outcome key mode now found).0)
        × ((judge bpf reserved key mode now found k).1.sequencer
            ≡ after reserved (outcome key mode now found).1 k.sequencer)
  unfolding judge push_mandate_receipt
  judge-outcome reserved key mode now none k = ground arith
  judge-outcome reserved key mode now (some val) k = ground arith

  pub judge_denies_iff :
      (reserved : ℕ) (key : MandateKey) (mode now : ℕ) (found : Option MandateValue)
      (k : KernelState bpf)
      → ((judge bpf reserved key mode now found k).0 ≡ deny)
        ↔ ((mode ≡ mode_code enforce) × (¬ IsValid now found))
  unfolding judge
  judge_denies_iff reserved key mode now none k = (λ h. ground arith, λ h. ground arith)
  judge_denies_iff reserved key mode now (some val) k = (λ h. ground arith, λ h. ground arith)

  -- All that the execve hook reads is there, and makes this key.
  pub record Identified (task : Task) (binprm : Binprm) (k : KernelState bpf) (key : MandateKey)
      : Type 0 where
    pub present : task.present ≡ true
    pub tgid : task.tgid ≡ some key.pid
    pub not_init : 1 < key.pid
    pub keyed : key_unset (get_siphash_key bpf k) ≡ false
    pub hashed : hash_binprm_filename binprm (get_siphash_key bpf k) ≡ some key.cmd_hash
    pub started : read_start_time_ns task ≡ key.start_time_ns

  module _ (now reserved : ℕ) (task : Task) (binprm : Binprm) (k : KernelState bpf) where
    abbrev judged : MandateKey → Verdict × KernelState bpf
    judged key =
        judge bpf reserved key (get_mandate_mode bpf k) now (get k.mandates key)
          (count_lookup bpf k)

    pub execve-Identified :
        (key : MandateKey)
        → Identified task binprm k key
        → mandate_execve_check bpf now reserved task binprm k ≡ judged key
    unfolding mandate_execve_check check_hash
    execve-Identified key d = ground arith

    -- A call that cannot be identified passes, and changes nothing.
    pub execve_cases :
        (mandate_execve_check bpf now reserved task binprm k ≡ (allow, k))
        ⊎ ((key : MandateKey) × Identified task binprm k key)
    unfolding mandate_execve_check check_hash
    execve_cases = elim (Bool-cases task.present) [
      | inr no_task ↦ inl (ground arith)
      | inl t ↦ elim (Option-cases task.tgid) [
        | inl no_pid ↦ inl (ground arith)
        | inr (pid, p) ↦ elim (Bool-cases (leb pid 1)) [
          | inl init ↦ inl (ground arith)
          | inr other ↦ elim (Bool-cases (key_unset (get_siphash_key bpf k))) [
            | inl unset ↦ inl (ground arith)
            | inr keyed ↦
                elim (Option-cases (hash_binprm_filename binprm (get_siphash_key bpf k))) [
                  | inl unread ↦ inl (ground arith)
                  | inr (hash, h) ↦ inr (
                    record { pid = pid; start_time_ns = read_start_time_ns task; cmd_hash = hash },
                    record {
                      present = t;
                      tgid = p;
                      not_init = ground arith;
                      keyed = keyed;
                      hashed = h;
                      started = refl;
                    },
                  )
                ]
          ]
        ]
      ]
    ]

    -- The execve hook refuses exactly when it can identify the call, the mode is Enforce, and no
    -- mandate for the key is there that has not expired.
    pub mandate_execve_check_denies_iff :
        ((mandate_execve_check bpf now reserved task binprm k).0 ≡ deny) ↔ (
          (key : MandateKey) × Identified task binprm k key
          × (get_mandate_mode bpf k ≡ mode_code enforce)
          × (¬ IsValid now (get k.mandates key)))
    mandate_execve_check_denies_iff = (
      λ denied. elim execve_cases [
        | inl passes ↦ absurd (cc)
        | inr (key, d) ↦
            let e = ap (λ r. r.0) (execve-Identified key d) in
            let j =
              (judge_denies_iff reserved key (get_mandate_mode bpf k) now (get k.mandates key)
                  (count_lookup bpf k)).0
                (sym e ∙ denied) in
            (key, d, j.0, j.1)
      ],
      λ h.
          ap (λ r. r.0) (execve-Identified h.0 h.1)
          ∙ (judge_denies_iff reserved h.0 (get_mandate_mode bpf k) now (get k.mandates h.0)
                (count_lookup bpf k)).1
              (h.2, h.3),
    )

    pub mandate_execve_check-outcome :
        (key : MandateKey)
        → Identified task binprm k key
        → let (verdict, k') = mandate_execve_check bpf now reserved task binprm k in
          let (expected, event) = outcome key (get_mandate_mode bpf k) now (get k.mandates key) in
          (verdict ≡ expected) × (k'.sequencer ≡ after reserved event k.sequencer)
    mandate_execve_check-outcome key d = rw (execve-Identified key d) (
        judge-outcome reserved key (get_mandate_mode bpf k) now (get k.mandates key)
          (count_lookup bpf k))

    -- Every call that the execve hook identifies ends in one of three ways. There is a mandate for its
    -- key that has not expired: the call passes, with one receipt, which carries the mandate's sequence
    -- number. There is none and the mode is Enforce: it is refused, with one receipt, of sequence number
    -- zero. There is none and the mode is another: it passes, and leaves no receipt.
    pub mandate_execve_check-receipt :
        (key : MandateKey)
        → Identified task binprm k key
        → let (verdict, k') = mandate_execve_check bpf now reserved task binprm k in
          let mode = get_mandate_mode bpf k in
          ((val : MandateValue) × (get k.mandates key ≡ some val)
            × (now < val.expires_ns)
            × (verdict ≡ allow)
            × (k'.sequencer
                ≡ submit_to_sequencer reserved
                    (receipt mandate_allow key.pid key.cmd_hash val.mandate_seq mode now)
                    k.sequencer))
          ⊎ (((¬ IsValid now (get k.mandates key))
                × (mode ≡ mode_code enforce)
                × (verdict ≡ deny)
                × (k'.sequencer
                    ≡ submit_to_sequencer reserved
                        (receipt mandate_deny key.pid key.cmd_hash 0 mode now)
                        k.sequencer))
              ⊎ ((¬ IsValid now (get k.mandates key))
                  × (mode ≢ mode_code enforce)
                  × (verdict ≡ allow)
                  × (k'.sequencer ≡ k.sequencer)))
    mandate_execve_check-receipt key d =
        let facts = mandate_execve_check-outcome key d in
        elim (Bool-cases (is_valid now (get k.mandates key))) [
          | inl valid ↦
              let (val, found, early) = is_valid-some now (get k.mandates key) valid in
              inl (
                val,
                found,
                early,
                ground (arith, found, valid, facts.0),
                ground (arith, found, valid, facts.1),
              )
          | inr late ↦
              let refused = is_valid-IsValid now (get k.mandates key) late in
              inr (elim (Bool-cases (get_mandate_mode bpf k == mode_code enforce)) [
                | inl enforced ↦ inl (
                  refused,
                  ground (arith, enforced),
                  ground (arith, late, enforced, facts.0),
                  ground (arith, late, enforced, facts.1),
                )
                | inr other ↦ inr (
                  refused,
                  λ e. ground (arith, other, e),
                  ground (arith, late, other, facts.0),
                  ground (arith, late, other, facts.1),
                )
              ])
        ]

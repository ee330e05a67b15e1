-- ===== src/Lsm/Connect.antt =====
-- The connect hook refuses under the same condition as the execve hook, over its own key.
use linnix.Prelude.{
  ℕ, ◌<◌, ◌≡◌, ◌↔◌, ◌⊎◌, inl, inr, refl, Bool, true, false, ◌||◌, some, arith, leb, Bool-cases,
  Option-cases, ap, sym, ◌∙◌,
}
use linnix.Prelude.Keys.{◌==◌, nat_eq}
use linnix.Protocol.{MandateKey, mode_code, enforce}
use linnix.BpfMap.{BpfHash}
use linnix.Lsm.{
  Task, SockAddr, Verdict, allow, deny, key_unset, read_start_time_ns, hash_sockaddr, KernelState,
  get_mandate_mode, get_siphash_key, count_lookup, judge, check_hash, mandate_socket_connect,
}
use linnix.Lsm.Decision.{IsValid, judge_denies_iff}

-- AF_INET or AF_INET6.
abbrev pub is_inet : ℕ → Bool
is_inet family = family == 2 || family == 10

module _ (bpf : BpfHash) where
  open bpf use {get}

  -- All that the connect hook reads is there, and makes this key.
  pub record Addressed (task : Task) (a : SockAddr) (k : KernelState bpf) (key : MandateKey)
      : Type 0 where
    pub present : task.present ≡ true
    pub tgid : task.tgid ≡ some key.pid
    pub not_init : 1 < key.pid
    pub address : a.present ≡ true
    pub family : ℕ
    pub family_read : a.family ≡ some family
    pub inet : is_inet family ≡ true
    pub keyed : key_unset (get_siphash_key bpf k) ≡ false
    pub hashed : hash_sockaddr a family (get_siphash_key bpf k) ≡ key.cmd_hash
    pub started : read_start_time_ns task ≡ key.start_time_ns

  module _ (now reserved : ℕ) (task : Task) (a : SockAddr) (k : KernelState bpf) where
    abbrev judged : MandateKey → Verdict × KernelState bpf
    judged key =
        judge bpf reserved key (get_mandate_mode bpf k) now (get k.mandates key)
          (count_lookup bpf k)

    pub connect-Addressed :
        (key : MandateKey)
        → Addressed task a k key
        → mandate_socket_connect bpf now reserved task a k ≡ judged key
    unfolding mandate_socket_connect check_hash
    connect-Addressed key d =
        let family = d.family in
        let family_read = d.family_read in let inet = d.inet in ground arith

    -- A connection that is not one over IP, or cannot be read, passes, and changes nothing.
    pub connect_cases :
        (mandate_socket_connect bpf now reserved task a k ≡ (allow, k))
        ⊎ ((key : MandateKey) × Addressed task a k key)
    unfolding mandate_socket_connect check_hash
    connect_cases = elim (Bool-cases task.present) [
      | inr no_task ↦ inl (ground arith)
      | inl t ↦ elim (Option-cases task.tgid) [
        | inl no_pid ↦ inl (ground arith)
        | inr (pid, p) ↦ elim (Bool-cases (leb pid 1)) [
          | inl init ↦ inl (ground arith)
          | inr other ↦ elim (Bool-cases a.present) [
            | inr no_address ↦ inl (ground arith)
            | inl addressed ↦ elim (Option-cases a.family) [
              | inl unread ↦ inl (ground arith)
              | inr (fam, f) ↦ elim (Bool-cases (is_inet fam)) [
                | inr local ↦ inl (ground arith)
                | inl inet ↦ elim (Bool-cases (key_unset (get_siphash_key bpf k))) [
                  | inl unset ↦ inl (ground arith)
                  | inr keyed ↦ inr (
                    record {
                      pid = pid;
                      start_time_ns = read_start_time_ns task;
                      cmd_hash = hash_sockaddr a fam (get_siphash_key bpf k);
                    },
                    record {
                      present = t;
                      tgid = p;
                      not_init = ground arith;
                      address = addressed;
                      family = fam;
                      family_read = f;
                      inet = inet;
                      keyed = keyed;
                      hashed = refl;
                      started = refl;
                    },
                  )
                ]
              ]
            ]
          ]
        ]
      ]
    ]

    -- The connect hook refuses exactly when it can read an IPv4 or IPv6 address, the mode is
    -- Enforce, and no mandate for the key is there that has not expired.
    pub mandate_socket_connect_denies_iff :
        ((mandate_socket_connect bpf now reserved task a k).0 ≡ deny) ↔ (
          (key : MandateKey) × Addressed task a k key
          × (get_mandate_mode bpf k ≡ mode_code enforce)
          × (¬ IsValid now (get k.mandates key)))
    mandate_socket_connect_denies_iff = (
      λ denied. elim connect_cases [
        | inl passes ↦ absurd (cc)
        | inr (key, d) ↦
            let e = ap (λ r. r.0) (connect-Addressed key d) in
            let j =
              (judge_denies_iff bpf reserved key (get_mandate_mode bpf k) now (get k.mandates key)
                  (count_lookup bpf k)).0
                (sym e ∙ denied) in
            (key, d, j.0, j.1)
      ],
      λ h.
          ap (λ r. r.0) (connect-Addressed h.0 h.1)
          ∙ (judge_denies_iff bpf reserved h.0 (get_mandate_mode bpf k) now (get k.mandates h.0)
                (count_lookup bpf k)).1
              (h.2, h.3),
    )

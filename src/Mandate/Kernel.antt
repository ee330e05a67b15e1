-- ===== src/Mandate/Kernel.antt =====
-- The manager of cognitod/src/mandate.rs and the hooks of
-- linnix-ai-ebpf/linnix-ai-ebpf-ebpf/src/lsm.rs over the one MANDATE_MAP that they share.
use linnix.Prelude.{
  ℕ, ◌-◌, ◌≤◌, ◌<◌, ◌≡◌, refl, true, none, some, String, arith, Bool-cases, Option-cases, ap, sym,
  ◌∙◌, ◌⊎◌, inl, inr,
}
use linnix.Prelude.Keys.{string_eq, nat_eq, ==_refl}
use linnix.Prelude.Assoc.{lookup}
use linnix.Prelude.Results.{ok, Result-split}
use linnix.Protocol.{MandateKey, key_eq, mode_code, enforce, mandate_allow}
use linnix.Sequencer.Producer.{submit_to_sequencer}
use linnix.BpfMap.{BpfHash}
use linnix.Lsm.{
  Task, Binprm, allow, deny, KernelState, get_mandate_mode, receipt, mandate_execve_check,
}
use linnix.Lsm.Decision.{Identified, mandate_execve_check_denies_iff, mandate_execve_check-outcome}
use linnix.Mandate.Types.{MandateRequest, MandateResponse, is_active, MandateRecord}
use linnix.Mandate.Manager.{
  Moment, MandateManager, prepare, create, install, new_value, revoke, mark_executed, map_remove,
}
use linnix.Mandate.Reconcile.{reconcile, due, remove_keys}
use linnix.Mandate.Removal.{FailOnlyMissing, map_remove_cases, remove_keys-missing, reconcile-map}

module _ (bpf : BpfHash) where
  open bpf use {Map, get}

  deny_missing :
      (now reserved : ℕ) (task : Task) (binprm : Binprm) (k : KernelState bpf) (key : MandateKey)
      → Identified bpf task binprm k key
      → get_mandate_mode bpf k ≡ mode_code enforce
      → get k.mandates key ≡ none
      → (mandate_execve_check bpf now reserved task binprm k).0 ≡ deny
  deny_missing now reserved task binprm k key known enforced missing =
      (mandate_execve_check_denies_iff bpf now reserved task binprm k).1
        (key, known, enforced, rw missing (λ valid. valid))

  module _ (Receipt : Type 0) where
    module _ (now reserved : ℕ) (task : Task) (binprm : Binprm) (k : KernelState bpf) where
      -- `create` succeeds over a connected map, and so does its write to the map. Then that is
      -- the manager's map, and until the deadline the hook lets a call that it identifies with
      -- the response's key pass, with a receipt that carries the mandate's sequence number.
      pub create_allows :
          (at_time : Moment) (req : MandateRequest) (m : MandateManager bpf Receipt)
          (resp : MandateResponse) (kernel_map : Map)
          → (create bpf Receipt at_time req m).1 ≡ ok resp
          → m.bpf_mandate_map ≡ some kernel_map
          → bpf.insert kernel_map resp.key (new_value bpf Receipt at_time req m.next_seq)
            ≡ some k.mandates
          → Identified bpf task binprm k resp.key
          → now < (new_value bpf Receipt at_time req m.next_seq).expires_ns
          → let (verdict, k') = mandate_execve_check bpf now reserved task binprm k in
            ((create bpf Receipt at_time req m).0.bpf_mandate_map ≡ some k.mandates)
            × (verdict ≡ allow)
            × (k'.sequencer
                ≡ submit_to_sequencer reserved
                    (receipt mandate_allow resp.key.pid resp.key.cmd_hash m.next_seq
                      (get_mandate_mode bpf k)
                      now)
                    k.sequencer)
      unfolding create install
      create_allows at_time req m resp kernel_map created connected inserted known early =
          elim (Result-split (prepare bpf Receipt at_time req m)) [
            | inl (e, failed) ↦ absurd (ground arith)
            | inr (key, prepared) ↦
                let same : key ≡ resp.key = ground arith in
                let there : get k.mandates resp.key
                    ≡ some (new_value bpf Receipt at_time req m.next_seq) =
                  bpf.get-insert kernel_map resp.key (new_value bpf Receipt at_time req m.next_seq)
                    k.mandates inserted resp.key
                  ∙ rw (==_refl resp.key) refl in
                let result =
                  mandate_execve_check-outcome bpf now reserved task binprm k resp.key known in
                (
                  rw (create, prepared, install, connected, same, inserted) refl,
                  ground (arith, there, result.0),
                  ground (arith, there, result.1),
                )
          ]

      -- A successful `revoke` over a connected map leaves a map over which the hook in Enforce mode
      -- refuses every call that it identifies with the revoked mandate's key, unless the removal of the
      -- key failed, and the map is the one of before.
      pub revoke_denies :
          (id : String) (m : MandateManager bpf Receipt) (r : MandateRecord Receipt)
          (kernel_map : Map)
          → lookup id m.mandates ≡ some r
          → (revoke bpf Receipt id m).1 ≡ ok tt
          → m.bpf_mandate_map ≡ some kernel_map
          → (revoke bpf Receipt id m).0.bpf_mandate_map ≡ some k.mandates
          → Identified bpf task binprm k r.key
          → get_mandate_mode bpf k ≡ mode_code enforce
          → ((mandate_execve_check bpf now reserved task binprm k).0 ≡ deny)
            ⊎ ((bpf.remove kernel_map r.key ≡ none) × (k.mandates ≡ kernel_map))
      unfolding revoke
      revoke_denies id m r kernel_map found done connected shared known enforced =
          elim (Bool-cases (is_active r.status)) [
            | inl live ↦
                let e : map_remove bpf Receipt r.key (some kernel_map) ≡ some k.mandates =
                  ground arith in
                elim (map_remove_cases bpf Receipt r.key kernel_map k.mandates e) [
                  | inl missing ↦
                      inl (deny_missing now reserved task binprm k r.key known enforced missing)
                  | inr failed ↦ inr failed
                ]
            | inr dead ↦ absurd (ground arith)
          ]

      -- Over the map that `reconcile` leaves, the hook in Enforce mode refuses every call that it
      -- identifies with the key of a mandate that was active and whose deadline had come, where the
      -- removals of the due keys, in their order, fail at most on keys that are not in the map.
      pub reconcile_denies :
          (now_ns : ℕ) (id : String) (m : MandateManager bpf Receipt) (r : MandateRecord Receipt)
          (kernel_map : Map)
          → lookup id m.mandates ≡ some r
          → is_active r.status ≡ true
          → r.value.expires_ns ≤ now_ns
          → m.bpf_mandate_map ≡ some kernel_map
          → FailOnlyMissing bpf Receipt (due now_ns m.mandates) kernel_map
          → (reconcile bpf Receipt now_ns m).0.bpf_mandate_map ≡ some k.mandates
          → Identified bpf task binprm k r.key
          → get_mandate_mode bpf k ≡ mode_code enforce
          → (mandate_execve_check bpf now reserved task binprm k).0 ≡ deny
      reconcile_denies now_ns id m r kernel_map found live late connected only shared known
            enforced =
          deny_missing now reserved task binprm k r.key known enforced (
            remove_keys-missing bpf Receipt now_ns m.mandates id r kernel_map k.mandates
              (ap (remove_keys bpf Receipt (due now_ns m.mandates)) (sym connected)
                ∙ sym (reconcile-map bpf Receipt now_ns m)
                ∙ shared)
              found (ground arith) only)

  module _ (Receipt : Type 0) where
    -- A successful `mark_executed` leaves the kernel's map as it was, and takes one off the
    -- manager's count of the map's entries.
    mark_executed_keeps_entry :
        (id : String) (receipt : Receipt) (m : MandateManager bpf Receipt)
        → (mark_executed bpf Receipt id receipt m).1 ≡ ok tt
        → ((mark_executed bpf Receipt id receipt m).0.bpf_mandate_map ≡ m.bpf_mandate_map)
          × ((mark_executed bpf Receipt id receipt m).0.bpf_map_count ≡ m.bpf_map_count - 1)
    unfolding mark_executed
    mark_executed_keeps_entry id receipt m done = elim (Option-cases (lookup id m.mandates)) [
      | inl missing ↦ absurd (ground arith)
      | inr (r, found) ↦ elim (Bool-cases (is_active r.status)) [
        | inl live ↦ (ground arith, ground arith)
        | inr dead ↦ absurd (ground arith)
      ]
    ]

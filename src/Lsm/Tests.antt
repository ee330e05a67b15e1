-- ===== src/Lsm/Tests.antt =====
-- The properties of the hooks at concrete inputs.
use linnix.Prelude.{◌<◌, ◌≡◌, ◌≢◌, ◌↔◌, ◌⊎◌, some, [], ◌∷◌}
use linnix.Prelude.Assoc.{lookup}
use linnix.Protocol.{
  MandateKey, MandateValue, key_eq, mode_code, enforce, mandate_allow, mandate_deny,
}
use linnix.Sequencer.Producer.{submit_to_sequencer}
use linnix.BpfMap.Listed.{Entries, listed}
use linnix.Lsm.{
  allow, deny, receipt, get_mandate_mode, mandate_execve_check, mandate_socket_connect,
}
use linnix.Lsm.Samples.{agent, program, address, program_key, enforcing, program-Identified}
use linnix.Lsm.Decision.{
  IsValid, Identified, mandate_execve_check_denies_iff, mandate_execve_check-receipt,
}
use linnix.Lsm.Connect.{Addressed, mandate_socket_connect_denies_iff}

abbrev granted : Entries
granted = (program_key, record { expires_ns = 9000; flags = 0; mandate_seq = 7 }) ∷ []

mandate_execve_check_denies_iff_example :
    ((mandate_execve_check listed 8000 8001 agent program (enforcing granted)).0 ≡ deny) ↔ (
      (key : MandateKey) × Identified listed agent program (enforcing granted) key
      × (get_mandate_mode listed (enforcing granted) ≡ mode_code enforce)
      × (¬ IsValid 8000 (lookup key granted)))
mandate_execve_check_denies_iff_example =
    mandate_execve_check_denies_iff listed 8000 8001 agent program (enforcing granted)

mandate_execve_check-receipt_example :
    let (verdict, k') = mandate_execve_check listed 8000 8001 agent program (enforcing granted) in
    ((val : MandateValue) × (lookup program_key granted ≡ some val)
      × (8000 < val.expires_ns)
      × (verdict ≡ allow)
      × (k'.sequencer
          ≡ submit_to_sequencer 8001
              (receipt mandate_allow 42 program_key.cmd_hash val.mandate_seq 1 8000)
              (enforcing granted).sequencer))
    ⊎ (((¬ IsValid 8000 (lookup program_key granted))
          × (1 ≡ mode_code enforce)
          × (verdict ≡ deny)
          × (k'.sequencer
              ≡ submit_to_sequencer 8001
                  (receipt mandate_deny 42 program_key.cmd_hash 0 1 8000)
                  (enforcing granted).sequencer))
        ⊎ ((¬ IsValid 8000 (lookup program_key granted))
            × (1 ≢ mode_code enforce)
            × (verdict ≡ allow)
            × (k'.sequencer ≡ (enforcing granted).sequencer)))
mandate_execve_check-receipt_example =
    mandate_execve_check-receipt listed 8000 8001 agent program (enforcing granted) program_key
      (program-Identified granted)

mandate_socket_connect_denies_iff_example :
    ((mandate_socket_connect listed 8000 8001 agent address (enforcing granted)).0 ≡ deny) ↔ (
      (key : MandateKey) × Addressed listed agent address (enforcing granted) key
      × (get_mandate_mode listed (enforcing granted) ≡ mode_code enforce)
      × (¬ IsValid 8000 (lookup key granted)))
mandate_socket_connect_denies_iff_example =
    mandate_socket_connect_denies_iff listed 8000 8001 agent address (enforcing granted)

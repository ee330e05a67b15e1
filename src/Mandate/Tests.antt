-- ===== src/Mandate/Tests.antt =====
-- The manager, and the hook behind it, at concrete inputs.
use linnix.Prelude.{
  ℕ, ◌+◌, ◌-◌, ◌≡◌, ◌⊎◌, ◌&&◌, refl, true, false, none, some, [], ◌∷◌, leb, if◌then◌else◌, arith,
  ap,
}
use linnix.Prelude.Keys.{◌==◌, nat_eq, string_eq}
use linnix.Prelude.Assoc.{lookup, insert, erase}
use linnix.Prelude.Results.{ok}
use linnix.Protocol.{MandateValue, enforce, mandate_allow, mandate_map_watermark}
use linnix.Siphash.Userspace
use linnix.Sequencer.Producer.{submit_to_sequencer}
use linnix.BpfMap.Listed.{Entries, listed, insert_entry, remove_entry}
use linnix.Lsm.{allow, deny, receipt, mandate_execve_check, hash_binprm_filename}
use linnix.Lsm.Samples.{agent, path, program, secret, program_key, enforcing, program-Identified}
use linnix.Mandate.Types.{MandateRequest, revoked, is_active, MandateRecord}
use linnix.Mandate.Proc.{System, read_start_time_ns}
use linnix.Mandate.Manager.{
  Moment, MandateManager, new, new_record, response, prepare, install, create, revoke,
  hash_filename,
}
use linnix.Mandate.Reconcile.{reconcile, expire}
use linnix.Mandate.Queries.{MandateArrays, MapWrites, connect_bpf_maps, map_option}
use linnix.Mandate.Counts.{active_count}
use linnix.Mandate.Accounting.{Accounted}
use linnix.Mandate.History.{
  Steps, stop, then_step, connecting, creating, revoking, reconciling, reachable-Accounted,
  closed_for_good,
}
use linnix.Mandate.Expiry.{lookup-reconcile}
use linnix.Mandate.Names.{hash_binprm_filename-hash_filename}
use linnix.Mandate.Kernel.{create_allows, revoke_denies, reconcile_denies}
use linnix.Mandate.Removal.{FailOnlyMissing}

-- A receipt is a number here.
abbrev Manager : Type 0
Manager = MandateManager listed ℕ

abbrev system : System
system = record {
  proc = [];
  starttime_ticks = λ pid. if pid == 42 then some 500 else none;
  clk_tck = 100;
}

abbrev noon : Moment
noon = record { system = system; boottime_ns = 1000; wall_ms = 70000; instant = 9; new_id = "m-1" }

abbrev request : MandateRequest
request = record {
  pid = 42;
  args = path ∷ [];
  ttl_ms = 5;
  container_id = none;
  monitor_only = false;
  task_id = none;
  max_spend_cents = none;
  counterparty_did = none;
  wallet_address = none;
  jurisdiction = none;
}

abbrev started : Manager
started = new listed ℕ secret true enforce

abbrev all_succeed : MapWrites
all_succeed = record { key0 = true; key1 = true; mode = true }

abbrev no_arrays : MandateArrays
no_arrays = record { key0 = none; key1 = none; mode = none }

abbrev connected : Manager
connected = (connect_bpf_maps listed ℕ all_succeed [] no_arrays started).0

abbrev program_value : MandateValue
program_value = record { expires_ns = 5001000; flags = 0; mandate_seq = 1 }

abbrev granted_entries : Entries
granted_entries = (program_key, program_value) ∷ []

abbrev granted_record : MandateRecord ℕ
granted_record = new_record listed ℕ noon request program_key connected

-- What `create` leaves.
abbrev granted : Manager
granted = record connected {
  next_seq = 2;
  mandates = ("m-1", granted_record) ∷ [];
  seq_to_id = (1, "m-1") ∷ [];
  bpf_mandate_map = some granted_entries;
  total_created = 1;
  bpf_map_count = 1;
}

prepared : prepare listed ℕ noon request connected ≡ ok program_key
unfolding prepare read_start_time_ns hash_filename
prepared = refl

created :
    create listed ℕ noon request connected
    ≡ (granted, ok (response listed ℕ connected granted_record))
unfolding create install insert insert_entry lookup
created = rw (create, prepared, install) refl

granted-Accounted : Accounted listed ℕ granted
unfolding lookup active_count
granted-Accounted = record {
  distinct = (refl, tt);
  counted = refl;
  bounded = omega arith;
  balanced = refl;
  fits = omega arith;
}

create_allows_example :
    let (verdict, k') =
      mandate_execve_check listed 2000 2001 agent program (enforcing granted_entries) in
    ((create listed ℕ noon request connected).0.bpf_mandate_map ≡ some granted_entries)
    × (verdict ≡ allow)
    × (k'.sequencer
        ≡ submit_to_sequencer 2001
            (receipt mandate_allow 42 program_key.cmd_hash 1 1 2000)
            (enforcing granted_entries).sequencer)
unfolding insert_entry lookup insert
create_allows_example =
    create_allows listed ℕ 2000 2001 agent program (enforcing granted_entries) noon request
      connected (response listed ℕ connected granted_record) [] (ap (λ r. r.1) created) refl refl
      (program-Identified granted_entries) (omega arith)

revoke_denies_example :
    ((mandate_execve_check listed 2000 2001 agent program (enforcing [])).0 ≡ deny)
    ⊎ ((remove_entry granted_entries program_key ≡ none) × (◌≡◌ {A = Entries} [] granted_entries))
unfolding revoke insert lookup erase remove_entry Userspace.siphash_2_4 Userspace.finish
    Userspace.sipround Userspace.rotl Userspace.write Userspace.write_byte Userspace.new
revoke_denies_example =
    revoke_denies listed ℕ 2000 2001 agent program (enforcing []) "m-1" granted granted_record
      granted_entries refl refl refl refl (program-Identified []) refl

reconcile_denies_example :
    (mandate_execve_check listed 6000000 6000001 agent program (enforcing [])).0 ≡ deny
unfolding reconcile FailOnlyMissing insert lookup erase remove_entry Userspace.siphash_2_4
    Userspace.finish Userspace.sipround Userspace.rotl Userspace.write Userspace.write_byte
    Userspace.new
reconcile_denies_example =
    reconcile_denies listed ℕ 6000000 6000001 agent program (enforcing []) 6000000 "m-1" granted
      granted_record granted_entries refl refl (omega arith) refl
      ((λ failed. absurd (cc failed)), tt) refl (program-Identified []) refl

-- Two calls of `create` that overlap, one entry below the watermark: the checks of both pass, and then
-- the count is above it.
abbrev almost_full : Manager
almost_full = record connected { bpf_map_count = mandate_map_watermark - 1 }

abbrev second_moment : Moment
second_moment = record noon { new_id = "m-2" }

both_prepared :
    (prepare listed ℕ noon request almost_full ≡ ok program_key)
    × (prepare listed ℕ second_moment request almost_full ≡ ok program_key)
unfolding prepare read_start_time_ns hash_filename
both_prepared = (refl, refl)

over_the_watermark :
    (install listed ℕ second_moment request program_key
      (install listed ℕ noon request program_key almost_full)).bpf_map_count
    ≡ mandate_map_watermark + 1
unfolding install
over_the_watermark = refl

-- Connect, create, revoke.
history :
    Steps listed ℕ started (revoke listed ℕ "m-1" (create listed ℕ noon request connected).0).0
unfolding lookup
history = then_step started connected _ (connecting started all_succeed [] no_arrays) (
    then_step connected (create listed ℕ noon request connected).0 _
      (creating connected noon request refl (omega arith))
      (then_step _ _ _ (revoking (create listed ℕ noon request connected).0 "m-1") (stop _)))

reachable-Accounted_example :
    Accounted listed ℕ (revoke listed ℕ "m-1" (create listed ℕ noon request connected).0).0
reachable-Accounted_example =
    reachable-Accounted listed ℕ secret true enforce
      (revoke listed ℕ "m-1" (create listed ℕ noon request connected).0).0 history

abbrev revoked_record : MandateRecord ℕ
revoked_record = record granted_record { status = revoked }

abbrev withdrawn : Manager
withdrawn = record granted {
  mandates = ("m-1", revoked_record) ∷ [];
  total_revoked = 1;
  bpf_map_count = 0;
}

withdrawn-Accounted : Accounted listed ℕ withdrawn
unfolding lookup active_count
withdrawn-Accounted = record {
  distinct = (refl, tt);
  counted = refl;
  bounded = omega arith;
  balanced = refl;
  fits = omega arith;
}

withdrawn-Steps : Steps listed ℕ withdrawn (reconcile listed ℕ 6000000 withdrawn).0
withdrawn-Steps = then_step withdrawn _ _ (reconciling withdrawn 6000000) (stop _)

closed_for_good_example :
    lookup "m-1" (reconcile listed ℕ 6000000 withdrawn).0.mandates ≡ some revoked_record
unfolding lookup
closed_for_good_example =
    closed_for_good listed ℕ withdrawn (reconcile listed ℕ 6000000 withdrawn).0 "m-1" revoked_record
      withdrawn-Steps withdrawn-Accounted refl refl

lookup-reconcile_example :
    lookup "m-1" (reconcile listed ℕ 6000000 granted).0.mandates
    ≡ map_option
        (λ r. if is_active r.status && leb r.value.expires_ns 6000000 then expire r else r)
        (lookup "m-1" granted.mandates)
lookup-reconcile_example = lookup-reconcile listed ℕ 6000000 granted granted-Accounted "m-1"

hash_binprm_filename-hash_filename_example :
    hash_binprm_filename program secret ≡ some (hash_filename secret (path ∷ []))
hash_binprm_filename-hash_filename_example =
    hash_binprm_filename-hash_filename program secret 4096 47 (97 ∷ []) [] (omega arith)
      (omega arith) refl refl (omega arith) (refl, omega arith, (refl, omega arith, refl))
      (omega arith)

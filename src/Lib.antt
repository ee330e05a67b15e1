-- ===== src/Lib.antt =====
-- The verification library of Linnix: the part of the daemon and of its eBPF programs that decides
-- what an agent may run, reach and spend, and the ring that carries the kernel's events.
--
-- The parts and how they interact. A client asks the daemon for a mandate, a permission for one
-- process to run one program for a time. The mandate manager files it and writes it to MANDATE_MAP, a
-- BPF hash map. The LSM hooks in the kernel look every execve and connect up in that map, let it pass
-- or refuse it, and put a receipt into the sequencer's ring. The daemon polls the ring and marks
-- mandates as executed. Both sides compute the key's hash for themselves, with a copy of SipHash
-- each. Requests that cost money pass the spend engine and the screening of counterparties first. The
-- kernel's receipts become signed ones, and a queue holds the actions that wait for an operator. The
-- same events feed the store of processes and the rule engine, which raises alerts.
--
-- Which file models what:
-- - Prelude and its children: tests, lists, results, association lists for HashMap, u64 words with
--   their wrap-around (add64, saturating_add, rotate_left), lemmas on bit operations.
-- - Protocol (linnix-ai-ebpf/linnix-ai-ebpf-common/src/lib.rs): events, slots, mandate keys, values
--   and modes, constants. `data` and `data2` of an event are `payload` and `payload2`.
-- - Siphash/Kernel (linnix-ai-ebpf/linnix-ai-ebpf-ebpf/src/siphash.rs) and Siphash/Userspace (the copy
--   in cognitod/src/mandate.rs); Siphash/Agree and Siphash/Digest compare them.
-- - Sequencer/Producer (submit_to_sequencer of linnix-ai-ebpf/linnix-ai-ebpf-ebpf/src/program.rs, one
--   function for each volatile write) and Sequencer/Consumer (cognitod/src/runtime/sequencer.rs,
--   poll_batch as turns of its loop, drain). Sequencer/Interleaving runs the writes of many calls and
--   the reads of the consumer's turns one by one; Phases, Calls, Begin, Reading, Sighting and Whole
--   hold its proofs,
--   Sequencer/Order, Fifo, Delivery and Draining the others.
-- - Probe (linnix-ai-ebpf/linnix-ai-ebpf-ebpf/src/program.rs): sampling, throttling and encoding;
--   Probe/Handlers for the tracepoint programs. Probe/Sampling and Device hold the proofs.
-- - BpfMap: what the code relies on of a BPF hash map, as a record of operations and laws; an insert
--   or a removal may fail, whatever the reason, and the code then goes on with the map as it was.
--   BpfMap/Listed is an instance, for runs.
-- - Lsm (linnix-ai-ebpf/linnix-ai-ebpf-ebpf/src/lsm.rs): mandate_execve_check and
--   mandate_socket_connect with each early return. What a hook reads of kernel memory is an argument,
--   `none` for a read that fails. Lsm/Decision, Connect, Filename and Accounting hold the proofs.
-- - Mandate (cognitod/src/mandate.rs): Types for requests, responses and records, Proc for what is
--   read of /proc, Manager for create, revoke and mark_executed, Reconcile, Queries for the readers,
--   connect_bpf_maps and create_batch. Mandate/Counts, Accounting, History, Expiry, Batch, Names,
--   Removal and Kernel hold the proofs; Kernel joins the manager and the hooks over one map.
-- - Spend (cognitod/src/spend.rs, with the limits of cognitod/src/config.rs): the tracker and its
--   operations; Spend/Totals, Check, Limits, Agents, Retention and History hold the proofs.
-- - Commerce (cognitod/src/commerce.rs): the commerce policy. Api (cognitod/src/api/mod.rs): the handler
--   create_mandate, gate by gate; Api/Create and Api/Screening hold the proofs. Api/Receipts is the handler
--   get_mandate_receipt, with the proofs in Api/Disclosure.
-- - Privacy (cognitod/src/privacy.rs): the redaction of receipts.
-- - Compliance (cognitod/src/compliance.rs, with ComplianceConfig of cognitod/src/config.rs): the
--   engine; Compliance/Providers for results and providers, Compliance/Cache for the cache,
--   Compliance/Verdict for the proofs.
-- - Receipt (cognitod/src/receipt.rs): receipts, their builder and the EIP-712 hash; Receipt/Encoding
--   for numbers as bytes, Receipt/Json for canonical JSON, Receipt/Signing for both signatures,
--   Receipt/Identity (cognitod/src/identity.rs) for the keys, Receipt/Crates for the packages as a
--   record of operations and laws; Receipt/RoundTrip and Receipt/Binding hold the proofs.
-- - Handler (cognitod/src/handler/mod.rs): on_event of MandateReceiptHandler; Handler/Path follows a
--   mandate from create to its signed receipt.
-- - Lineage (cognitod/src/runtime/lineage.rs): the cache of forks; Lineage/Queue, Age and
--   Memory hold the proofs.
-- - Alerts (cognitod/src/alerts.rs): Rules for the rules as read and kept and the windows of from_path,
--   Queues for the queues of moments and the state, Detect for what an event records, Engine for the
--   detectors, emit_alert, on_event and on_snapshot; Cooldown, Counting and Forks hold the proofs.
-- - Context (cognitod/src/context.rs): the store of events and processes; Context/Retain, History and
--   Lifecycle hold the proofs.
-- - Payment (cognitod/src/payment.rs): amounts, the trait and two adapters; Payment/OnChain
--   (cognitod/src/onchain.rs) is the third. Payment/RoundTrip and Settlement hold the proofs.
-- - Enforcement (cognitod/src/enforcement.rs) and Enforcement/Safety
--   (cognitod/src/enforcement/safety.rs): the queue of actions and the checks of a kill;
--   Enforcement/Life and Enforcement/Audit hold the proofs.
--
-- Clocks, identifiers and the files of /proc are arguments. u64 sums wrap, as in a release build. A
-- call is one step, except in Sequencer/Interleaving, where each write and read is one: calls of the
-- mandate manager that overlap are not modelled, though create does not hold one lock from its checks
-- to its last counter. A consumer's poll may see a different ring at each turn.
-- The loop of poll_batch is recursion on the turns left. drain runs on fuel, one more than its limit
-- of 10,000 events: every round but the last adds an event.
--
-- Not modelled: the other HTTP handlers and incidents, which are separate parts; the audit log of compliance, which nothing writes; reading and writing the identity file; the
-- raw BTF variants of the tracepoint programs and the collectors, which mostly read the system; the
-- discovery of the telemetry configuration; the percentage in the manager's
-- health and the lists of top processes, floating-point numbers; the splitting of /proc files into
-- fields; a task that runs while a handler of the rule engine waits for its alert to be written.
pub mod Prelude
pub mod Spend
pub mod Siphash
pub mod Protocol
pub mod Privacy
pub mod Receipt
pub mod Sequencer
pub mod BpfMap
pub mod Handler
pub mod Lineage
pub mod Lsm
pub mod Mandate
pub mod Commerce
pub mod Compliance
pub mod Payment
pub mod Probe
pub mod Alerts
pub mod Context
pub mod Api
pub mod Enforcement

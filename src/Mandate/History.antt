-- ===== src/Mandate/History.antt =====
-- A history of the manager: the calls that change its state, in any order.
use linnix.Prelude.{
  ℕ, ◌+◌, ◌<◌, ◌≡◌, ◌⊎◌, Bool, true, false, none, some, String, arith, Bool-cases, inl, inr,
}
use linnix.Prelude.Keys.{◌==◌, string_eq, ==→eq}
use linnix.Prelude.Assoc.{lookup, insert, lookup-insert}
use linnix.Prelude.Words.{u64_mod}
use linnix.Prelude.Results.{Result-split}
use linnix.Protocol.{MandateMode}
use linnix.BpfMap.{BpfHash}
use linnix.Mandate.Types.{MandateRequest, is_active, MandateRecord}
use linnix.Mandate.Manager.{
  Moment, MandateManager, new, prepare, create, install, new_record, revoke, mark_executed,
}
use linnix.Mandate.Reconcile.{reconcile}
use linnix.Mandate.Queries.{MandateArrays, MapWrites, connect_bpf_maps}
use linnix.Mandate.Counts.{expire_all-due, lookup-expire_each}
use linnix.Mandate.Accounting.{
  Accounted, new-Accounted, create-Accounted, revoke-Accounted, mark_executed-Accounted,
  reconcile-Accounted, revoke_cases, mark_executed_cases, reconcile_cases,
}

module _ (bpf : BpfHash) (Receipt : Type 0) where
  -- One call, from its start to its end: no other call overlaps. A new identifier is not in use, and fewer than 2^64 mandates were created.
  pub data Step : MandateManager bpf Receipt → MandateManager bpf Receipt → Type 1 where
    connecting :
        (m : MandateManager bpf Receipt) (succeed : MapWrites) (kernel_map : bpf.Map)
        (arrays : MandateArrays)
        → Step m (connect_bpf_maps bpf Receipt succeed kernel_map arrays m).0
    creating :
        (m : MandateManager bpf Receipt) (at_time : Moment) (req : MandateRequest)
        → lookup at_time.new_id m.mandates ≡ none
        → m.total_created + 1 < u64_mod
        → Step m (create bpf Receipt at_time req m).0
    revoking : (m : MandateManager bpf Receipt) (id : String) → Step m (revoke bpf Receipt id m).0
    executing :
        (m : MandateManager bpf Receipt) (id : String) (receipt : Receipt)
        → Step m (mark_executed bpf Receipt id receipt m).0
    reconciling :
        (m : MandateManager bpf Receipt) (now_ns : ℕ) → Step m (reconcile bpf Receipt now_ns m).0

  -- Any number of calls.
  pub data Steps : MandateManager bpf Receipt → MandateManager bpf Receipt → Type 1 where
    stop : (m : MandateManager bpf Receipt) → Steps m m
    then_step : (m m' m'' : MandateManager bpf Receipt) → Step m m' → Steps m' m'' → Steps m m''

  Step-Accounted :
      (m m' : MandateManager bpf Receipt)
      → Step m m'
      → Accounted bpf Receipt m
      → Accounted bpf Receipt m'
  Step-Accounted m m' (connecting _ succeed kernel_map arrays) a = record {
    distinct = a.distinct;
    counted = a.counted;
    bounded = a.bounded;
    balanced = a.balanced;
    fits = a.fits;
  }
  Step-Accounted m m' (creating _ at_time req fresh room) a =
      create-Accounted bpf Receipt at_time req m fresh room a
  Step-Accounted m m' (revoking _ id) a = revoke-Accounted bpf Receipt id m a
  Step-Accounted m m' (executing _ id receipt) a =
      mark_executed-Accounted bpf Receipt id receipt m a
  Step-Accounted m m' (reconciling _ now_ns) a = reconcile-Accounted bpf Receipt now_ns m a

  pub Steps-Accounted :
      (m m' : MandateManager bpf Receipt)
      → Steps m m'
      → Accounted bpf Receipt m
      → Accounted bpf Receipt m'
  Steps-Accounted m m' (stop _) a = a
  Steps-Accounted m m' (then_step _ mid _ s ss) a =
      Steps-Accounted mid m' ss (Step-Accounted m mid s a)

  -- After any calls of a new manager, one after another and none overlapping, with new identifiers that are not in use and fewer than 2 ^
  -- 64 mandates created: identifiers are distinct, the count of map entries is the number of
  -- active mandates and at most the watermark, and every mandate created is active, expired,
  -- revoked or executed.
  pub reachable-Accounted :
      (siphash_key : ℕ × ℕ) (bpf_available : Bool) (mode : MandateMode)
      (m : MandateManager bpf Receipt)
      → Steps (new bpf Receipt siphash_key bpf_available mode) m
      → Accounted bpf Receipt m
  reachable-Accounted siphash_key bpf_available mode m ss =
      Steps-Accounted (new bpf Receipt siphash_key bpf_available mode) m ss
        (new-Accounted bpf Receipt siphash_key bpf_available mode)

  -- An insert at `j` of a mandate that was missing or active there leaves one that is closed.
  closed-insert :
      (id j : String) (r s : MandateRecord Receipt) (m : MandateManager bpf Receipt)
      → lookup id m.mandates ≡ some r
      → is_active r.status ≡ false
      → (lookup j m.mandates ≡ none)
        ⊎ ((t : MandateRecord Receipt) × (lookup j m.mandates ≡ some t)
            × (is_active t.status ≡ true))
      → lookup id (insert j s m.mandates) ≡ some r
  closed-insert id j r s m found closed other = elim (Bool-cases (j == id)) [
    | inl same ↦ elim other [
      | inl missing ↦ absurd (ground (arith, ==→eq j id same, missing, found))
      | inr (t, there, live) ↦ absurd (ground (arith, ==→eq j id same, there, found, live, closed))
    ]
    | inr apart ↦ rw (lookup-insert j id s m.mandates, apart) found
  ]

  Step-closed :
      (m m' : MandateManager bpf Receipt) (id : String) (r : MandateRecord Receipt)
      → Step m m'
      → Accounted bpf Receipt m
      → lookup id m.mandates ≡ some r
      → is_active r.status ≡ false
      → lookup id m'.mandates ≡ some r
  unfolding create install
  Step-closed m m' id r (connecting _ succeed kernel_map arrays) a found closed = found
  Step-closed m m' id r (creating _ at_time req fresh room) a found closed =
      elim (Result-split (prepare bpf Receipt at_time req m)) [
        | inl (e, failed) ↦ rw (create, failed) found
        | inr (key, prepared) ↦
            rw (create, prepared, install)
              (closed-insert id at_time.new_id r (new_record bpf Receipt at_time req key m) m found
                closed (inl fresh))
      ]
  Step-closed m m' id r (revoking _ j) a found closed = elim (revoke_cases bpf Receipt j m) [
    | inl same ↦ rw same found
    | inr (t, there, live, e) ↦ rw e (closed-insert id j r _ m found closed (inr (t, there, live)))
  ]
  Step-closed m m' id r (executing _ j receipt) a found closed =
      elim (mark_executed_cases bpf Receipt j receipt m) [
        | inl same ↦ rw same found
        | inr (t, there, live, e) ↦
            rw e (closed-insert id j r _ m found closed (inr (t, there, live)))
      ]
  Step-closed m m' id r (reconciling _ now_ns) a found closed =
      elim (reconcile_cases bpf Receipt now_ns m) [
        | inl (same, _) ↦ rw same found
        | inr e ↦
            rw
              (
                e,
                expire_all-due now_ns m.mandates a.distinct,
                lookup-expire_each now_ns id m.mandates,
                found,
              )
              (ground arith)
      ]

  -- From a well-formed state, with new identifiers that are not in use and fewer than 2 ^ 64
  -- mandates created, a mandate that is no longer active keeps its status, its receipt and all
  -- its other fields through any calls.
  pub closed_for_good :
      (m m' : MandateManager bpf Receipt) (id : String) (r : MandateRecord Receipt)
      → Steps m m'
      → Accounted bpf Receipt m
      → lookup id m.mandates ≡ some r
      → is_active r.status ≡ false
      → lookup id m'.mandates ≡ some r
  closed_for_good m m' id r (stop _) a found closed = found
  closed_for_good m m' id r (then_step _ mid _ s ss) a found closed =
      closed_for_good mid m' id r ss (Step-Accounted m mid s a)
        (Step-closed m mid id r s a found closed) closed

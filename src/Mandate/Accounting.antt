-- ===== src/Mandate/Accounting.antt =====
-- The manager's counters: how each operation moves them, and the invariant over a whole history.
use linnix.Prelude.{
  ℕ, ◌+◌, ◌≤◌, ◌<◌, ◌≡◌, ◌⊎◌, refl, Bool, true, false, none, some, String, length, arith,
  Bool-cases, Option-cases, inl, inr,
}
use linnix.Prelude.Keys.{◌==◌, string_eq, nat_eq}
use linnix.Prelude.Assoc.{lookup}
use linnix.Prelude.Words.{u64_mod}
use linnix.Prelude.Results.{ok, Result-split}
use linnix.Protocol.{MandateKey, MandateMode, mandate_map_watermark}
use linnix.BpfMap.{BpfHash}
use linnix.Mandate.Types.{MandateRequest, revoked, executed, is_active, MandateRecord}
use linnix.Mandate.Manager.{
  Moment, MandateManager, new, prepare, install, create, new_record, revoke, mark_executed,
  mark_revoked, store_receipt, is_backpressure_active,
}
use linnix.Mandate.Reconcile.{reconcile, due, mark_expired}
use linnix.Mandate.Counts.{
  active_count, active_count-insert, Distinct, insert-Distinct, expire_all-due,
  active_count-expire_each, expire_each-Distinct,
}

module _ (bpf : BpfHash) (Receipt : Type 0) where
  abbrev M : Type 0
  M = MandateManager bpf Receipt

  -- The identifiers are distinct, the count of map entries is the number of active mandates and at
  -- most the watermark, and every mandate ever created is active or counted in one other total.
  pub record Accounted (m : M) : Type 0 where
    pub distinct : Distinct m.mandates
    pub counted : m.bpf_map_count ≡ active_count m.mandates
    pub bounded : m.bpf_map_count ≤ mandate_map_watermark
    pub balanced :
        m.total_created ≡ m.bpf_map_count + m.total_expired + m.total_revoked + m.total_executed
    pub fits : m.total_created < u64_mod

  pub new-Accounted :
      (siphash_key : ℕ × ℕ) (bpf_available : Bool) (mode : MandateMode)
      → Accounted (new bpf Receipt siphash_key bpf_available mode)
  unfolding active_count
  new-Accounted siphash_key bpf_available mode = record {
    distinct = tt;
    counted = refl;
    bounded = omega arith;
    balanced = refl;
    fits = omega arith;
  }

  -- `revoke` either leaves the state alone or finds an active mandate and marks it.
  pub revoke_cases :
      (id : String) (m : M)
      → ((revoke bpf Receipt id m).0 ≡ m)
        ⊎ ((r : MandateRecord Receipt) × (lookup id m.mandates ≡ some r)
            × (is_active r.status ≡ true)
            × ((revoke bpf Receipt id m).0 ≡ mark_revoked bpf Receipt id r m))
  unfolding revoke
  revoke_cases id m = elim (Option-cases (lookup id m.mandates)) [
    | inl missing ↦ inl (ground arith)
    | inr (r, found) ↦ elim (Bool-cases (is_active r.status)) [
      | inl live ↦ inr (r, found, live, ground arith)
      | inr dead ↦ inl (ground arith)
    ]
  ]

  pub mark_executed_cases :
      (id : String) (receipt : Receipt) (m : M)
      → ((mark_executed bpf Receipt id receipt m).0 ≡ m)
        ⊎ ((r : MandateRecord Receipt) × (lookup id m.mandates ≡ some r)
            × (is_active r.status ≡ true)
            × ((mark_executed bpf Receipt id receipt m).0
                ≡ store_receipt bpf Receipt id receipt r m))
  unfolding mark_executed
  mark_executed_cases id receipt m = elim (Option-cases (lookup id m.mandates)) [
    | inl missing ↦ inl (ground arith)
    | inr (r, found) ↦ elim (Bool-cases (is_active r.status)) [
      | inl live ↦ inr (r, found, live, ground arith)
      | inr dead ↦ inl (ground arith)
    ]
  ]

  pub reconcile_cases :
      (now_ns : ℕ) (m : M)
      → ((reconcile bpf Receipt now_ns m ≡ (m, 0)) × (length (due now_ns m.mandates) ≡ 0))
        ⊎ (reconcile bpf Receipt now_ns m
            ≡ (mark_expired bpf Receipt (due now_ns m.mandates) m, length (due now_ns m.mandates)))
  unfolding reconcile
  reconcile_cases now_ns m = elim (Bool-cases (length (due now_ns m.mandates) == 0)) [
    | inl nothing ↦ inl (ground arith, ground arith)
    | inr several ↦ inr (ground arith)
  ]

  prepare_below :
      (at_time : Moment) (req : MandateRequest) (m : M) (key : MandateKey)
      → prepare bpf Receipt at_time req m ≡ ok key
      → is_backpressure_active bpf Receipt m ≡ false
  unfolding prepare
  prepare_below at_time req m key h = ground arith

  pub create-Accounted :
      (at_time : Moment) (req : MandateRequest) (m : M)
      → lookup at_time.new_id m.mandates ≡ none
      → m.total_created + 1 < u64_mod
      → Accounted m
      → Accounted (create bpf Receipt at_time req m).0
  unfolding create install
  create-Accounted at_time req m fresh room a =
      elim (Result-split (prepare bpf Receipt at_time req m)) [
        | inl (e, failed) ↦ rw (create, failed) a
        | inr (key, prepared) ↦
            let below = prepare_below at_time req m key prepared in
            let counts =
              active_count-insert at_time.new_id (new_record bpf Receipt at_time req key m)
                m.mandates in
            rw (create, prepared, install)
              (record {
                distinct = insert-Distinct at_time.new_id _ m.mandates a.distinct;
                counted = ground (arith, counts, a.counted, a.bounded, fresh);
                bounded = ground (arith, below, a.bounded);
                balanced = ground (arith, a.balanced, a.bounded, room);
                fits = ground (arith, room);
              })
      ]

  pub revoke-Accounted : (id : String) (m : M) → Accounted m → Accounted (revoke bpf Receipt id m).0
  revoke-Accounted id m a = elim (revoke_cases id m) [
    | inl same ↦ rw same a
    | inr (r, found, live, e) ↦
        let counts = active_count-insert id (record r { status = revoked }) m.mandates in
        rw e (record {
          distinct = insert-Distinct id (record r { status = revoked }) m.mandates a.distinct;
          counted = ground (arith, counts, a.counted);
          bounded = ground (arith, counts, a.bounded);
          balanced = ground (arith, counts, a.balanced, a.counted, a.fits);
          fits = a.fits;
        })
  ]

  pub mark_executed-Accounted :
      (id : String) (receipt : Receipt) (m : M)
      → Accounted m
      → Accounted (mark_executed bpf Receipt id receipt m).0
  mark_executed-Accounted id receipt m a = elim (mark_executed_cases id receipt m) [
    | inl same ↦ rw same a
    | inr (r, found, live, e) ↦
        let done = record r { status = executed; receipt = some receipt } in
        let counts = active_count-insert id done m.mandates in
        rw e (record {
          distinct = insert-Distinct id done m.mandates a.distinct;
          counted = ground (arith, counts, a.counted);
          bounded = ground (arith, counts, a.bounded);
          balanced = ground (arith, counts, a.balanced, a.counted, a.fits);
          fits = a.fits;
        })
  ]

  pub reconcile-Accounted :
      (now_ns : ℕ) (m : M) → Accounted m → Accounted (reconcile bpf Receipt now_ns m).0
  reconcile-Accounted now_ns m a = elim (reconcile_cases now_ns m) [
    | inl (same, _) ↦ rw same a
    | inr e ↦
        let counts = active_count-expire_each now_ns m.mandates in
        let each = expire_all-due now_ns m.mandates a.distinct in
        rw e (record {
          distinct = rw each (expire_each-Distinct now_ns m.mandates a.distinct);
          counted = rw each (ground (arith, counts, a.counted));
          bounded = ground (arith, counts, a.bounded);
          balanced = ground (arith, counts, a.balanced, a.counted, a.fits);
          fits = a.fits;
        })
  ]

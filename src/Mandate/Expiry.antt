-- ===== src/Mandate/Expiry.antt =====
-- What `reconcile` of cognitod/src/mandate.rs does to each mandate.
use linnix.Prelude.{
  ℕ, ◌+◌, ◌<◌, ◌≡◌, refl, true, ◌&&◌, some, String, leb, if◌then◌else◌, length, arith, Bool-cases,
  Option-cases, sym, inl, inr, [], ◌∷◌,
}
use linnix.Prelude.Keys.{string_eq}
use linnix.Prelude.Assoc.{lookup}
use linnix.BpfMap.{BpfHash}
use linnix.Mandate.Types.{is_active, MandateRecord}
use linnix.Mandate.Manager.{MandateManager}
use linnix.Mandate.Reconcile.{reconcile, due, is_due, expire}
use linnix.Mandate.Queries.{map_option}
use linnix.Mandate.Counts.{
  Records, Distinct, expire_each, expire_all-due, lookup-expire_each, active_count-expire_each,
  active_count,
}
use linnix.Mandate.Accounting.{Accounted, reconcile_cases}

module _ {Receipt : Type 0} where
  expire_each_none_due :
      (now_ns : ℕ) (m : Records Receipt) → length (due now_ns m) ≡ 0 → expire_each now_ns m ≡ m
  expire_each_none_due now_ns [] h = refl
  expire_each_none_due now_ns ((id, r) ∷ m) h = elim (Bool-cases (is_due now_ns r)) [
    | inl late ↦ absurd (ground arith)
    | inr other ↦ ground (arith, expire_each_none_due now_ns m)
  ]

module _ (bpf : BpfHash) (Receipt : Type 0) (now_ns : ℕ) (m : MandateManager bpf Receipt) where
  reconcile_mandates :
      Distinct m.mandates
      → (reconcile bpf Receipt now_ns m).0.mandates ≡ expire_each now_ns m.mandates
  reconcile_mandates distinct = elim (reconcile_cases bpf Receipt now_ns m) [
    | inl (same, nothing) ↦ rw same (sym (expire_each_none_due now_ns m.mandates nothing))
    | inr e ↦ rw e (expire_all-due now_ns m.mandates distinct)
  ]

  -- In a well-formed state, `reconcile` sets the status of exactly those mandates to Expired that
  -- are active with a deadline that has come, and leaves every other mandate as it was.
  pub lookup-reconcile :
      Accounted bpf Receipt m
      → (id : String)
      → lookup id (reconcile bpf Receipt now_ns m).0.mandates
        ≡ map_option
            (λ r. if is_active r.status && leb r.value.expires_ns now_ns then expire r else r)
            (lookup id m.mandates)
  lookup-reconcile a id =
      rw (reconcile_mandates a.distinct) (lookup-expire_each now_ns id m.mandates)

  -- In a well-formed state, the number that `reconcile` returns is the number of active mandates
  -- that it takes away.
  reconcile-active_count :
      Accounted bpf Receipt m
      → active_count (reconcile bpf Receipt now_ns m).0.mandates
          + (reconcile bpf Receipt now_ns m).1
        ≡ active_count m.mandates
  reconcile-active_count a =
      rw (reconcile_mandates a.distinct) (elim (reconcile_cases bpf Receipt now_ns m) [
        | inl (same, nothing) ↦ ground (arith, active_count-expire_each now_ns m.mandates)
        | inr e ↦ ground (arith, active_count-expire_each now_ns m.mandates)
      ])

  -- In a well-formed state, a mandate that is active after `reconcile` has its deadline ahead.
  reconcile-deadline :
      (id : String) (r : MandateRecord Receipt)
      → Accounted bpf Receipt m
      → lookup id (reconcile bpf Receipt now_ns m).0.mandates ≡ some r
      → is_active r.status ≡ true
      → now_ns < r.value.expires_ns
  reconcile-deadline id r a found live = elim (Option-cases (lookup id m.mandates)) [
    | inl missing ↦ absurd (ground (arith, lookup-reconcile a id))
    | inr (s, there) ↦ elim (Bool-cases (is_active s.status && leb s.value.expires_ns now_ns)) [
      | inl late ↦ absurd (ground (arith, lookup-reconcile a id))
      | inr early ↦ ground (arith, lookup-reconcile a id)
    ]
  ]

-- ===== src/Mandate/Removal.antt =====
-- What is left of MANDATE_MAP after the removals of `revoke` and `reconcile` (cognitod/src/mandate.rs).
use mathlib.Core.Path.{subst}
use linnix.Prelude.{
  ℕ, ◌≡◌, refl, Bool, true, false, none, some, String, if◌then◌else◌, arith, Bool-cases,
  Option-cases, ap, sym, ◌∙◌, ◌⊎◌, inl, inr, List, [], ◌∷◌, List-cases,
}
use linnix.Prelude.Keys.{◌==◌, string_eq, nat_eq, ==_refl, ==→eq}
use linnix.Prelude.Assoc.{Assoc, lookup}
use linnix.Protocol.{MandateKey, key_eq}
use linnix.BpfMap.{BpfHash}
use linnix.Mandate.Types.{MandateRecord}
use linnix.Mandate.Manager.{MandateManager, map_remove}
use linnix.Mandate.Reconcile.{reconcile, due, is_due, remove_keys}
use linnix.Mandate.Accounting.{reconcile_cases}

module _ (bpf : BpfHash) where
  open bpf use {Map, get}

  module _ (Receipt : Type 0) where
    unfoldable pub removed : MandateKey → Map → Map
    removed key kernel_map = elim (bpf.remove kernel_map key) [
      | none ↦ kernel_map
      | some changed ↦ changed
    ]

    -- A removal of the key that fails finds no entry: the failure is ENOENT.
    abbrev OnlyMissing : MandateKey → Map → Type 0
    OnlyMissing key kernel_map = bpf.remove kernel_map key ≡ none → get kernel_map key ≡ none

    get-removed :
        (key j : MandateKey) (kernel_map : Map)
        → OnlyMissing key kernel_map
        → get (removed key kernel_map) j ≡ (if key == j then none else get kernel_map j)
    unfolding removed
    get-removed key j kernel_map only = elim (Option-cases (bpf.remove kernel_map key)) [
      | inl missing ↦ elim (Bool-cases (key == j)) [
        | inl same ↦
            rw (removed, missing, same)
              (ap (get kernel_map) (sym (==→eq key j same)) ∙ only missing)
        | inr apart ↦ rw (removed, missing, apart) refl
      ]
      | inr (changed, done) ↦ rw (removed, done) (bpf.get-remove kernel_map key changed done j)
    ]

    removed_all : List (String × MandateKey × ℕ) → Map → Map
    removed_all [] kernel_map = kernel_map
    removed_all (d ∷ ds) kernel_map = removed_all ds (removed d.1 kernel_map)

    -- The removals of the due keys, in their order, fail at most on keys that are not there.
    unfoldable pub FailOnlyMissing : List (String × MandateKey × ℕ) → Map → Type 0
    FailOnlyMissing [] kernel_map = Unit
    FailOnlyMissing (d ∷ ds) kernel_map =
        OnlyMissing d.1 kernel_map × FailOnlyMissing ds (removed d.1 kernel_map)

    remove_keys-removed_all :
        (ds : List (String × MandateKey × ℕ)) (kernel_map : Map)
        → remove_keys bpf Receipt ds (some kernel_map) ≡ some (removed_all ds kernel_map)
    unfolding removed removed_all
    remove_keys-removed_all [] kernel_map = refl
    remove_keys-removed_all (d ∷ ds) kernel_map =
        remove_keys-removed_all ds (removed d.1 kernel_map)

    -- What is not in the map is not there after removals, nor is any key that they name.
    get-removed_all :
        (ds : List (String × MandateKey × ℕ)) (j : MandateKey) (kernel_map : Map)
        → FailOnlyMissing ds kernel_map
        → get kernel_map j ≡ none
        → get (removed_all ds kernel_map) j ≡ none
    unfolding removed_all FailOnlyMissing
    get-removed_all [] j kernel_map only missing = missing
    get-removed_all (d ∷ ds) j kernel_map only missing =
        get-removed_all ds j (removed d.1 kernel_map) only.1 (
          get-removed d.1 j kernel_map only.0
          ∙ elim (Bool-cases (d.1 == j)) [ inl same ↦ rw same refl | inr apart ↦ rw apart missing ])

    FailOnlyMissing-due :
        (now_ns : ℕ) (id : String) (r : MandateRecord Receipt)
        (rest : Assoc String (MandateRecord Receipt)) (kernel_map : Map)
        → FailOnlyMissing (due now_ns ((id, r) ∷ rest)) kernel_map
        → (late : Bool) → is_due now_ns r ≡ late
        → FailOnlyMissing
            (if late then (id, r.key, r.value.mandate_seq) ∷ due now_ns rest else due now_ns rest)
            kernel_map
    FailOnlyMissing-due now_ns id r rest kernel_map only late e =
        subst
          (λ (b : Bool).
            FailOnlyMissing
              (if b then (id, r.key, r.value.mandate_seq) ∷ due now_ns rest else due now_ns rest)
              kernel_map)
          e only

    get-removed_due :
        (now_ns : ℕ) (mandates : Assoc String (MandateRecord Receipt)) (id : String)
        (r : MandateRecord Receipt) (kernel_map : Map)
        → lookup id mandates ≡ some r
        → is_due now_ns r ≡ true
        → FailOnlyMissing (due now_ns mandates) kernel_map
        → get (removed_all (due now_ns mandates) kernel_map) r.key ≡ none
    unfolding lookup removed_all FailOnlyMissing
    get-removed_due now_ns [] id r kernel_map found late only = absurd (ground arith)
    get-removed_due now_ns ((j, s) ∷ rest) id r kernel_map found late only =
        let of_due = FailOnlyMissing-due now_ns j s rest kernel_map only in
        elim (Bool-cases (j == id)) [
          | inl here ↦
              let same : s ≡ r = ground arith in
              let now_due : is_due now_ns s ≡ true = ap (is_due now_ns) same ∙ late in
              let steps = of_due true now_due in
              rw (ap (is_due now_ns) same ∙ late, if◌then◌else◌, removed_all)
                (get-removed_all (due now_ns rest) r.key (removed s.key kernel_map) steps.1 (
                  get-removed s.key r.key kernel_map steps.0
                  ∙ rw (ap (λ t. t.key == r.key) same ∙ ==_refl r.key) refl))
          | inr further ↦ elim (Bool-cases (is_due now_ns s)) [
            | inl due_too ↦
                rw (due_too, if◌then◌else◌, removed_all)
                  (get-removed_due now_ns rest id r (removed s.key kernel_map) (ground arith) late
                    (of_due true due_too).1)
            | inr other ↦
                rw (other, if◌then◌else◌)
                  (get-removed_due now_ns rest id r kernel_map (ground arith) late
                    (of_due false other))
          ]
        ]

    -- A removal that fails leaves the map as it was.
    pub map_remove_cases :
        (key : MandateKey) (kernel_map left : Map)
        → map_remove bpf Receipt key (some kernel_map) ≡ some left
        → (get left key ≡ none) ⊎ ((bpf.remove kernel_map key ≡ none) × (left ≡ kernel_map))
    map_remove_cases key kernel_map left h = elim (Option-cases (bpf.remove kernel_map key)) [
      | inl failed ↦ inr (failed, ground (arith, h, failed))
      | inr (changed, done) ↦
          let e : changed ≡ left = ground (arith, h, done) in
          inl (
            ap (λ t. get t key) (sym e)
            ∙ bpf.get-remove kernel_map key changed done key
            ∙ rw (==_refl key) refl)
    ]

    pub remove_keys-missing :
        (now_ns : ℕ) (mandates : Assoc String (MandateRecord Receipt)) (id : String)
        (r : MandateRecord Receipt) (kernel_map left : Map)
        → remove_keys bpf Receipt (due now_ns mandates) (some kernel_map) ≡ some left
        → lookup id mandates ≡ some r
        → is_due now_ns r ≡ true
        → FailOnlyMissing (due now_ns mandates) kernel_map
        → get left r.key ≡ none
    remove_keys-missing now_ns mandates id r kernel_map left h found late only =
        let e : removed_all (due now_ns mandates) kernel_map ≡ left =
          ground (arith, remove_keys-removed_all (due now_ns mandates) kernel_map) in
        ap (λ t. get t r.key) (sym e)
        ∙ get-removed_due now_ns mandates id r kernel_map found late only

    pub reconcile-map :
        (now_ns : ℕ) (m : MandateManager bpf Receipt)
        → (reconcile bpf Receipt now_ns m).0.bpf_mandate_map
          ≡ remove_keys bpf Receipt (due now_ns m.mandates) m.bpf_mandate_map
    reconcile-map now_ns m = elim (reconcile_cases bpf Receipt now_ns m) [
      | inl (same, nothing) ↦ elim (List-cases (due now_ns m.mandates)) [
        | inl empty ↦ rw (same, empty) refl
        | inr (d, ds, e) ↦ absurd (ground arith)
      ]
      | inr e ↦ rw e refl
    ]

-- ===== src/Mandate/Counts.antt =====
-- Counting the active mandates of an association list, and the keys that stand in it once.
use linnix.Prelude.{
  ℕ, ◌+◌, ◌≡◌, refl, Bool, true, false, Option, none, some, [], ◌∷◌, String, if◌then◌else◌, length,
  arith, Bool-cases, Option-cases, ap, sym, ◌∙◌, inl, inr,
}
use linnix.Prelude.Keys.{◌==◌, string_eq, ==_refl, ==→eq, ==_sym_false}
use linnix.Prelude.Assoc.{Assoc, lookup, insert, lookup-insert}
use linnix.Mandate.Types.{is_active, MandateRecord}
use linnix.Mandate.Queries.{map_option}
use linnix.Mandate.Reconcile.{is_due, due, expire, expire_at, expire_all}

-- 1 for true.
abbrev pub bit : Bool → ℕ
bit true = 1
bit false = 0

abbrev pub Records : Type 0 → Type 0
Records Receipt = Assoc String (MandateRecord Receipt)

module _ {Receipt : Type 0} where
  unfoldable pub active_count : Records Receipt → ℕ
  active_count [] = 0
  active_count ((id, r) ∷ rest) = bit (is_active r.status) + active_count rest

  -- 1 when the mandate `id` is there and active.
  abbrev pub active_at : Option (MandateRecord Receipt) → ℕ
  active_at none = 0
  active_at (some r) = bit (is_active r.status)

  pub active_count-insert :
      (id : String) (r : MandateRecord Receipt) (m : Records Receipt)
      → active_count (insert id r m) + active_at (lookup id m)
        ≡ active_count m + bit (is_active r.status)
  unfolding active_count insert lookup
  active_count-insert id r [] = omega arith
  active_count-insert id r ((j, s) ∷ m) = elim (Bool-cases (j == id)) [
    | inl same ↦ ground arith
    | inr other ↦ ground (arith, active_count-insert id r m)
  ]

  -- No key stands in the list twice.
  abbrev pub Distinct : Records Receipt → Type 0
  Distinct [] = Unit
  Distinct ((id, r) ∷ m) = (lookup id m ≡ none) × Distinct m

  pub insert-Distinct :
      (id : String) (r : MandateRecord Receipt) (m : Records Receipt)
      → Distinct m
      → Distinct (insert id r m)
  unfolding insert lookup
  insert-Distinct id r [] d = (refl, tt)
  insert-Distinct id r ((j, s) ∷ m) d = elim (Bool-cases (j == id)) [
    | inl same ↦ rw same (rw (sym (==→eq j id same)) d.0, d.1)
    | inr other ↦
        rw other
          (rw (lookup-insert id j r m, ==_sym_false j id other) d.0, insert-Distinct id r m d.1)
  ]

  -- What `reconcile` makes of a record.
  abbrev pub expire_due : ℕ → MandateRecord Receipt → MandateRecord Receipt
  expire_due now_ns r = if is_due now_ns r then expire r else r

  abbrev pub expire_each : ℕ → Records Receipt → Records Receipt
  expire_each now_ns [] = []
  expire_each now_ns ((id, r) ∷ m) = (id, expire_due now_ns r) ∷ expire_each now_ns m

  pub lookup-expire_each :
      (now_ns : ℕ) (id : String) (m : Records Receipt)
      → lookup id (expire_each now_ns m) ≡ map_option (expire_due now_ns) (lookup id m)
  unfolding lookup
  lookup-expire_each now_ns id [] = refl
  lookup-expire_each now_ns id ((j, r) ∷ m) = ground (arith, lookup-expire_each now_ns id m)

  lookup_cons_none :
      (id j : String) (s : MandateRecord Receipt) (m : Records Receipt)
      → lookup id ((j, s) ∷ m) ≡ none
      → ((j == id) ≡ false) × (lookup id m ≡ none)
  unfolding lookup
  lookup_cons_none id j s m free = ground arith

  expire_at_other :
      (id j : String) (r : MandateRecord Receipt) (m : Records Receipt)
      → (j == id) ≡ false
      → expire_at j ((id, r) ∷ m) ≡ (id, r) ∷ expire_at j m
  unfolding lookup insert
  expire_at_other id j r m ne = elim (Option-cases (lookup j m)) [
    | inl missing ↦ ground (arith, ==_sym_false j id ne, missing)
    | inr (s, found) ↦ ground (arith, ==_sym_false j id ne, found)
  ]

  expire_at_here :
      (id : String) (r : MandateRecord Receipt) (m : Records Receipt)
      → expire_at id ((id, r) ∷ m) ≡ (id, expire r) ∷ m
  unfolding lookup insert
  expire_at_here id r m = ground (arith, ==_refl id)

  -- The due mandates of `part` leave a record alone whose key `part` does not have.
  expire_all_skip :
      (now_ns : ℕ) (id : String) (r : MandateRecord Receipt) (part base : Records Receipt)
      → lookup id part ≡ none
      → expire_all (due now_ns part) ((id, r) ∷ base) ≡ (id, r) ∷ expire_all (due now_ns part) base
  unfolding lookup insert
  expire_all_skip now_ns id r [] base free = refl
  expire_all_skip now_ns id r ((j, s) ∷ part) base free =
      let h = lookup_cons_none id j s part free in
      elim (Bool-cases (is_due now_ns s)) [
        | inl late ↦
            rw (late, if◌then◌else◌, expire_all, expire_at_other id j r base h.0)
              (expire_all_skip now_ns id r part (expire_at j base) h.1)
        | inr other ↦ rw other (expire_all_skip now_ns id r part base h.1)
      ]

  pub expire_all-due :
      (now_ns : ℕ) (m : Records Receipt)
      → Distinct m
      → expire_all (due now_ns m) m ≡ expire_each now_ns m
  unfolding lookup insert
  expire_all-due now_ns [] d = refl
  expire_all-due now_ns ((id, r) ∷ m) d = elim (Bool-cases (is_due now_ns r)) [
    | inl late ↦
        rw
          (
            late,
            if◌then◌else◌,
            expire_all,
            expire_at_here id r m,
            expire_all_skip now_ns id (expire r) m m d.0,
          )
          (ap (λ t. (id, expire r) ∷ t) (expire_all-due now_ns m d.1))
    | inr other ↦
        rw (other, expire_all_skip now_ns id r m m d.0)
          (ap (λ t. (id, r) ∷ t) (expire_all-due now_ns m d.1))
  ]

  pub active_count-expire_each :
      (now_ns : ℕ) (m : Records Receipt)
      → active_count (expire_each now_ns m) + length (due now_ns m) ≡ active_count m
  unfolding active_count
  active_count-expire_each now_ns [] = refl
  active_count-expire_each now_ns ((id, r) ∷ m) = elim (Bool-cases (is_due now_ns r)) [
    | inl late ↦ ground (arith, active_count-expire_each now_ns m)
    | inr other ↦ ground (arith, active_count-expire_each now_ns m)
  ]

  pub expire_each-Distinct :
      (now_ns : ℕ) (m : Records Receipt) → Distinct m → Distinct (expire_each now_ns m)
  expire_each-Distinct now_ns [] d = tt
  expire_each-Distinct now_ns ((id, r) ∷ m) d = (
    lookup-expire_each now_ns id m ∙ ap (map_option (expire_due now_ns)) d.0,
    expire_each-Distinct now_ns m d.1,
  )

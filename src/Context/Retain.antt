-- ===== src/Context/Retain.antt =====
-- cognitod/src/context.rs: `retain` on a map in which no key stands twice.
use linnix.Prelude.{
  ℕ, ◌≡◌, refl, sym, ◌∙◌, ap, inl, inr, Bool, Bool-cases, Option, none, some, [], ◌∷◌,
  if◌then◌else◌, arith,
}
use linnix.Prelude.Keys.{◌==◌, nat_eq, ==→eq, ==_sym_false}
use linnix.Prelude.Assoc.{Assoc, lookup, insert, lookup-insert}
use linnix.Context.{ProcessEntry, retain}

abbrev pub Unique : Assoc ℕ ProcessEntry → Type 0
Unique [] = Unit
Unique ((pid, entry) ∷ rest) = (lookup pid rest ≡ none) × Unique rest

abbrev pub kept_if : (ProcessEntry → Bool) → Option ProcessEntry → Option ProcessEntry
kept_if p none = none
kept_if p (some entry) = if p entry then some entry else none

module _ (p : ProcessEntry → Bool) where
  pub lookup-retain :
      (wanted : ℕ) (live : Assoc ℕ ProcessEntry)
      → Unique live
      → lookup wanted (retain p live) ≡ kept_if p (lookup wanted live)
  unfolding lookup retain
  lookup-retain wanted [] unique = refl
  lookup-retain wanted ((pid, entry) ∷ rest) unique = elim (Bool-cases (pid == wanted)) [
    | inl e ↦
        let gone : lookup wanted rest ≡ none =
          ap (λ k. lookup k rest) (sym (==→eq pid wanted e)) ∙ unique.0 in
        ground (arith, lookup-retain wanted rest unique.1, gone, e)
    | inr e ↦ ground (arith, lookup-retain wanted rest unique.1, e)
  ]

  pub retain-Unique : (live : Assoc ℕ ProcessEntry) → Unique live → Unique (retain p live)
  unfolding retain
  retain-Unique [] unique = tt
  retain-Unique ((pid, entry) ∷ rest) unique = elim (Bool-cases (p entry)) [
    | inl e ↦
        rw e
          (lookup-retain pid rest unique.1 ∙ ap (kept_if p) unique.0, retain-Unique rest unique.1)
    | inr e ↦ rw e (retain-Unique rest unique.1)
  ]

pub insert-Unique :
    (pid : ℕ) (entry : ProcessEntry) (live : Assoc ℕ ProcessEntry)
    → Unique live
    → Unique (insert pid entry live)
unfolding insert lookup
insert-Unique pid entry [] unique = (refl, tt)
insert-Unique pid entry ((other, old) ∷ rest) unique = elim (Bool-cases (other == pid)) [
  | inl e ↦ rw e (ap (λ k. lookup k rest) (sym (==→eq other pid e)) ∙ unique.0, unique.1)
  | inr e ↦ rw e (
    rw (lookup-insert pid other entry rest, ==_sym_false other pid e) unique.0,
    insert-Unique pid entry rest unique.1,
  )
]

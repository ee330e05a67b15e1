-- ===== src/Prelude/Assoc.antt =====
-- `HashMap` as an association list. Iteration order is the list's; the code never relies on it.
use mathlib.Core.Path.{◌≡◌, refl}
use mathlib.Core.Option.{Option, none, some}
use mathlib.Core.List.{List, [], ◌∷◌}
use native.Mathlib.Omega.{arith}
use linnix.Prelude.Tests.{if◌then◌else◌}
use linnix.Prelude.Keys.{Eq, ◌==◌}

abbrev pub Assoc {ℓ} : Type ℓ → Type ℓ → Type ℓ
Assoc K V = List (K × V)

module _ {ℓ} {K V : Type ℓ} ⦃e : Eq K⦄ where
  unfoldable pub lookup : K → Assoc K V → Option V
  lookup key [] = none
  lookup key ((other, value) ∷ rest) = if other == key then some value else lookup key rest

  -- `insert`: replaces the value of a key that is there.
  unfoldable pub insert : K → V → Assoc K V → Assoc K V
  insert key value [] = (key, value) ∷ []
  insert key value ((other, old) ∷ rest) =
      if other == key then (key, value) ∷ rest else (other, old) ∷ insert key value rest

  -- `remove`
  unfoldable pub erase : K → Assoc K V → Assoc K V
  erase key [] = []
  erase key ((other, old) ∷ rest) =
      if other == key then erase key rest else (other, old) ∷ erase key rest

  pub lookup-insert :
      (key wanted : K) (value : V) (entries : Assoc K V)
      → lookup wanted (insert key value entries)
        ≡ (if key == wanted then some value else lookup wanted entries)
  unfolding lookup insert
  lookup-insert key wanted value [] = refl
  lookup-insert key wanted value ((other, old) ∷ rest) = ground (
    arith,
    lookup-insert key wanted value rest,
    e.equals_iff other wanted,
    e.equals_iff other key,
    e.equals_iff key wanted,
  )

  pub lookup-erase :
      (key wanted : K) (entries : Assoc K V)
      → lookup wanted (erase key entries) ≡ (if key == wanted then none else lookup wanted entries)
  unfolding lookup erase
  lookup-erase key wanted [] = ground arith
  lookup-erase key wanted ((other, old) ∷ rest) = ground (
    arith,
    lookup-erase key wanted rest,
    e.equals_iff other wanted,
    e.equals_iff other key,
    e.equals_iff key wanted,
  )

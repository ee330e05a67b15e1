-- ===== src/Lineage/Queue.antt =====
-- The queue of cognitod/src/runtime/lineage.rs: it has every entry, and its instants rise.
use linnix.Prelude.{
  ℕ, ◌≤◌, ◌≡◌, ◌≢◌, refl, sym, ◌⊎◌, inl, inr, some, [], ◌∷◌, ◌++◌, arith, Bool-cases,
}
use mathlib.Core.Path.{subst}
use linnix.Prelude.Keys.{◌==◌, nat_eq, ==→eq, ==_refl}
use linnix.Prelude.Assoc.{lookup as find, insert, erase, lookup-insert, lookup-erase}
use linnix.Lineage.{Entries, Order}

-- A fork that stands in the queue.
abbrev pub Queued : ℕ → ℕ → Order → Type 0
Queued pid at_time [] = ⊥
Queued pid at_time ((p, t) ∷ rest) = ((p ≡ pid) × (t ≡ at_time)) ⊎ Queued pid at_time rest

abbrev pub Backed : Entries → Order → Type 0
Backed entries order = (pid : ℕ) (e : ℕ × ℕ) → find pid entries ≡ some e → Queued pid e.1 order

-- The instants of the queue rise from `low` to `high`.
abbrev pub Rising : ℕ → ℕ → Order → Type 0
Rising low high [] = low ≤ high
Rising low high ((p, t) ∷ rest) = (low ≤ t) × Rising t high rest

pub Rising-lower :
    (low low' high : ℕ) (order : Order)
    → low' ≤ low
    → Rising low high order
    → Rising low' high order
Rising-lower low low' high [] h r = omega arith
Rising-lower low low' high ((p, t) ∷ rest) h (first, r) = (omega arith, r)

pub Rising-push :
    (low high now pid : ℕ) (order : Order)
    → high ≤ now
    → Rising low high order
    → Rising low now (order ++ ((pid, now) ∷ []))
Rising-push low high now pid [] h r = (omega arith, omega arith)
Rising-push low high now pid ((p, t) ∷ rest) h (first, r) =
    (first, Rising-push t high now pid rest h r)

pub Rising-higher :
    (low high high' : ℕ) (order : Order)
    → high ≤ high'
    → Rising low high order
    → Rising low high' order
Rising-higher low high high' [] h r = omega arith
Rising-higher low high high' ((p, t) ∷ rest) h (first, r) =
    (first, Rising-higher t high high' rest h r)

pub Queued-Rising :
    (low high pid at_time : ℕ) (order : Order)
    → Rising low high order
    → Queued pid at_time order
    → low ≤ at_time
Queued-Rising low high pid at_time [] r q = elim q [ ]
Queued-Rising low high pid at_time ((p, t) ∷ rest) (first, r) (inl (same, now)) = omega arith
Queued-Rising low high pid at_time ((p, t) ∷ rest) (first, r) (inr later) =
    let after = Queued-Rising t high pid at_time rest r later in omega arith

pub Queued-front :
    (pid at_time : ℕ) (order : Order) (x : ℕ × ℕ)
    → Queued pid at_time order
    → Queued pid at_time (order ++ (x ∷ []))
Queued-front pid at_time [] x q = elim q [ ]
Queued-front pid at_time ((p, t) ∷ rest) x (inl here) = inl here
Queued-front pid at_time ((p, t) ∷ rest) x (inr later) = inr (Queued-front pid at_time rest x later)

pub Queued-last :
    (pid at_time : ℕ) (order : Order) → Queued pid at_time (order ++ ((pid, at_time) ∷ []))
Queued-last pid at_time [] = inl (refl, refl)
Queued-last pid at_time ((p, t) ∷ rest) = inr (Queued-last pid at_time rest)

pub Backed-nothing : (entries : Entries) → Backed entries [] → entries ≡ []
unfolding find
Backed-nothing [] backed = refl
Backed-nothing ((pid, e) ∷ rest) backed = elim (backed pid e (rw (==_refl pid) refl)) [ ]

-- A queue element whose entry is missing or newer is not needed.
pub Backed-superseded :
    (pid recorded_at : ℕ) (entries : Entries) (rest : Order)
    → ((e : ℕ × ℕ) → find pid entries ≡ some e → e.1 ≢ recorded_at)
    → Backed entries ((pid, recorded_at) ∷ rest)
    → Backed entries rest
Backed-superseded pid recorded_at entries rest other backed q e found = elim (backed q e found) [
  | inl (same, at_time) ↦
      absurd (other e (subst (λ (p : ℕ). find p entries ≡ some e) (sym same) found) (sym at_time))
  | inr later ↦ later
]

pub Backed-erased :
    (pid recorded_at : ℕ) (entries : Entries) (rest : Order)
    → Backed entries ((pid, recorded_at) ∷ rest)
    → Backed (erase pid entries) rest
Backed-erased pid recorded_at entries rest backed q e found = elim (Bool-cases (pid == q)) [
  | inl same ↦ absurd (ground (arith, lookup-erase pid q entries))
  | inr apart ↦ elim (backed q e (ground (arith, lookup-erase pid q entries))) [
    | inl (same, at_time) ↦ absurd (ground (arith, ==_refl q))
    | inr later ↦ later
  ]
]

pub Backed-push :
    (now child parent : ℕ) (entries : Entries) (order : Order)
    → Backed entries order
    → Backed (insert child (parent, now) entries) (order ++ ((child, now) ∷ []))
Backed-push now child parent entries order backed q e found = elim (Bool-cases (child == q)) [
  | inl same ↦
      let is_q : child ≡ q = ==→eq child q same in
      let is_e : (parent, now) ≡ e = ground (arith, lookup-insert child q (parent, now) entries) in
      subst (λ (p : ℕ). Queued p e.1 (order ++ ((child, now) ∷ []))) is_q
        (subst (λ (x : ℕ × ℕ). Queued child x.1 (order ++ ((child, now) ∷ []))) is_e
          (Queued-last child now order))
  | inr apart ↦
      Queued-front q e.1 order (child, now)
        (backed q e (ground (arith, lookup-insert child q (parent, now) entries)))
]

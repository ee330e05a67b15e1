-- ===== src/Lineage/Memory.antt =====
-- What the cache of cognitod/src/runtime/lineage.rs remembers: a fork is found again while it is young.
use linnix.Prelude.{
  ℕ, ◌-◌, ◌≤◌, ◌<◌, ◌≡◌, refl, sym, ap, ◌∙◌, inl, inr, false, none, some, [], ◌∷◌, ◌++◌, length,
  arith, Bool-cases,
}
use mathlib.Core.Path.{subst}
use linnix.Prelude.Keys.{◌==◌, nat_eq, ==→eq, ==_refl}
use linnix.Prelude.Assoc.{lookup as find, insert, erase, lookup-insert, lookup-erase}
use linnix.Lineage.{
  Entries, Order, LineageInner, LineageCache, keep, drop_both, judge_front, purge_front, purge,
  push_fork, record_fork, parent_of, lookup,
}
use linnix.Lineage.Queue.{Queued, Backed, Rising, Backed-superseded, Backed-erased}
use linnix.Lineage.Age.{
  Sound, Used, fresh, forked, looked, Used-Kept, push_fork-Sound, purge_eq, judge_front_cases,
}

-- No key stands twice.
abbrev Distinct : Entries → Type 0
Distinct [] = Unit
Distinct ((pid, e) ∷ rest) = (find pid rest ≡ none) × Distinct rest

erase-Distinct : (pid : ℕ) (entries : Entries) → Distinct entries → Distinct (erase pid entries)
unfolding erase
erase-Distinct pid [] distinct = tt
erase-Distinct pid ((other, e) ∷ rest) (alone, distinct) = elim (Bool-cases (other == pid)) [
  | inl same ↦ rw same (erase-Distinct pid rest distinct)
  | inr apart ↦
      rw apart (ground (arith, lookup-erase pid other rest), erase-Distinct pid rest distinct)
]

insert-Distinct :
    (pid : ℕ) (e : ℕ × ℕ) (entries : Entries) → Distinct entries → Distinct (insert pid e entries)
unfolding insert find
insert-Distinct pid e [] distinct = (refl, tt)
insert-Distinct pid e ((other, old) ∷ rest) (alone, distinct) = elim (Bool-cases (other == pid)) [
  | inl same ↦
      rw same (subst (λ (p : ℕ). find p rest ≡ none) (==→eq other pid same) alone, distinct)
  | inr apart ↦ rw apart (
    ground (arith, lookup-insert pid other e rest, ==→eq pid other, ==_refl pid),
    insert-Distinct pid e rest distinct,
  )
]

Queued-alone : (child now pid at_time : ℕ) → Queued pid at_time ((child, now) ∷ []) → child ≡ pid
Queued-alone child now pid at_time (inl (same, t)) = same
Queued-alone child now pid at_time (inr later) = elim later [ ]

-- Entries that one queue element backs are at most one.
one_entry :
    (child now : ℕ) (entries : Entries)
    → Backed entries ((child, now) ∷ [])
    → Distinct entries
    → length entries ≤ 1
unfolding find
one_entry child now [] backed distinct = omega arith
one_entry child now ((k, e) ∷ []) backed distinct = omega arith
one_entry child now ((k, e) ∷ (j, f) ∷ rest) backed (alone, distinct) = elim (Bool-cases (k == j)) [
  | inl same ↦ absurd (ground (arith, ==→eq k j same, ==_refl j))
  | inr apart ↦
      let is_k = Queued-alone child now k e.1 (backed k e (rw (==_refl k) refl)) in
      let is_j = Queued-alone child now j f.1 (backed j f (rw (apart, ==_refl j) refl)) in
      absurd (ground (arith, ==_refl k, is_k, is_j))
]

-- The queue ends with a fork that is newer than all others.
abbrev Newest : ℕ → ℕ → Order → Type 0
Newest child now [] = ⊥
Newest child now ((p, t) ∷ []) = (p ≡ child) × (t ≡ now)
Newest child now ((p, t) ∷ next ∷ rest) = (t < now) × Newest child now (next ∷ rest)

Newest-push :
    (low high child now : ℕ) (order : Order)
    → high < now
    → Rising low high order
    → Newest child now (order ++ ((child, now) ∷ []))
Newest-push low high child now [] h r = (refl, refl)
Newest-push low high child now ((p, t) ∷ []) h (first, r) = (omega arith, (refl, refl))
Newest-push low high child now ((p, t) ∷ (q, u) ∷ rest) h (first, (second, r)) = (
  Rising-below t u high now rest h second r,
  Newest-push t high child now ((q, u) ∷ rest) h (second, r),
)
  where
    Rising-top : (low high : ℕ) (order : Order) → Rising low high order → low ≤ high
    Rising-top low high [] r = r
    Rising-top low high ((p, t) ∷ rest) (first, r) =
        let later = Rising-top t high rest r in omega arith

    Rising-below :
        (t u high now : ℕ) (rest : Order) → high < now → t ≤ u → Rising u high rest → t < now
    Rising-below t u high now rest h second r = let top = Rising-top u high rest r in omega arith

-- A cache that remembers a fork, its newest.
abbrev Remembers : ℕ → ℕ → ℕ → LineageInner → Type 0
Remembers child parent now inner =
    Backed inner.entries inner.order
    × Distinct inner.entries
    × Newest child now inner.order
    × (find child inner.entries ≡ some (parent, now))

-- The front is older than the fork: the purge does not take the fork's entry for it.
front_of_other :
    (child parent now now' ttl capacity pid recorded_at : ℕ) (entries : Entries)
    → recorded_at < now
    → find child entries ≡ some (parent, now)
    → judge_front now' ttl capacity entries recorded_at (find pid entries) ≡ drop_both
    → (pid == child) ≡ false
unfolding judge_front
front_of_other child parent now now' ttl capacity pid recorded_at entries older found both =
    elim (Bool-cases (pid == child)) [
      | inr apart ↦ apart
      | inl same ↦
          let is_child : pid ≡ child = ==→eq pid child same in
          let judged =
            subst
              (λ (p : ℕ).
                judge_front now' ttl capacity entries recorded_at (find p entries) ≡ drop_both)
              is_child both in
          absurd (ground (arith, judged, found))
    ]

judge_front-last :
    (child parent now now' ttl capacity pid recorded_at : ℕ) (entries : Entries)
    → pid ≡ child
    → recorded_at ≡ now
    → find child entries ≡ some (parent, now)
    → now' - now ≤ ttl
    → length entries ≤ capacity
    → judge_front now' ttl capacity entries recorded_at (find pid entries) ≡ keep
unfolding judge_front
judge_front-last child parent now now' ttl capacity pid recorded_at entries is_child is_now found
      young room =
    subst (λ (p : ℕ). judge_front now' ttl capacity entries recorded_at (find p entries) ≡ keep)
      (sym is_child) (ground (arith, found, ==_refl now))

purge_front-Remembers :
    (child parent now now' ttl capacity : ℕ) (entries : Entries) (order : Order)
    → now' - now ≤ ttl
    → 1 ≤ capacity
    → Remembers child parent now (record { entries = entries; order = order })
    → Remembers child parent now (purge_front now' ttl capacity entries order)
unfolding purge_front
purge_front-Remembers child parent now now' ttl capacity entries [] young room
      (backed, distinct, newest, found) =
    elim newest [ ]
purge_front-Remembers child parent now now' ttl capacity entries ((pid, recorded_at) ∷ []) young
      room (backed, distinct, (is_child, is_now), found) =
    let few = one_entry pid recorded_at entries backed distinct in
    let kept =
      judge_front-last child parent now now' ttl capacity pid recorded_at entries is_child is_now
        found young (omega (arith, few)) in
    rw (purge_front, kept) (backed, distinct, (is_child, is_now), found)
purge_front-Remembers child parent now now' ttl capacity entries ((pid, recorded_at) ∷ next ∷ rest)
      young room (backed, distinct, (older, newest), found) =
    elim (judge_front_cases now' ttl capacity entries recorded_at (find pid entries)) [
      | inl (kept, not_old, few) ↦ rw (purge_front, kept) (backed, distinct, (older, newest), found)
      | inr (inl both) ↦
          let apart =
            front_of_other child parent now now' ttl capacity pid recorded_at entries older found
              both in
          rw (purge_front, both)
            (purge_front-Remembers child parent now now' ttl capacity (erase pid entries)
              (next ∷ rest) young room
              (
                Backed-erased pid recorded_at entries (next ∷ rest) backed,
                erase-Distinct pid entries distinct,
                newest,
                lookup-erase pid child entries ∙ rw apart found,
              ))
      | inr (inr (queued, other)) ↦
          rw (purge_front, queued)
            (purge_front-Remembers child parent now now' ttl capacity entries (next ∷ rest) young
              room
              (
                Backed-superseded pid recorded_at entries (next ∷ rest) other backed,
                distinct,
                newest,
                found,
              ))
    ]

purge_front-Distinct :
    (now ttl capacity : ℕ) (entries : Entries) (order : Order)
    → Distinct entries
    → Distinct (purge_front now ttl capacity entries order).entries
unfolding purge_front
purge_front-Distinct now ttl capacity entries [] distinct = distinct
purge_front-Distinct now ttl capacity entries ((pid, recorded_at) ∷ rest) distinct =
    elim (judge_front_cases now ttl capacity entries recorded_at (find pid entries)) [
      | inl (kept, young, few) ↦ rw (purge_front, kept) distinct
      | inr (inl both) ↦
          rw (purge_front, both)
            (purge_front-Distinct now ttl capacity (erase pid entries) rest
              (erase-Distinct pid entries distinct))
      | inr (inr (queued, other)) ↦
          rw (purge_front, queued) (purge_front-Distinct now ttl capacity entries rest distinct)
    ]

purge-Distinct :
    (high now ttl capacity : ℕ) (inner : LineageInner)
    → Sound high inner
    → Distinct inner.entries
    → Distinct (purge now ttl capacity inner).entries
purge-Distinct high now ttl capacity inner sound distinct =
    subst (λ (i : LineageInner). Distinct i.entries)
      (sym (purge_eq high now ttl capacity inner sound))
      (purge_front-Distinct now ttl capacity inner.entries inner.order distinct)

Used-Distinct :
    (ttl capacity high : ℕ) (c : LineageCache) → Used ttl capacity high c → Distinct c.inner.entries
Used-Distinct ttl capacity high c fresh = tt
Used-Distinct ttl capacity _ _ (forked {high} {c} now child parent later used) =
    let kept = Used-Kept ttl capacity high c used in
    purge-Distinct now now c.ttl c.capacity (push_fork now child parent c.inner)
      (push_fork-Sound high now child parent c.inner later kept.2)
      (insert-Distinct child (parent, now) c.inner.entries (Used-Distinct ttl capacity high c used))
Used-Distinct ttl capacity _ _ (looked {high} {c} now pid later used) =
    let kept = Used-Kept ttl capacity high c used in
    purge-Distinct high now c.ttl c.capacity c.inner kept.2 (Used-Distinct ttl capacity high c used)

purge-Remembers :
    (child parent now now' high ttl capacity : ℕ) (inner : LineageInner)
    → now' - now ≤ ttl
    → 1 ≤ capacity
    → Sound high inner
    → Remembers child parent now inner
    → Remembers child parent now (purge now' ttl capacity inner)
purge-Remembers child parent now now' high ttl capacity inner young room sound remembers =
    subst (Remembers child parent now) (sym (purge_eq high now' ttl capacity inner sound)) (
      purge_front-Remembers child parent now now' ttl capacity inner.entries inner.order young room
        remembers)

-- In a cache for at least one process, after any forks and lookups, a fork that is recorded later than all of
-- them is found by the next lookup of its child, if that comes no more than `ttl` after it.
pub record_fork-lookup :
    (ttl capacity high now later child parent : ℕ) (c : LineageCache)
    → Used ttl capacity high c
    → 1 ≤ capacity
    → high < now
    → later - now ≤ ttl
    → (lookup later child (record_fork now child parent c)).1 ≡ some parent
record_fork-lookup ttl capacity high now later child parent c used room after young =
    let kept = Used-Kept ttl capacity high c used in
    let pushed = push_fork now child parent c.inner in
    let sound = push_fork-Sound high now child parent c.inner (omega arith) kept.2 in
    let there : find child pushed.entries ≡ some (parent, now) =
      lookup-insert child child (parent, now) c.inner.entries ∙ rw (==_refl child) refl in
    let start : Remembers child parent now pushed = (
      sound.0,
      insert-Distinct child (parent, now) c.inner.entries (Used-Distinct ttl capacity high c used),
      Newest-push 0 high child now c.inner.order after kept.2.1,
      there,
    ) in
    let c1 = record_fork now child parent c in
    let first =
      purge-Remembers child parent now now now c.ttl c.capacity pushed (omega (arith, kept.0))
        (omega (arith, kept.1)) sound start in
    let sound1 = (Used-Kept ttl capacity now c1 (forked now child parent (omega arith) used)).2 in
    let second =
      purge-Remembers child parent now later now c.ttl c.capacity c1.inner (omega (arith, kept.0))
        (omega (arith, kept.1)) sound1 first in
    ap parent_of second.3

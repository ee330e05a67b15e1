-- ===== src/Lineage/Age.antt =====
-- The bounds of the cache of cognitod/src/runtime/lineage.rs: how many forks it holds, and how old.
use linnix.Prelude.{
  ℕ, ◌-◌, ◌≤◌, ◌≡◌, ◌≢◌, refl, sym, ap, ◌⊎◌, inl, inr, ◌||◌, Option, none, some, [], ◌∷◌, length,
  ltb, arith, Bool-cases, Option-cases,
}
use mathlib.Core.Path.{subst}
use linnix.Prelude.Keys.{◌==◌, nat_eq, ==_refl}
use linnix.Prelude.Assoc.{lookup as find, erase}
use linnix.Lineage.{
  Entries, Order, LineageInner, LineageCache, new, keep, drop_queued, drop_both, over_capacity,
  judge_front, purge_front, trim, purge, push_fork, record_fork, parent_of, lookup,
}
use linnix.Lineage.Queue.{
  Backed, Rising, Rising-lower, Rising-push, Rising-higher, Queued-Rising, Backed-nothing,
  Backed-superseded, Backed-erased, Backed-push,
}

-- No entry is older than the time to live.
abbrev Young : ℕ → ℕ → Entries → Type 0
Young now ttl entries = (pid : ℕ) (e : ℕ × ℕ) → find pid entries ≡ some e → now - e.1 ≤ ttl

-- What a cache is like between two calls.
abbrev pub Sound : ℕ → LineageInner → Type 0
Sound high inner = Backed inner.entries inner.order × Rising 0 high inner.order

-- What the first loop leaves.
abbrev Bounded : ℕ → ℕ → ℕ → LineageInner → Type 0
Bounded now ttl capacity inner = (length inner.entries ≤ capacity) × Young now ttl inner.entries

Purged : ℕ → ℕ → ℕ → ℕ → ℕ → LineageInner → Type 0
Purged low high now ttl capacity inner =
    Backed inner.entries inner.order × Rising low high inner.order × Bounded now ttl capacity inner

-- How the front of the queue is judged.
pub judge_front_cases :
    (now ttl capacity : ℕ) (entries : Entries) (recorded_at : ℕ) (current : Option (ℕ × ℕ))
    → ((judge_front now ttl capacity entries recorded_at current ≡ keep)
        × (now - recorded_at ≤ ttl)
        × (length entries ≤ capacity))
      ⊎ ((judge_front now ttl capacity entries recorded_at current ≡ drop_both)
          ⊎ ((judge_front now ttl capacity entries recorded_at current ≡ drop_queued)
              × ((e : ℕ × ℕ) → current ≡ some e → e.1 ≢ recorded_at)))
unfolding judge_front
judge_front_cases now ttl capacity entries recorded_at none =
    inr (inr (refl, λ e h. absurd (ground (arith, h))))
judge_front_cases now ttl capacity entries recorded_at (some (parent, current_ts)) =
    elim (Bool-cases (current_ts == recorded_at)) [
      | inl same ↦
          elim (Bool-cases (ltb ttl (now - recorded_at) || over_capacity capacity entries)) [
            | inl leaves ↦ inr (inl (ground arith))
            | inr stays ↦ inl (ground arith, ground arith, ground arith)
          ]
      | inr newer ↦
          inr (inr (ground arith, λ e h at_time. ground (arith, h, at_time, ==_refl recorded_at)))
    ]

purge_front-Purged :
    (low high now ttl capacity : ℕ) (entries : Entries) (order : Order)
    → Backed entries order
    → Rising low high order
    → Purged low high now ttl capacity (purge_front now ttl capacity entries order)
unfolding purge_front Purged
purge_front-Purged low high now ttl capacity entries [] backed rising =
    let empty = Backed-nothing entries backed in
    (backed, rising, (ground (arith, empty), λ pid e found. absurd (elim (backed pid e found) [ ])))
purge_front-Purged low high now ttl capacity entries ((pid, recorded_at) ∷ rest) backed
      (first, rising) =
    let lower = Rising-lower recorded_at low high rest first rising in
    let result = purge_front now ttl capacity in
    elim (judge_front_cases now ttl capacity entries recorded_at (find pid entries)) [
      | inl (kept, young, room) ↦
          rw (purge_front, kept)
            (
              backed,
              (first, rising),
              (
                room,
                λ q e found.
                    let after =
                      Queued-Rising recorded_at high q e.1 ((pid, recorded_at) ∷ rest)
                        (omega arith, rising) (backed q e found) in
                    omega arith,
              ),
            )
      | inr (inl both) ↦
          rw (purge_front, both)
            (purge_front-Purged low high now ttl capacity (erase pid entries) rest
              (Backed-erased pid recorded_at entries rest backed) lower)
      | inr (inr (queued, other)) ↦
          rw (purge_front, queued)
            (purge_front-Purged low high now ttl capacity entries rest
              (Backed-superseded pid recorded_at entries rest other backed) lower)
    ]

-- With few enough entries the second loop does nothing.
pub trim-fits :
    (capacity : ℕ) (entries : Entries) (order : Order)
    → length entries ≤ capacity
    → trim capacity entries order ≡ record { entries = entries; order = order }
unfolding trim
trim-fits capacity entries [] room = refl
trim-fits capacity entries ((pid, recorded_at) ∷ rest) room = ground arith

pub purge_eq :
    (high now ttl capacity : ℕ) (inner : LineageInner)
    → Sound high inner
    → purge now ttl capacity inner ≡ purge_front now ttl capacity inner.entries inner.order
unfolding Purged
purge_eq high now ttl capacity inner (backed, rising) =
    let purged = purge_front now ttl capacity inner.entries inner.order in
    trim-fits capacity purged.entries purged.order
      (purge_front-Purged 0 high now ttl capacity inner.entries inner.order backed rising).2.0

purge-Purged :
    (high now ttl capacity : ℕ) (inner : LineageInner)
    → Sound high inner
    → Purged 0 high now ttl capacity (purge now ttl capacity inner)
purge-Purged high now ttl capacity inner sound =
    subst (Purged 0 high now ttl capacity) (sym (purge_eq high now ttl capacity inner sound))
      (purge_front-Purged 0 high now ttl capacity inner.entries inner.order sound.0 sound.1)

pub push_fork-Sound :
    (high now child parent : ℕ) (inner : LineageInner)
    → high ≤ now
    → Sound high inner
    → Sound now (push_fork now child parent inner)
push_fork-Sound high now child parent inner later (backed, rising) = (
  Backed-push now child parent inner.entries inner.order backed,
  Rising-push 0 high now child inner.order later rising,
)

-- A cache after any calls, the last of them at the instant given, with a clock that does not go back.
pub data Used (ttl capacity : ℕ) : ℕ → LineageCache → Type 0 where
  fresh : Used ttl capacity 0 (new ttl capacity)
  forked :
      {high : ℕ} {c : LineageCache} (now child parent : ℕ)
      → high ≤ now
      → Used ttl capacity high c
      → Used ttl capacity now (record_fork now child parent c)
  looked :
      {high : ℕ} {c : LineageCache} (now pid : ℕ)
      → high ≤ now
      → Used ttl capacity high c
      → Used ttl capacity now (lookup now pid c).0

abbrev pub Kept : ℕ → ℕ → ℕ → LineageCache → Type 0
Kept ttl capacity high c = (c.ttl ≡ ttl) × (c.capacity ≡ capacity) × Sound high c.inner

pub Used-Kept :
    (ttl capacity high : ℕ) (c : LineageCache) → Used ttl capacity high c → Kept ttl capacity high c
unfolding Purged find
Used-Kept ttl capacity high c fresh =
    (refl, refl, ((λ pid e found. absurd (ground (arith, found))), omega arith))
Used-Kept ttl capacity _ _ (forked {high} {c} now child parent later used) =
    let kept = Used-Kept ttl capacity high c used in
    let pushed = push_fork-Sound high now child parent c.inner later kept.2 in
    let facts = purge-Purged now now c.ttl c.capacity (push_fork now child parent c.inner) pushed in
    (kept.0, kept.1, (facts.0, facts.1))
Used-Kept ttl capacity _ _ (looked {high} {c} now pid later used) =
    let kept = Used-Kept ttl capacity high c used in
    let facts = purge-Purged high now c.ttl c.capacity c.inner kept.2 in
    (kept.0, kept.1, (facts.0, Rising-higher 0 high now _ later facts.1))

-- Whatever forks and lookups a cache has seen, with a clock that does not go back: a lookup leaves at most
-- `capacity` entries, and it answers nothing, or the parent of an entry for that child which is in the cache
-- and at most `ttl` old.
pub lookup_bounds :
    (ttl capacity high now pid : ℕ) (c : LineageCache)
    → Used ttl capacity high c
    → high ≤ now
    → let (c', answer) = lookup now pid c in
      (length c'.inner.entries ≤ capacity)
      × ((answer ≡ none)
          ⊎ ((parent : ℕ) × (recorded_at : ℕ) × (answer ≡ some parent)
              × (find pid c'.inner.entries ≡ some (parent, recorded_at))
              × (now - recorded_at ≤ ttl)))
unfolding Purged
lookup_bounds ttl capacity high now pid c used later =
    let kept = Used-Kept ttl capacity high c used in
    let facts = purge-Purged high now c.ttl c.capacity c.inner kept.2 in
    let entries = (purge now c.ttl c.capacity c.inner).entries in
    let room = facts.2.0 in
    (
      omega (arith, room, kept.1),
      elim (Option-cases (find pid entries)) [
        | inl missing ↦ inl (ap parent_of missing)
        | inr ((parent, recorded_at), found) ↦
            let young = facts.2.1 pid (parent, recorded_at) found in
            inr (parent, recorded_at, ap parent_of found, found, omega (arith, young, kept.0))
      ],
    )

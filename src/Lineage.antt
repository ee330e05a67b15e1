-- ===== src/Lineage.antt =====
-- cognitod/src/runtime/lineage.rs: who forked whom, for a time and up to a number of processes.
-- Instants and durations are numbers of one unit; `duration_since` stops at 0. A call reads the clock
-- before it takes the lock, and is one step.
pub mod Queue
pub mod Age
pub mod Memory
mod Tests
use linnix.Prelude.{
  ℕ, ◌+◌, ◌-◌, Bool, true, false, ◌||◌, Option, none, some, List, [], ◌∷◌, ◌++◌, length, ltb,
  if◌then◌else◌,
}
use linnix.Prelude.Keys.{◌==◌, nat_eq}
use linnix.Prelude.Assoc.{Assoc, lookup as find, insert, erase}

-- A parent and the instant of the fork, by child.
abbrev pub Entries : Type 0
Entries = Assoc ℕ (ℕ × ℕ)

-- Children and the instants of their forks, the oldest first.
abbrev pub Order : Type 0
Order = List (ℕ × ℕ)

pub record LineageInner : Type 0 where
  pub entries : Entries
  pub order : Order

pub record LineageCache : Type 0 where
  pub inner : LineageInner
  pub ttl : ℕ
  pub capacity : ℕ

abbrev pub new : ℕ → ℕ → LineageCache
new ttl capacity = record {
  inner = record { entries = []; order = [] };
  ttl = ttl;
  capacity = capacity;
}

-- `DEFAULT_TTL`, in seconds, and `DEFAULT_CAPACITY`.
abbrev pub default : LineageCache
default = new 60 8192

-- What becomes of the front of the queue.
pub data Front : Type 0 where
  keep drop_queued drop_both : Front

abbrev pub over_capacity : ℕ → Entries → Bool
over_capacity capacity entries = ltb capacity (length entries)

-- The `match` of the first loop.
pub judge_front : ℕ → ℕ → ℕ → Entries → ℕ → Option (ℕ × ℕ) → Front
judge_front now ttl capacity entries recorded_at none = drop_queued
judge_front now ttl capacity entries recorded_at (some (parent, current_ts)) =
    if current_ts == recorded_at
    then (if ltb ttl (now - recorded_at) || over_capacity capacity entries then drop_both else keep)
    else drop_queued

-- The first loop: expired and superseded entries, and the oldest while there are too many.
pub purge_front : ℕ → ℕ → ℕ → Entries → Order → LineageInner
purge_front now ttl capacity entries [] = record { entries = entries; order = [] }
purge_front now ttl capacity entries ((pid, recorded_at) ∷ rest) =
    elim (judge_front now ttl capacity entries recorded_at (find pid entries)) [
      | keep ↦ record { entries = entries; order = (pid, recorded_at) ∷ rest }
      | drop_queued ↦ purge_front now ttl capacity entries rest
      | drop_both ↦ purge_front now ttl capacity (erase pid entries) rest
    ]

-- The entry of a queue element is still the one that it was queued for.
abbrev pub is_current : ℕ → Option (ℕ × ℕ) → Bool
is_current recorded_at none = false
is_current recorded_at (some (parent, current_ts)) = current_ts == recorded_at

-- The second loop.
pub trim : ℕ → Entries → Order → LineageInner
trim capacity entries [] = record { entries = entries; order = [] }
trim capacity entries ((pid, recorded_at) ∷ rest) =
    let trimmed = trim capacity (erase pid entries) rest in
    if over_capacity capacity entries
    then (if is_current recorded_at (find pid entries)
        then trimmed
        else record { entries = entries; order = rest })
    else record { entries = entries; order = (pid, recorded_at) ∷ rest }

abbrev pub purge : ℕ → ℕ → ℕ → LineageInner → LineageInner
purge now ttl capacity inner =
    let purged = purge_front now ttl capacity inner.entries inner.order in
    trim capacity purged.entries purged.order

abbrev pub push_fork : ℕ → ℕ → ℕ → LineageInner → LineageInner
push_fork now child parent inner = record {
  entries = insert child (parent, now) inner.entries;
  order = inner.order ++ ((child, now) ∷ []);
}

-- `record_fork` at the instant `now`.
abbrev pub record_fork : ℕ → ℕ → ℕ → LineageCache → LineageCache
record_fork now child parent c = record c {
  inner = purge now c.ttl c.capacity (push_fork now child parent c.inner);
}

abbrev pub parent_of : Option (ℕ × ℕ) → Option ℕ
parent_of none = none
parent_of (some (parent, recorded_at)) = some parent

abbrev pub lookup : ℕ → ℕ → LineageCache → LineageCache × Option ℕ
lookup now pid c =
    let purged = purge now c.ttl c.capacity c.inner in
    (record c { inner = purged }, parent_of (find pid purged.entries))

-- ===== src/Lineage/Tests.antt =====
-- A cache for two forks.
use linnix.Prelude.{ℕ, ◌-◌, ◌≤◌, ◌≡◌, ◌⊎◌, refl, none, some, length, arith}
use linnix.Prelude.Keys.{nat_eq}
use linnix.Prelude.Assoc.{lookup as find, insert, erase}
use linnix.Lineage.{LineageCache, new, judge_front, purge_front, trim, record_fork, lookup}
use linnix.Lineage.Memory.{record_fork-lookup}
use linnix.Lineage.Age.{fresh, forked, lookup_bounds}

abbrev two_forks : LineageCache
two_forks = record_fork 30 12 11 (record_fork 5 11 10 (new 60 2))

lookup_bounds_example :
    (length (lookup 70 11 two_forks).0.inner.entries ≤ 2)
    × (((lookup 70 11 two_forks).1 ≡ none)
        ⊎ ((parent : ℕ) × (recorded_at : ℕ) × ((lookup 70 11 two_forks).1 ≡ some parent)
            × (find 11 (lookup 70 11 two_forks).0.inner.entries ≡ some (parent, recorded_at))
            × (70 - recorded_at ≤ 60)))
lookup_bounds_example =
    lookup_bounds 60 2 30 70 11 two_forks
      (forked 30 12 11 (omega arith) (forked 5 11 10 (omega arith) fresh)) (omega arith)

-- The first fork is 65 old, the second one 40.
expired : (lookup 70 11 two_forks).1 ≡ none
unfolding find insert purge_front trim judge_front erase
expired = refl

remembered : (lookup 70 12 two_forks).1 ≡ some 11
unfolding find insert purge_front trim judge_front erase
remembered = refl

record_fork-lookup_example :
    (lookup 90 12 (record_fork 30 12 11 (record_fork 5 11 10 (new 60 1)))).1 ≡ some 11
record_fork-lookup_example =
    record_fork-lookup 60 1 5 30 90 12 11 (record_fork 5 11 10 (new 60 1))
      (forked 5 11 10 (omega arith) fresh) (omega arith) (omega arith) (omega arith)

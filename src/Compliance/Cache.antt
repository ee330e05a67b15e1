-- ===== src/Compliance/Cache.antt =====
-- cognitod/src/compliance.rs: the cache of screening results.
use linnix.Prelude.{ℕ, ◌+◌, ◌*◌, ◌%◌, Option, none, some, [], ◌∷◌, String, ltb, if◌then◌else◌}
use linnix.Prelude.Keys.{string_eq}
use linnix.Prelude.Assoc.{Assoc, lookup, insert as insert_entry}
use linnix.Prelude.Words.{u64_mod}
use linnix.Compliance.Providers.{ScreeningResult}

pub record CachedScreening : Type 0 where
  pub result : ScreeningResult
  pub expires : ℕ

pub record ScreeningCache : Type 0 where
  pub entries : Assoc String CachedScreening
  pub ttl : ℕ

-- `Duration::from_secs(ttl_hours * 3600)`, in nanoseconds.
abbrev pub new : ℕ → ScreeningCache
new ttl_hours = record { entries = []; ttl = ((ttl_hours * 3600) % u64_mod) * 1000000000 }

unfoldable pub get : ℕ → String → ScreeningCache → Option ScreeningResult
get now key c = elim (lookup key c.entries) [
  | none ↦ none
  | some cached ↦ if ltb now cached.expires then some cached.result else none
]

abbrev pub insert : ℕ → String → ScreeningResult → ScreeningCache → ScreeningCache
insert now key result c = record c {
  entries = insert_entry key (record { result = result; expires = now + c.ttl }) c.entries;
}

abbrev pub retain : ℕ → Assoc String CachedScreening → Assoc String CachedScreening
retain now [] = []
retain now ((key, cached) ∷ rest) =
    let kept = retain now rest in if ltb now cached.expires then (key, cached) ∷ kept else kept

abbrev pub gc : ℕ → ScreeningCache → ScreeningCache
gc now c = record c { entries = retain now c.entries }

-- ===== src/BpfMap.antt =====
-- MANDATE_MAP as the kernel and the daemon use it: the map itself is the kernel's, so its
-- operations are a parameter, with the behaviour that bpf(2) documents for a hash map.
pub mod Listed
use linnix.Prelude.{
  ℕ, ◌≡◌, refl, Option, none, some, List, [], ◌∷◌, if◌then◌else◌, length, ltb, arith,
}
use linnix.Prelude.Keys.{◌==◌}
use linnix.Prelude.Assoc.{Assoc, lookup, insert as put, erase, lookup-insert, lookup-erase}
use linnix.Protocol.{MandateKey, MandateValue, key_eq}

pub record BpfHash : Type 1 where
  pub Map : Type 0
  pub get : Map → MandateKey → Option MandateValue
  -- BPF_ANY: replaces an entry that is there; `none` is an error, such as E2BIG of a full map.
  pub insert : Map → MandateKey → MandateValue → Option Map
  -- `none` is an error, such as ENOENT; the entry may then still be there.
  pub remove : Map → MandateKey → Option Map
  pub get-insert :
      (m : Map) (k : MandateKey) (v : MandateValue) (m' : Map)
      → insert m k v ≡ some m'
      → (j : MandateKey) → get m' j ≡ (if k == j then some v else get m j)
  pub get-remove :
      (m : Map) (k : MandateKey) (m' : Map)
      → remove m k ≡ some m'
      → (j : MandateKey) → get m' j ≡ (if k == j then none else get m j)

-- ===== src/BpfMap/Listed.antt =====
-- A hash map of limited size that behaves as `BpfHash` says, for runs at concrete inputs.
use linnix.Prelude.{
  ◌≡◌, Option, none, some, if◌then◌else◌, length, ltb, arith, Option-cases, Bool-cases, inl, inr,
  ◌∙◌, ap, sym,
}
use linnix.Prelude.Keys.{◌==◌}
use linnix.Prelude.Assoc.{Assoc, lookup, insert as put, erase, lookup-insert, lookup-erase}
use linnix.Protocol.{MandateKey, MandateValue, key_eq, mandate_map_max_entries}
use linnix.BpfMap.{BpfHash}

abbrev pub Entries : Type 0
Entries = Assoc MandateKey MandateValue

-- A new key needs room.
unfoldable pub insert_entry : Entries → MandateKey → MandateValue → Option Entries
insert_entry m k v = elim (lookup k m) [
  | none ↦ if ltb (length m) mandate_map_max_entries then some (put k v m) else none
  | some w ↦ some (put k v m)
]

unfoldable pub remove_entry : Entries → MandateKey → Option Entries
remove_entry m k = elim (lookup k m) [ none ↦ none | some w ↦ some (erase k m) ]

pub get-insert_entry :
    (m : Entries) (k : MandateKey) (v : MandateValue) (left : Entries)
    → insert_entry m k v ≡ some left
    → (j : MandateKey) → lookup j left ≡ (if k == j then some v else lookup j m)
unfolding insert_entry
get-insert_entry m k v left h j =
    let e : put k v m ≡ left = elim (Option-cases (lookup k m)) [
      | inl missing ↦ elim (Bool-cases (ltb (length m) mandate_map_max_entries)) [
        | inl room ↦ ground arith
        | inr full ↦ absurd (ground arith)
      ]
      | inr (w, found) ↦ ground arith
    ] in
    ap (lookup j) (sym e) ∙ lookup-insert k j v m

pub get-remove_entry :
    (m : Entries) (k : MandateKey) (left : Entries)
    → remove_entry m k ≡ some left
    → (j : MandateKey) → lookup j left ≡ (if k == j then none else lookup j m)
unfolding remove_entry
get-remove_entry m k left h j = elim (Option-cases (lookup k m)) [
  | inl missing ↦ absurd (ground arith)
  | inr (w, found) ↦
      let e : erase k m ≡ left = ground arith in ap (lookup j) (sym e) ∙ lookup-erase k j m
]

abbrev pub listed : BpfHash
listed = record {
  Map = Entries;
  get = λ m k. lookup k m;
  insert = insert_entry;
  remove = remove_entry;
  get-insert = get-insert_entry;
  get-remove = get-remove_entry;
}

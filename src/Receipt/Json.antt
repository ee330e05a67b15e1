-- ===== src/Receipt/Json.antt =====
-- Canonical JSON of cognitod/src/receipt.rs: members sorted by key, at every depth. Keys are bytes, in
-- the order that Rust gives to `String`; the members of a map are a list.
use linnix.Prelude.{Bool, true, false, ◌&&◌, ◌||◌, [], ◌∷◌, ltb, if◌then◌else◌}
use linnix.Prelude.Keys.{◌==◌, nat_eq}
use linnix.Receipt.Crates.{Bytes}

-- `serde_json::Value`; a number is its text.
mutual
  pub data Json : Type 0 where
    null : Json
    boolean : Bool → Json
    number : Bytes → Json
    text : Bytes → Json
    array : Items → Json
    object : Members → Json

  pub data Items : Type 0 where
    no_items : Items
    item : Json → Items → Items

  pub data Members : Type 0 where
    no_members : Members
    member : Bytes → Json → Members → Members

-- `key1 <= key2`
abbrev pub bytes_leb : Bytes → Bytes → Bool
bytes_leb [] key = true
bytes_leb (b ∷ bs) [] = false
bytes_leb (b ∷ bs) (c ∷ cs) = ltb b c || (b == c && bytes_leb bs cs)

-- A member put before the first larger key of sorted ones.
abbrev pub insert_member : Bytes → Json → Members → Members
insert_member key value no_members = member key value no_members
insert_member key value (member other old rest) =
    let inserted = insert_member key value rest in
    if bytes_leb key other
    then member key value (member other old rest)
    else member other old inserted

unfoldable mutual
  pub sort_json_value : Json → Json
  sort_json_value null = null
  sort_json_value (boolean b) = boolean b
  sort_json_value (number n) = number n
  sort_json_value (text t) = text t
  sort_json_value (array items) = array (sort_items items)
  sort_json_value (object members) = object (sort_members members)

  pub sort_items : Items → Items
  sort_items no_items = no_items
  sort_items (item value rest) = item (sort_json_value value) (sort_items rest)

  pub sort_members : Members → Members
  sort_members no_members = no_members
  sort_members (member key value rest) =
      insert_member key (sort_json_value value) (sort_members rest)

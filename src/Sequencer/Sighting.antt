-- ===== src/Sequencer/Sighting.antt =====
-- What the consumer can see in the slot of its cursor, and what a turn does then.
use linnix.Prelude.{ℕ, ◌<◌, ◌≡◌, ◌⊎◌, inl, inr, arith, Bool-cases}
use linnix.Prelude.Keys.{◌==◌, nat_eq}
use linnix.Protocol.{ProcessEvent, SequencedSlot}
use linnix.Protocol.SlotFlags
use linnix.Sequencer.Consumer.{
  Consumer, Turn, stop, skip, deliver, read_slot, is_stalled, accept, reap,
}

module _ (payload : ℕ → ProcessEvent) where
  -- What the consumer can see at its cursor.
  abbrev pub Sight : ℕ → ℕ → SequencedSlot → Type 0
  Sight cursor next_ticket slot =
      ((slot.flags ≡ SlotFlags.ready)
        × (slot.ticket_id ≡ cursor)
        × (slot.event ≡ payload cursor)
        × (cursor < next_ticket))
      ⊎ (((slot.flags ≡ SlotFlags.ready) × (slot.ticket_id < cursor))
          ⊎ (((slot.flags ≡ SlotFlags.writing)
                × ((slot.ticket_id < cursor) ⊎ (cursor < next_ticket)))
              ⊎ (slot.flags ≡ SlotFlags.empty)))

  -- What a turn can do at such a slot.
  abbrev pub Does : ℕ → ℕ → Consumer → SequencedSlot → Turn → Type 0
  Does cursor next_ticket c slot t =
      (t ≡ stop)
      ⊎ (((t ≡ skip (reap c)) × (cursor < next_ticket))
          ⊎ ((t ≡ deliver slot (accept slot c))
              × (slot.ticket_id ≡ cursor)
              × (slot.event ≡ payload cursor)
              × (cursor < next_ticket)))

  pub read_slot-Does :
      (now next_ticket : ℕ) (slot : SequencedSlot) (c : Consumer)
      → Sight c.cursor next_ticket slot
      → Does c.cursor next_ticket c slot (read_slot now slot c)
  read_slot-Does now next_ticket slot c (inl (ready, same, whole, given)) =
      inr (inr (ground (arith, ready, same), same, whole, given))
  read_slot-Does now next_ticket slot c (inr (inl (ready, old))) = inl (ground (arith, ready, old))
  read_slot-Does now next_ticket slot c (inr (inr (inr vacant))) = inl (ground (arith, vacant))
  read_slot-Does now next_ticket slot c (inr (inr (inl (writing, inl old)))) =
      inl (ground (arith, writing, old))
  read_slot-Does now next_ticket slot c (inr (inr (inl (writing, inr given)))) =
      elim (Bool-cases (slot.ticket_id == c.cursor)) [
        | inr other ↦ inl (ground (arith, writing, other))
        | inl same ↦ elim (Bool-cases (slot.reserved_at_ns == 0)) [
          | inl no_time ↦ inl (ground (arith, writing, same, no_time))
          | inr has_time ↦ elim (Bool-cases (is_stalled now slot c)) [
            | inl stalled ↦ inr (inl (ground (arith, writing, same, has_time, stalled), given))
            | inr waits ↦ inl (ground (arith, writing, same, has_time, waits))
          ]
        ]
      ]

-- ===== src/Sequencer/Phases.antt =====
-- The slot of a call of `submit_to_sequencer` after each of its writes.
use linnix.Prelude.{
  ℕ, ◌+◌, ◌≤◌, ◌<◌, ◌≡◌, ◌≢◌, refl, ◌⊎◌, inl, inr, false, List, [], ◌∷◌, arith, Bool-cases,
}
use linnix.Prelude.Keys.{◌==◌, nat_eq, ==→eq, ==_refl}
use linnix.Protocol.{ProcessEvent, SequencedSlot, sequencer_ring_size}
use linnix.Protocol.SlotFlags
use linnix.Sequencer.Producer.{Ring, slot_index, slot_index-eq}
use linnix.Sequencer.Interleaving.{
  Phase, reserved, marked, ticketed, timed, filled, committed, next_phase, next_write,
}

-- What the slot of a ticket looks like after each write of its call.
abbrev pub SlotAt : ProcessEvent → ℕ → Phase → SequencedSlot → Type 0
SlotAt event t reserved slot =
    ((slot.flags ≡ SlotFlags.empty) ⊎ ((slot.flags ≡ SlotFlags.ready) × (slot.ticket_id < t)))
    × (slot.ticket_id ≤ t)
SlotAt event t marked slot = (slot.flags ≡ SlotFlags.writing) × (slot.ticket_id ≤ t)
SlotAt event t ticketed slot = (slot.flags ≡ SlotFlags.writing) × (slot.ticket_id ≡ t)
SlotAt event t timed slot = (slot.flags ≡ SlotFlags.writing) × (slot.ticket_id ≡ t)
SlotAt event t filled slot =
    (slot.flags ≡ SlotFlags.writing) × (slot.ticket_id ≡ t) × (slot.event ≡ event)
SlotAt event t committed slot =
    (slot.flags ≡ SlotFlags.ready) × (slot.ticket_id ≡ t) × (slot.event ≡ event)

-- A slot that no call has had.
abbrev pub Untouched : SequencedSlot → Type 0
Untouched slot = (slot.flags ≡ SlotFlags.empty) × (slot.ticket_id ≡ 0)

-- The tickets of the log fall from `high` on, and each slot carries the event of its ticket.
abbrev pub Whole : (ℕ → ProcessEvent) → ℕ → List SequencedSlot → Type 0
Whole payload high [] = Unit
Whole payload high (slot ∷ slots) =
    (slot.ticket_id < high)
    × (slot.event ≡ payload slot.ticket_id)
    × Whole payload slot.ticket_id slots

pub Whole-higher :
    (payload : ℕ → ProcessEvent) (high high' : ℕ) (slots : List SequencedSlot)
    → high ≤ high'
    → Whole payload high slots
    → Whole payload high' slots
Whole-higher payload high high' [] h w = tt
Whole-higher payload high high' (slot ∷ slots) h (below, same, w) = (omega arith, same, w)

module _ (payload : ℕ → ProcessEvent) (clock : ℕ → ℕ) where
  -- A write of a call keeps its slot in step with its phase.
  pub SlotAt-write :
      (t now : ℕ) (p : Phase) (ring : Ring)
      → SlotAt (payload t) t p (ring (slot_index t))
      → SlotAt (payload t) t (next_phase p) (next_write t (payload t) now p ring (slot_index t))
  SlotAt-write t now reserved ring at = rw (==_refl (slot_index t)) (refl, at.1)
  SlotAt-write t now marked ring at = rw (==_refl (slot_index t)) (at.0, refl)
  SlotAt-write t now ticketed ring at = rw (==_refl (slot_index t)) at
  SlotAt-write t now timed ring at = rw (==_refl (slot_index t)) (at.0, at.1, refl)
  SlotAt-write t now filled ring at = rw (==_refl (slot_index t)) (refl, at.1, at.2)
  SlotAt-write t now committed ring at = at

  -- It leaves the other slots.
  pub next_write-other :
      (t now i : ℕ) (p : Phase) (ring : Ring)
      → (slot_index t == i) ≡ false
      → next_write t (payload t) now p ring i ≡ ring i
  next_write-other t now i reserved ring apart = rw apart refl
  next_write-other t now i marked ring apart = rw apart refl
  next_write-other t now i ticketed ring apart = rw apart refl
  next_write-other t now i timed ring apart = rw apart refl
  next_write-other t now i filled ring apart = rw apart refl
  next_write-other t now i committed ring apart = refl

  pub slots_apart :
      (a b : ℕ)
      → (a == b) ≡ false
      → a < b + sequencer_ring_size
      → b < a + sequencer_ring_size
      → (slot_index a == slot_index b) ≡ false
  slots_apart a b apart near near' = elim (Bool-cases (slot_index a == slot_index b)) [
    | inr differ ↦ differ
    | inl same ↦
        let distinct : a ≢ b = λ e. ground (arith, apart, e, ==_refl b) in
        absurd (
          omega (
            arith,
            ==→eq (slot_index a) (slot_index b) same,
            slot_index-eq a,
            slot_index-eq b,
            distinct,
          ))
  ]

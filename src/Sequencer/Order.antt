-- ===== src/Sequencer/Order.antt =====
-- Whatever the producers do, the consumer delivers in the order of the tickets.
use linnix.Prelude.{ℕ, zero, suc, ◌+◌, ◌≤◌, ◌<◌, ◌≡◌, ◌⊎◌, inl, inr, List, [], ◌∷◌, arith, bit_and}
use mathlib.Core.Path.{subst}
use linnix.Prelude.Keys.{nat_eq}
use linnix.Prelude.Words.{u64_mod}
use linnix.Protocol.{SequencedSlot}
use linnix.Sequencer.Producer.{Ring}
use linnix.Sequencer.Consumer.{
  Consumer, Turn, stop, skip, deliver, check, accept, resync, reap, pass_abandoned, read_slot, turn,
  poll_loop, Turn-cases,
}

-- Tickets that rise from `low` on, all below `high`.
abbrev pub Ascending : ℕ → ℕ → List SequencedSlot → Type 0
Ascending low high [] = low ≤ high
Ascending low high (slot ∷ slots) =
    (low ≤ slot.ticket_id) × Ascending (slot.ticket_id + 1) high slots

Ascending-weaken :
    (low low' high : ℕ) (slots : List SequencedSlot)
    → low ≤ low'
    → Ascending low' high slots
    → Ascending low high slots
Ascending-weaken low low' high [] h a = omega arith
Ascending-weaken low low' high (slot ∷ slots) h a = (omega arith, a.1)

-- How one turn moves the cursor.
abbrev pub Moves : SequencedSlot → Consumer → Turn → Type 0
Moves read c stop = Unit
Moves read c (skip c') =
    (c.cursor < c'.cursor) × ((c'.cursor ≡ c.cursor + 1) ⊎ (c'.cursor ≡ read.ticket_id))
Moves read c (deliver slot c') =
    (slot ≡ read) × (slot.ticket_id ≡ c.cursor) × (c'.cursor ≡ c.cursor + 1)

read_slot-Moves :
    (now : ℕ) (slot : SequencedSlot) (c : Consumer)
    → c.cursor + 1 < u64_mod
    → Moves slot c (read_slot now slot c)
unfolding accept resync reap pass_abandoned check
read_slot-Moves now slot c h = ground arith

turn-Moves :
    (now : ℕ) (ring : Ring) (c : Consumer) (t : Turn)
    → c.cursor + 1 < u64_mod
    → turn now ring c ≡ t
    → Moves (ring (bit_and c.cursor c.mask)) c t
unfolding turn
turn-Moves now ring c t h e =
    subst (Moves (ring (bit_and c.cursor c.mask)) c) e
      (read_slot-Moves now (ring (bit_and c.cursor c.mask)) c h)

-- A poll of any rings, with tickets and a cursor that leave room below 2 ^ 64, delivers slots with
-- strictly rising tickets, from its cursor on and all below the cursor that it leaves.
pub poll_loop_order :
    (n now : ℕ) (rings : ℕ → Ring) (c : Consumer)
    → c.cursor + n < u64_mod
    → ((k i : ℕ) → (rings k i).ticket_id + n < u64_mod)
    → Ascending c.cursor (poll_loop n now rings c).0.cursor (poll_loop n now rings c).1
unfolding poll_loop
poll_loop_order zero now rings c h t = omega arith
poll_loop_order (suc n) now rings c h t =
    let here = bit_and c.cursor c.mask in
    elim (Turn-cases (turn now (rings n) c)) [
      | inl e ↦ rw (e, poll_loop) (omega arith)
      | inr (inl (c', e)) ↦
          let m = turn-Moves now (rings n) c (skip c') (omega arith) e in
          rw (e, poll_loop)
            (Ascending-weaken _ c'.cursor _ _ (omega arith) (
              poll_loop_order n now rings c' (omega (arith, t n here))
                (λ k i. omega (arith, t k i))))
      | inr (inr (slot, c', e)) ↦
          let m = turn-Moves now (rings n) c (deliver slot c') (omega arith) e in
          rw (e, poll_loop)
            (
              omega arith,
              Ascending-weaken _ c'.cursor _ _ (omega arith)
                  (poll_loop_order n now rings c' (omega arith) (λ k i. omega (arith, t k i))),
            )
    ]

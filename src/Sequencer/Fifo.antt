-- ===== src/Sequencer/Fifo.antt =====
-- Producers one after another keep the events that wait for the consumer in consecutive slots.
use linnix.Prelude.{
  ℕ, ◌+◌, ◌≤◌, ◌<◌, ◌≡◌, ◌≢◌, ◌⊎◌, List, [], ◌∷◌, ◌++◌, arith, length, length-append, if◌then◌else◌,
}
use mathlib.Core.Path.{subst}
use mathlib.Core.List.{append-nil, append_assoc}
use linnix.Prelude.Keys.{◌==◌, nat_eq}
use linnix.Prelude.Words.{u64_mod}
use linnix.Protocol.{ProcessEvent, SequencedSlot, sequencer_ring_size}
use linnix.Protocol.SlotFlags
use linnix.Sequencer.Producer.{Ring, Sequencer, slot_index, slot_index-eq, submit_to_sequencer}

-- The slot holds the event of the ticket.
abbrev pub Carries : SequencedSlot → ℕ → ProcessEvent → Type 0
Carries slot ticket event =
    (slot.flags ≡ SlotFlags.ready) × (slot.ticket_id ≡ ticket) × (slot.event ≡ event)

-- The events stand under consecutive tickets, from `cursor` on.
abbrev pub Holds : Ring → ℕ → List ProcessEvent → Type 0
Holds ring cursor [] = Unit
Holds ring cursor (e ∷ es) =
    Carries (ring (slot_index cursor)) cursor e × Holds ring (cursor + 1) es

-- Nothing is being written, and no ticket has been given that is not below `next`.
abbrev pub IsPast : ℕ → SequencedSlot → Type 0
IsPast next slot =
    (slot.flags ≡ SlotFlags.empty) ⊎ ((slot.flags ≡ SlotFlags.ready) × (slot.ticket_id < next))

-- The events that wait for a consumer at `cursor`, all that have been submitted since.
pub record Backlog (s : Sequencer) (cursor : ℕ) (waiting : List ProcessEvent) : Type 0 where
  pub reaches : cursor + length waiting ≡ s.next_ticket
  pub fits : length waiting ≤ sequencer_ring_size
  pub held : Holds s.ring cursor waiting
  pub past : (i : ℕ) → IsPast s.next_ticket (s.ring i)

-- What a submission leaves in the ring.
abbrev written : ℕ → ℕ → ProcessEvent → SequencedSlot
written now ticket event = record {
  flags = SlotFlags.ready;
  ticket_id = ticket;
  reserved_at_ns = now;
  event = event;
}

submit-ring :
    (now : ℕ) (event : ProcessEvent) (s : Sequencer) (j : ℕ)
    → (submit_to_sequencer now event s).ring j
      ≡ (if slot_index s.next_ticket == j then written now s.next_ticket event else s.ring j)
unfolding submit_to_sequencer
submit-ring now event s j = ground arith

next_ticket-submit :
    (now : ℕ) (event : ProcessEvent) (s : Sequencer)
    → s.next_ticket + 1 < u64_mod
    → (submit_to_sequencer now event s).next_ticket ≡ s.next_ticket + 1
unfolding submit_to_sequencer
next_ticket-submit now event s h = omega arith

-- Two tickets less than a lap apart have different slots.
pub slot_index-ne : (a b : ℕ) → a < b → b < a + sequencer_ring_size → slot_index b ≢ slot_index a
slot_index-ne a b h k = omega (arith, slot_index-eq a, slot_index-eq b)

Holds-submit :
    (now : ℕ) (event : ProcessEvent) (s : Sequencer) (cursor : ℕ) (q : List ProcessEvent)
    → cursor + length q ≡ s.next_ticket
    → length q < sequencer_ring_size
    → Holds s.ring cursor q
    → Holds (submit_to_sequencer now event s).ring cursor (q ++ (event ∷ []))
Holds-submit now event s cursor [] r f h =
    ground (arith, submit-ring now event s (slot_index cursor))
Holds-submit now event s cursor (e ∷ q) r f h = (
  ground (
    arith,
    submit-ring now event s (slot_index cursor),
    slot_index-ne cursor s.next_ticket (omega arith) (omega arith),
  ),
  Holds-submit now event s (cursor + 1) q (omega arith) (omega arith) h.1,
)

-- One submission appends its event, while less than a lap of events waits.
pub submit-Backlog :
    (now : ℕ) (event : ProcessEvent) (s : Sequencer) (cursor : ℕ) (q : List ProcessEvent)
    → Backlog s cursor q
    → length q < sequencer_ring_size
    → s.next_ticket + 1 < u64_mod
    → Backlog (submit_to_sequencer now event s) cursor (q ++ (event ∷ []))
submit-Backlog now event s cursor q b f room = record {
  reaches = omega (arith, length-append q (event ∷ []), next_ticket-submit now event s room);
  fits = omega (arith, length-append q (event ∷ []));
  held = Holds-submit now event s cursor q b.reaches f b.held;
  past =
      λ i. ground (arith, submit-ring now event s i, b.past i, next_ticket-submit now event s room);
}

-- The events of a list, submitted one after another at the times of `clock`.
pub submit_all : (ℕ → ℕ) → List ProcessEvent → Sequencer → Sequencer
submit_all clock [] s = s
submit_all clock (e ∷ es) s = submit_all clock es (submit_to_sequencer (clock s.next_ticket) e s)

pub submit_all-Backlog :
    (clock : ℕ → ℕ) (es : List ProcessEvent) (s : Sequencer) (cursor : ℕ) (q : List ProcessEvent)
    → Backlog s cursor q
    → length q + length es ≤ sequencer_ring_size
    → s.next_ticket + length es < u64_mod
    → Backlog (submit_all clock es s) cursor (q ++ es)
unfolding submit_all
submit_all-Backlog clock [] s cursor q b f room = rw append-nil b
submit_all-Backlog clock (e ∷ es) s cursor q b f room =
    let now = clock s.next_ticket in
    subst (Backlog (submit_all clock es (submit_to_sequencer now e s)) cursor)
      (append_assoc q (e ∷ []) es)
      (submit_all-Backlog clock es (submit_to_sequencer now e s) cursor (q ++ (e ∷ []))
        (submit-Backlog now e s cursor q b (omega arith) (omega arith))
        (omega (arith, length-append q (e ∷ [])))
        (omega (arith, next_ticket-submit now e s (omega arith))))

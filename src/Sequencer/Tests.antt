-- ===== src/Sequencer/Tests.antt =====
-- The sequencer at concrete inputs.
use linnix.Prelude.{
  ℕ, ◌+◌, ◌≡◌, refl, inl, List, [], ◌∷◌, take, min, some, length, map, if◌then◌else◌, arith,
}
use linnix.Prelude.Keys.{◌==◌, nat_eq}
use linnix.Protocol.{ProcessEvent, SequencedSlot, zeroed_event, zeroed, sequencer_ring_size}
use linnix.Protocol.SlotFlags
use linnix.Sequencer.Producer.{Ring, idle, slot_index}
use linnix.Sequencer.Consumer.{
  Consumer, fresh, zeroed_ring, poll_batch, poll_loop, drain, turn, accept, check, skip, reap,
}
use linnix.Sequencer.Interleaving.{
  World, start as start_world, begin, advance, finish, Run, nothing, Reach, here, next, begins,
  writes, reads_flags, reads_ticket, finishes,
}
use linnix.Sequencer.Phases.{Whole}
use linnix.Sequencer.Whole.{Reach-Whole}
use linnix.Sequencer.Order.{Ascending, poll_loop_order}
use linnix.Sequencer.Fifo.{Backlog, submit_all}
use linnix.Sequencer.Delivery.{submit_all-poll_batch}
use linnix.Sequencer.Draining.{Drains, drain-Drains, reap_counts_violation}

abbrev event_of : ℕ → ProcessEvent
event_of pid = record zeroed_event { pid = pid }

abbrev three_events : List ProcessEvent
three_events = event_of 10 ∷ event_of 11 ∷ event_of 12 ∷ []

idle-Backlog : Backlog idle fresh.cursor []
idle-Backlog = record { reaches = refl; fits = omega arith; held = tt; past = λ i. inl refl }

submit_all-poll_batch_example :
    let (c', events) = poll_batch 2 50 (λ k. (submit_all (λ k. 5) three_events idle).ring) fresh in
    (events ≡ take 2 three_events) × (c'.cursor ≡ 0 + min 2 3)
submit_all-poll_batch_example =
    submit_all-poll_batch 2 50 (λ k. 5) three_events idle fresh idle-Backlog refl (omega arith)
      (omega arith)

poll_loop_order_example :
    Ascending 0
      (poll_loop 5 50 (λ k. zeroed_ring) fresh).0.cursor
      (poll_loop 5 50 (λ k. zeroed_ring) fresh).1
poll_loop_order_example =
    poll_loop_order 5 50 (λ k. zeroed_ring) fresh (omega arith) (λ k i. omega arith)

drain-Drains_example : Drains (drain (λ k. 50) (λ k n. zeroed_ring) fresh)
drain-Drains_example = drain-Drains (λ k. 50) (λ k n. zeroed_ring) fresh

-- Ticket 4 was never completed, and ticket 5 is ready.
abbrev stalled_ring : Ring
stalled_ring i =
    if i == 4
    then record zeroed { flags = SlotFlags.writing; ticket_id = 4; reserved_at_ns = 100 }
    else if i == 5
    then record zeroed { flags = SlotFlags.ready; ticket_id = 5 }
    else zeroed

abbrev at_four : Consumer
at_four = record fresh { cursor = 4; validator = record { last_ticket = some 3; violations = 0 } }

reap_counts_violation_example :
    let (c', slots) = poll_loop 2 20000000 (λ k. stalled_ring) at_four in
    (slots ≡ stalled_ring (slot_index 5) ∷ []) × (c'.stats.ordering_violations ≡ 1)
unfolding slot_index
reap_counts_violation_example =
    reap_counts_violation 20000000 stalled_ring at_four 3 refl refl refl (omega arith) (omega arith)
      refl refl (omega arith) refl refl refl

-- One call, write by write, and two turns of the consumer, read by read: in the first the call writes its
-- event and commits after the read of the flags, in the second all is there.
abbrev quiet : ℕ → ProcessEvent
quiet ticket = zeroed_event

abbrev write_0 : World → World
write_0 = advance quiet (λ t. 5) 0

abbrev half_written : World
half_written = write_0 (write_0 (begin start_world))

abbrev all_written : World
all_written = write_0 (write_0 (write_0 half_written))

abbrev delivered : Run
delivered = record {
  world = finish 12 SlotFlags.ready 0 (finish 9 SlotFlags.writing 0 all_written);
  seen = nothing;
}

delivered_is_reached : Reach quiet (λ t. 5) delivered
unfolding linnix.Sequencer.Producer.slot_index
delivered_is_reached =
    let half : Reach quiet (λ t. 5) (record { world = half_written; seen = nothing }) =
      next
        (next (next here (begins (omega arith) (omega arith) (inl (omega arith))))
          (writes 0 (omega arith) (λ e. absurd (cc e))))
        (writes 0 (omega arith) (λ e. absurd (cc e))) in
    let waits : Reach quiet (λ t. 5)
        (record { world = finish 9 SlotFlags.writing 0 all_written; seen = nothing }) =
      next
        (next
          (next
            (next
              (next (next half (reads_flags refl))
                (writes 0 (omega arith) (λ e same at. absurd (cc at))))
              (writes 0 (omega arith) (λ e same at. absurd (cc at))))
            (writes 0 (omega arith) (λ e same at. absurd (cc at))))
          (reads_ticket SlotFlags.writing refl))
        (finishes 9 SlotFlags.writing 0 refl) in
    next (next (next waits (reads_flags refl)) (reads_ticket SlotFlags.ready refl))
      (finishes 12 SlotFlags.ready 0 refl)

Reach-Whole_example :
    Whole quiet delivered.world.consumer.cursor delivered.world.log
    × (length delivered.world.log + delivered.world.consumer.stats.events_reaped
        ≡ delivered.world.consumer.cursor)
Reach-Whole_example = Reach-Whole quiet (λ t. 5) delivered delivered_is_reached

is_delivered : map (λ slot. slot.ticket_id) delivered.world.log ≡ 0 ∷ []
unfolding accept check linnix.Sequencer.Producer.slot_index
is_delivered = refl

-- Without the condition on the writes of `Step`, the event of the lap before is delivered: READY was read
-- before the call of the cursor marked its slot, and the ticket after that call had written it.
abbrev overtaken : Ring
overtaken i = record zeroed {
  flags = SlotFlags.writing;
  ticket_id = sequencer_ring_size;
  event = event_of 7;
}

abbrev behind_a_lap : World
behind_a_lap = record start_world {
  shared = record start_world.shared { ring = overtaken };
  consumer = record fresh { cursor = sequencer_ring_size };
}

old_event_is_delivered :
    map (λ slot. slot.event) (finish 9 SlotFlags.ready sequencer_ring_size behind_a_lap).log
    ≡ event_of 7 ∷ []
unfolding accept check
old_event_is_delivered = refl

-- A call of the second lap that has written its ticket and not yet its time is reaped at once: the time
-- in the slot is that of the call before.
abbrev second_lap : Consumer
second_lap = record fresh { cursor = sequencer_ring_size }

abbrev stale_slot : SequencedSlot
stale_slot = record {
  flags = SlotFlags.writing;
  ticket_id = sequencer_ring_size;
  reserved_at_ns = 5;
  event = zeroed_event;
}

reaped_at_once : turn 1000000000 (λ i. stale_slot) second_lap ≡ skip (reap second_lap)
unfolding turn
reaped_at_once = refl

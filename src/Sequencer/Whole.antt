-- ===== src/Sequencer/Whole.antt =====
-- However producers and consumer interleave, a delivered slot is whole.
use linnix.Prelude.{ℕ, ◌+◌, ◌<◌, ◌≡◌, refl, sym, ap, ◌∙◌, inl, inr, ◌∷◌, length, arith}
use mathlib.Core.Path.{subst}
use linnix.Prelude.Keys.{nat_eq}
use linnix.Prelude.Words.{add64}
use linnix.Protocol.{ProcessEvent, SequencedSlot}
use linnix.Sequencer.Producer.{slot_index}
use linnix.Sequencer.Consumer.{read_slot, accept, reap}
use linnix.Sequencer.Interleaving.{
  World, start, after_turn, finish, Run, flags_seen, ticket_seen, Step, begins, writes, reads_flags,
  reads_ticket, finishes, Reach, here, next,
}
use linnix.Sequencer.Phases.{Whole, Whole-higher}
use linnix.Sequencer.Calls.{Invariant, advance-Invariant}
use linnix.Sequencer.Begin.{begin-Invariant}
use linnix.Sequencer.Sighting.{read_slot-Does}
use linnix.Sequencer.Reading.{
  Knows, under_cursor-eq, Knows-flags, Knows-ticket, Knows-Sight, begin-Knows, advance-Knows,
}

module _ (payload : ℕ → ProcessEvent) (clock : ℕ → ℕ) where
  -- A reaped slot: the cursor passes one ticket, and it is counted.
  reap-Invariant :
      (w : World)
      → w.consumer.cursor < w.shared.next_ticket
      → Invariant payload clock w
      → Invariant payload clock (record w { consumer = reap w.consumer })
  unfolding reap
  reap-Invariant w given inv =
      let moved : add64 w.consumer.cursor 1 ≡ w.consumer.cursor + 1 = omega (arith, inv.room) in
      let counted : add64 w.consumer.stats.events_reaped 1 ≡ w.consumer.stats.events_reaped + 1 =
        omega (arith, inv.room, inv.accounted) in
      record {
        room = inv.room;
        mask = inv.mask;
        behind = omega (arith, moved, given);
        lap = omega (arith, moved, inv.lap);
        slots = inv.slots;
        untouched = inv.untouched;
        done = inv.done;
        whole =
            Whole-higher payload w.consumer.cursor (add64 w.consumer.cursor 1) w.log
              (omega (arith, moved)) inv.whole;
        accounted = omega (arith, moved, counted, inv.accounted);
      }

  accept-Invariant :
      (w : World) (slot : SequencedSlot)
      → slot.ticket_id ≡ w.consumer.cursor
      → slot.event ≡ payload w.consumer.cursor
      → w.consumer.cursor < w.shared.next_ticket
      → Invariant payload clock w
      → Invariant payload clock (record w { consumer = accept slot w.consumer; log = slot ∷ w.log })
  unfolding accept
  accept-Invariant w slot same carried given inv =
      let moved : add64 w.consumer.cursor 1 ≡ w.consumer.cursor + 1 = omega (arith, inv.room) in
      record {
        room = inv.room;
        mask = inv.mask;
        behind = omega (arith, moved, given);
        lap = omega (arith, moved, inv.lap);
        slots = inv.slots;
        untouched = inv.untouched;
        done = inv.done;
        whole = (
          omega (arith, moved, same),
          carried ∙ ap payload (sym same),
          subst (λ (k : ℕ). Whole payload k w.log) (sym same) inv.whole,
        );
        accounted = omega (arith, moved, inv.accounted);
      }

  finish-Invariant :
      (now f t : ℕ) (w : World)
      → Invariant payload clock w
      → Knows w (ticket_seen f t)
      → Invariant payload clock (finish now f t w)
  finish-Invariant now f t w inv k =
      let slot = record (w.shared.ring (slot_index w.consumer.cursor)) {
        flags = f;
        ticket_id = t;
      } in
      subst
        (λ (under : SequencedSlot).
          Invariant payload clock
            (after_turn w (read_slot now (record under { flags = f; ticket_id = t }) w.consumer)))
        (sym (under_cursor-eq payload clock w inv))
        (elim (read_slot-Does payload now w.shared.next_ticket slot w.consumer
          (Knows-Sight payload clock w f t inv k)) [
            | inl waits ↦ subst (λ t. Invariant payload clock (after_turn w t)) (sym waits) inv
            | inr (inl (reaps, given)) ↦
                subst (λ t. Invariant payload clock (after_turn w t)) (sym reaps)
                  (reap-Invariant w given inv)
            | inr (inr (delivers, same, carried, given)) ↦
                subst (λ t. Invariant payload clock (after_turn w t)) (sym delivers)
                  (accept-Invariant w _ same carried given inv)
          ])

  start-Invariant : Invariant payload clock start
  start-Invariant = record {
    room = omega arith;
    mask = refl;
    behind = omega arith;
    lap = omega arith;
    slots = λ t below recent. absurd (omega arith);
    untouched = λ t above small. (refl, refl);
    done = λ t old. absurd (omega arith);
    whole = tt;
    accounted = refl;
  }

  -- The invariant, and what the turn that is under way knows.
  abbrev Sound : Run → Type 0
  Sound r = Invariant payload clock r.world × Knows r.world r.seen

  Step-Sound : (r r' : Run) → Step payload clock r r' → Sound r → Sound r'
  Step-Sound r _ (begins room near free) (inv, k) = (
    begin-Invariant payload clock r.world room near free inv,
    begin-Knows payload clock r.world r.seen room inv k,
  )
  Step-Sound r _ (writes ticket given steady) (inv, k) = (
    advance-Invariant payload clock r.world ticket given inv,
    advance-Knows payload clock r.world r.seen ticket given steady inv k,
  )
  Step-Sound r _ (reads_flags e) (inv, k) = (
    inv,
    subst (λ (slot : SequencedSlot). Knows r.world (flags_seen slot.flags))
        (sym (under_cursor-eq payload clock r.world inv)) (Knows-flags payload clock r.world inv),
  )
  Step-Sound r _ (reads_ticket f e) (inv, k) = (
    inv,
    subst (λ (slot : SequencedSlot). Knows r.world (ticket_seen f slot.ticket_id))
        (sym (under_cursor-eq payload clock r.world inv))
        (Knows-ticket payload clock r.world f inv (subst (Knows r.world) e k)),
  )
  Step-Sound r _ (finishes now f t e) (inv, k) =
      (finish-Invariant now f t r.world inv (subst (Knows r.world) e k), tt)

  Reach-Sound : (r : Run) → Reach payload clock r → Sound r
  Reach-Sound r here = (start-Invariant, tt)
  Reach-Sound r (next {r = before} reached step) =
      Step-Sound before r step (Reach-Sound before reached)

  -- In any interleaving of the writes of calls and the reads of the consumer's turns, in which a call begins
  -- only before the counter of tickets wraps, when the consumer is less than a lap behind and the call that
  -- had its slot is done, and in which the call of the cursor does not write its ticket between a turn's
  -- read of READY and its read of the ticket: every slot that was delivered carries the whole event of its
  -- ticket, the tickets rise, and the slots delivered and the slots reaped are together as many as the
  -- cursor says.
  pub Reach-Whole :
      (r : Run)
      → Reach payload clock r
      → Whole payload r.world.consumer.cursor r.world.log
        × (length r.world.log + r.world.consumer.stats.events_reaped ≡ r.world.consumer.cursor)
  Reach-Whole r reached = let inv = (Reach-Sound r reached).0 in (inv.whole, inv.accounted)

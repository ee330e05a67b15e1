-- ===== src/Sequencer/Delivery.antt =====
-- The consumer takes what the producers have submitted, in order: a first-in, first-out queue.
use linnix.Prelude.{
  ℕ, zero, suc, ◌+◌, ◌≤◌, ◌<◌, ◌≡◌, refl, List, [], ◌∷◌, map, arith, length, take, min, bit_and,
}
use mathlib.Core.Path.{subst, ap₂, ◌∙◌, sym}
use linnix.Prelude.Bits.{bit_and-mask}
use linnix.Prelude.Keys.{nat_eq}
use linnix.Prelude.Words.{add64, u64_mod}
use linnix.Protocol.{ProcessEvent, SequencedSlot, sequencer_ring_size, sequencer_ring_mask}
use linnix.Sequencer.Producer.{Ring, Sequencer, slot_index, slot_index-eq}
use linnix.Sequencer.Fifo.{Carries, Holds, IsPast, Backlog, submit_all, submit_all-Backlog}
use linnix.Sequencer.Consumer.{Consumer, stop, deliver, accept, turn, poll_loop, poll_batch}

-- The consumer masks with the producer's mask.
pub masked :
    (cursor mask : ℕ) → mask ≡ sequencer_ring_mask → bit_and cursor mask ≡ slot_index cursor
masked cursor mask e = rw e (omega (arith, bit_and-mask 20 cursor, slot_index-eq cursor))

-- A consumer at a waiting event takes it.
turn-deliver :
    (now : ℕ) (ring : Ring) (c : Consumer) (event : ProcessEvent)
    → c.mask ≡ sequencer_ring_mask
    → Carries (ring (slot_index c.cursor)) c.cursor event
    → turn now ring c ≡ deliver (ring (slot_index c.cursor)) (accept (ring (slot_index c.cursor)) c)
unfolding turn
turn-deliver now ring c event e h = rw (masked c.cursor c.mask e) (ground arith)

-- A consumer that has caught up waits.
turn-stop :
    (now : ℕ) (ring : Ring) (c : Consumer)
    → c.mask ≡ sequencer_ring_mask
    → IsPast c.cursor (ring (slot_index c.cursor))
    → turn now ring c ≡ stop
unfolding turn
turn-stop now ring c e h = rw (masked c.cursor c.mask e) (ground arith)

accept_lem :
    (slot : SequencedSlot) (c : Consumer)
    → c.cursor + 1 < u64_mod
    → ((accept slot c).cursor ≡ c.cursor + 1) × ((accept slot c).mask ≡ c.mask)
unfolding accept
accept_lem slot c h = (omega arith, refl)

-- A poll takes the waiting events in order, as many as it may.
poll_loop_takes :
    (n now next : ℕ) (ring : Ring) (c : Consumer) (q : List ProcessEvent)
    → c.mask ≡ sequencer_ring_mask
    → c.cursor + length q ≡ next
    → next < u64_mod
    → Holds ring c.cursor q
    → ((i : ℕ) → IsPast next (ring i))
    → (map (λ slot. slot.event) (poll_loop n now (λ k. ring) c).1 ≡ take n q)
      × ((poll_loop n now (λ k. ring) c).0.cursor ≡ c.cursor + min n (length q))
unfolding poll_loop
poll_loop_takes zero now next ring c q m r f h p = (refl, omega arith)
poll_loop_takes (suc n) now next ring c [] m r f h p =
    rw
      (
        turn-stop now ring c m (
            subst (λ k. IsPast k (ring (slot_index c.cursor))) (omega arith)
              (p (slot_index c.cursor))),
        poll_loop,
      )
      (refl, omega arith)
poll_loop_takes (suc n) now next ring c (e ∷ q) m r f h p =
    let slot = ring (slot_index c.cursor) in
    let moved = accept_lem slot c (omega arith) in
    let rest =
      poll_loop_takes n now next ring (accept slot c) q (moved.1 ∙ m) (omega arith) f
        (subst (λ k. Holds ring k q) (sym moved.0) h.1) p in
    rw (turn-deliver now ring c e m h.0, poll_loop)
      (ap₂ ◌∷◌ h.0.2 rest.0, omega (arith, rest.1, moved.0))

-- What is submitted, at most a lap of events, to a sequencer whose consumer has caught up, is what
-- the next poll returns: in the order of submission, the first `max_batch_size` of them, with the
-- cursor moved past exactly those.
pub submit_all-poll_batch :
    (max_batch_size now : ℕ) (clock : ℕ → ℕ) (es : List ProcessEvent) (s : Sequencer) (c : Consumer)
    → Backlog s c.cursor []
    → c.mask ≡ sequencer_ring_mask
    → length es ≤ sequencer_ring_size
    → s.next_ticket + length es < u64_mod
    → let (c', events) = poll_batch max_batch_size now (λ k. (submit_all clock es s).ring) c in
      (events ≡ take max_batch_size es) × (c'.cursor ≡ c.cursor + min max_batch_size (length es))
unfolding poll_batch
submit_all-poll_batch max_batch_size now clock es s c b m fits room =
    let b' = submit_all-Backlog clock es s c.cursor [] b (omega arith) room in
    poll_loop_takes max_batch_size now (submit_all clock es s).next_ticket
      (submit_all clock es s).ring
      (record c { stats = record c.stats { poll_cycles = add64 c.stats.poll_cycles 1 } }) es m
      b'.reaches (omega (arith, b.reaches, b'.reaches)) b'.held b'.past

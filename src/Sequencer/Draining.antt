-- ===== src/Sequencer/Draining.antt =====
-- `drain` ends and is bounded; and what a reaped slot does to the ordering validator.
use linnix.Prelude.{
  ℕ, zero, suc, ◌+◌, ◌≤◌, ◌<◌, ◌≡◌, ◌≢◌, refl, inl, inr, true, Option, some, List, [], ◌∷◌, ◌++◌,
  arith, length, length-append, length-map, leb, Bool-cases, if◌then◌else◌,
}
use linnix.Prelude.Keys.{nat_eq}
use linnix.Prelude.Words.{u64_mod}
use linnix.Protocol.{ProcessEvent, sequencer_ring_mask}
use linnix.Protocol.SlotFlags
use linnix.Sequencer.Producer.{Ring, slot_index}
use linnix.Sequencer.Consumer.{
  Consumer, accept, reap, check, is_stalled, turn, poll_loop, poll_batch, Turn-cases, drain_loop,
  drain, max_drain,
}
use linnix.Sequencer.Delivery.{masked}

length-poll_loop :
    (n now : ℕ) (rings : ℕ → Ring) (c : Consumer) → length (poll_loop n now rings c).1 ≤ n
unfolding poll_loop
length-poll_loop zero now rings c = omega arith
length-poll_loop (suc n) now rings c = elim (Turn-cases (turn now (rings n) c)) [
  | inl e ↦ rw (e, poll_loop) (omega arith)
  | inr (inl (c', e)) ↦ rw (e, poll_loop) (omega (arith, length-poll_loop n now rings c'))
  | inr (inr (slot, c', e)) ↦ rw (e, poll_loop) (omega (arith, length-poll_loop n now rings c'))
]

-- A poll returns no more events than it is asked for.
pub length-poll_batch :
    (max_batch_size now : ℕ) (rings : ℕ → Ring) (c : Consumer)
    → length (poll_batch max_batch_size now rings c).1 ≤ max_batch_size
unfolding poll_batch
length-poll_batch max_batch_size now rings c =
    rw length-map (length-poll_loop max_batch_size now rings _)

-- The result of a drain that ends, within its bound.
abbrev pub Drains : Option (Consumer × List ProcessEvent) → Type 0
Drains r =
    (c : Consumer) × (events : List ProcessEvent) × (r ≡ some (c, events))
    × (length events < max_drain + 1000)

-- After a poll: stop on an empty batch or at the limit, else go on.
round-Drains :
    (c : Consumer) (all_events batch : List ProcessEvent)
    (rest : Option (Consumer × List ProcessEvent))
    → length all_events < max_drain
    → length batch ≤ 1000
    → (length all_events < length (all_events ++ batch)
        → length (all_events ++ batch) < max_drain
        → Drains rest)
    → let extended = all_events ++ batch in
      Drains (elim batch [
        | [] ↦ some (c, all_events)
        | e ∷ es ↦ if leb max_drain (length extended) then some (c, extended) else rest
      ])
round-Drains c all_events [] rest h b k = (c, all_events, refl, omega arith)
round-Drains c all_events (x ∷ xs) rest h b k =
    let extended = all_events ++ (x ∷ xs) in
    let len = length-append all_events (x ∷ xs) in
    elim (Bool-cases (leb max_drain (length extended))) [
      | inl full ↦ (c, extended, rw full, omega arith)
      | inr more ↦ rw more (k (omega arith) (ground arith))
    ]

drain_loop-Drains :
    (fuel : ℕ) (clock : ℕ → ℕ) (rings : ℕ → ℕ → Ring) (c : Consumer)
    (all_events : List ProcessEvent)
    → length all_events < max_drain
    → max_drain < fuel + length all_events
    → Drains (drain_loop fuel clock rings c all_events)
unfolding drain_loop
drain_loop-Drains zero clock rings c all_events h f = absurd (omega arith)
drain_loop-Drains (suc fuel) clock rings c all_events h f =
    let result = poll_batch 1000 (clock fuel) (rings fuel) c in
    round-Drains result.0 all_events result.1
      (drain_loop fuel clock rings result.0 (all_events ++ result.1)) h
      (length-poll_batch 1000 (clock fuel) (rings fuel) c)
      (λ grows below.
        drain_loop-Drains fuel clock rings result.0 (all_events ++ result.1) below (omega arith))

-- `drain` ends whatever the rings hold and the producers do meanwhile, with fewer than 11,000 events.
pub drain-Drains :
    (clock : ℕ → ℕ) (rings : ℕ → ℕ → Ring) (c : Consumer) → Drains (drain clock rings c)
unfolding drain
drain-Drains clock rings c =
    drain_loop-Drains (max_drain + 1) clock rings c [] (omega arith) (omega arith)

-- A consumer in step with its validator, with room below 2 ^ 64, is at a slot being written for
-- longer than the timeout, and the next slot is ready with its ticket. Two turns pass the first
-- and deliver the second, in order, and count it as an ordering violation.
pub reap_counts_violation :
    (now : ℕ) (ring : Ring) (c : Consumer) (last : ℕ)
    → c.mask ≡ sequencer_ring_mask
    → c.validator.last_ticket ≡ some last
    → c.cursor ≡ last + 1
    → last + 3 < u64_mod
    → c.stats.ordering_violations + 1 < u64_mod
    → (ring (slot_index c.cursor)).flags ≡ SlotFlags.writing
    → (ring (slot_index c.cursor)).ticket_id ≡ c.cursor
    → (ring (slot_index c.cursor)).reserved_at_ns ≢ 0
    → is_stalled now (ring (slot_index c.cursor)) c ≡ true
    → (ring (slot_index (c.cursor + 1))).flags ≡ SlotFlags.ready
    → (ring (slot_index (c.cursor + 1))).ticket_id ≡ c.cursor + 1
    → let (c', slots) = poll_loop 2 now (λ k. ring) c in
      (slots ≡ ring (slot_index (c.cursor + 1)) ∷ [])
      × (c'.stats.ordering_violations ≡ c.stats.ordering_violations + 1)
unfolding poll_loop turn reap accept check
reap_counts_violation now ring c last m v cur room room' fl tk re st fl' tk' =
    ground (arith, masked c.cursor c.mask m, masked (c.cursor + 1) c.mask m)

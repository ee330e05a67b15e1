-- ===== src/Sequencer/Consumer.antt =====
-- cognitod/src/runtime/sequencer.rs: the consumer. The ring may change between two turns of the
-- loop, so a poll takes the ring of each turn; the ring of a turn is made up of what its reads of the
-- slot have seen, at whatever moments (Sequencer/Interleaving has them one by one). A delivered slot
-- is kept whole until `poll_batch` returns the events.
use linnix.Prelude.{
  ℕ, zero, suc, ◌+◌, ◌-◌, ◌*◌, ◌%◌, ◌≡◌, refl, ◌⊎◌, inl, inr, Bool, true, false, Option, none, some,
  List, [], ◌∷◌, ◌++◌, map, ltb, leb, if◌then◌else◌, length, bit_and, max,
}
use linnix.Prelude.Keys.{◌==◌, nat_eq}
use linnix.Prelude.Words.{add64, u64_mod}
use linnix.Protocol.{ProcessEvent, SequencedSlot, sequencer_ring_mask, reaper_timeout_ns, zeroed}
use linnix.Protocol.SlotFlags
use linnix.Sequencer.Producer.{Ring}

pub record SequencerStats : Type 0 where
  pub events_processed : ℕ
  pub events_reaped : ℕ
  pub events_abandoned : ℕ
  pub poll_cycles : ℕ
  pub max_batch_size : ℕ
  pub ordering_violations : ℕ

abbrev pub no_stats : SequencerStats
no_stats = record {
  events_processed = 0;
  events_reaped = 0;
  events_abandoned = 0;
  poll_cycles = 0;
  max_batch_size = 0;
  ordering_violations = 0;
}

pub record OrderingValidator : Type 0 where
  pub last_ticket : Option ℕ
  pub violations : ℕ

-- `OrderingValidator::check`
unfoldable pub check : OrderingValidator → ℕ → OrderingValidator × Bool
check v ticket = elim v.last_ticket [
  | none ↦ (record v { last_ticket = some ticket }, true)
  | some last ↦
      if ticket == add64 last 1
      then (record v { last_ticket = some ticket }, true)
      else (record v { violations = add64 v.violations 1; last_ticket = some ticket }, false)
]

pub record Consumer : Type 0 where
  pub cursor : ℕ
  pub mask : ℕ
  pub validator : OrderingValidator
  pub stats : SequencerStats
  pub timeout_ns : ℕ

-- `SequencerConsumer::from_fd`, once the ring is mapped and zeroed.
abbrev pub fresh : Consumer
fresh = record {
  cursor = 0;
  mask = sequencer_ring_mask;
  validator = record { last_ticket = none; violations = 0 };
  stats = no_stats;
  timeout_ns = reaper_timeout_ns;
}

-- `zero_ring_buffer`
abbrev pub zeroed_ring : Ring
zeroed_ring i = zeroed

abbrev pub set_cursor : Consumer → ℕ → Consumer
set_cursor c cursor = record c { cursor = cursor }

abbrev pub set_reaper_timeout_ms : Consumer → ℕ → Consumer
set_reaper_timeout_ms c timeout_ms = record c { timeout_ns = timeout_ms * 1000000 % u64_mod }

-- One turn of the loop: `break`, go on, or go on with a slot pushed.
pub data Turn : Type 0 where
  stop : Turn
  skip : Consumer → Turn
  deliver : SequencedSlot → Consumer → Turn

pub Turn-cases :
    (t : Turn)
    → (t ≡ stop)
      ⊎ ((c : Consumer) × (t ≡ skip c))
      ⊎ ((slot : SequencedSlot) × (c : Consumer) × (t ≡ deliver slot c))
Turn-cases stop = inl refl
Turn-cases (skip c) = inr (inl (c, refl))
Turn-cases (deliver slot c) = inr (inr (slot, c, refl))

-- The slot of the cursor is READY, with the ticket of the cursor.
unfoldable pub accept : SequencedSlot → Consumer → Consumer
accept slot c =
    let (v, in_order) = check c.validator slot.ticket_id in
    record c {
      cursor = add64 c.cursor 1;
      validator = v;
      stats = record c.stats {
        ordering_violations =
            if in_order then c.stats.ordering_violations else add64 c.stats.ordering_violations 1;
        events_processed = add64 c.stats.events_processed 1;
      };
    }

-- READY with a later ticket: go on from there.
unfoldable pub resync : SequencedSlot → Consumer → Consumer
resync slot c = record c {
  cursor = slot.ticket_id;
  stats = record c.stats { ordering_violations = add64 c.stats.ordering_violations 1 };
}

-- WRITING for too long: leave the slot.
unfoldable pub reap : Consumer → Consumer
reap c = record c {
  cursor = add64 c.cursor 1;
  stats = record c.stats { events_reaped = add64 c.stats.events_reaped 1 };
}

unfoldable pub pass_abandoned : Consumer → Consumer
pass_abandoned c = record c {
  cursor = add64 c.cursor 1;
  stats = record c.stats { events_abandoned = add64 c.stats.events_abandoned 1 };
}

abbrev pub ready_turn : SequencedSlot → Consumer → Turn
ready_turn slot c =
    if slot.ticket_id == c.cursor
    then deliver slot (accept slot c)
    else if ltb slot.ticket_id c.cursor
    then stop
    else skip (resync slot c)

-- `now_ns.saturating_sub(reserved_at) > self.reaper_timeout_ns`
abbrev pub is_stalled : ℕ → SequencedSlot → Consumer → Bool
is_stalled now slot c = ltb c.timeout_ns (now - slot.reserved_at_ns)

abbrev pub writing_turn : ℕ → SequencedSlot → Consumer → Turn
writing_turn now slot c =
    if slot.ticket_id == c.cursor
    then (if slot.reserved_at_ns == 0
        then stop
        else if is_stalled now slot c
        then skip (reap c)
        else stop)
    else stop

-- The flags in the order of the `match`; an unknown flag stops the loop either way.
abbrev pub read_slot : ℕ → SequencedSlot → Consumer → Turn
read_slot now slot c =
    if slot.flags == SlotFlags.ready
    then ready_turn slot c
    else if slot.flags == SlotFlags.writing
    then writing_turn now slot c
    else if slot.flags == SlotFlags.empty
    then stop
    else if slot.flags == SlotFlags.abandoned
    then skip (pass_abandoned c)
    else stop

unfoldable pub turn : ℕ → Ring → Consumer → Turn
turn now ring c = read_slot now (ring (bit_and c.cursor c.mask)) c

-- The loop, by the turns left: `rings n` is the ring that the turn with `n` turns left reads.
unfoldable pub poll_loop : ℕ → ℕ → (ℕ → Ring) → Consumer → Consumer × List SequencedSlot
poll_loop zero now rings c = (c, [])
poll_loop (suc n) now rings c = elim (turn now (rings n) c) [
  | stop ↦ (c, [])
  | skip c' ↦ poll_loop n now rings c'
  | deliver slot c' ↦ let (c'', slots) = poll_loop n now rings c' in (c'', slot ∷ slots)
]

-- `now` is `get_boot_time_ns`.
unfoldable pub poll_batch : ℕ → ℕ → (ℕ → Ring) → Consumer → Consumer × List ProcessEvent
poll_batch max_batch_size now rings c =
    let started = record c {
      stats = record c.stats { poll_cycles = add64 c.stats.poll_cycles 1 };
    } in
    let (c', slots) = poll_loop max_batch_size now rings started in
    (
      record c' {
        stats = record c'.stats { max_batch_size = max c'.stats.max_batch_size (length slots) };
      },
      map (λ slot. slot.event) slots,
    )

abbrev pub max_drain : ℕ
max_drain = 10000

-- The loop of `drain`, with fuel; `clock k` and `rings k` are the time and the rings of the poll
-- with `k` units of fuel left after it.
unfoldable pub drain_loop :
    ℕ
    → (ℕ → ℕ)
    → (ℕ → ℕ → Ring)
    → Consumer
    → List ProcessEvent
    → Option (Consumer × List ProcessEvent)
drain_loop zero clock rings c all_events = none
drain_loop (suc fuel) clock rings c all_events =
    let (c', batch) = poll_batch 1000 (clock fuel) (rings fuel) c in
    let extended = all_events ++ batch in
    let rest = drain_loop fuel clock rings c' extended in
    elim batch [
      | [] ↦ some (c', all_events)
      | e ∷ es ↦ if leb max_drain (length extended) then some (c', extended) else rest
    ]

-- Each round but the last adds an event, so there are at most `max_drain` rounds and the last.
unfoldable pub drain : (ℕ → ℕ) → (ℕ → ℕ → Ring) → Consumer → Option (Consumer × List ProcessEvent)
drain clock rings c = drain_loop (max_drain + 1) clock rings c []

-- ===== src/Sequencer/Interleaving.antt =====
-- Any number of calls of `submit_to_sequencer` (linnix-ai-ebpf/linnix-ai-ebpf-ebpf/src/program.rs) and
-- the turns of the consumer (cognitod/src/runtime/sequencer.rs), interleaved write by write and read by
-- read. A ticket belongs to one call, so the ticket stands for its call. Writes are seen in the order of
-- the program.
use linnix.Prelude.{ℕ, ◌+◌, ◌-◌, ◌<◌, ◌≡◌, ◌≢◌, ◌⊎◌, List, [], ◌∷◌, if◌then◌else◌, bit_and}
use linnix.Prelude.Keys.{◌==◌, nat_eq}
use linnix.Prelude.Words.{u64_mod}
use linnix.Protocol.{ProcessEvent, SequencedSlot, sequencer_ring_size}
use linnix.Protocol.SlotFlags
use linnix.Sequencer.Producer.{
  Ring, Sequencer, idle, reserve, mark_writing, write_ticket, write_time, write_event, commit,
}
use linnix.Sequencer.Consumer.{Consumer, fresh, Turn, stop, skip, deliver, read_slot}

-- The last write that a call has done.
pub data Phase : Type 0 where
  reserved marked ticketed timed filled committed : Phase

abbrev pub next_phase : Phase → Phase
next_phase reserved = marked
next_phase marked = ticketed
next_phase ticketed = timed
next_phase timed = filled
next_phase filled = committed
next_phase committed = committed

-- The next write of the call with the ticket, its event and its time.
abbrev pub next_write : ℕ → ProcessEvent → ℕ → Phase → Ring → Ring
next_write ticket event now reserved ring = mark_writing ticket ring
next_write ticket event now marked ring = write_ticket ticket ring
next_write ticket event now ticketed ring = write_time ticket now ring
next_write ticket event now timed ring = write_event ticket event ring
next_write ticket event now filled ring = commit ticket ring
next_write ticket event now committed ring = ring

-- The log holds the delivered slots, the newest first.
pub record World : Type 0 where
  pub shared : Sequencer
  pub phase : ℕ → Phase
  pub consumer : Consumer
  pub log : List SequencedSlot

abbrev pub start : World
start = record { shared = idle; phase = λ ticket. committed; consumer = fresh; log = [] }

abbrev pub set_phase : (ℕ → Phase) → ℕ → Phase → ℕ → Phase
set_phase phase ticket p t = if ticket == t then p else phase t

abbrev pub begin : World → World
begin w =
    let (ticket, shared) = reserve w.shared in
    record w { shared = shared; phase = set_phase w.phase ticket reserved }

abbrev pub advance : (ℕ → ProcessEvent) → (ℕ → ℕ) → ℕ → World → World
advance payload clock ticket w = record w {
  shared = record w.shared {
    ring = next_write ticket (payload ticket) (clock ticket) (w.phase ticket) w.shared.ring;
  };
  phase = set_phase w.phase ticket (next_phase (w.phase ticket));
}

abbrev pub after_turn : World → Turn → World
after_turn w stop = w
after_turn w (skip c) = record w { consumer = c }
after_turn w (deliver slot c) = record w { consumer = c; log = slot ∷ w.log }

abbrev pub under_cursor : World → SequencedSlot
under_cursor w = w.shared.ring (bit_and w.consumer.cursor w.consumer.mask)

-- The last reads of the turn that the consumer is in: `flags`, then `ticket_id`.
pub data Seen : Type 0 where
  nothing : Seen
  flags_seen : ℕ → Seen
  ticket_seen : ℕ → ℕ → Seen

-- The end of a turn of `poll_batch`, with what it has read and `now` for `get_boot_time_ns`: the time or
-- the event is read, and the turn is done.
abbrev pub finish : ℕ → ℕ → ℕ → World → World
finish now flags ticket w =
    let slot = record (under_cursor w) { flags = flags; ticket_id = ticket } in
    after_turn w (read_slot now slot w.consumer)

pub record Run : Type 0 where
  pub world : World
  pub seen : Seen

abbrev pub first : Run
first = record { world = start; seen = nothing }

module _ (payload : ℕ → ProcessEvent) (clock : ℕ → ℕ) where
  -- A call begins before the counter wraps, when the consumer is less than a lap behind and the call
  -- that had the slot before is done. The call of the cursor does not write its ticket between the reads
  -- of READY and of the ticket in one turn. Any other write may come between the reads of a turn.
  pub data Step (r : Run) : Run → Type 0 where
    begins :
        r.world.shared.next_ticket + 1 < u64_mod
        → r.world.shared.next_ticket < r.world.consumer.cursor + sequencer_ring_size
        → ((r.world.shared.next_ticket < sequencer_ring_size)
            ⊎ (r.world.phase (r.world.shared.next_ticket - sequencer_ring_size) ≡ committed))
        → Step r (record r { world = begin r.world })
    writes :
        (ticket : ℕ)
        → ticket < r.world.shared.next_ticket
        → (r.seen ≡ flags_seen SlotFlags.ready
            → ticket ≡ r.world.consumer.cursor
            → r.world.phase ticket ≢ marked)
        → Step r (record r { world = advance payload clock ticket r.world })
    reads_flags :
        r.seen ≡ nothing → Step r (record r { seen = flags_seen (under_cursor r.world).flags })
    reads_ticket :
        (flags : ℕ)
        → r.seen ≡ flags_seen flags
        → Step r (record r { seen = ticket_seen flags (under_cursor r.world).ticket_id })
    finishes :
        (now flags ticket : ℕ)
        → r.seen ≡ ticket_seen flags ticket
        → Step r (record { world = finish now flags ticket r.world; seen = nothing })

  pub data Reach : Run → Type 0 where
    here : Reach first
    next : {r r' : Run} → Reach r → Step r r' → Reach r'

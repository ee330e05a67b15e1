-- ===== src/Sequencer/Producer.antt =====
-- `submit_to_sequencer` of linnix-ai-ebpf/linnix-ai-ebpf-ebpf/src/program.rs, write by write. The
-- ring is a function of the index; MASK keeps an index in range, so `get_ptr_mut` finds a slot.
use linnix.Prelude.{ℕ, ◌%◌, ◌<◌, ◌≡◌, bit_and, if◌then◌else◌, arith}
use linnix.Prelude.Bits.{bit_and-mask}
use linnix.Prelude.Keys.{◌==◌, nat_eq}
use linnix.Prelude.Words.{add64, u32_mod}
use linnix.Protocol.{ProcessEvent, SequencedSlot, sequencer_ring_mask, sequencer_ring_size, zeroed}
use linnix.Protocol.SlotFlags

abbrev pub Ring : Type 0
Ring = ℕ → SequencedSlot

-- SEQUENCER_RING, and GLOBAL_SEQUENCER, the next ticket.
pub record Sequencer : Type 0 where
  pub ring : Ring
  pub next_ticket : ℕ

abbrev pub idle : Sequencer
idle = record { ring = λ i. zeroed; next_ticket = 0 }

-- `(ticket & MASK) as u32`
unfoldable pub slot_index : ℕ → ℕ
slot_index ticket = bit_and ticket sequencer_ring_mask % u32_mod

pub slot_index-eq : (ticket : ℕ) → slot_index ticket ≡ ticket % sequencer_ring_size
unfolding slot_index
slot_index-eq ticket = omega (arith, bit_and-mask 20 ticket)

-- The masked index always lies in the ring, so the lookup of the slot cannot fail.
pub slot_index-lt : (ticket : ℕ) → slot_index ticket < sequencer_ring_size
slot_index-lt ticket = omega (arith, slot_index-eq ticket)

-- A volatile write through `slot_ptr`.
abbrev pub update : Ring → ℕ → (SequencedSlot → SequencedSlot) → Ring
update ring i f j = if i == j then f (ring j) else ring j

-- Step 1: `atomic_xadd`.
abbrev pub reserve : Sequencer → ℕ × Sequencer
reserve s = (s.next_ticket, record s { next_ticket = add64 s.next_ticket 1 })

-- Step 3: flags, ticket, time, in this order.
abbrev pub mark_writing : ℕ → Ring → Ring
mark_writing ticket ring =
    update ring (slot_index ticket) (λ slot. record slot { flags = SlotFlags.writing })

abbrev pub write_ticket : ℕ → Ring → Ring
write_ticket ticket ring =
    update ring (slot_index ticket) (λ slot. record slot { ticket_id = ticket })

abbrev pub write_time : ℕ → ℕ → Ring → Ring
write_time ticket now ring =
    update ring (slot_index ticket) (λ slot. record slot { reserved_at_ns = now })

-- Step 4
abbrev pub write_event : ℕ → ProcessEvent → Ring → Ring
write_event ticket event ring =
    update ring (slot_index ticket) (λ slot. record slot { event = event })

-- Step 5
abbrev pub commit : ℕ → Ring → Ring
commit ticket ring =
    update ring (slot_index ticket) (λ slot. record slot { flags = SlotFlags.ready })

-- The whole call, with `now` for `bpf_ktime_get_ns`. It never fails.
unfoldable pub submit_to_sequencer : ℕ → ProcessEvent → Sequencer → Sequencer
submit_to_sequencer now event s =
    let (ticket, s') = reserve s in
    record s' {
      ring = commit ticket (
          write_event ticket event
            (write_time ticket now (write_ticket ticket (mark_writing ticket s'.ring))));
    }

-- `submit_to_sequencer_direct`: the caller's fields go straight into the slot, and its time stamp is
-- the time of the reservation.
unfoldable pub submit_to_sequencer_direct :
    (pid ppid uid gid event_type ts_ns comm cpu_pct_milli mem_pct_milli payload payload2 aux
      aux2 : ℕ)
    → Sequencer
    → Sequencer
submit_to_sequencer_direct pid ppid uid gid event_type ts_ns comm cpu_pct_milli mem_pct_milli
      payload payload2 aux aux2 s =
    let (ticket, s') = reserve s in
    record s' {
      ring = commit ticket (
          write_event ticket
            (record {
              pid = pid;
              ppid = ppid;
              uid = uid;
              gid = gid;
              event_type = event_type;
              ts_ns = ts_ns;
              seq = 0;
              comm = comm;
              exit_time_ns = 0;
              cpu_pct_milli = cpu_pct_milli;
              mem_pct_milli = mem_pct_milli;
              payload = payload;
              payload2 = payload2;
              aux = aux;
              aux2 = aux2;
            })
            (write_time ticket ts_ns (write_ticket ticket (mark_writing ticket s'.ring))));
    }

-- ===== src/Sequencer/Calls.antt =====
-- What a call of `submit_to_sequencer` keeps true of the ring, whatever the others do.
use linnix.Prelude.{
  ℕ, ◌+◌, ◌≤◌, ◌<◌, ◌≡◌, refl, sym, ap, ◌⊎◌, inl, inr, false, length, ltb, arith, Bool-cases,
}
use mathlib.Core.Path.{subst}
use linnix.Prelude.Keys.{◌==◌, nat_eq, ==→eq, ==_refl}
use linnix.Prelude.Words.{u64_mod}
use linnix.Protocol.{ProcessEvent, sequencer_ring_size, sequencer_ring_mask}
use linnix.Sequencer.Producer.{slot_index}
use linnix.Sequencer.Interleaving.{committed, World, advance}
use linnix.Sequencer.Phases.{SlotAt-write, next_write-other, slots_apart, SlotAt, Untouched, Whole}

module _ (payload : ℕ → ProcessEvent) (clock : ℕ → ℕ) where
  pub record Invariant (w : World) : Type 0 where
    pub room : w.shared.next_ticket < u64_mod
    pub mask : w.consumer.mask ≡ sequencer_ring_mask
    pub behind : w.consumer.cursor ≤ w.shared.next_ticket
    pub lap : w.shared.next_ticket ≤ w.consumer.cursor + sequencer_ring_size
    pub slots :
        (t : ℕ)
        → t < w.shared.next_ticket
        → w.shared.next_ticket ≤ t + sequencer_ring_size
        → SlotAt (payload t) t (w.phase t) (w.shared.ring (slot_index t))
    pub untouched :
        (t : ℕ)
        → w.shared.next_ticket ≤ t
        → t < sequencer_ring_size
        → Untouched (w.shared.ring (slot_index t))
    pub done : (t : ℕ) → t + sequencer_ring_size < w.shared.next_ticket → w.phase t ≡ committed
    pub whole : Whole payload w.consumer.cursor w.log
    pub accounted : length w.log + w.consumer.stats.events_reaped ≡ w.consumer.cursor

  -- A call that is done, or whose slot is another, leaves the slot of a ticket.
  pub advance-keeps :
      (w : World) (t s : ℕ)
      → (t == s) ≡ false
      → t < s + sequencer_ring_size
      → (s < t + sequencer_ring_size) ⊎ (w.phase t ≡ committed)
      → (advance payload clock t w).shared.ring (slot_index s) ≡ w.shared.ring (slot_index s)
  advance-keeps w t s apart near (inl near') =
      next_write-other payload clock t (clock t) (slot_index s) (w.phase t) w.shared.ring
        (slots_apart payload clock t s apart near near')
  advance-keeps w t s apart near (inr finished) = rw finished refl

  -- A call is done, or its ticket is of the last lap.
  pub done_or_recent :
      (w : World) (t s : ℕ)
      → Invariant w
      → s < w.shared.next_ticket
      → (s < t + sequencer_ring_size) ⊎ (w.phase t ≡ committed)
  done_or_recent w t s inv below =
      elim (Bool-cases (ltb (t + sequencer_ring_size) w.shared.next_ticket)) [
        | inl old ↦ inr (inv.done t (ground (arith, old)))
        | inr recent ↦ inl (ground (arith, recent))
      ]

  advance-slots :
      (w : World) (t : ℕ)
      → t < w.shared.next_ticket
      → Invariant w
      → (s : ℕ) → s < w.shared.next_ticket
      → w.shared.next_ticket ≤ s + sequencer_ring_size
      → let w' = advance payload clock t w in
        SlotAt (payload s) s (w'.phase s) (w'.shared.ring (slot_index s))
  advance-slots w t given inv s below recent = elim (Bool-cases (t == s)) [
    | inl same ↦
        subst
          (λ (k : ℕ).
            let w' = advance payload clock t w in
            SlotAt (payload k) k (w'.phase k) (w'.shared.ring (slot_index k)))
          (==→eq t s same)
          (rw (==_refl t) (
            SlotAt-write payload clock t (clock t) (w.phase t) w.shared.ring
              (inv.slots t given (omega (arith, recent, ==→eq t s same)))))
    | inr apart ↦
        rw (apart, advance-keeps w t s apart (omega arith) (done_or_recent w t s inv below))
          (inv.slots s below recent)
  ]

  pub advance-done :
      (w : World) (t s : ℕ)
      → w.phase s ≡ committed
      → (advance payload clock t w).phase s ≡ committed
  advance-done w t s finished = elim (Bool-cases (t == s)) [
    | inr apart ↦ rw apart finished
    | inl same ↦ rw (same, ap w.phase (==→eq t s same), finished) refl
  ]

  pub advance-Invariant :
      (w : World) (t : ℕ)
      → t < w.shared.next_ticket
      → Invariant w
      → Invariant (advance payload clock t w)
  advance-Invariant w t given inv = record {
    room = inv.room;
    mask = inv.mask;
    behind = inv.behind;
    lap = inv.lap;
    slots = advance-slots w t given inv;
    untouched = λ s above small.
        let apart : (t == s) ≡ false = ground arith in
        subst Untouched (sym (advance-keeps w t s apart (omega arith) (inl (omega arith))))
          (inv.untouched s above small);
    done = λ s old. advance-done w t s (inv.done s old);
    whole = inv.whole;
    accounted = inv.accounted;
  }

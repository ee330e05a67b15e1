-- ===== src/Sequencer/Begin.antt =====
-- A call of `submit_to_sequencer` begins: its slot is free.
use linnix.Prelude.{ℕ, ◌+◌, ◌-◌, ◌≤◌, ◌<◌, ◌≡◌, ◌⊎◌, inl, inr, false, ltb, arith, Bool-cases}
use mathlib.Core.Path.{subst}
use linnix.Prelude.Keys.{◌==◌, nat_eq, ==→eq, ==_refl}
use linnix.Prelude.Words.{add64, u64_mod}
use linnix.Protocol.{ProcessEvent, sequencer_ring_size}
use linnix.Sequencer.Producer.{slot_index, slot_index-eq}
use linnix.Sequencer.Interleaving.{reserved, committed, World, begin}
use linnix.Sequencer.Phases.{SlotAt}
use linnix.Sequencer.Calls.{Invariant}

module _ (payload : ℕ → ProcessEvent) (clock : ℕ → ℕ) where
  -- A new call: its slot is free.
  begin-first :
      (w : World)
      → Invariant payload clock w
      → w.shared.next_ticket < sequencer_ring_size
      → let t = w.shared.next_ticket in SlotAt (payload t) t reserved (w.shared.ring (slot_index t))
  begin-first w inv first_lap =
      let fresh_slot = inv.untouched w.shared.next_ticket (omega arith) first_lap in
      (inl fresh_slot.0, omega (arith, fresh_slot.1))

  -- The slot of a ticket a lap before the next one.
  pub lap_before :
      (w : World)
      → Invariant payload clock w
      → sequencer_ring_size ≤ w.shared.next_ticket
      → let old = w.shared.next_ticket - sequencer_ring_size in
        SlotAt (payload old) old (w.phase old) (w.shared.ring (slot_index w.shared.next_ticket))
  lap_before w inv later =
      let t = w.shared.next_ticket in
      let old = t - sequencer_ring_size in
      let slot_eq : slot_index old ≡ slot_index t =
        omega (arith, slot_index-eq old, slot_index-eq t) in
      subst (λ (i : ℕ). SlotAt (payload old) old (w.phase old) (w.shared.ring i)) slot_eq
        (inv.slots old (omega arith) (omega arith))

  begin-slot :
      (w : World)
      → Invariant payload clock w
      → ((w.shared.next_ticket < sequencer_ring_size)
          ⊎ (w.phase (w.shared.next_ticket - sequencer_ring_size) ≡ committed))
      → let t = w.shared.next_ticket in SlotAt (payload t) t reserved (w.shared.ring (slot_index t))
  begin-slot w inv (inl first_lap) = begin-first w inv first_lap
  begin-slot w inv (inr finished) =
      elim (Bool-cases (ltb w.shared.next_ticket sequencer_ring_size)) [
        | inl first_lap ↦ begin-first w inv (ground (arith, first_lap))
        | inr later ↦
            let t = w.shared.next_ticket in
            let old = t - sequencer_ring_size in
            let there =
              subst (λ p. SlotAt (payload old) old p (w.shared.ring (slot_index t))) finished
                (lap_before w inv (ground (arith, later))) in
            (inr (there.0, ground (arith, later, there.1)), ground (arith, later, there.1))
      ]

  begin-slots :
      (w : World)
      → w.shared.next_ticket + 1 < u64_mod
      → ((w.shared.next_ticket < sequencer_ring_size)
          ⊎ (w.phase (w.shared.next_ticket - sequencer_ring_size) ≡ committed))
      → Invariant payload clock w
      → (s : ℕ) → s < w.shared.next_ticket + 1
      → w.shared.next_ticket + 1 ≤ s + sequencer_ring_size
      → SlotAt (payload s) s ((begin w).phase s) (w.shared.ring (slot_index s))
  begin-slots w room free inv s below recent = elim (Bool-cases (w.shared.next_ticket == s)) [
    | inl same ↦
        subst (λ (k : ℕ). SlotAt (payload k) k ((begin w).phase k) (w.shared.ring (slot_index k)))
          (==→eq w.shared.next_ticket s same)
          (rw (==_refl w.shared.next_ticket) (begin-slot w inv free))
    | inr apart ↦ rw apart (inv.slots s (ground arith) (omega arith))
  ]

  begin-done :
      (w : World)
      → ((w.shared.next_ticket < sequencer_ring_size)
          ⊎ (w.phase (w.shared.next_ticket - sequencer_ring_size) ≡ committed))
      → Invariant payload clock w
      → (s : ℕ) → s + sequencer_ring_size < w.shared.next_ticket + 1
      → (begin w).phase s ≡ committed
  begin-done w free inv s old =
      let apart : (w.shared.next_ticket == s) ≡ false = ground arith in
      rw apart (elim (Bool-cases (ltb (s + sequencer_ring_size) w.shared.next_ticket)) [
        | inl older ↦ inv.done s (ground (arith, older))
        | inr just ↦ elim free [
          | inl first_lap ↦ absurd (omega arith)
          | inr finished ↦
              let is_s : w.shared.next_ticket - sequencer_ring_size ≡ s = ground (arith, just) in
              subst (λ (k : ℕ). w.phase k ≡ committed) is_s finished
        ]
      ])

  pub begin-Invariant :
      (w : World)
      → w.shared.next_ticket + 1 < u64_mod
      → w.shared.next_ticket < w.consumer.cursor + sequencer_ring_size
      → ((w.shared.next_ticket < sequencer_ring_size)
          ⊎ (w.phase (w.shared.next_ticket - sequencer_ring_size) ≡ committed))
      → Invariant payload clock w
      → Invariant payload clock (begin w)
  begin-Invariant w room near free inv =
      let counted : add64 w.shared.next_ticket 1 ≡ w.shared.next_ticket + 1 = omega arith in
      record {
        room = omega (arith, counted);
        mask = inv.mask;
        behind = omega (arith, counted, inv.behind);
        lap = omega (arith, counted);
        slots = λ s below recent.
            begin-slots w room free inv s (omega (arith, counted, below))
              (omega (arith, counted, recent));
        untouched = λ s above small. inv.untouched s (omega (arith, counted, above)) small;
        done = λ s old. begin-done w free inv s (omega (arith, counted, old));
        whole = inv.whole;
        accounted = inv.accounted;
      }

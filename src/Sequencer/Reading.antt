-- ===== src/Sequencer/Reading.antt =====
-- What a turn of the consumer (cognitod/src/runtime/sequencer.rs) knows of its slot after each of its reads,
-- whatever the calls write in between.
use linnix.Prelude.{
  ℕ, ◌+◌, ◌-◌, ◌≤◌, ◌<◌, ◌≡◌, ◌≢◌, refl, sym, ap, ◌∙◌, ◌⊎◌, inl, inr, false, ltb, arith, bit_and,
  Bool-cases,
}
use mathlib.Core.Path.{subst}
use linnix.Prelude.Bits.{bit_and-mask}
use linnix.Prelude.Keys.{◌==◌, nat_eq, ==→eq, ==_refl}
use linnix.Prelude.Words.{u64_mod}
use linnix.Protocol.{ProcessEvent, SequencedSlot, sequencer_ring_size}
use linnix.Protocol.SlotFlags
use linnix.Sequencer.Producer.{slot_index, slot_index-eq}
use linnix.Sequencer.Interleaving.{
  Phase, reserved, marked, ticketed, timed, filled, committed, World, begin, advance, under_cursor,
  Seen, nothing, flags_seen, ticket_seen,
}
use linnix.Sequencer.Phases.{SlotAt}
use linnix.Sequencer.Calls.{Invariant, advance-keeps, done_or_recent, advance-done}
use linnix.Sequencer.Begin.{lap_before}
use linnix.Sequencer.Sighting.{Sight}

abbrev at_cursor : World → SequencedSlot
at_cursor w = w.shared.ring (slot_index w.consumer.cursor)

-- The call of the cursor has begun.
abbrev Given : World → Type 0
Given w = w.consumer.cursor < w.shared.next_ticket

-- It has not, and the slot has been used.
abbrev CaughtUp : World → Type 0
CaughtUp w = (w.shared.next_ticket ≡ w.consumer.cursor) × (sequencer_ring_size ≤ w.consumer.cursor)

-- READY was read: the call of the cursor is done, or it has not written its ticket, or has not begun.
abbrev Ready : World → Type 0
Ready w =
    (Given w × (w.phase w.consumer.cursor ≡ committed))
    ⊎ ((Given w
          × ((w.phase w.consumer.cursor ≡ reserved) ⊎ (w.phase w.consumer.cursor ≡ marked))
          × ((at_cursor w).ticket_id < w.consumer.cursor))
        ⊎ CaughtUp w)

abbrev pub Knows : World → Seen → Type 0
Knows w nothing = Unit
Knows w (flags_seen f) =
    ((f ≡ SlotFlags.ready) × Ready w)
    ⊎ (((f ≡ SlotFlags.writing) × (Given w ⊎ CaughtUp w)) ⊎ (f ≡ SlotFlags.empty))
Knows w (ticket_seen f t) =
    ((f ≡ SlotFlags.ready)
      × (t ≡ w.consumer.cursor)
      × Given w
      × (w.phase w.consumer.cursor ≡ committed))
    ⊎ (((f ≡ SlotFlags.ready) × (t < w.consumer.cursor))
        ⊎ (((f ≡ SlotFlags.writing) × ((t < w.consumer.cursor) ⊎ Given w)) ⊎ (f ≡ SlotFlags.empty)))

module _ (payload : ℕ → ProcessEvent) (clock : ℕ → ℕ) where
  pub under_cursor-eq : (w : World) → Invariant payload clock w → under_cursor w ≡ at_cursor w
  under_cursor-eq w inv = ap w.shared.ring (
      ap (bit_and w.consumer.cursor) inv.mask
      ∙ omega (arith, bit_and-mask 20 w.consumer.cursor, slot_index-eq w.consumer.cursor))

  SlotAt-ticket :
      (t : ℕ) (p : Phase) (slot : SequencedSlot) → SlotAt (payload t) t p slot → slot.ticket_id ≤ t
  SlotAt-ticket t reserved slot at = at.1
  SlotAt-ticket t marked slot at = at.1
  SlotAt-ticket t ticketed slot at = omega (arith, at.1)
  SlotAt-ticket t timed slot at = omega (arith, at.1)
  SlotAt-ticket t filled slot at = omega (arith, at.1)
  SlotAt-ticket t committed slot at = omega (arith, at.1)

  SlotAt-flags :
      (t : ℕ) (p : Phase) (slot : SequencedSlot)
      → SlotAt (payload t) t p slot
      → (slot.flags ≡ SlotFlags.ready)
        ⊎ ((slot.flags ≡ SlotFlags.writing) ⊎ (slot.flags ≡ SlotFlags.empty))
  SlotAt-flags t reserved slot (inl vacant, at) = inr (inr vacant)
  SlotAt-flags t reserved slot (inr old, at) = inl old.0
  SlotAt-flags t marked slot at = inr (inl at.0)
  SlotAt-flags t ticketed slot at = inr (inl at.0)
  SlotAt-flags t timed slot at = inr (inl at.0)
  SlotAt-flags t filled slot at = inr (inl at.0)
  SlotAt-flags t committed slot at = inl at.0

  -- Before the call of the cursor begins, its slot has the ticket of a lap before.
  CaughtUp-ticket :
      (w : World)
      → Invariant payload clock w
      → CaughtUp w
      → (at_cursor w).ticket_id < w.consumer.cursor
  CaughtUp-ticket w inv (same, later) =
      let old = w.shared.next_ticket - sequencer_ring_size in
      let at = lap_before payload clock w inv (omega (arith, same, later)) in
      let low = SlotAt-ticket old (w.phase old) _ at in
      subst (λ (k : ℕ). (w.shared.ring (slot_index k)).ticket_id < k) same
        (omega (arith, low, same, later))

  Given-cases :
      (w : World)
      → Invariant payload clock w
      → Given w ⊎ (CaughtUp w ⊎ ((at_cursor w).flags ≡ SlotFlags.empty))
  Given-cases w inv = elim (Bool-cases (ltb w.consumer.cursor w.shared.next_ticket)) [
    | inl given ↦ inl (ground (arith, given))
    | inr caught_up ↦
        let same : w.shared.next_ticket ≡ w.consumer.cursor =
          ground (arith, caught_up, inv.behind) in
        inr (elim (Bool-cases (ltb w.consumer.cursor sequencer_ring_size)) [
          | inl first_lap ↦
              inr
                (inv.untouched w.consumer.cursor (omega (arith, same))
                  (ground (arith, first_lap))).0
          | inr later ↦ inl (same, ground (arith, later))
        ])
  ]

  Knows-Given :
      (w : World) (p : Phase)
      → Given w
      → w.phase w.consumer.cursor ≡ p
      → SlotAt (payload w.consumer.cursor) w.consumer.cursor p (at_cursor w)
      → Knows w (flags_seen (at_cursor w).flags)
  Knows-Given w reserved given e (inl vacant, at) = inr (inr vacant)
  Knows-Given w reserved given e (inr old, at) = inl (old.0, inr (inl (given, inl e, old.1)))
  Knows-Given w marked given e at = inr (inl (at.0, inl given))
  Knows-Given w ticketed given e at = inr (inl (at.0, inl given))
  Knows-Given w timed given e at = inr (inl (at.0, inl given))
  Knows-Given w filled given e at = inr (inl (at.0, inl given))
  Knows-Given w committed given e at = inl (at.0, inl (given, e))

  pub Knows-flags :
      (w : World) → Invariant payload clock w → Knows w (flags_seen (at_cursor w).flags)
  Knows-flags w inv = elim (Given-cases w inv) [
    | inl given ↦
        Knows-Given w (w.phase w.consumer.cursor) given refl
          (inv.slots w.consumer.cursor given inv.lap)
    | inr (inr vacant) ↦ inr (inr vacant)
    | inr (inl caught_up) ↦
        let old = w.shared.next_ticket - sequencer_ring_size in
        let at =
          subst (λ (k : ℕ). SlotAt (payload old) old (w.phase old) (w.shared.ring (slot_index k)))
            caught_up.0
            (lap_before payload clock w inv (omega (arith, caught_up.0, caught_up.1))) in
        elim (SlotAt-flags old (w.phase old) (at_cursor w) at) [
          | inl ready ↦ inl (ready, inr (inr caught_up))
          | inr (inl writing) ↦ inr (inl (writing, inr caught_up))
          | inr (inr vacant) ↦ inr (inr vacant)
        ]
  ]

  at_committed :
      (w : World)
      → Invariant payload clock w
      → Given w
      → w.phase w.consumer.cursor ≡ committed
      → SlotAt (payload w.consumer.cursor) w.consumer.cursor committed (at_cursor w)
  at_committed w inv given finished =
      subst (λ p. SlotAt (payload w.consumer.cursor) w.consumer.cursor p (at_cursor w)) finished
        (inv.slots w.consumer.cursor given inv.lap)

  pub Knows-ticket :
      (w : World) (f : ℕ)
      → Invariant payload clock w
      → Knows w (flags_seen f)
      → Knows w (ticket_seen f (at_cursor w).ticket_id)
  Knows-ticket w f inv (inl (ready, inl (given, finished))) =
      inl (ready, (at_committed w inv given finished).1, given, finished)
  Knows-ticket w f inv (inl (ready, inr (inl (given, early, low)))) = inr (inl (ready, low))
  Knows-ticket w f inv (inl (ready, inr (inr caught_up))) =
      inr (inl (ready, CaughtUp-ticket w inv caught_up))
  Knows-ticket w f inv (inr (inl (writing, inl given))) = inr (inr (inl (writing, inr given)))
  Knows-ticket w f inv (inr (inl (writing, inr caught_up))) =
      inr (inr (inl (writing, inl (CaughtUp-ticket w inv caught_up))))
  Knows-ticket w f inv (inr (inr vacant)) = inr (inr (inr vacant))

  -- The slot as the turn has read it is one that it can act on.
  pub Knows-Sight :
      (w : World) (f t : ℕ)
      → Invariant payload clock w
      → Knows w (ticket_seen f t)
      → Sight payload w.consumer.cursor w.shared.next_ticket
          (record (at_cursor w) { flags = f; ticket_id = t })
  Knows-Sight w f t inv (inl (ready, same, given, finished)) =
      inl (ready, same, (at_committed w inv given finished).2, given)
  Knows-Sight w f t inv (inr old) = inr old

  -- A call that begins takes nothing from what is known.
  pub begin-Knows :
      (w : World) (s : Seen)
      → w.shared.next_ticket + 1 < u64_mod
      → Invariant payload clock w
      → Knows w s
      → Knows (begin w) s
  begin-Knows w nothing room inv k = tt
  begin-Knows w (flags_seen f) room inv (inl (ready, inl (given, finished))) =
      let apart : (w.shared.next_ticket == w.consumer.cursor) ≡ false = ground (arith, given) in
      inl (ready, inl (omega (arith, room, given), rw apart finished))
  begin-Knows w (flags_seen f) room inv (inl (ready, inr (inl (given, early, low)))) =
      let apart : (w.shared.next_ticket == w.consumer.cursor) ≡ false = ground (arith, given) in
      inl (ready, inr (inl (omega (arith, room, given), rw apart early, low)))
  begin-Knows w (flags_seen f) room inv (inl (ready, inr (inr caught_up))) = inl (
    ready,
    inr (
        inl (
          omega (arith, room, caught_up.0),
          inl (rw (caught_up.0, ==_refl w.consumer.cursor) refl),
          CaughtUp-ticket w inv caught_up,
        )),
  )
  begin-Knows w (flags_seen f) room inv (inr (inl (writing, inl given))) =
      inr (inl (writing, inl (omega (arith, room, given))))
  begin-Knows w (flags_seen f) room inv (inr (inl (writing, inr caught_up))) =
      inr (inl (writing, inl (omega (arith, room, caught_up.0))))
  begin-Knows w (flags_seen f) room inv (inr (inr vacant)) = inr (inr vacant)
  begin-Knows w (ticket_seen f t) room inv (inl (ready, same, given, finished)) =
      let apart : (w.shared.next_ticket == w.consumer.cursor) ≡ false = ground (arith, given) in
      inl (ready, same, omega (arith, room, given), rw apart finished)
  begin-Knows w (ticket_seen f t) room inv (inr (inl old)) = inr (inl old)
  begin-Knows w (ticket_seen f t) room inv (inr (inr (inl (writing, inl old)))) =
      inr (inr (inl (writing, inl old)))
  begin-Knows w (ticket_seen f t) room inv (inr (inr (inl (writing, inr given)))) =
      inr (inr (inl (writing, inr (omega (arith, room, given)))))
  begin-Knows w (ticket_seen f t) room inv (inr (inr (inr vacant))) = inr (inr (inr vacant))

  -- The write that marks the slot of the cursor leaves its old ticket there.
  advance-early :
      (w : World) (ticket : ℕ)
      → ticket < w.shared.next_ticket
      → (ticket ≡ w.consumer.cursor → w.phase ticket ≢ marked)
      → Invariant payload clock w
      → Given w
      → (w.phase w.consumer.cursor ≡ reserved) ⊎ (w.phase w.consumer.cursor ≡ marked)
      → (at_cursor w).ticket_id < w.consumer.cursor
      → let w' = advance payload clock ticket w in
        ((w'.phase w.consumer.cursor ≡ reserved) ⊎ (w'.phase w.consumer.cursor ≡ marked))
        × ((at_cursor w').ticket_id < w.consumer.cursor)
  advance-early w ticket below steady inv given early low =
      elim (Bool-cases (ticket == w.consumer.cursor)) [
        | inr apart ↦
            let kept =
              advance-keeps payload clock w ticket w.consumer.cursor apart
                (omega (arith, below, inv.lap))
                (done_or_recent payload clock w ticket w.consumer.cursor inv given) in
            (
              rw apart early,
              subst (λ (slot : SequencedSlot). slot.ticket_id < w.consumer.cursor) (sym kept) low,
            )
        | inl same ↦
            let e = ==→eq ticket w.consumer.cursor same in
            elim early [
              | inr at_mark ↦ absurd (steady e (ap w.phase e ∙ at_mark))
              | inl fresh ↦
                  let phase_eq : w.phase ticket ≡ reserved = ap w.phase e ∙ fresh in
                  (
                    inr (rw (same, phase_eq) refl),
                    rw (phase_eq, e, ==_refl (slot_index w.consumer.cursor)) low,
                  )
            ]
      ]

  -- Nor does a write, but the one that `Step` excludes.
  pub advance-Knows :
      (w : World) (s : Seen) (ticket : ℕ)
      → ticket < w.shared.next_ticket
      → (s ≡ flags_seen SlotFlags.ready → ticket ≡ w.consumer.cursor → w.phase ticket ≢ marked)
      → Invariant payload clock w
      → Knows w s
      → Knows (advance payload clock ticket w) s
  advance-Knows w nothing ticket below steady inv k = tt
  advance-Knows w (flags_seen f) ticket below steady inv (inl (ready, inl (given, finished))) =
      inl (ready, inl (given, advance-done payload clock w ticket w.consumer.cursor finished))
  advance-Knows w (flags_seen f) ticket below steady inv
        (inl (ready, inr (inl (given, early, low)))) =
      let kept = advance-early w ticket below (steady (ap flags_seen ready)) inv given early low in
      inl (ready, inr (inl (given, kept.0, kept.1)))
  advance-Knows w (flags_seen f) ticket below steady inv (inl (ready, inr (inr caught_up))) =
      inl (ready, inr (inr caught_up))
  advance-Knows w (flags_seen f) ticket below steady inv (inr other) = inr other
  advance-Knows w (ticket_seen f t) ticket below steady inv (inl (ready, same, given, finished)) =
      inl (ready, same, given, advance-done payload clock w ticket w.consumer.cursor finished)
  advance-Knows w (ticket_seen f t) ticket below steady inv (inr other) = inr other

-- ===== src/Context/History.antt =====
-- cognitod/src/context.rs: what pruning takes from the history, and how long the history can be.
use linnix.Prelude.{
  ℕ, ◌-◌, ◌≤◌, ◌≡◌, refl, ◌∙◌, ap, inl, inr, true, false, Bool-cases, Option, List, [], ◌∷◌, ◌++◌,
  length, length-append, ltb, arith,
}
use linnix.Prelude.Keys.{nat_eq}
use linnix.Prelude.Assoc.{lookup}
use linnix.Protocol.{ProcessEvent}
use linnix.Context.{
  ContextStore, HistoryEntry, K8sContext, add, too_old, drop_exits, drop_surplus, prune_locked,
  late_metadata, fetch_metadata, stamp_exit,
}

abbrev pub AllTooOld : ℕ → ℕ → List HistoryEntry → Type 0
AllTooOld max_age now [] = Unit
AllTooOld max_age now (entry ∷ rest) =
    (too_old max_age now entry ≡ true) × AllTooOld max_age now rest

-- The oldest entry, if there is one, is no exit that ended too long ago.
abbrev pub FrontKept : ℕ → ℕ → List HistoryEntry → Type 0
FrontKept max_age now [] = Unit
FrontKept max_age now (entry ∷ rest) = too_old max_age now entry ≡ false

-- The queue is the exits that are over, then the surplus, then what is kept.
pub record Pruned (max_age max_len now : ℕ) (queue kept : List HistoryEntry) : Type 0 where
  pub exits : List HistoryEntry
  pub surplus : List HistoryEntry
  pub parts : queue ≡ exits ++ (surplus ++ kept)
  pub over : AllTooOld max_age now exits
  pub stops : FrontKept max_age now (surplus ++ kept)
  pub many : length surplus ≡ (length queue - length exits) - max_len
  pub fits : length kept ≤ max_len

pub record Exits (max_age now : ℕ) (queue rest : List HistoryEntry) : Type 0 where
  exits : List HistoryEntry
  parts : queue ≡ exits ++ rest
  over : AllTooOld max_age now exits
  stops : FrontKept max_age now rest

drop_exits-Exits :
    (max_age now : ℕ) (queue : List HistoryEntry)
    → Exits max_age now queue (drop_exits max_age now queue)
unfolding drop_exits
drop_exits-Exits max_age now [] = record { exits = []; parts = refl; over = tt; stops = tt }
drop_exits-Exits max_age now (front ∷ queue) = elim (Bool-cases (too_old max_age now front)) [
  | inl e ↦
      let ih = drop_exits-Exits max_age now queue in
      rw e (record {
        exits = front ∷ ih.exits;
        parts = ap (λ t. front ∷ t) ih.parts;
        over = (e, ih.over);
        stops = ih.stops;
      })
  | inr e ↦ rw e (record { exits = []; parts = refl; over = tt; stops = e })
]

pub record Surplus (max_len : ℕ) (queue kept : List HistoryEntry) : Type 0 where
  surplus : List HistoryEntry
  parts : queue ≡ surplus ++ kept
  many : length surplus ≡ length queue - max_len
  fits : length kept ≤ max_len

drop_surplus-Surplus :
    (max_len : ℕ) (queue : List HistoryEntry) → Surplus max_len queue (drop_surplus max_len queue)
unfolding drop_surplus
drop_surplus-Surplus max_len [] = record {
  surplus = [];
  parts = refl;
  many = omega arith;
  fits = omega arith;
}
drop_surplus-Surplus max_len (front ∷ queue) =
    elim (Bool-cases (ltb max_len (length (front ∷ queue)))) [
      | inl e ↦
          let ih = drop_surplus-Surplus max_len queue in
          rw e (record {
            surplus = front ∷ ih.surplus;
            parts = ap (λ t. front ∷ t) ih.parts;
            many = ground (arith, ih.many, e);
            fits = ih.fits;
          })
      | inr e ↦ rw e (record {
        surplus = [];
        parts = refl;
        many = ground (arith, e);
        fits = ground (arith, e);
      })
    ]

prune_locked-Pruned :
    (max_age max_len now : ℕ) (queue : List HistoryEntry)
    → Pruned max_age max_len now queue (prune_locked max_age max_len now queue)
prune_locked-Pruned max_age max_len now queue =
    let ended = drop_exits-Exits max_age now queue in
    let rest = drop_exits max_age now queue in
    let cut = drop_surplus-Surplus max_len rest in
    record {
      exits = ended.exits;
      surplus = cut.surplus;
      parts = ended.parts ∙ ap (λ t. ended.exits ++ t) cut.parts;
      over = ended.over;
      stops = rw cut.parts at ended.stops;
      many = omega (arith, cut.many, ap length ended.parts, length-append ended.exits rest);
      fits = cut.fits;
    }

-- The entry that `add` puts at the end.
abbrev pub entry_of : Option K8sContext → ℕ → ProcessEvent → ContextStore → HistoryEntry
entry_of k8s now event s = record {
  stored_at = now;
  event = stamp_exit event (lookup event.pid s.live);
  meta = late_metadata k8s event (fetch_metadata k8s event s.live);
}

-- A call of `add` puts one entry at the end of the history. It takes entries from the front only: first
-- the exits that ended more than the age ago, as far as they go, then exactly as many as there are above
-- the limit. What is left is no longer than the limit, and its oldest entry, were there no limit, would
-- be no such exit.
pub add-Pruned :
    (k8s : Option K8sContext) (now later : ℕ) (event : ProcessEvent) (s : ContextStore)
    → Pruned s.max_age s.max_len later
        (s.inner ++ entry_of k8s now event s ∷ [])
        (add k8s now later event s).inner
unfolding add
add-Pruned k8s now later event s =
    prune_locked-Pruned s.max_age s.max_len later (s.inner ++ entry_of k8s now event s ∷ [])

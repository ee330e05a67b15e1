-- ===== src/Context/Lifecycle.antt =====
-- cognitod/src/context.rs: the life of a process in the live map, and the numbers of what is sent.
use linnix.Prelude.{
  ℕ, ◌-◌, ◌≡◌, refl, sym, ◌∙◌, ap, inl, inr, Bool, true, false, Bool-cases, ◌||◌, not, Option, none,
  some, ltb, if◌then◌else◌, arith,
}
use linnix.Prelude.Keys.{◌==◌, nat_eq, ==→eq}
use linnix.Prelude.Assoc.{Assoc, lookup, lookup-insert}
use linnix.Protocol.{ProcessEvent}
use linnix.Context.{
  ContextStore, ProcessEntry, K8sContext, K8sMetadata, new, add, stamp_exit, settle, live_entry,
  put_entry, update_live, still_kept, get_process_by_pid, fetch_metadata, late_metadata,
}
use linnix.Context.Retain.{Unique, kept_if, lookup-retain, retain-Unique, insert-Unique}

-- Stores that calls of `add` lead to.
pub data Reach : ContextStore → Type 0 where
  at_start : (max_age max_len : ℕ) → Reach (new max_age max_len)
  added :
      {s : ContextStore}
      → Reach s
      → (k8s : Option K8sContext) (now later : ℕ) (event : ProcessEvent)
      → Reach (add k8s now later event s)

-- What a process is after its event at `now`, given what it was.
abbrev pub process_after : ℕ → ProcessEvent → Option ProcessEvent → Option ProcessEvent
process_after now event known =
    if event.event_type == 0
    then some (record event { exit_time_ns = 0 })
    else if event.event_type == 1
    then elim known [ none ↦ some (record event { exit_time_ns = 0 }) | some p ↦ some p ]
    else if event.event_type == 2
    then elim known [
      | none ↦ some (record event { exit_time_ns = now })
      | some p ↦ some (record p { event_type = 2; exit_time_ns = now })
    ]
    else known

-- A process that has ended is let go once its age is reached.
abbrev pub let_go : ℕ → ℕ → Option ProcessEvent → Option ProcessEvent
let_go max_age now none = none
let_go max_age now (some p) =
    if not (p.event_type == 2) || (p.exit_time_ns == 0 || ltb (now - p.exit_time_ns) max_age)
    then some p
    else none

put_entry-Unique :
    (pid : ℕ) (found : Option ProcessEntry) (live : Assoc ℕ ProcessEntry)
    → Unique live
    → Unique (put_entry pid found live)
unfolding put_entry
put_entry-Unique pid none live unique = unique
put_entry-Unique pid (some entry) live unique = insert-Unique pid entry live unique

lookup-put_entry :
    (pid wanted : ℕ) (found : Option ProcessEntry) (live : Assoc ℕ ProcessEntry)
    → (found ≡ none → lookup pid live ≡ none)
    → lookup wanted (put_entry pid found live)
      ≡ (if pid == wanted then found else lookup wanted live)
unfolding put_entry
lookup-put_entry pid wanted none live gone = elim (Bool-cases (pid == wanted)) [
  | inl e ↦ rw e (ap (λ k. lookup k live) (sym (==→eq pid wanted e)) ∙ gone refl)
  | inr e ↦ rw e refl
]
lookup-put_entry pid wanted (some entry) live gone = lookup-insert pid wanted entry live

add-Unique :
    (k8s : Option K8sContext) (now later : ℕ) (event : ProcessEvent) (s : ContextStore)
    → Unique s.live
    → Unique (add k8s now later event s).live
unfolding add
add-Unique k8s now later event s unique =
    let settled =
      settle now (lookup event.pid s.live) (stamp_exit event (lookup event.pid s.live)) in
    let meta = late_metadata k8s event (fetch_metadata k8s event s.live) in
    retain-Unique (still_kept s.max_age now) (update_live now settled meta s.live) (
      put_entry-Unique settled.pid (live_entry now settled meta (lookup settled.pid s.live)) s.live
        unique)

Reach-Unique : (s : ContextStore) → Reach s → Unique s.live
Reach-Unique _ (at_start max_age max_len) = tt
Reach-Unique _ (added {s} reach k8s now later event) =
    add-Unique k8s now later event s (Reach-Unique s reach)

abbrev process_of : Option ProcessEntry → Option ProcessEvent
process_of none = none
process_of (some entry) = some entry.process

process_of-kept_if :
    (max_age now : ℕ) (found : Option ProcessEntry)
    → process_of (kept_if (still_kept max_age now) found) ≡ let_go max_age now (process_of found)
process_of-kept_if max_age now none = refl
process_of-kept_if max_age now (some entry) = ground arith

settled_pid :
    (now : ℕ) (event : ProcessEvent) (known : Option ProcessEntry)
    → (settle now known (stamp_exit event known)).pid ≡ event.pid
unfolding settle stamp_exit
settled_pid now event none = ground arith
settled_pid now event (some entry) = ground arith

live_entry-none :
    (now : ℕ) (event : ProcessEvent) (meta : Option K8sMetadata) (known : Option ProcessEntry)
    → live_entry now event meta known ≡ none
    → known ≡ none
unfolding live_entry
live_entry-none now event meta none h = refl
live_entry-none now event meta (some entry) h = ground arith

-- The metadata apart, the map's entry is what the event makes of the process.
process_of-live_entry :
    (now : ℕ) (event : ProcessEvent) (meta : Option K8sMetadata) (known : Option ProcessEntry)
    → process_of (live_entry now (settle now known (stamp_exit event known)) meta known)
      ≡ process_after now event (process_of known)
unfolding live_entry settle stamp_exit
process_of-live_entry now event meta none = ground arith
process_of-live_entry now event meta (some entry) = ground arith

get_process_by_pid-process_of :
    (pid : ℕ) (s : ContextStore) → get_process_by_pid pid s ≡ process_of (lookup pid s.live)
unfolding get_process_by_pid
get_process_by_pid-process_of pid s = ground arith

process_of-if :
    (b : Bool) (found other : Option ProcessEntry) (p : Option ProcessEvent)
    → process_of found ≡ p
    → process_of (if b then found else other) ≡ (if b then p else process_of other)
process_of-if true found other p h = h
process_of-if false found other p h = refl

lookup-add :
    (k8s : Option K8sContext) (now later : ℕ) (event : ProcessEvent) (s : ContextStore) (wanted : ℕ)
    → Unique s.live
    → process_of (lookup wanted (add k8s now later event s).live)
      ≡ let_go s.max_age now (
          if event.pid == wanted
          then process_after now event (process_of (lookup event.pid s.live))
          else process_of (lookup wanted s.live))
unfolding add
lookup-add k8s now later event s wanted unique =
    let known = lookup event.pid s.live in
    let settled = settle now known (stamp_exit event known) in
    let meta = late_metadata k8s event (fetch_metadata k8s event s.live) in
    let same : settled.pid ≡ event.pid = settled_pid now event known in
    let found = live_entry now settled meta known in
    let stored : update_live now settled meta s.live ≡ put_entry event.pid found s.live =
      rw same refl in
    let updated = update_live now settled meta s.live in
    let unique' : Unique updated =
      put_entry-Unique settled.pid (live_entry now settled meta (lookup settled.pid s.live)) s.live
        unique in
    ap process_of (lookup-retain (still_kept s.max_age now) wanted updated unique')
    ∙ process_of-kept_if s.max_age now (lookup wanted updated)
    ∙ ap (let_go s.max_age now) (
        ap (λ l. process_of (lookup wanted l)) stored
        ∙ ap process_of (
            lookup-put_entry event.pid wanted found s.live (live_entry-none now settled meta known))
        ∙ process_of-if (event.pid == wanted) found (lookup wanted s.live)
            (process_after now event (process_of known))
            (process_of-live_entry now event meta known))

-- After a call of `add`, in any store that such calls lead to, the process of a pid is what the event
-- makes of it if the event is the pid's, and what it was otherwise: an exec starts it anew, a fork starts
-- it unless it is known, an exit ends it now, or is kept as a process that ended now. A process that has
-- ended is gone once the age is reached, and nothing else goes.
pub add-get_process_by_pid :
    (s : ContextStore)
    → Reach s
    → (k8s : Option K8sContext) (now later : ℕ) (event : ProcessEvent) (wanted : ℕ)
    → get_process_by_pid wanted (add k8s now later event s)
      ≡ let_go s.max_age now (
          if event.pid == wanted
          then process_after now event (get_process_by_pid event.pid s)
          else get_process_by_pid wanted s)
add-get_process_by_pid s reach k8s now later event wanted =
    rw
      (
        get_process_by_pid-process_of wanted (add k8s now later event s),
        get_process_by_pid-process_of wanted s,
        get_process_by_pid-process_of event.pid s,
      )
      (lookup-add k8s now later event s wanted (Reach-Unique s reach))

-- ===== src/Context.antt =====
-- cognitod/src/context.rs: the store of recent events and live processes, with the accessors of
-- `ProcessEventExt` (linnix-ai-ebpf/linnix-ai-ebpf-common/src/lib.rs) that it uses. Each of `add`'s readings
-- of the clock, in nanoseconds since the epoch, is a parameter.
mod Retain
pub mod History
pub mod Lifecycle
mod Tests
use linnix.Prelude.{
  ℕ, ◌+◌, ◌-◌, ◌%◌, Bool, true, false, ◌&&◌, ◌||◌, not, Option, none, some, String, List, [], ◌∷◌,
  ◌++◌, map, length, keep_if, ltb, leb, if◌then◌else◌,
}
use linnix.Prelude.Keys.{◌==◌, nat_eq, string_eq}
use linnix.Prelude.Assoc.{Assoc, lookup, insert}
use linnix.Prelude.Words.{add64, u64_mod}
use linnix.Protocol.{ProcessEvent}
use Prim.Native.String.{◌++◌ as push_str}

-- `now - t` on `u64` in a release build.
abbrev pub sub64 : ℕ → ℕ → ℕ
sub64 a b = (a + u64_mod - b) % u64_mod

-- `ProcessEventExt::exit_time`
abbrev pub exit_time : ProcessEvent → Option ℕ
exit_time e = if e.exit_time_ns == 0 then none else some e.exit_time_ns

-- `ProcessEventExt::set_exit_time`
abbrev pub set_exit_time : Option ℕ → ProcessEvent → ProcessEvent
set_exit_time none e = record e { exit_time_ns = 0 }
set_exit_time (some t) e = record e { exit_time_ns = t }

-- The fields of `K8sMetadata` (cognitod/src/k8s.rs) that the store reads; the others are one value.
pub record K8sMetadata : Type 0 where
  pub pod_name : String
  pub namespace : String
  pub others : ℕ

-- The answers of `get_metadata_for_pid` at the two moments at which `add` may ask.
pub record K8sContext : Type 0 where
  pub at_first : ℕ → Option K8sMetadata
  pub at_last : ℕ → Option K8sMetadata

pub record ProcessEntry : Type 0 where
  pub process : ProcessEvent
  pub meta : Option K8sMetadata

pub record HistoryEntry : Type 0 where
  pub stored_at : ℕ
  pub event : ProcessEvent
  pub meta : Option K8sMetadata

-- `broadcast` holds what was sent, the newest first; the two limits are those of `new`.
pub record ContextStore : Type 0 where
  pub inner : List HistoryEntry
  pub live : Assoc ℕ ProcessEntry
  pub max_age : ℕ
  pub max_len : ℕ
  pub broadcast : List ProcessEvent
  pub seq : ℕ

abbrev pub new : ℕ → ℕ → ContextStore
new max_age max_len = record {
  inner = [];
  live = [];
  max_age = max_age;
  max_len = max_len;
  broadcast = [];
  seq = 1;
}

abbrev pub meta_of : ℕ → Assoc ℕ ProcessEntry → Option K8sMetadata
meta_of pid live = elim (lookup pid live) [ none ↦ none | some entry ↦ entry.meta ]

-- Exec and fork ask the context, a fork falls back on its parent, and other events on the process itself.
unfoldable pub fetch_metadata :
    Option K8sContext → ProcessEvent → Assoc ℕ ProcessEntry → Option K8sMetadata
fetch_metadata none event live = none
fetch_metadata (some ctx) event live =
    if event.event_type == 0
    then ctx.at_first event.pid
    else if event.event_type == 1
    then elim (ctx.at_first event.pid) [ some found ↦ some found | none ↦ meta_of event.ppid live ]
    else meta_of event.pid live

-- An exit takes the time of its process, where that is known, as its start, and its own time as its end.
unfoldable pub stamp_exit : ProcessEvent → Option ProcessEntry → ProcessEvent
stamp_exit event known =
    if event.event_type == 2
    then elim known [
      | none ↦ event
      | some entry ↦ record event { exit_time_ns = event.ts_ns; ts_ns = entry.process.ts_ns }
    ]
    else event

-- The last check for an event that is no exit.
unfoldable pub late_metadata :
    Option K8sContext → ProcessEvent → Option K8sMetadata → Option K8sMetadata
late_metadata k8s event (some found) = some found
late_metadata none event none = none
late_metadata (some ctx) event none = if event.event_type == 2 then none else ctx.at_last event.pid

-- `prune_locked`: exits that ended too long ago go from the front, then what is too many.
abbrev pub too_old : ℕ → ℕ → HistoryEntry → Bool
too_old max_age now entry =
    entry.event.event_type == 2
    && (elim (exit_time entry.event) [ none ↦ false | some t ↦ ltb max_age (sub64 now t) ])

unfoldable pub drop_exits : ℕ → ℕ → List HistoryEntry → List HistoryEntry
drop_exits max_age now [] = []
drop_exits max_age now (front ∷ queue) =
    let rest = drop_exits max_age now queue in
    if too_old max_age now front then rest else front ∷ queue

unfoldable pub drop_surplus : ℕ → List HistoryEntry → List HistoryEntry
drop_surplus max_len [] = []
drop_surplus max_len (front ∷ queue) =
    let rest = drop_surplus max_len queue in
    if ltb max_len (length (front ∷ queue)) then rest else front ∷ queue

abbrev pub prune_locked : ℕ → ℕ → ℕ → List HistoryEntry → List HistoryEntry
prune_locked max_age max_len now queue = drop_surplus max_len (drop_exits max_age now queue)

-- The event as it is kept and sent: running processes have no end, and an exit that is known only by
-- itself ends now.
unfoldable pub settle : ℕ → Option ProcessEntry → ProcessEvent → ProcessEvent
settle now known event =
    if event.event_type == 0
    then set_exit_time none event
    else if event.event_type == 1
    then set_exit_time none event
    else if event.event_type == 2
    then elim known [ none ↦ set_exit_time (some now) event | some entry ↦ event ]
    else event

-- What the live map holds for the event's process then, given what it held.
unfoldable pub live_entry :
    ℕ → ProcessEvent → Option K8sMetadata → Option ProcessEntry → Option ProcessEntry
live_entry now event meta known =
    if event.event_type == 0
    then some (record { process = event; meta = meta })
    else if event.event_type == 1
    then elim known [
      | none ↦ some (record { process = event; meta = meta })
      | some entry ↦ some entry
    ]
    else if event.event_type == 2
    then elim known [
      | none ↦ some (record { process = event; meta = meta })
      | some entry ↦ some (record entry {
        process = record (set_exit_time (some now) entry.process) { event_type = 2 };
      })
    ]
    else known

unfoldable pub put_entry : ℕ → Option ProcessEntry → Assoc ℕ ProcessEntry → Assoc ℕ ProcessEntry
put_entry pid none live = live
put_entry pid (some entry) live = insert pid entry live

abbrev pub update_live :
    ℕ → ProcessEvent → Option K8sMetadata → Assoc ℕ ProcessEntry → Assoc ℕ ProcessEntry
update_live now event meta live =
    put_entry event.pid (live_entry now event meta (lookup event.pid live)) live

-- The test of `live.retain`.
abbrev pub still_kept : ℕ → ℕ → ProcessEntry → Bool
still_kept max_age now entry =
    not (entry.process.event_type == 2)
    || (elim (exit_time entry.process) [ none ↦ true | some t ↦ ltb (now - t) max_age ])

unfoldable pub retain : (ProcessEntry → Bool) → Assoc ℕ ProcessEntry → Assoc ℕ ProcessEntry
retain p [] = []
retain p ((pid, entry) ∷ rest) = if p entry then (pid, entry) ∷ retain p rest else retain p rest

-- `add`, where `later` is the clock as `prune_locked` reads it.
unfoldable pub add : Option K8sContext → ℕ → ℕ → ProcessEvent → ContextStore → ContextStore
add k8s now later event s =
    let fetched = fetch_metadata k8s event s.live in
    let stamped = stamp_exit event (lookup event.pid s.live) in
    let meta = late_metadata k8s event fetched in
    let settled = settle now (lookup event.pid s.live) stamped in
    record s {
      inner =
          prune_locked s.max_age s.max_len later
            (s.inner ++ record { stored_at = now; event = stamped; meta = meta } ∷ []);
      live = retain (still_kept s.max_age now) (update_live now settled meta s.live);
      broadcast = record settled { seq = s.seq } ∷ s.broadcast;
      seq = add64 s.seq 1;
    }

unfoldable pub get_recent : ℕ → ContextStore → List ProcessEvent
get_recent now s =
    map (λ entry. entry.event)
      (keep_if (λ entry. leb (sub64 now entry.stored_at) s.max_age) s.inner)

abbrev pub live_snapshot : ContextStore → List ProcessEvent
live_snapshot s = map (λ e. e.1.process) s.live

unfoldable pub get_process_by_pid : ℕ → ContextStore → Option ProcessEvent
get_process_by_pid pid s = elim (lookup pid s.live) [
  | none ↦ none
  | some entry ↦ some entry.process
]

-- `get_pod_activity_window`: forks, and exits after less than a second, for each pod.
abbrev pod_key : K8sMetadata → String
pod_key meta = push_str meta.namespace (push_str "/" meta.pod_name)

abbrev add_one : String → Assoc String ℕ → Assoc String ℕ
add_one key counts = insert key (elim (lookup key counts) [ none ↦ 1 | some n ↦ n + 1 ]) counts

abbrev is_short : ProcessEvent → Bool
is_short event =
    event.event_type == 2
    && (elim (exit_time event) [ none ↦ false | some t ↦ ltb (t - event.ts_ns) 1000000000 ])

abbrev count_entry :
    HistoryEntry → Assoc String ℕ × Assoc String ℕ → Assoc String ℕ × Assoc String ℕ
count_entry entry (forks, short_jobs) = elim entry.meta [
  | none ↦ (forks, short_jobs)
  | some meta ↦ (
    if entry.event.event_type == 1 then add_one (pod_key meta) forks else forks,
    if is_short entry.event then add_one (pod_key meta) short_jobs else short_jobs,
  )
]

unfoldable pub count_all :
    ℕ → List HistoryEntry → Assoc String ℕ × Assoc String ℕ → Assoc String ℕ × Assoc String ℕ
count_all cutoff [] counts = counts
count_all cutoff (entry ∷ rest) counts =
    count_all cutoff rest (if ltb entry.stored_at cutoff then counts else count_entry entry counts)

abbrev pub get_pod_activity_window : ℕ → ℕ → ContextStore → Assoc String ℕ × Assoc String ℕ
get_pod_activity_window now window s = count_all (now - window) s.inner ([], [])

-- ===== src/Context/Tests.antt =====
-- The context store at concrete inputs: times in nanoseconds, an age of ten and room for two entries.
use linnix.Prelude.{ℕ, ◌≡◌, refl, none, some, [], ◌∷◌, map, ◌++◌}
use linnix.Prelude.Keys.{nat_eq}
use linnix.Prelude.Assoc.{lookup, insert}
use linnix.Protocol.{ProcessEvent, zeroed_event}
use linnix.Context.{
  ContextStore, new, add, fetch_metadata, stamp_exit, late_metadata, drop_exits, drop_surplus,
  settle, live_entry, put_entry, retain, get_process_by_pid,
}
use linnix.Context.History.{Pruned, entry_of, add-Pruned}
use linnix.Context.Lifecycle.{at_start, added, add-get_process_by_pid}

abbrev exec_of : ℕ → ℕ → ProcessEvent
exec_of pid ts = record zeroed_event { event_type = 0; pid = pid; ts_ns = ts }

abbrev exit_of : ℕ → ℕ → ProcessEvent
exit_of pid ts = record zeroed_event { event_type = 2; pid = pid; ts_ns = ts }

abbrev started : ContextStore
started = add none 1000 1000 (exec_of 7 3) (new 10 2)

add-Pruned_example :
    Pruned 10 2 1004
      (started.inner ++ entry_of none 1004 (exit_of 7 6) started ∷ [])
      (add none 1004 1004 (exit_of 7 6) started).inner
unfolding add
add-Pruned_example = add-Pruned none 1004 1004 (exit_of 7 6) started

add-get_process_by_pid_example :
    get_process_by_pid 7 (add none 1004 1004 (exit_of 7 6) started)
    ≡ some (record (exec_of 7 3) { event_type = 2; exit_time_ns = 1004 })
unfolding add fetch_metadata stamp_exit late_metadata settle live_entry put_entry retain lookup
    insert get_process_by_pid
add-get_process_by_pid_example =
    add-get_process_by_pid started (added (at_start 10 2) none 1000 1000 (exec_of 7 3)) none 1004
      1004 (exit_of 7 6) 7

-- The history keeps the times of the kernel's clock, and pruning compares them with the time since the
-- epoch: the exit of a known process is the oldest entry, and goes at once.
exit_is_forgotten :
    map
      (λ entry. entry.event.pid)
      (add none 1004 1004 (exit_of 7 6) (record started { inner = [] })).inner
    ≡ []
unfolding add fetch_metadata stamp_exit late_metadata settle live_entry put_entry retain lookup
    insert drop_exits drop_surplus
exit_is_forgotten = refl

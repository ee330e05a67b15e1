-- ===== src/Alerts/Queues.antt =====
-- cognitod/src/alerts.rs: the queues of moments, the oldest first, and the state of the rule engine. A
-- moment (`Instant`) and a `Duration` are nanoseconds; `duration_since` stops at 0.
use mathlib.Core.List.{reverse}
use linnix.Prelude.{
  ℕ, zero, suc, ◌+◌, ◌-◌, ◌*◌, Bool, true, false, List, [], ◌∷◌, String, length, ltb, leb,
  if◌then◌else◌,
}
use linnix.Prelude.Assoc.{Assoc}

-- `Duration::from_secs`
abbrev pub from_secs : ℕ → ℕ
from_secs secs = secs * 1000000000

abbrev pub from_millis : ℕ → ℕ
from_millis ms = ms * 1000000

unfoldable pub trim_instant_queue : List ℕ → ℕ → ℕ → List ℕ
trim_instant_queue [] keep_for now = []
trim_instant_queue (front ∷ queue) keep_for now =
    let rest = trim_instant_queue queue keep_for now in
    if ltb keep_for (now - front) then rest else front ∷ queue

unfoldable pub trim_completion_queue : List (ℕ × ℕ) → ℕ → ℕ → List (ℕ × ℕ)
trim_completion_queue [] keep_for now = []
trim_completion_queue ((ts, lifetime) ∷ queue) keep_for now =
    let rest = trim_completion_queue queue keep_for now in
    if ltb keep_for (now - ts) then rest else (ts, lifetime) ∷ queue

module _ {A : Type 0} where
  unfoldable pub take_while : (A → Bool) → List A → List A
  take_while p [] = []
  take_while p (x ∷ xs) = if p x then x ∷ take_while p xs else []

unfoldable pub count_recent : List ℕ → ℕ → ℕ → ℕ
count_recent queue window now = length (take_while (λ ts. leb (now - ts) window) (reverse queue))

-- The loop of `ShortJobFlood` over the completions, the newest first: whether `count` reaches the
-- threshold.
unfoldable pub short_jobs : (threshold window max_duration now count : ℕ) → List (ℕ × ℕ) → Bool
short_jobs threshold window max_duration now count [] = false
short_jobs threshold window max_duration now count ((ts, lifetime) ∷ older) =
    let short = leb lifetime max_duration in
    let rest =
      short_jobs threshold window max_duration now (if short then count + 1 else count) older in
    if ltb window (now - ts)
    then false
    else if short
    then if leb threshold (count + 1) then true else rest
    else rest

-- `sort_unstable` on numbers.
unfoldable pub insert_sorted : ℕ → List ℕ → List ℕ
insert_sorted x [] = x ∷ []
insert_sorted x (y ∷ ys) = if leb x y then x ∷ y ∷ ys else y ∷ insert_sorted x ys

unfoldable pub sort_unstable : List ℕ → List ℕ
sort_unstable [] = []
sort_unstable (x ∷ xs) = insert_sorted x (sort_unstable xs)

-- `durations[i]`, for an index in range.
unfoldable pub at_index : ℕ → List ℕ → ℕ
at_index i [] = 0
at_index zero (x ∷ xs) = x
at_index (suc i) (x ∷ xs) = at_index i xs

pub record RuleState : Type 0 where
  pub fork_events : List ℕ
  pub exec_events : List ℕ
  pub exec_start : Assoc ℕ ℕ
  pub exec_completions : List (ℕ × ℕ)
  pub forks_by_ppid : Assoc ℕ (List ℕ)
  pub cpu_exceed : Assoc String ℕ
  pub rss_exceed : Assoc String ℕ
  pub active : Assoc String ℕ
  pub psi_breach : Assoc String ℕ

abbrev pub no_state : RuleState
no_state = record {
  fork_events = [];
  exec_events = [];
  exec_start = [];
  exec_completions = [];
  forks_by_ppid = [];
  cpu_exceed = [];
  rss_exceed = [];
  active = [];
  psi_breach = [];
}

-- ===== src/Enforcement/Audit.antt =====
-- What the queue of cognitod/src/enforcement.rs guarantees of the actions in it: that safety.rs has
-- passed those that kill, and that someone has approved those that may run.
use linnix.Prelude.{
  ℕ, ◌+◌, ◌≤◌, ◌<◌, ◌≡◌, ◌≢◌, inl, inr, refl, some, String, arith, Bool-cases, Option-cases, sym,
}
use mathlib.Core.Path.{subst}
use linnix.Prelude.Keys.{◌==◌, string_eq, nat_eq, ==_refl}
use linnix.Prelude.Assoc.{lookup, lookup-insert}
use linnix.Prelude.Words.{u64_mod}
use linnix.Prelude.Results.{ok}
use linnix.Enforcement.Safety.{Host, is_safe_to_kill}
use linnix.Enforcement.{
  ActionType, kill_process, authorize_exec, ActionStatus, approved, executed, EnforcementAction,
  EnforcementQueue, check_action, Proposal, new_action, set_action, expire_stale, get_pending,
}
use linnix.Enforcement.Life.{
  Turn, approves, rejects, expires, completes, Turned, approve-Turned, reject-Turned,
  complete-Turned, lookup-expire_all, expire_stale-Turn, Step, proposing, approving, rejecting,
  completing, reading, Reach, here, next, propose_cases,
}

-- The action does not kill init, the kernel's first task or the daemon.
abbrev pub Spares : ℕ → ActionType → Type 0
Spares my_pid (kill_process pid signal) = (1 < pid) × (pid ≢ my_pid)
Spares my_pid (authorize_exec pid cmd_hash expires_at) = Unit

-- The action names who approved it and when, which was in time.
abbrev pub ApprovedInTime : {Confidence : Type 0} → EnforcementAction Confidence → Type 0
ApprovedInTime a =
    (who : String) × (at_time : ℕ) × (a.approved_by ≡ some who)
    × (a.approved_at ≡ some at_time)
    × (at_time ≤ a.expires_at)

-- An action that may run, or has run, was approved.
abbrev pub Signed : {Confidence : Type 0} → ActionStatus → EnforcementAction Confidence → Type 0
Signed approved a = ApprovedInTime a
Signed executed a = ApprovedInTime a
Signed _ a = Unit

abbrev pub Audited : {Confidence : Type 0} → ℕ → EnforcementAction Confidence → Type 0
Audited my_pid a = Spares my_pid a.action × Signed a.status a

is_safe_to_kill-Spares :
    (host : Host) (pid : ℕ) → is_safe_to_kill host pid ≡ ok tt → (1 < pid) × (pid ≢ host.my_pid)
unfolding is_safe_to_kill
is_safe_to_kill-Spares host pid safe = (ground arith, λ same. ground (arith, ==_refl pid))

check_action-Spares :
    (host : Host) (action : ActionType)
    → check_action host action ≡ ok tt
    → Spares host.my_pid action
check_action-Spares host (kill_process pid signal) safe = is_safe_to_kill-Spares host pid safe
check_action-Spares host (authorize_exec pid cmd_hash expires_at) safe = tt

module _ {Confidence : Type 0} (my_pid : ℕ) where
  Turn-Audited :
      {a a' : EnforcementAction Confidence} → Turn a a' → Audited my_pid a → Audited my_pid a'
  Turn-Audited (approves who now waits early) (spares, signed) =
      (spares, (who, now, refl, refl, early))
  Turn-Audited (rejects waits) (spares, signed) = (spares, tt)
  Turn-Audited (expires now waits late) (spares, signed) = (spares, tt)
  Turn-Audited {a} (completes done) (spares, signed) = (spares, subst (λ s. Signed s a) done signed)

  abbrev AllAudited : EnforcementQueue Confidence → Type 0
  AllAudited q =
      (id : String) (a : EnforcementAction Confidence)
      → lookup id q.actions ≡ some a
      → Audited my_pid a

  insert-Audited :
      (j : String) (b : EnforcementAction Confidence) (q : EnforcementQueue Confidence)
      → Audited my_pid b
      → AllAudited q
      → AllAudited (set_action Confidence j b q)
  insert-Audited j b q good all id a found = elim (Bool-cases (j == id)) [
    | inl same ↦
        let is_b : b ≡ a = ground (arith, lookup-insert j id b q.actions) in
        subst (Audited my_pid) is_b good
    | inr apart ↦ all id a (ground (arith, lookup-insert j id b q.actions))
  ]

  Turned-Audited :
      (j : String) (q q' : EnforcementQueue Confidence)
      → Turned j q q'
      → AllAudited q
      → AllAudited q'
  Turned-Audited j q q' (inl same) all = subst AllAudited (sym same) all
  Turned-Audited j q q' (inr (b, b', there, t, e)) all =
      subst AllAudited (sym e) (insert-Audited j b' q (Turn-Audited t (all j b there)) all)

  expire_stale-Audited :
      (now : ℕ) (a : EnforcementAction Confidence)
      → Audited my_pid a
      → Audited my_pid (expire_stale Confidence now a)
  expire_stale-Audited now a good = elim (expire_stale-Turn now a) [
    | inl same ↦ subst (Audited my_pid) (sym same) good
    | inr t ↦ Turn-Audited t good
  ]

  get_pending-Audited :
      (now : ℕ) (q : EnforcementQueue Confidence)
      → AllAudited q
      → AllAudited (get_pending Confidence now q).0
  unfolding get_pending
  get_pending-Audited now q all id a found = elim (Option-cases (lookup id q.actions)) [
    | inl missing ↦ absurd (ground (arith, lookup-expire_all now id q.actions))
    | inr (b, there) ↦
        let is_b : expire_stale Confidence now b ≡ a =
          ground (arith, lookup-expire_all now id q.actions) in
        subst (Audited my_pid) is_b (expire_stale-Audited now b (all id b there))
  ]

  new_action-Audited :
      (id : String) (now : ℕ) (p : Proposal Confidence) (q : EnforcementQueue Confidence)
      → now + q.ttl_secs < u64_mod
      → Spares my_pid p.action
      → Audited my_pid (new_action Confidence id now p q)
  new_action-Audited id now p q clock spares = elim (Bool-cases p.auto_approve) [
    | inl auto ↦ rw auto (spares, ("circuit_breaker", now, refl, refl, omega arith))
    | inr asks ↦ rw asks (spares, tt)
  ]

  Step-Audited :
      (action_id : ℕ → String) {q q' : EnforcementQueue Confidence}
      → Step Confidence action_id my_pid q q'
      → AllAudited q
      → AllAudited q'
  Step-Audited action_id {q} (proposing host now p own room clock) all =
      elim (propose_cases Confidence action_id my_pid host now p q) [
        | inl same ↦ subst AllAudited (sym same) all
        | inr (safe, e) ↦
            let fresh = new_action Confidence (action_id q.next_id) now p q in
            let spares =
              subst (λ n. Spares n p.action) own (check_action-Spares host p.action safe) in
            let good = new_action-Audited (action_id q.next_id) now p q clock spares in
            subst AllAudited (sym e) (insert-Audited (action_id q.next_id) fresh q good all)
      ]
  Step-Audited action_id {q} (approving id who now) all =
      Turned-Audited id q _ (approve-Turned id who now q) all
  Step-Audited action_id {q} (rejecting id) all = Turned-Audited id q _ (reject-Turned id q) all
  Step-Audited action_id {q} (completing id) all = Turned-Audited id q _ (complete-Turned id q) all
  Step-Audited action_id {q} (reading now) all = get_pending-Audited now q all

  -- In every queue that calls reach from a new one, as long as the counter and the clock do not wrap
  -- and the daemon's PID is the same, an action that kills spares the PIDs 0 and 1 and the daemon, and
  -- an action that is Approved or Executed names who approved it and when, no later than its expiry.
  pub Reach-Audited :
      (action_id : ℕ → String) (ttl_secs : ℕ) (q : EnforcementQueue Confidence)
      → Reach Confidence action_id my_pid ttl_secs q
      → (id : String) (a : EnforcementAction Confidence) → lookup id q.actions ≡ some a
      → Audited my_pid a
  unfolding lookup
  Reach-Audited action_id ttl_secs q here id a found = absurd (ground (arith, found))
  Reach-Audited action_id ttl_secs q (next r step) id a found =
      Step-Audited action_id step (Reach-Audited action_id ttl_secs _ r) id a found

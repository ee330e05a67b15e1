-- ===== src/Enforcement.antt =====
-- cognitod/src/enforcement.rs: the queue of actions that wait for an operator. The text of an
-- identifier is a parameter, and so is the type of a confidence, a floating-point number. Who rejects an
-- action is only logged. `propose_auto` is `propose_internal`.
pub mod Safety
pub mod Life
pub mod Audit
mod Tests
use linnix.Prelude.{
  ℕ, ◌+◌, Bool, true, false, ◌&&◌, Option, none, some, List, [], ◌∷◌, map, String, ltb,
  if◌then◌else◌, keep_if,
}
use linnix.Prelude.Keys.{string_eq}
use linnix.Prelude.Assoc.{Assoc, lookup, insert}
use linnix.Prelude.Words.{add64}
use linnix.Prelude.Results.{Result, ok, err}
use linnix.Enforcement.Safety.{SafetyError, Host, is_safe_to_kill}

pub data ActionType : Type 0 where
  -- pid, signal
  kill_process : ℕ → ℕ → ActionType
  -- pid, cmd_hash, expires_at
  authorize_exec : ℕ → ℕ → ℕ → ActionType

pub data ActionStatus : Type 0 where
  pending approved rejected expired executed : ActionStatus

abbrev pub is_pending : ActionStatus → Bool
is_pending pending = true
is_pending _ = false

abbrev pub is_approved : ActionStatus → Bool
is_approved approved = true
is_approved _ = false

pub data QueueError : Type 0 where
  unsafe_action : SafetyError → QueueError
  action_not_found : QueueError
  not_pending : ActionStatus → QueueError
  already_expired : QueueError
  not_approved : ActionStatus → QueueError

pub record EnforcementAction (Confidence : Type 0) : Type 0 where
  pub id : String
  pub action : ActionType
  pub reason : String
  pub source : String
  pub confidence : Option Confidence
  pub status : ActionStatus
  pub created_at : ℕ
  pub expires_at : ℕ
  pub approved_by : Option String
  pub approved_at : Option ℕ

pub record EnforcementQueue (Confidence : Type 0) : Type 0 where
  pub next_id : ℕ
  pub actions : Assoc String (EnforcementAction Confidence)
  pub ttl_secs : ℕ

-- The checks that run for every proposal.
abbrev pub check_action : Host → ActionType → Result SafetyError (Unit {0})
check_action host (kill_process pid signal) = is_safe_to_kill host pid
check_action host (authorize_exec pid cmd_hash expires_at) = ok tt

module _ (Confidence : Type 0) where
  abbrev pub Queue : Type 0
  Queue = EnforcementQueue Confidence

  abbrev pub Action : Type 0
  Action = EnforcementAction Confidence

  -- `EnforcementQueue::new`
  abbrev pub new : ℕ → Queue
  new ttl_secs = record { next_id = 1; actions = []; ttl_secs = ttl_secs }

  -- What a call of `propose_internal` is given.
  pub record Proposal : Type 0 where
    pub action : ActionType
    pub reason : String
    pub source : String
    pub confidence : Option Confidence
    pub auto_approve : Bool

  -- The new action, at the time `now`.
  abbrev pub new_action : String → ℕ → Proposal → Queue → Action
  new_action id now p q = record {
    id = id;
    action = p.action;
    reason = p.reason;
    source = p.source;
    confidence = p.confidence;
    status = if p.auto_approve then approved else pending;
    created_at = now;
    expires_at = add64 now q.ttl_secs;
    approved_by = if p.auto_approve then some "circuit_breaker" else none;
    approved_at = if p.auto_approve then some now else none;
  }

  abbrev pub enqueue : String → ℕ → Proposal → Queue → Queue
  enqueue id now p q = record q {
    next_id = add64 q.next_id 1;
    actions = insert id (new_action id now p q) q.actions;
  }

  -- `format!("action-{}", n)` is `action_id n`.
  pub propose_internal :
      (ℕ → String) → Host → ℕ → Proposal → Queue → Queue × Result QueueError String
  propose_internal action_id host now p q = elim (check_action host p.action) [
    | err e ↦ (q, err (unsafe_action e))
    | ok done ↦ (enqueue (action_id q.next_id) now p q, ok (action_id q.next_id))
  ]

  abbrev pub propose : (ℕ → String) → Host → ℕ → Proposal → Queue → Queue × Result QueueError String
  propose action_id host now p q =
      propose_internal action_id host now (record p { auto_approve = false }) q

  abbrev pub set_action : String → Action → Queue → Queue
  set_action id a q = record q { actions = insert id a q.actions }

  abbrev pub approve_found : String → String → ℕ → Action → Queue → Queue × Result QueueError Action
  approve_found id approver now a q =
      if is_pending a.status
      then (if ltb a.expires_at now
          then (set_action id (record a { status = expired }) q, err already_expired)
          else let a' : Action = record a {
            status = approved;
            approved_by = some approver;
            approved_at = some now;
          } in
            (set_action id a' q, ok a'))
      else (q, err (not_pending a.status))

  pub approve : String → String → ℕ → Queue → Queue × Result QueueError Action
  approve id approver now q = elim (lookup id q.actions) [
    | none ↦ (q, err action_not_found)
    | some a ↦ approve_found id approver now a q
  ]

  abbrev pub reject_found : String → Action → Queue → Queue × Result QueueError (Unit {0})
  reject_found id a q =
      if is_pending a.status
      then (set_action id (record a { status = rejected }) q, ok tt)
      else (q, err (not_pending a.status))

  pub reject : String → Queue → Queue × Result QueueError (Unit {0})
  reject id q = elim (lookup id q.actions) [
    | none ↦ (q, err action_not_found)
    | some a ↦ reject_found id a q
  ]

  abbrev pub complete_found : String → Action → Queue → Queue × Result QueueError (Unit {0})
  complete_found id a q =
      if is_approved a.status
      then (set_action id (record a { status = executed }) q, ok tt)
      else (q, err (not_approved a.status))

  pub complete : String → Queue → Queue × Result QueueError (Unit {0})
  complete id q = elim (lookup id q.actions) [
    | none ↦ (q, err action_not_found)
    | some a ↦ complete_found id a q
  ]

  -- What `get_pending` does to an action.
  abbrev pub expire_stale : ℕ → Action → Action
  expire_stale now a =
      if is_pending a.status && ltb a.expires_at now then record a { status = expired } else a

  abbrev pub expire_all : ℕ → Assoc String Action → Assoc String Action
  expire_all now [] = []
  expire_all now ((id, a) ∷ rest) = (id, expire_stale now a) ∷ expire_all now rest

  abbrev pub values : Assoc String Action → List Action
  values [] = []
  values ((id, a) ∷ rest) = a ∷ values rest

  pub get_pending : ℕ → Queue → Queue × List Action
  get_pending now q =
      let actions = expire_all now q.actions in
      (record q { actions = actions }, keep_if (λ a. is_pending a.status) (values actions))

  abbrev pub get_by_id : String → Queue → Option Action
  get_by_id id q = lookup id q.actions

  abbrev pub get_all : Queue → List Action
  get_all q = values q.actions

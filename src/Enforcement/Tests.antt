-- ===== src/Enforcement/Tests.antt =====
-- Runs of the queue of cognitod/src/enforcement.rs: an operator approves the killing of a process.
use linnix.Prelude.{
  ℕ, ◌≡◌, refl, false, none, some, String, [], ◌∷◌, if◌then◌else◌, arith, inl, inr, Bool-cases, map,
}
use linnix.Prelude.Keys.{◌==◌, string_eq, nat_eq}
use linnix.Prelude.Assoc.{lookup, insert}
use linnix.Enforcement.Safety.{Host, is_safe_to_kill}
use linnix.Enforcement.{
  kill_process, approved, EnforcementQueue, EnforcementAction, Proposal, new, propose_internal,
  approve, complete, get_pending,
}
use linnix.Enforcement.Life.{
  proposing, approving, completing, Reach, here, next, Numbered, Continues, Step-Continues,
}
use linnix.Enforcement.Audit.{Audited, Reach-Audited}

abbrev action_id : ℕ → String
action_id n = if n == 1 then "action-1" else "action-2"

-- Process 700 is a child of the shell 650; the daemon is 500.
abbrev host : Host
host = record {
  my_pid = 500;
  process = λ pid.
      if pid == 700
      then some (record { name = b'y' ∷ b'e' ∷ b's' ∷ []; parent = some 650 })
      else none;
  to_lowercase = λ name. name;
}

abbrev proposal : Proposal ℕ
proposal = record {
  action = kill_process 700 9;
  reason = "runs away";
  source = "llm";
  confidence = some 97;
  auto_approve = false;
}

abbrev start : EnforcementQueue ℕ
start = new ℕ 300

abbrev proposed : EnforcementQueue ℕ
proposed = (propose_internal ℕ action_id host 1000 proposal start).0

abbrev agreed : EnforcementQueue ℕ
agreed = (approve ℕ "action-1" "operator" 1200 proposed).0

abbrev agreed_action : EnforcementAction ℕ
agreed_action = record {
  id = "action-1";
  action = kill_process 700 9;
  reason = "runs away";
  source = "llm";
  confidence = some 97;
  status = approved;
  created_at = 1000;
  expires_at = 1300;
  approved_by = some "operator";
  approved_at = some 1200;
}

stored : lookup "action-1" agreed.actions ≡ some agreed_action
unfolding propose_internal is_safe_to_kill approve lookup insert
stored = refl

agreed_is_reached : Reach ℕ action_id 500 300 agreed
unfolding propose_internal is_safe_to_kill
agreed_is_reached =
    next (next here (proposing host 1000 proposal refl (omega arith) (omega arith)))
      (approving "action-1" "operator" 1200)

Reach-Audited_example : Audited 500 agreed_action
Reach-Audited_example =
    Reach-Audited 500 action_id 300 agreed agreed_is_reached "action-1" agreed_action stored

agreed-Numbered : Numbered ℕ action_id 500 agreed
unfolding propose_internal is_safe_to_kill approve lookup insert
agreed-Numbered n h = elim (Bool-cases (n == 1)) [
  | inl one ↦ absurd (ground arith)
  | inr other ↦ rw other refl
]

Step-Continues_example :
    Continues ℕ action_id 500 agreed_action
      (lookup "action-1" (complete ℕ "action-1" agreed).0.actions)
Step-Continues_example =
    Step-Continues ℕ action_id 500 "action-1" agreed_action (completing "action-1") agreed-Numbered
      stored

-- A proposal that nobody approves in 300 seconds is gone from the pending ones.
expires_unread : (get_pending ℕ 1301 proposed).1 ≡ []
unfolding propose_internal is_safe_to_kill get_pending insert
expires_unread = refl

still_waits : map (λ a. a.id) (get_pending ℕ 1300 proposed).1 ≡ "action-1" ∷ []
unfolding propose_internal is_safe_to_kill get_pending insert
still_waits = refl

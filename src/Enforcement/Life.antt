-- ===== src/Enforcement/Life.antt =====
-- The life of an action in the queue of cognitod/src/enforcement.rs: how each call may change it.
use linnix.Prelude.{
  ℕ, ◌+◌, ◌≤◌, ◌<◌, ◌≡◌, ◌⊎◌, inl, inr, refl, true, ◌&&◌, Option, none, some, String, [], ◌∷◌, ltb,
  arith, Bool-cases, Option-cases,
}
use mathlib.Core.Path.{subst}
use linnix.Prelude.Keys.{◌==◌, string_eq, nat_eq, ==→eq}
use linnix.Prelude.Assoc.{Assoc, lookup, lookup-insert}
use linnix.Prelude.Words.{u64_mod}
use linnix.Prelude.Results.{ok, Result-cases}
use linnix.Enforcement.Safety.{Host}
use linnix.Enforcement.{
  ActionStatus, pending, approved, rejected, expired, executed, is_pending, is_approved,
  EnforcementAction, EnforcementQueue, check_action, Proposal, new, new_action, enqueue,
  propose_internal, approve, reject, complete, set_action, expire_stale, expire_all, get_pending,
}

is_pending-eq : (s : ActionStatus) → is_pending s ≡ true → s ≡ pending
is_pending-eq s h = ground arith

is_approved-eq : (s : ActionStatus) → is_approved s ≡ true → s ≡ approved
is_approved-eq s h = ground arith

module _ {Confidence : Type 0} where
  -- One change of an action: from Pending to Approved in time, Rejected, or late to Expired, and from
  -- Approved to Executed.
  pub data Turn (a : EnforcementAction Confidence) : EnforcementAction Confidence → Type 0 where
    approves :
        (who : String) (now : ℕ)
        → a.status ≡ pending
        → now ≤ a.expires_at
        → Turn a (record a { status = approved; approved_by = some who; approved_at = some now })
    rejects : a.status ≡ pending → Turn a (record a { status = rejected })
    expires :
        (now : ℕ) → a.status ≡ pending → a.expires_at < now → Turn a (record a { status = expired })
    completes : a.status ≡ approved → Turn a (record a { status = executed })

  -- The queue is the same, or one action in it has turned.
  abbrev pub Turned : String → EnforcementQueue Confidence → EnforcementQueue Confidence → Type 0
  Turned id q q' =
      (q' ≡ q)
      ⊎ ((a : EnforcementAction Confidence) × (a' : EnforcementAction Confidence) × (lookup id
              q.actions
            ≡ some a)
          × Turn a a'
          × (q' ≡ set_action Confidence id a' q))

  pub approve-Turned :
      (id who : String) (now : ℕ) (q : EnforcementQueue Confidence)
      → Turned id q (approve Confidence id who now q).0
  unfolding approve
  approve-Turned id who now q = elim (Option-cases (lookup id q.actions)) [
    | inl missing ↦ inl (ground arith)
    | inr (a, found) ↦ elim (Bool-cases (is_pending a.status)) [
      | inr other ↦ inl (ground arith)
      | inl waits ↦ elim (Bool-cases (ltb a.expires_at now)) [
        | inl late ↦
            inr
              (a, _, found, expires now (is_pending-eq a.status waits) (ground arith), ground arith)
        | inr early ↦ inr (
          a,
          _,
          found,
          approves who now (is_pending-eq a.status waits) (ground arith),
          ground arith,
        )
      ]
    ]
  ]

  pub reject-Turned :
      (id : String) (q : EnforcementQueue Confidence) → Turned id q (reject Confidence id q).0
  unfolding reject
  reject-Turned id q = elim (Option-cases (lookup id q.actions)) [
    | inl missing ↦ inl (ground arith)
    | inr (a, found) ↦ elim (Bool-cases (is_pending a.status)) [
      | inr other ↦ inl (ground arith)
      | inl waits ↦ inr (a, _, found, rejects (is_pending-eq a.status waits), ground arith)
    ]
  ]

  pub complete-Turned :
      (id : String) (q : EnforcementQueue Confidence) → Turned id q (complete Confidence id q).0
  unfolding complete
  complete-Turned id q = elim (Option-cases (lookup id q.actions)) [
    | inl missing ↦ inl (ground arith)
    | inr (a, found) ↦ elim (Bool-cases (is_approved a.status)) [
      | inr other ↦ inl (ground arith)
      | inl done ↦ inr (a, _, found, completes (is_approved-eq a.status done), ground arith)
    ]
  ]

  pub lookup-expire_all :
      (now : ℕ) (id : String) (actions : Assoc String (EnforcementAction Confidence))
      → lookup id (expire_all Confidence now actions)
        ≡ elim (lookup id actions) [ none ↦ none | some a ↦ some (expire_stale Confidence now a) ]
  unfolding lookup
  lookup-expire_all now id [] = refl
  lookup-expire_all now id ((j, a) ∷ rest) = ground (arith, lookup-expire_all now id rest)

  pub expire_stale-Turn :
      (now : ℕ) (a : EnforcementAction Confidence)
      → (expire_stale Confidence now a ≡ a) ⊎ Turn a (expire_stale Confidence now a)
  expire_stale-Turn now a = elim (Bool-cases (is_pending a.status && ltb a.expires_at now)) [
    | inl stale ↦
        inr (rw stale (expires now (is_pending-eq a.status (ground arith)) (ground arith)))
    | inr fresh ↦ inl (ground arith)
  ]

-- `action_id` writes different numbers differently.
abbrev pub IsInjective : (ℕ → String) → Type 0
IsInjective action_id = (m n : ℕ) → action_id m ≡ action_id n → m ≡ n

module _ (Confidence : Type 0) (action_id : ℕ → String) (my_pid : ℕ) where
  -- One call of the queue, before the counter and the clock wrap.
  pub data Step (q : EnforcementQueue Confidence) : EnforcementQueue Confidence → Type 0 where
    proposing :
        (host : Host) (now : ℕ) (p : Proposal Confidence)
        → host.my_pid ≡ my_pid
        → q.next_id + 1 < u64_mod
        → now + q.ttl_secs < u64_mod
        → Step q (propose_internal Confidence action_id host now p q).0
    approving : (id who : String) (now : ℕ) → Step q (approve Confidence id who now q).0
    rejecting : (id : String) → Step q (reject Confidence id q).0
    completing : (id : String) → Step q (complete Confidence id q).0
    reading : (now : ℕ) → Step q (get_pending Confidence now q).0

  -- Any number of calls of a new queue.
  pub data Reach (ttl_secs : ℕ) : EnforcementQueue Confidence → Type 0 where
    here : Reach ttl_secs (new Confidence ttl_secs)
    next : {q q' : EnforcementQueue Confidence} → Reach ttl_secs q → Step q q' → Reach ttl_secs q'

  -- No identifier from the counter on is in use.
  abbrev pub Numbered : EnforcementQueue Confidence → Type 0
  Numbered q = (n : ℕ) → q.next_id ≤ n → lookup (action_id n) q.actions ≡ none

  -- What becomes of an action in one call.
  abbrev pub Continues :
      EnforcementAction Confidence → Option (EnforcementAction Confidence) → Type 0
  Continues a none = ⊥
  Continues a (some a') = (a' ≡ a) ⊎ Turn a a'

  Turned-Continues :
      (id j : String) (q q' : EnforcementQueue Confidence) (a : EnforcementAction Confidence)
      → Turned j q q'
      → lookup id q.actions ≡ some a
      → Continues a (lookup id q'.actions)
  Turned-Continues id j q q' a (inl same) found = rw (same, found) (inl refl)
  Turned-Continues id j q q' a (inr (b, b', there, t, e)) found = elim (Bool-cases (j == id)) [
    | inl same ↦
        let b_is_a : b ≡ a = ground (arith, ==→eq j id same) in
        rw (e, lookup-insert j id b' q.actions, same) (inr (subst (λ x. Turn x b') b_is_a t))
    | inr apart ↦ rw (e, lookup-insert j id b' q.actions, apart, found) (inl refl)
  ]

  Turned-Numbered :
      (j : String) (q q' : EnforcementQueue Confidence) → Turned j q q' → Numbered q → Numbered q'
  Turned-Numbered j q q' (inl same) fresh = rw same fresh
  Turned-Numbered j q q' (inr (b, b', there, t, e)) fresh = rw e (λ n h.
      elim (Bool-cases (j == action_id n)) [
        | inl same ↦ absurd (ground (arith, ==→eq j (action_id n) same, fresh n h))
        | inr apart ↦ rw (lookup-insert j (action_id n) b' q.actions, apart) (fresh n h)
      ])

  get_pending-Numbered :
      (now : ℕ) (q : EnforcementQueue Confidence)
      → Numbered q
      → Numbered (get_pending Confidence now q).0
  unfolding get_pending
  get_pending-Numbered now q fresh n h =
      rw (lookup-expire_all now (action_id n) q.actions, fresh n h) refl

  get_pending-Continues :
      (id : String) (now : ℕ) (q : EnforcementQueue Confidence) (a : EnforcementAction Confidence)
      → lookup id q.actions ≡ some a
      → Continues a (lookup id (get_pending Confidence now q).0.actions)
  unfolding get_pending
  get_pending-Continues id now q a found =
      rw (get_pending, lookup-expire_all now id q.actions, found) (expire_stale-Turn now a)

  pub propose_cases :
      (host : Host) (now : ℕ) (p : Proposal Confidence) (q : EnforcementQueue Confidence)
      → ((propose_internal Confidence action_id host now p q).0 ≡ q)
        ⊎ ((check_action host p.action ≡ ok tt)
            × ((propose_internal Confidence action_id host now p q).0
                ≡ enqueue Confidence (action_id q.next_id) now p q))
  unfolding propose_internal
  propose_cases host now p q = elim (Result-cases (check_action host p.action)) [
    | inr (e, refused) ↦ inl (ground arith)
    | inl safe ↦ inr (safe, ground arith)
  ]

  Step-Numbered :
      {q q' : EnforcementQueue Confidence}
      → IsInjective action_id
      → Step q q'
      → Numbered q
      → Numbered q'
  Step-Numbered {q} inj (proposing host now p own room clock) fresh =
      elim (propose_cases host now p q) [
        | inl same ↦ rw same fresh
        | inr (safe, e) ↦ rw e (λ n h. elim (Bool-cases (action_id q.next_id == action_id n)) [
          | inl same ↦
              absurd
                (ground (arith, inj q.next_id n (==→eq (action_id q.next_id) (action_id n) same)))
          | inr apart ↦
              rw
                (
                  lookup-insert (action_id q.next_id) (action_id n)
                      (new_action Confidence (action_id q.next_id) now p q) q.actions,
                  apart,
                )
                (fresh n (ground arith))
        ])
      ]
  Step-Numbered {q} inj (approving id who now) fresh =
      Turned-Numbered id q _ (approve-Turned id who now q) fresh
  Step-Numbered {q} inj (rejecting id) fresh = Turned-Numbered id q _ (reject-Turned id q) fresh
  Step-Numbered {q} inj (completing id) fresh = Turned-Numbered id q _ (complete-Turned id q) fresh
  Step-Numbered {q} inj (reading now) fresh = get_pending-Numbered now q fresh

  -- In a queue that has not used the identifiers from its counter on, a call keeps every action that
  -- is there, and leaves it as it was or turns it once.
  pub Step-Continues :
      {q q' : EnforcementQueue Confidence} (id : String) (a : EnforcementAction Confidence)
      → Step q q'
      → Numbered q
      → lookup id q.actions ≡ some a
      → Continues a (lookup id q'.actions)
  Step-Continues {q} id a (proposing host now p own room clock) fresh found =
      elim (propose_cases host now p q) [
        | inl same ↦ rw (same, found) (inl refl)
        | inr (safe, e) ↦ elim (Bool-cases (action_id q.next_id == id)) [
          | inl same ↦ absurd (
              ground
                (arith, ==→eq (action_id q.next_id) id same, fresh q.next_id (omega arith), found))
          | inr apart ↦
              rw
                (
                  e,
                  lookup-insert (action_id q.next_id) id
                      (new_action Confidence (action_id q.next_id) now p q) q.actions,
                  apart,
                  found,
                )
                (inl refl)
        ]
      ]
  Step-Continues {q} id a (approving j who now) fresh found =
      Turned-Continues id j q _ a (approve-Turned j who now q) found
  Step-Continues {q} id a (rejecting j) fresh found =
      Turned-Continues id j q _ a (reject-Turned j q) found
  Step-Continues {q} id a (completing j) fresh found =
      Turned-Continues id j q _ a (complete-Turned j q) found
  Step-Continues {q} id a (reading now) fresh found = get_pending-Continues id now q a found

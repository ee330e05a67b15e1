-- ===== src/Mandate/Types.antt =====
-- The requests, responses and records of cognitod/src/mandate.rs. An argument is its UTF-8 bytes.
use linnix.Prelude.{ℕ, Bool, true, false, ◌||◌, Option, none, some, List, String}
use linnix.Protocol.{MandateKey, MandateValue}

pub record MandateRequest : Type 0 where
  pub pid : ℕ
  pub args : List (List ℕ)
  pub ttl_ms : ℕ
  pub container_id : Option (List ℕ)
  pub monitor_only : Bool
  pub task_id : Option String
  pub max_spend_cents : Option ℕ
  pub counterparty_did : Option String
  pub wallet_address : Option String
  pub jurisdiction : Option String

abbrev pub is_some {ℓ} : {A : Type ℓ} → Option A → Bool
is_some none = false
is_some (some a) = true

-- `MandateRequest::is_commerce_request`
abbrev pub is_commerce_request : MandateRequest → Bool
is_commerce_request req = is_some req.task_id || is_some req.max_spend_cents

pub data MandateStatus : Type 0 where
  active expired revoked executed : MandateStatus

-- `status == MandateStatus::Active`
abbrev pub is_active : MandateStatus → Bool
is_active active = true
is_active _ = false

-- `PartialEq` of the statuses.
abbrev pub same_status : MandateStatus → MandateStatus → Bool
same_status active active = true
same_status expired expired = true
same_status revoked revoked = true
same_status executed executed = true
same_status _ _ = false

-- `MandateKeyInfo` has the fields of the key that a client may see: all of them.
pub record MandateResponse : Type 0 where
  pub id : String
  pub key : MandateKey
  pub expires_at_ms : ℕ
  pub status : MandateStatus
  pub enforced : Bool
  pub enforcement_mode : String

-- `Receipt` stands for the signed `ExecutionReceipt`.
pub record MandateRecord (Receipt : Type 0) : Type 0 where
  pub id : String
  pub key : MandateKey
  pub value : MandateValue
  pub args : List (List ℕ)
  pub status : MandateStatus
  pub created_at : ℕ
  pub expires_at_ms : ℕ
  pub bpf_committed : Bool
  pub receipt : Option Receipt

pub record MandateStats : Type 0 where
  pub active_count : ℕ
  pub total_created : ℕ
  pub total_expired : ℕ
  pub total_revoked : ℕ
  pub total_executed : ℕ
  pub bpf_map_usage : ℕ
  pub bpf_map_capacity : ℕ
  pub backpressure_active : Bool

-- The errors of `create`, in the order of its checks.
pub data CreateError : Type 0 where
  empty_args : CreateError
  too_many_args : ℕ → CreateError
  args_too_large : ℕ → CreateError
  backpressure : CreateError
  unresolved_container : CreateError
  unreadable_process : CreateError

-- The errors of `revoke` and `mark_executed`.
pub data UpdateError : Type 0 where
  not_found : UpdateError
  not_active : MandateStatus → UpdateError

-- `MandateHealth` without `map_usage_percent`.
pub record MandateHealth : Type 0 where
  pub status : String
  pub bpf_lsm_loaded : Bool
  pub enforcement_mode : String
  pub siphash_key_set : Bool
  pub reconciliation_interval_secs : ℕ

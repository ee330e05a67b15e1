-- ===== src/Mandate/Queries.antt =====
-- The readers of `MandateManager` (cognitod/src/mandate.rs), `connect_bpf_maps` and `create_batch`.
use linnix.Prelude.{
  ℕ, ◌+◌, ◌%◌, Bool, true, ◌||◌, not, Option, none, some, List, [], ◌∷◌, map, String, if◌then◌else◌,
  length, keep_if, take,
}
use linnix.Prelude.Keys.{◌==◌, nat_eq, string_eq}
use linnix.Prelude.Assoc.{lookup}
use linnix.Prelude.Words.{u32_mod}
use linnix.Prelude.Results.{Result, ok, err}
use linnix.Protocol.{mandate_map_max_entries, mode_code}
use linnix.BpfMap.{BpfHash}
use linnix.Mandate.Types.{
  MandateRequest, MandateStatus, is_active, same_status, MandateResponse, MandateRecord,
  MandateStats, MandateHealth, CreateError,
}
use linnix.Mandate.Manager.{
  Moment, MandateManager, is_backpressure_active, create, response, enforcement_mode_str,
}

abbrev pub max_batch_size : ℕ
max_batch_size = 64

abbrev pub reconcile_interval_secs : ℕ
reconcile_interval_secs = 5

-- `Option::map`
abbrev pub map_option {ℓ κ} : {A : Type ℓ} {B : Type κ} → (A → B) → Option A → Option B
map_option f none = none
map_option f (some a) = some (f a)

-- `status_filter.is_none_or(|s| &r.status == s)`
abbrev pub passes_filter : {Receipt : Type 0} → Option MandateStatus → MandateRecord Receipt → Bool
passes_filter none r = true
passes_filter (some s) r = same_status r.status s

-- The arrays SIPHASH_KEY and MANDATE_MODE, as the hooks read them.
pub record MandateArrays : Type 0 where
  pub key0 : Option ℕ
  pub key1 : Option ℕ
  pub mode : Option ℕ

-- Which of the writes to the arrays succeed.
pub record MapWrites : Type 0 where
  pub key0 : Bool
  pub key1 : Bool
  pub mode : Bool

-- `BatchMandateResult`
pub record BatchMandateResult : Type 0 where
  pub index : ℕ
  pub mandate : Option MandateResponse
  pub error : Option CreateError

-- `BatchMandateResponse`
pub record BatchMandateResponse : Type 0 where
  pub total : ℕ
  pub succeeded : ℕ
  pub failed : ℕ
  pub results : List BatchMandateResult

module _ (bpf : BpfHash) (Receipt : Type 0) where
  -- `connect_bpf_maps`: a write to an array that fails is only logged.
  abbrev pub connect_bpf_maps :
      MapWrites
      → bpf.Map
      → MandateArrays
      → MandateManager bpf Receipt
      → MandateManager bpf Receipt × MandateArrays
  connect_bpf_maps succeed kernel_map arrays m = (
    record m { bpf_mandate_map = some kernel_map },
    record {
      key0 = if succeed.key0 then some m.siphash_key.0 else arrays.key0;
      key1 = if succeed.key1 then some m.siphash_key.1 else arrays.key1;
      mode = if succeed.mode then some (mode_code m.mode) else arrays.mode;
    },
  )

  abbrev pub get : String → MandateManager bpf Receipt → Option MandateResponse
  get id m = map_option (response bpf Receipt m) (lookup id m.mandates)

  abbrev pub get_receipt : String → MandateManager bpf Receipt → Option Receipt
  get_receipt id m = elim (lookup id m.mandates) [ none ↦ none | some r ↦ r.receipt ]

  abbrev pub get_args : String → MandateManager bpf Receipt → Option (List (List ℕ))
  get_args id m = map_option (λ r. r.args) (lookup id m.mandates)

  abbrev pub get_status : String → MandateManager bpf Receipt → Option MandateStatus
  get_status id m = map_option (λ r. r.status) (lookup id m.mandates)

  abbrev pub find_id_by_seq : ℕ → MandateManager bpf Receipt → Option String
  find_id_by_seq seq m = lookup seq m.seq_to_id

  abbrev pub get_execution_data : String → MandateManager bpf Receipt → Option (List (List ℕ) × ℕ)
  get_execution_data id m = elim (lookup id m.mandates) [
    | none ↦ none
    | some r ↦ if is_active r.status then some (r.args, r.value.mandate_seq) else none
  ]

  abbrev pub stats : MandateManager bpf Receipt → MandateStats
  stats m = record {
    active_count = length (keep_if (λ entry. is_active entry.1.status) m.mandates);
    total_created = m.total_created;
    total_expired = m.total_expired;
    total_revoked = m.total_revoked;
    total_executed = m.total_executed;
    bpf_map_usage = m.bpf_map_count % u32_mod;
    bpf_map_capacity = mandate_map_max_entries;
    backpressure_active = is_backpressure_active bpf Receipt m;
  }

  -- `health` without the percentage, a floating-point number.
  abbrev pub health : MandateManager bpf Receipt → MandateHealth
  health m = record {
    status = if m.bpf_available then "healthy" else "degraded";
    bpf_lsm_loaded = m.bpf_available;
    enforcement_mode = enforcement_mode_str m.mode;
    siphash_key_set = not (m.siphash_key.0 == 0) || not (m.siphash_key.1 == 0);
    reconciliation_interval_secs = reconcile_interval_secs;
  }

  abbrev pub list : Option MandateStatus → MandateManager bpf Receipt → List MandateResponse
  list status_filter m =
      map (λ entry. response bpf Receipt m entry.1)
        (keep_if (λ entry. passes_filter status_filter entry.1) m.mandates)

  -- One turn of the loop of `create_batch`.
  abbrev pub batch_item :
      ℕ → Result CreateError MandateResponse → BatchMandateResponse → BatchMandateResponse
  batch_item index (ok resp) rest = record rest {
    succeeded = rest.succeeded + 1;
    results = record { index = index; mandate = some resp; error = none } ∷ rest.results;
  }
  batch_item index (err e) rest = record rest {
    failed = rest.failed + 1;
    results = record { index = index; mandate = none; error = some e } ∷ rest.results;
  }

  -- The loop, from the item `index` on. Each call of `create` has its own moment.
  unfoldable pub create_each :
      (ℕ → Moment)
      → ℕ
      → List MandateRequest
      → MandateManager bpf Receipt
      → MandateManager bpf Receipt × BatchMandateResponse
  create_each moments index [] m =
      (m, record { total = 0; succeeded = 0; failed = 0; results = [] })
  create_each moments index (req ∷ reqs) m =
      let created = create bpf Receipt (moments index) req m in
      let rest = create_each moments (index + 1) reqs created.0 in
      (rest.0, batch_item index created.1 rest.1)

  unfoldable pub create_batch :
      (ℕ → Moment)
      → List MandateRequest
      → MandateManager bpf Receipt
      → MandateManager bpf Receipt × BatchMandateResponse
  create_batch moments requests m =
      let mandates = take max_batch_size requests in
      let each = create_each moments 0 mandates m in
      (each.0, record each.1 { total = length mandates })

-- ===== src/Compliance.antt =====
-- cognitod/src/compliance.rs: screening of counterparties, with its cache. Instants are nanoseconds.
-- `to_lowercase` and `to_uppercase` are the standard library's, and so arguments; a provider is what
-- its trait promises, and a hash set is a list.
pub mod Providers
pub mod Cache
pub mod Verdict
mod Tests
use linnix.Prelude.{
  ℕ, ◌+◌, Bool, true, false, not, ◌&&◌, Option, none, some, List, [], ◌∷◌, ◌++◌, map, String, leb,
  if◌then◌else◌,
}
use linnix.Prelude.Keys.{◌==◌, string_eq}
use linnix.Prelude.Results.{Result, ok, err}
use linnix.Compliance.Providers.{
  ScreeningResult, clear, blocked_jurisdiction, kyt_required, unavailable, is_blocked,
  ScreeningProvider, has, stub_provider,
}
use linnix.Compliance.Cache.{ScreeningCache, new as new_cache, get, insert, gc as gc_cache}

-- `ComplianceConfig` of cognitod/src/config.rs
pub record ComplianceConfig : Type 0 where
  pub enabled : Bool
  pub screening_provider : String
  pub screening_api_key_env : String
  pub screening_cache_ttl_hours : ℕ
  pub kyt_threshold_cents : ℕ
  pub blocked_jurisdictions : List String

abbrev pub default_config : ComplianceConfig
default_config = record {
  enabled = false;
  screening_provider = "none";
  screening_api_key_env = "";
  screening_cache_ttl_hours = 24;
  kyt_threshold_cents = 300000;
  blocked_jurisdictions = "KP" ∷ "IR" ∷ "CU" ∷ "SY" ∷ [];
}

pub record ComplianceEngine : Type 0 where
  pub config : ComplianceConfig
  pub provider : ScreeningProvider
  pub cache : ScreeningCache
  pub blocked_jurisdictions : List String

-- `ComplianceEngine::new`, with `to_uppercase`.
abbrev pub new : (String → String) → ComplianceConfig → ScreeningProvider → ComplianceEngine
new to_uppercase config provider = record {
  config = config;
  provider = provider;
  cache = new_cache config.screening_cache_ttl_hours;
  blocked_jurisdictions = map to_uppercase config.blocked_jurisdictions;
}

abbrev pub permissive : ComplianceEngine
permissive = record {
  config = default_config;
  provider = stub_provider;
  cache = new_cache 24;
  blocked_jurisdictions = [];
}

-- The instants that one screening reads.
pub record Instants : Type 0 where
  pub did_looked : ℕ
  pub did_stored : ℕ
  pub wallet_looked : ℕ
  pub wallet_stored : ℕ

-- The jurisdiction of a request, where it is a blocked one.
abbrev pub blocked_in : (String → String) → Option String → ComplianceEngine → Option String
blocked_in to_uppercase none e = none
blocked_in to_uppercase (some j) e =
    if has (to_uppercase j) e.blocked_jurisdictions then some (to_uppercase j) else none

-- What the provider answered is kept; an error is not.
abbrev pub keep :
    String → ℕ → Result String ScreeningResult → ScreeningCache → ScreeningCache × ScreeningResult
keep key stored (ok result) cache = (insert stored key result cache, result)
keep key stored (err reason) cache = (cache, unavailable reason)

-- One screening: the cache first, then the provider.
pub screen :
    String
    → ℕ
    → ℕ
    → Result String ScreeningResult
    → ScreeningCache
    → ScreeningCache × ScreeningResult
screen key looked stored answer cache = elim (get looked key cache) [
  | some result ↦ (cache, result)
  | none ↦ keep key stored answer cache
]

abbrev pub screen_wallet_if :
    Instants
    → Option String
    → ScreeningProvider
    → ScreeningCache
    → ScreeningCache × List ScreeningResult
screen_wallet_if t none provider cache = (cache, [])
screen_wallet_if t (some addr) provider cache =
    let screened =
      screen addr t.wallet_looked t.wallet_stored (provider.screen_wallet addr) cache in
    (screened.0, screened.1 ∷ [])

abbrev pub kyt_check : ℕ → ComplianceConfig → List ScreeningResult
kyt_check amount config =
    if leb config.kyt_threshold_cents amount
    then kyt_required amount config.kyt_threshold_cents ∷ []
    else []

-- A list with nothing in it becomes `Clear`.
abbrev pub or_clear : List ScreeningResult → List ScreeningResult
or_clear [] = clear ∷ []
or_clear (result ∷ results) = result ∷ results

abbrev pub screen_all :
    Instants
    → String
    → Option String
    → ℕ
    → ComplianceEngine
    → ComplianceEngine × List ScreeningResult
screen_all t did wallet amount e =
    let by_did = screen did t.did_looked t.did_stored (e.provider.screen_did did) e.cache in
    let by_wallet = screen_wallet_if t wallet e.provider by_did.0 in
    (
      record e { cache = by_wallet.0 },
      or_clear ((by_did.1 ∷ by_wallet.1) ++ kyt_check amount e.config),
    )

pub pre_task_screen :
    (String → String)
    → Instants
    → String
    → Option String
    → Option String
    → ℕ
    → ComplianceEngine
    → ComplianceEngine × List ScreeningResult
pre_task_screen to_uppercase t did wallet jurisdiction amount e =
    if not e.config.enabled
    then (e, clear ∷ [])
    else elim (blocked_in to_uppercase jurisdiction e) [
      | some j ↦ (e, blocked_jurisdiction j ∷ [])
      | none ↦ screen_all t did wallet amount e
    ]

abbrev pub has_hard_block : List ScreeningResult → Bool
has_hard_block [] = false
has_hard_block (result ∷ results) = if is_blocked result then true else has_hard_block results

abbrev pub requires_travel_rule : ℕ → ComplianceEngine → Bool
requires_travel_rule amount e = leb e.config.kyt_threshold_cents amount

abbrev pub gc : ℕ → ComplianceEngine → ComplianceEngine
gc now e = record e { cache = gc_cache now e.cache }

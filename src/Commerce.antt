-- ===== src/Commerce.antt =====
-- cognitod/src/commerce.rs: whether a mandate that costs money is allowed, by what the kernel enforces.
use linnix.Prelude.{◌≡◌, ◌↔◌, Bool, true, false, not, ◌&&◌, String, if◌then◌else◌, arith}
use linnix.Prelude.Keys.{◌==◌, string_eq}
use linnix.Prelude.Results.{Result, ok, err}

pub data DeploymentMode : Type 0 where
  full_enforcement monitor_only observability_only : DeploymentMode

-- `DeploymentMode::enforcement_mode_str`
abbrev pub mode_name : DeploymentMode → String
mode_name full_enforcement = "enforce"
mode_name monitor_only = "monitor"
mode_name observability_only = "none"

abbrev pub is_kernel_attested : DeploymentMode → Bool
is_kernel_attested full_enforcement = true
is_kernel_attested _ = false

abbrev pub is_degraded : DeploymentMode → Bool
is_degraded full_enforcement = false
is_degraded _ = true

abbrev pub is_observability_only : DeploymentMode → Bool
is_observability_only observability_only = true
is_observability_only _ = false

pub record CommercePolicy : Type 0 where
  pub mode : DeploymentMode
  pub allow_commerce_without_lsm : Bool

-- `CommercePolicy::new`
unfoldable pub detect : Bool → String → Bool → CommercePolicy
detect bpf_lsm_available mandate_mode allow_without_lsm = record {
  mode =
      if bpf_lsm_available
      then (if mandate_mode == "enforce" then full_enforcement else monitor_only)
      else observability_only;
  allow_commerce_without_lsm = allow_without_lsm;
}

-- The rejection, by its mode; the message is a fixed text.
unfoldable pub check_commerce : CommercePolicy → Bool → Result String (Unit {0})
check_commerce policy is_commerce_request =
    if not is_commerce_request
    then ok tt
    else if is_observability_only policy.mode && not policy.allow_commerce_without_lsm
    then err (mode_name policy.mode)
    else ok tt

abbrev pub is_enforced : CommercePolicy → Bool
is_enforced policy = is_kernel_attested policy.mode

-- The detected policy rejects exactly the requests that cost money, on a system without the BPF
-- LSM, where the operator has not allowed them.
check_commerce_rejects_iff :
    (bpf_lsm_available : Bool) (mandate_mode : String)
    (allow_without_lsm is_commerce_request : Bool)
    → (check_commerce (detect bpf_lsm_available mandate_mode allow_without_lsm) is_commerce_request
        ≡ err "none")
      ↔ ((bpf_lsm_available ≡ false) × (allow_without_lsm ≡ false) × (is_commerce_request ≡ true))
unfolding check_commerce detect
check_commerce_rejects_iff bpf_lsm_available mandate_mode allow_without_lsm is_commerce_request =
    (λ h. ground arith, λ h. ground arith)

-- ===== src/Compliance/Providers.antt =====
-- cognitod/src/compliance.rs: the results of a screening and the providers that give them.
use Prim.Native.String.{◌++◌ as ◌+++◌}
use linnix.Prelude.{
  ℕ, Bool, true, false, ◌||◌, Option, none, some, List, [], ◌∷◌, map, String, if◌then◌else◌,
}
use linnix.Prelude.Keys.{◌==◌, string_eq}
use linnix.Prelude.Results.{Result, ok}

pub data ScreeningResult : Type 0 where
  clear : ScreeningResult
  -- list, match_type, details
  sanctioned : String → String → String → ScreeningResult
  blocked_jurisdiction : String → ScreeningResult
  -- amount_cents, threshold_cents
  kyt_required : ℕ → ℕ → ScreeningResult
  unavailable : String → ScreeningResult

abbrev pub is_blocked : ScreeningResult → Bool
is_blocked (sanctioned list match_type details) = true
is_blocked (blocked_jurisdiction j) = true
is_blocked _ = false

abbrev pub requires_enhanced_dd : ScreeningResult → Bool
requires_enhanced_dd (kyt_required amount threshold) = true
requires_enhanced_dd _ = false

-- The trait: an answer, or the text of an error.
pub record ScreeningProvider : Type 0 where
  pub name : String
  pub screen_did : String → Result String ScreeningResult
  pub screen_wallet : String → Result String ScreeningResult

abbrev pub stub_provider : ScreeningProvider
stub_provider = record {
  name = "stub";
  screen_did = λ did. ok clear;
  screen_wallet = λ address. ok clear;
}

-- `HashSet::contains`
abbrev pub has : String → List String → Bool
has wanted [] = false
has wanted (entry ∷ entries) = entry == wanted || has wanted entries

pub record OfacSdnProvider : Type 0 where
  pub blocked : List String
  pub last_refresh : Option ℕ

abbrev pub new : OfacSdnProvider
new = record { blocked = []; last_refresh = none }

module _ (to_lowercase : String → String) where
  abbrev pub load_blocklist : ℕ → List String → OfacSdnProvider → OfacSdnProvider
  load_blocklist now entries p = record {
    blocked = map to_lowercase entries;
    last_refresh = some now;
  }

  abbrev pub screen_did : OfacSdnProvider → String → Result String ScreeningResult
  screen_did p did =
      if has (to_lowercase did) p.blocked
      then ok (sanctioned "OFAC_SDN" "did_match" ("DID " +++ (did +++ " matched OFAC SDN list")))
      else ok clear

  abbrev pub screen_wallet : OfacSdnProvider → String → Result String ScreeningResult
  screen_wallet p address =
      if has (to_lowercase address) p.blocked
      then ok (
          sanctioned "OFAC_SDN" "wallet_match"
            ("Wallet " +++ (address +++ " matched OFAC SDN list")))
      else ok clear

  -- `impl ScreeningProvider for OfacSdnProvider`
  abbrev pub ofac_sdn : OfacSdnProvider → ScreeningProvider
  ofac_sdn p = record {
    name = "ofac_sdn";
    screen_did = screen_did p;
    screen_wallet = screen_wallet p;
  }

-- ===== src/Compliance/Tests.antt =====
-- Screenings against a block list with one entry.
use linnix.Prelude.{ℕ, ◌≡◌, refl, Bool, true, false, none, some, [], ◌∷◌, String}
use linnix.Prelude.Results.{err}
use linnix.Compliance.Providers.{
  OfacSdnProvider, ScreeningProvider, load_blocklist, new as no_list, ofac_sdn,
}
use linnix.Compliance.{
  ComplianceConfig, ComplianceEngine, Instants, default_config, new, pre_task_screen,
  has_hard_block,
}
use linnix.Compliance.Cache.{get}
use linnix.Compliance.Verdict.{fresh, screening, pre_task_screen_blocks}

abbrev same : String → String
same text = text

abbrev block_list : OfacSdnProvider
block_list = load_blocklist same 5 ("0xbad" ∷ []) no_list

abbrev strict : ComplianceConfig
strict = record default_config { enabled = true }

abbrev instants : Instants
instants = record { did_looked = 51; did_stored = 52; wallet_looked = 53; wallet_stored = 54 }

abbrev start : ComplianceEngine
start = new same strict (ofac_sdn same block_list)

abbrev used_once : ComplianceEngine
used_once = (pre_task_screen same instants "did:web:a" (some "0xbad") none 10 start).0

-- The second screening of the wallet is answered from the cache.
pre_task_screen_blocks_example :
    has_hard_block
      (pre_task_screen same instants "did:web:b" (some "0xbad") (some "DE") 10 used_once).1
    ≡ true
pre_task_screen_blocks_example =
    pre_task_screen_blocks same same block_list strict instants "did:web:b" (some "0xbad")
      (some "DE") 10 used_once (screening instants "did:web:a" (some "0xbad") none 10 fresh)

abbrev broken_provider : ScreeningProvider
broken_provider = record {
  name = "down";
  screen_did = λ did. err "timeout";
  screen_wallet = λ address. err "timeout";
}

abbrev broken : ComplianceEngine
broken = new same strict broken_provider

missed : get 51 "did:web:bad" broken.cache ≡ none
unfolding get linnix.Prelude.Assoc.lookup
missed = refl

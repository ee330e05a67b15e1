-- ===== src/Compliance/Verdict.antt =====
-- The verdict of cognitod/src/compliance.rs: that the cache changes no answer of a fixed block list,
-- and what a provider that fails leads to.
use linnix.Prelude.{
  ℕ, ◌+◌, ◌≡◌, refl, Bool, true, false, ◌&&◌, ◌||◌, Option, none, some, List, [], ◌∷◌, ◌++◌, map,
  String, ltb, arith, Bool-cases, Option-cases, ◌⊎◌, inl, inr, sym,
}
use mathlib.Core.Path.{subst}
use linnix.Prelude.Keys.{◌==◌, string_eq, ==→eq}
use linnix.Prelude.Assoc.{Assoc, lookup, insert}
use linnix.Prelude.Results.{Result, ok, err}
use linnix.Mandate.Types.{is_some}
use linnix.Compliance.Providers.{
  ScreeningResult, clear, blocked_jurisdiction, unavailable, is_blocked, ScreeningProvider, has,
  OfacSdnProvider, ofac_sdn,
}
use linnix.Compliance.Cache.{CachedScreening, ScreeningCache, get, retain}
use linnix.Compliance.{
  ComplianceConfig, ComplianceEngine, Instants, new, blocked_in, keep, screen, screen_wallet_if,
  kyt_check, screen_all, pre_task_screen, has_hard_block, gc,
}

-- Every cached result blocks exactly the keys that `bad` marks.
abbrev pub Agrees : (String → Bool) → Assoc String CachedScreening → Type 0
Agrees bad [] = Unit
Agrees bad ((key, cached) ∷ rest) = (is_blocked cached.result ≡ bad key) × Agrees bad rest

abbrev Fits : (String → Bool) → String → Result String ScreeningResult → Type 0
Fits bad key (ok result) = is_blocked result ≡ bad key
Fits bad key (err reason) = ⊥

lookup-Agrees :
    (bad : String → Bool) (key : String) (entries : Assoc String CachedScreening)
    (cached : CachedScreening)
    → Agrees bad entries
    → lookup key entries ≡ some cached
    → is_blocked cached.result ≡ bad key
unfolding lookup
lookup-Agrees bad key [] cached good found = absurd (ground (arith, found))
lookup-Agrees bad key ((other, first) ∷ rest) cached (fits, good) found =
    elim (Bool-cases (other == key)) [
      | inl same ↦ ground (arith, ==→eq other key same)
      | inr apart ↦ lookup-Agrees bad key rest cached good (ground arith)
    ]

insert-Agrees :
    (bad : String → Bool) (key : String) (cached : CachedScreening)
    (entries : Assoc String CachedScreening)
    → is_blocked cached.result ≡ bad key
    → Agrees bad entries
    → Agrees bad (insert key cached entries)
unfolding insert
insert-Agrees bad key cached [] fits good = (fits, tt)
insert-Agrees bad key cached ((other, first) ∷ rest) fits (first_fits, good) =
    elim (Bool-cases (other == key)) [
      | inl same ↦ rw same (fits, good)
      | inr apart ↦ rw apart (first_fits, insert-Agrees bad key cached rest fits good)
    ]

retain-Agrees :
    (bad : String → Bool) (now : ℕ) (entries : Assoc String CachedScreening)
    → Agrees bad entries
    → Agrees bad (retain now entries)
retain-Agrees bad now [] good = tt
retain-Agrees bad now ((key, cached) ∷ rest) (fits, good) =
    elim (Bool-cases (ltb now cached.expires)) [
      | inl kept ↦ rw kept (fits, retain-Agrees bad now rest good)
      | inr late ↦ rw late (retain-Agrees bad now rest good)
    ]

get-Agrees :
    (bad : String → Bool) (now : ℕ) (key : String) (cache : ScreeningCache)
    (result : ScreeningResult)
    → Agrees bad cache.entries
    → get now key cache ≡ some result
    → is_blocked result ≡ bad key
unfolding get
get-Agrees bad now key cache result good hit = elim (Option-cases (lookup key cache.entries)) [
  | inl missing ↦ absurd (ground arith)
  | inr (cached, found) ↦ ground (arith, lookup-Agrees bad key cache.entries cached good found)
]

keep-Agrees :
    (bad : String → Bool) (key : String) (stored : ℕ) (answer : Result String ScreeningResult)
    (cache : ScreeningCache)
    → Fits bad key answer
    → Agrees bad cache.entries
    → Agrees bad (keep key stored answer cache).0.entries
      × (is_blocked (keep key stored answer cache).1 ≡ bad key)
keep-Agrees bad key stored (ok result) cache fits good = (
  insert-Agrees bad key (record { result = result; expires = stored + cache.ttl }) cache.entries
      fits good,
  fits,
)
keep-Agrees bad key stored (err reason) cache fits good = elim fits [ ]

screen_hit :
    (key : String) (looked stored : ℕ) (answer : Result String ScreeningResult)
    (cache : ScreeningCache) (result : ScreeningResult)
    → get looked key cache ≡ some result
    → screen key looked stored answer cache ≡ (cache, result)
unfolding screen
screen_hit key looked stored answer cache result hit = rw (screen, hit) refl

screen_miss :
    (key : String) (looked stored : ℕ) (answer : Result String ScreeningResult)
    (cache : ScreeningCache)
    → get looked key cache ≡ none
    → screen key looked stored answer cache ≡ keep key stored answer cache
unfolding screen
screen_miss key looked stored answer cache miss = rw (screen, miss) refl

-- A screening that leaves a good cache and blocks what `bad` marks.
abbrev Sound : (String → Bool) → String → ScreeningCache × ScreeningResult → Type 0
Sound bad key screened = Agrees bad screened.0.entries × (is_blocked screened.1 ≡ bad key)

screen-Sound :
    (bad : String → Bool) (key : String) (looked stored : ℕ)
    (answer : Result String ScreeningResult) (cache : ScreeningCache)
    → Fits bad key answer
    → Agrees bad cache.entries
    → Sound bad key (screen key looked stored answer cache)
screen-Sound bad key looked stored answer cache fits good =
    elim (Option-cases (get looked key cache)) [
      | inl miss ↦
          subst (Sound bad key) (sym (screen_miss key looked stored answer cache miss))
            (keep-Agrees bad key stored answer cache fits good)
      | inr (result, hit) ↦
          subst (Sound bad key) (sym (screen_hit key looked stored answer cache result hit))
            (good, get-Agrees bad looked key cache result good hit)
    ]

-- An optional value that a test marks.
abbrev pub marked : (String → Bool) → Option String → Bool
marked bad none = false
marked bad (some s) = bad s

kyt_check_passes :
    (amount : ℕ) (config : ComplianceConfig) → has_hard_block (kyt_check amount config) ≡ false
kyt_check_passes amount config = ground arith

has_hard_block-append :
    (xs ys : List ScreeningResult)
    → has_hard_block (xs ++ ys) ≡ (has_hard_block xs || has_hard_block ys)
has_hard_block-append [] ys = refl
has_hard_block-append (x ∷ xs) ys = ground (arith, has_hard_block-append xs ys)

-- The identifiers that a block list marks.
abbrev pub listed : (String → String) → OfacSdnProvider → String → Bool
listed to_lowercase p s = has (to_lowercase s) p.blocked

module _ (to_lowercase to_uppercase : String → String) (p : OfacSdnProvider) where
  did-Fits :
      (did : String) → Fits (listed to_lowercase p) did ((ofac_sdn to_lowercase p).screen_did did)
  did-Fits did = elim (Bool-cases (listed to_lowercase p did)) [
    | inl bad ↦ rw bad (sym bad)
    | inr fine ↦ rw fine (sym fine)
  ]

  wallet-Fits :
      (address : String)
      → Fits (listed to_lowercase p) address ((ofac_sdn to_lowercase p).screen_wallet address)
  wallet-Fits address = elim (Bool-cases (listed to_lowercase p address)) [
    | inl bad ↦ rw bad (sym bad)
    | inr fine ↦ rw fine (sym fine)
  ]

  -- The engine after any screenings and collections, with the same block list.
  pub data Used (config : ComplianceConfig) : ComplianceEngine → Type 0 where
    fresh : Used config (new to_uppercase config (ofac_sdn to_lowercase p))
    screening :
        {e : ComplianceEngine} (t : Instants) (did : String) (wallet jurisdiction : Option String)
        (amount : ℕ)
        → Used config e
        → Used config (pre_task_screen to_uppercase t did wallet jurisdiction amount e).0
    collecting : {e : ComplianceEngine} (now : ℕ) → Used config e → Used config (gc now e)

  -- The engine's configuration, and a cache that the block list agrees with.
  abbrev Ready : ComplianceConfig → ComplianceEngine → Type 0
  Ready config e =
      (e.config ≡ config)
      × (e.provider ≡ ofac_sdn to_lowercase p)
      × (e.blocked_jurisdictions ≡ map to_uppercase config.blocked_jurisdictions)
      × Agrees (listed to_lowercase p) e.cache.entries

  did_screen-Sound :
      (config : ComplianceConfig) (t : Instants) (did : String) (e : ComplianceEngine)
      → Ready config e
      → Sound
          (listed to_lowercase p)
          did
          (screen did t.did_looked t.did_stored (e.provider.screen_did did) e.cache)
  did_screen-Sound config t did e (same, provider, zones, good) = rw provider (
      screen-Sound (listed to_lowercase p) did t.did_looked t.did_stored
        ((ofac_sdn to_lowercase p).screen_did did) e.cache (did-Fits did) good)

  wallet_screen-Sound :
      (t : Instants) (wallet : Option String) (provider : ScreeningProvider)
      (cache : ScreeningCache)
      → provider ≡ ofac_sdn to_lowercase p
      → Agrees (listed to_lowercase p) cache.entries
      → Agrees (listed to_lowercase p) (screen_wallet_if t wallet provider cache).0.entries
        × (has_hard_block (screen_wallet_if t wallet provider cache).1
            ≡ marked (listed to_lowercase p) wallet)
  wallet_screen-Sound t none provider cache same good = (good, refl)
  wallet_screen-Sound t (some addr) provider cache same good =
      let sound =
        screen-Sound (listed to_lowercase p) addr t.wallet_looked t.wallet_stored
          ((ofac_sdn to_lowercase p).screen_wallet addr) cache (wallet-Fits addr) good in
      rw same (sound.0, ground (arith, sound.1))

  screen_all-Ready :
      (config : ComplianceConfig) (t : Instants) (did : String) (wallet : Option String)
      (amount : ℕ) (e : ComplianceEngine)
      → Ready config e
      → Ready config (screen_all t did wallet amount e).0
        × (has_hard_block (screen_all t did wallet amount e).1
            ≡ (listed to_lowercase p did || marked (listed to_lowercase p) wallet))
  screen_all-Ready config t did wallet amount e ready =
      let by_did = did_screen-Sound config t did e ready in
      let screened = screen did t.did_looked t.did_stored (e.provider.screen_did did) e.cache in
      let by_wallet = wallet_screen-Sound t wallet e.provider screened.0 ready.1 by_did.0 in
      (
        (ready.0, ready.1, ready.2, by_wallet.0),
        ground (
          arith,
          by_did.1,
          by_wallet.1,
          kyt_check_passes amount e.config,
          has_hard_block-append (screen_wallet_if t wallet e.provider screened.0).1
              (kyt_check amount e.config),
        ),
      )

  -- How a screening ends: not at all, with a blocked jurisdiction, or with all checks.
  pre_task_screen_cases :
      (t : Instants) (did : String) (wallet jurisdiction : Option String) (amount : ℕ)
      (e : ComplianceEngine)
      → ((e.config.enabled ≡ false)
          × (pre_task_screen to_uppercase t did wallet jurisdiction amount e ≡ (e, clear ∷ [])))
        ⊎ ((e.config.enabled ≡ true)
            × (((j : String) × (blocked_in to_uppercase jurisdiction e ≡ some j)
                  × (pre_task_screen to_uppercase t did wallet jurisdiction amount e
                      ≡ (e, blocked_jurisdiction j ∷ [])))
                ⊎ ((blocked_in to_uppercase jurisdiction e ≡ none)
                    × (pre_task_screen to_uppercase t did wallet jurisdiction amount e
                        ≡ screen_all t did wallet amount e))))
  unfolding pre_task_screen
  pre_task_screen_cases t did wallet jurisdiction amount e = elim (Bool-cases e.config.enabled) [
    | inr off ↦ inl (off, ground arith)
    | inl on ↦ elim (Option-cases (blocked_in to_uppercase jurisdiction e)) [
      | inr (j, zone) ↦ inr (on, inl (j, zone, ground arith))
      | inl elsewhere ↦ inr (on, inr (elsewhere, ground arith))
    ]
  ]

  pre_task_screen-Ready :
      (config : ComplianceConfig) (t : Instants) (did : String)
      (wallet jurisdiction : Option String) (amount : ℕ) (e : ComplianceEngine)
      → Ready config e
      → Ready config (pre_task_screen to_uppercase t did wallet jurisdiction amount e).0
  pre_task_screen-Ready config t did wallet jurisdiction amount e ready =
      elim (pre_task_screen_cases t did wallet jurisdiction amount e) [
        | inl (off, same) ↦ subst (λ r. Ready config r.0) (sym same) ready
        | inr (on, inl (j, zone, same)) ↦ subst (λ r. Ready config r.0) (sym same) ready
        | inr (on, inr (elsewhere, same)) ↦
            subst (λ r. Ready config r.0) (sym same)
              (screen_all-Ready config t did wallet amount e ready).0
      ]

  Used-Ready : (config : ComplianceConfig) (e : ComplianceEngine) → Used config e → Ready config e
  Used-Ready config e fresh = (refl, refl, refl, tt)
  Used-Ready config _ (screening {e} t did wallet jurisdiction amount used) =
      pre_task_screen-Ready config t did wallet jurisdiction amount e (Used-Ready config e used)
  Used-Ready config _ (collecting {e} now used) =
      let ready = Used-Ready config e used in
      (ready.0, ready.1, ready.2, retain-Agrees (listed to_lowercase p) now e.cache.entries ready.3)

  blocked_in-marked :
      (config : ComplianceConfig) (jurisdiction : Option String) (e : ComplianceEngine)
      → e.blocked_jurisdictions ≡ map to_uppercase config.blocked_jurisdictions
      → is_some (blocked_in to_uppercase jurisdiction e)
        ≡ marked
            (λ j. has (to_uppercase j) (map to_uppercase config.blocked_jurisdictions))
            jurisdiction
  blocked_in-marked config none e zones = refl
  blocked_in-marked config (some j) e zones = ground (arith, zones)

  -- An engine made by `new` with the OFAC provider, after any screenings and collections with the same
  -- block list, reports a hard block exactly when screening is enabled and the jurisdiction is a blocked
  -- one, or the list has the DID or the wallet address, as normalised: the cache changes no verdict.
  pub pre_task_screen_blocks :
      (config : ComplianceConfig) (t : Instants) (did : String)
      (wallet jurisdiction : Option String) (amount : ℕ) (e : ComplianceEngine)
      → Used config e
      → has_hard_block (pre_task_screen to_uppercase t did wallet jurisdiction amount e).1 ≡ (
          config.enabled
          && (marked
                (λ j. has (to_uppercase j) (map to_uppercase config.blocked_jurisdictions))
                jurisdiction
              || (listed to_lowercase p did || marked (listed to_lowercase p) wallet)))
  pre_task_screen_blocks config t did wallet jurisdiction amount e used =
      let ready = Used-Ready config e used in
      let zones = blocked_in-marked config jurisdiction e ready.2 in
      elim (pre_task_screen_cases t did wallet jurisdiction amount e) [
        | inl (off, same) ↦ ground (arith, ready.0)
        | inr (on, inl (j, zone, same)) ↦ ground (arith, ready.0)
        | inr (on, inr (elsewhere, same)) ↦
            ground (arith, ready.0, (screen_all-Ready config t did wallet amount e ready).1)
      ]

-- With screening enabled, no wallet and no blocked jurisdiction, a DID that is not in the cache and for
-- which the provider fails is not a hard block: the result says only that the screening was unavailable.
pre_task_screen_unavailable :
    (to_uppercase : String → String) (t : Instants) (did reason : String)
    (jurisdiction : Option String) (amount : ℕ) (e : ComplianceEngine)
    → e.config.enabled ≡ true
    → blocked_in to_uppercase jurisdiction e ≡ none
    → get t.did_looked did e.cache ≡ none
    → e.provider.screen_did did ≡ err reason
    → (pre_task_screen to_uppercase t did none jurisdiction amount e
        ≡ (e, unavailable reason ∷ kyt_check amount e.config))
      × (has_hard_block (pre_task_screen to_uppercase t did none jurisdiction amount e).1 ≡ false)
unfolding pre_task_screen screen
pre_task_screen_unavailable to_uppercase t did reason jurisdiction amount e on elsewhere miss
      failed =
    let same : pre_task_screen to_uppercase t did none jurisdiction amount e
        ≡ (e, unavailable reason ∷ kyt_check amount e.config) =
      ground arith in
    (same, ground (arith, kyt_check_passes amount e.config))

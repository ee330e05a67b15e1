-- ===== src/Probe/Sampling.antt =====
-- linnix-ai-ebpf/linnix-ai-ebpf-ebpf/src/program.rs: what two samples of a process tell, and how far apart
-- the page faults of a process are that are reported.
use linnix.Prelude.{
  ℕ, ◌+◌, ◌-◌, ◌*◌, ◌/◌, ◌≤◌, ◌<◌, ◌≡◌, ◌≢◌, refl, sym, ◌∙◌, ap, min, inl, inr, Bool, true, false,
  Bool-cases, Option, none, some, List, [], ◌∷◌, ltb, if◌then◌else◌, arith,
}
use linnix.Prelude.Keys.{◌==◌, nat_eq, ==→eq, ==_refl}
use linnix.Prelude.Words.{u64_max}
use linnix.Protocol.{percent_milli_unknown}
use linnix.Probe.{
  PidMap, TaskStats, stats_of, cpu_share, sample, sample_cpu, throttle, throttle_page_fault,
  page_fault_min_interval_ns,
}

module _ (stats : PidMap TaskStats) where
  sample-stores :
      (pid runtime now : ℕ) (m : stats.Map) (found : Option TaskStats) (inserted : Option stats.Map)
      → stats.get m pid ≡ found
      → stats.insert m pid (stats_of runtime now) ≡ inserted
      → inserted ≢ none
      → stats.get (sample stats pid runtime now m found inserted).0 pid
        ≡ some (stats_of runtime now)
  unfolding sample
  sample-stores pid runtime now m (some before) inserted e e' room =
      stats.get-set m pid before (stats_of runtime now) e pid ∙ rw (==_refl pid) refl
  sample-stores pid runtime now m none none e e' room = absurd (room refl)
  sample-stores pid runtime now m none (some m') e e' room =
      stats.get-insert m pid (stats_of runtime now) m' e' pid ∙ rw (==_refl pid) refl

  sample_cpu-stores :
      (pid runtime now : ℕ) (m : stats.Map)
      → stats.insert m pid (stats_of runtime now) ≢ none
      → stats.get (sample_cpu stats pid (some runtime) now m).0 pid ≡ some (stats_of runtime now)
  unfolding sample_cpu
  sample_cpu-stores pid runtime now m room =
      sample-stores pid runtime now m (stats.get m pid) (stats.insert m pid (stats_of runtime now))
        refl refl room

  sample_cpu-share :
      (pid runtime now : ℕ) (m : stats.Map) (before : TaskStats)
      → stats.get m pid ≡ some before
      → (sample_cpu stats pid (some runtime) now m).1 ≡ cpu_share before runtime now
  unfolding sample_cpu sample
  sample_cpu-share pid runtime now m before e =
      ap
        (λ found.
          (sample stats pid runtime now m found (stats.insert m pid (stats_of runtime now))).1)
        e

  share_of :
      (r t runtime now : ℕ)
      → 0 < t
      → t < now
      → r ≤ runtime
      → (runtime - r) * 100000 ≤ u64_max
      → cpu_share (stats_of r t) runtime now
        ≡ min ((runtime - r) * 100000 / (now - t)) (percent_milli_unknown - 1)
  unfolding cpu_share
  share_of r t runtime now started later grows fits = ground (arith, started, later, grows, fits)

  -- Where the map has room for the first of two samples of a process, taken at a positive time, and the
  -- second is later, its runtime is no smaller and its growth times 100,000 fits 64 bits: the second
  -- sample is the share of the time between them in thousandths of a percent, rounded down, but never more
  -- than 65,534, so every share from 65.534 percent up to a full processor and beyond is reported as one.
  pub sample_cpu-sample_cpu :
      (pid r t runtime now : ℕ) (m : stats.Map)
      → stats.insert m pid (stats_of r t) ≢ none
      → 0 < t
      → t < now
      → r ≤ runtime
      → (runtime - r) * 100000 ≤ u64_max
      → (sample_cpu stats pid (some runtime) now (sample_cpu stats pid (some r) t m).0).1
        ≡ min ((runtime - r) * 100000 / (now - t)) 65534
  sample_cpu-sample_cpu pid r t runtime now m room started later grows fits =
      sample_cpu-share pid runtime now (sample_cpu stats pid (some r) t m).0 (stats_of r t)
        (sample_cpu-stores pid r t m room)
      ∙ share_of r t runtime now started later grows fits

module _ (faults : PidMap ℕ) where
  -- The faults, each with its process and its time, in the order in which they come, and those that are
  -- reported, the newest first.
  abbrev pub report_one : ℕ → ℕ → faults.Map × Bool → List (ℕ × ℕ) → faults.Map × List (ℕ × ℕ)
  report_one pid now (m, true) reported = (m, (pid, now) ∷ reported)
  report_one pid now (m, false) reported = (m, reported)

  unfoldable pub report_all : List (ℕ × ℕ) → faults.Map → List (ℕ × ℕ) → faults.Map × List (ℕ × ℕ)
  report_all [] m reported = (m, reported)
  report_all ((pid, now) ∷ rest) m reported =
      let (m', reported') = report_one pid now (throttle_page_fault faults pid now m) reported in
      report_all rest m' reported'

  abbrev pub After : ℕ → ℕ → List (ℕ × ℕ) → Type 0
  After pid now [] = Unit
  After pid now ((other, earlier) ∷ older) =
      (other ≡ pid → earlier + page_fault_min_interval_ns ≤ now) × After pid now older

  abbrev pub Spaced : List (ℕ × ℕ) → Type 0
  Spaced [] = Unit
  Spaced ((pid, now) ∷ older) = After pid now older × Spaced older

  -- The map holds, for each process with a report, a time that is no earlier.
  Covered : faults.Map → List (ℕ × ℕ) → Type 0
  Covered m [] = Unit
  Covered m ((pid, now) ∷ older) =
      ((last : ℕ) × (faults.get m pid ≡ some last) × (now ≤ last)) × Covered m older

  After-earlier :
      (pid last now : ℕ) (m : faults.Map) (reported : List (ℕ × ℕ))
      → Covered m reported
      → faults.get m pid ≡ some last
      → last + page_fault_min_interval_ns ≤ now
      → After pid now reported
  unfolding Covered
  After-earlier pid last now m [] covered e late = tt
  After-earlier pid last now m ((other, earlier) ∷ older) covered e late = (
    (λ h.
        let same : some covered.0.0 ≡ some last =
          sym covered.0.1 ∙ ap (λ p. faults.get m p) h ∙ e in
        let equal : covered.0.0 ≡ last = cc same in omega (arith, covered.0.2, equal, late)),
    After-earlier pid last now m older covered.1 e late,
  )

  After-unknown :
      (pid now : ℕ) (m : faults.Map) (reported : List (ℕ × ℕ))
      → Covered m reported
      → faults.get m pid ≡ none
      → After pid now reported
  unfolding Covered
  After-unknown pid now m [] covered e = tt
  After-unknown pid now m ((other, earlier) ∷ older) covered e = (
    (λ h.
        let clash : some covered.0.0 ≡ none = sym covered.0.1 ∙ ap (λ p. faults.get m p) h ∙ e in
        absurd (cc clash)),
    After-unknown pid now m older covered.1 e,
  )

  Covered-put :
      (pid now : ℕ) (m m' : faults.Map) (reported : List (ℕ × ℕ))
      → ((other : ℕ)
          → faults.get m' other ≡ (if pid == other then some now else faults.get m other))
      → After pid now reported
      → Covered m reported
      → Covered m' reported
  unfolding Covered
  Covered-put pid now m m' [] put after covered = tt
  Covered-put pid now m m' ((other, earlier) ∷ older) put after covered = (
    elim (Bool-cases (pid == other)) [
      | inl e ↦ (now, put other ∙ rw e refl, omega (arith, after.0 (sym (==→eq pid other e))))
      | inr e ↦ (covered.0.0, put other ∙ rw e covered.0.1, covered.0.2)
    ],
    Covered-put pid now m m' older put after.1 covered.1,
  )

  Good : faults.Map → List (ℕ × ℕ) → Type 0
  Good m reported = Covered m reported × Spaced reported

  put-Good :
      (pid now : ℕ) (m m' : faults.Map) (reported : List (ℕ × ℕ))
      → ((other : ℕ)
          → faults.get m' other ≡ (if pid == other then some now else faults.get m other))
      → After pid now reported
      → Good m reported
      → Good m' ((pid, now) ∷ reported)
  unfolding Good Covered
  put-Good pid now m m' reported put after good = (
    (
      (now, put pid ∙ rw (==_refl pid) refl, omega arith),
      Covered-put pid now m m' reported put after good.0,
    ),
    (after, good.1),
  )

  long_ago :
      (last now : ℕ)
      → ltb (now - last) page_fault_min_interval_ns ≡ false
      → last + page_fault_min_interval_ns ≤ now
  long_ago last now h = ground (arith, h)

  throttle-Good :
      (pid now : ℕ) (m : faults.Map) (found : Option ℕ) (inserted : Option faults.Map)
      (reported : List (ℕ × ℕ))
      → faults.get m pid ≡ found
      → faults.insert m pid now ≡ inserted
      → inserted ≢ none
      → Good m reported
      → Good
          (report_one pid now (throttle faults pid now m found inserted) reported).0
          (report_one pid now (throttle faults pid now m found inserted) reported).1
  unfolding throttle Good
  throttle-Good pid now m (some last) inserted reported e e' room good =
      elim (Bool-cases (ltb (now - last) page_fault_min_interval_ns)) [
        | inl soon ↦ rw soon good
        | inr late ↦ rw late (
            put-Good pid now m (faults.set m pid now) reported (faults.get-set m pid last now e)
              (After-earlier pid last now m reported good.0 e (long_ago last now late)) good)
      ]
  throttle-Good pid now m none none reported e e' room good = absurd (room refl)
  throttle-Good pid now m none (some m') reported e e' room good =
      put-Good pid now m m' reported (faults.get-insert m pid now m' e')
        (After-unknown pid now m reported good.0 e) good

  -- At every fault of the run the map takes an entry for its process.
  abbrev pub Room : List (ℕ × ℕ) → faults.Map → Type 0
  Room [] m = Unit
  Room ((pid, now) ∷ rest) m =
      (faults.insert m pid now ≢ none) × Room rest (throttle_page_fault faults pid now m).0

  report_one-map :
      (pid now : ℕ) (r : faults.Map × Bool) (reported : List (ℕ × ℕ))
      → (report_one pid now r reported).0 ≡ r.0
  report_one-map pid now (m, true) reported = refl
  report_one-map pid now (m, false) reported = refl

  report_all-Good :
      (run : List (ℕ × ℕ)) (m : faults.Map) (reported : List (ℕ × ℕ))
      → Room run m
      → Good m reported
      → Good (report_all run m reported).0 (report_all run m reported).1
  unfolding report_all throttle_page_fault
  report_all-Good [] m reported room good = good
  report_all-Good ((pid, now) ∷ rest) m reported room good =
      let r = throttle_page_fault faults pid now m in
      let next = report_one pid now r reported in
      report_all-Good rest next.0 next.1 (rw (report_one-map pid now r reported) room.1) (
        throttle-Good pid now m (faults.get m pid) (faults.insert m pid now) reported refl refl
          room.0 good)

  -- Of any run of page faults of any processes, where the map takes an entry for each as it comes, those
  -- that are reported of one process are at least 50 milliseconds apart, each after the one before.
  pub report_all-Spaced :
      (run : List (ℕ × ℕ)) (m : faults.Map) → Room run m → Spaced (report_all run m []).1
  unfolding Good Covered
  report_all-Spaced run m room = (report_all-Good run m [] room (tt, tt)).1

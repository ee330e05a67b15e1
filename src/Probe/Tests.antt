-- ===== src/Probe/Tests.antt =====
-- Sampling and throttling at concrete inputs, over a map without a limit.
use linnix.Prelude.{
  ℕ, ◌+◌, ◌*◌, ◌^◌, ◌≡◌, refl, ◌∙◌, ap, Option, none, some, List, [], ◌∷◌, arith, if◌then◌else◌,
}
use linnix.Prelude.Keys.{◌==◌, nat_eq}
use linnix.Prelude.Assoc.{Assoc, lookup, insert, erase, lookup-insert}
use linnix.Probe.{
  PidMap, TaskStats, cpu_share, sample, sample_cpu, encode_block_dev, throttle, throttle_page_fault,
}
use linnix.Probe.Sampling.{Spaced, Room, report_all, report_all-Spaced, sample_cpu-sample_cpu}

get-inserted :
    {V : Type 0} (m : Assoc ℕ V) (pid : ℕ) (v : V) (m' : Assoc ℕ V)
    → some (insert pid v m) ≡ some m'
    → (other : ℕ) → lookup other m' ≡ (if pid == other then some v else lookup other m)
get-inserted m pid v m' h other =
    let same : m' ≡ insert pid v m = cc h in
    ap (λ t. lookup other t) same ∙ lookup-insert pid other v m

abbrev listed : (V : Type 0) → PidMap V
listed V = record {
  Map = Assoc ℕ V;
  get = λ m pid. lookup pid m;
  set = λ m pid v. insert pid v m;
  insert = λ m pid v. some (insert pid v m);
  remove = λ m pid. some (erase pid m);
  get-set = λ m pid old v h other. lookup-insert pid other v m;
  get-insert = λ m pid v m' h other. get-inserted m pid v m' h other;
}

there_is_room : {V : Type 0} (m : Assoc ℕ V) → ◌≡◌ {A = Option (Assoc ℕ V)} (some m) none → ⊥
there_is_room m h = absurd (cc h)

-- Half of a processor.
sample_cpu-sample_cpu_example :
    (sample_cpu
      (listed TaskStats)
      7
      (some 2000)
      2010
      (sample_cpu (listed TaskStats) 7 (some 1000) 10 []).0).1
    ≡ 50000
sample_cpu-sample_cpu_example =
    sample_cpu-sample_cpu (listed TaskStats) 7 1000 10 2000 2010 [] (λ h. there_is_room _ h)
      (omega arith) (omega arith) (omega arith) (omega arith)

-- A whole processor is told as 65.534 percent.
whole_processor :
    (sample_cpu
      (listed TaskStats)
      7
      (some 3000)
      2010
      (sample_cpu (listed TaskStats) 7 (some 1000) 10 []).0).1
    ≡ 65534
unfolding sample_cpu sample cpu_share lookup insert
whole_processor = refl

-- The second fault of process 7 comes too soon, that of process 8 does not.
abbrev run : List (ℕ × ℕ)
run = (7, 100000000) ∷ (8, 110000000) ∷ (7, 120000000) ∷ (7, 150000000) ∷ []

run-Room : Room (listed ℕ) run []
run-Room = (
  (λ h. there_is_room _ h),
  ((λ h. there_is_room _ h), ((λ h. there_is_room _ h), ((λ h. there_is_room _ h), tt))),
)

report_all-Spaced_example : Spaced (listed ℕ) (report_all (listed ℕ) run [] []).1
report_all-Spaced_example = report_all-Spaced (listed ℕ) run [] run-Room

three_reports :
    (report_all (listed ℕ) run [] []).1 ≡ (7, 150000000) ∷ (8, 110000000) ∷ (7, 100000000) ∷ []
unfolding report_all throttle_page_fault throttle lookup insert
three_reports = refl

-- Major number 8, minor number 1.
sda1 : encode_block_dev (8 * 2 ^ 20 + 1) ≡ 8388609
unfolding encode_block_dev
sda1 = refl

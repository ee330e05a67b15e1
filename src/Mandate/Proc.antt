-- ===== src/Mandate/Proc.antt =====
-- What `create` reads of /proc: `read_start_time_ns` and `resolve_container_pid` of
-- cognitod/src/mandate.rs. The files are an argument, with the numbers of a file taken as parsed.
use linnix.Prelude.{
  ℕ, ◌/◌, ◌^◌, Bool, true, false, ◌&&◌, ◌||◌, not, Option, none, some, List, [], ◌∷◌, leb, ltb,
  if◌then◌else◌, length, take,
}
use linnix.Prelude.Keys.{◌==◌, nat_eq}
use linnix.Prelude.Bytes.{contains}
use linnix.Prelude.Words.{saturating_mul}
use linnix.Prelude.Results.{Result, ok, err}
use linnix.Mandate.Types.{CreateError, unresolved_container, unreadable_process}

-- A numbered directory of /proc: its number, the bytes of `cgroup`, and for each line "NSpid:" of
-- `status` the numbers on it. `none` is a file that cannot be read.
pub record ProcEntry : Type 0 where
  pub host_pid : ℕ
  pub cgroup : Option (List ℕ)
  pub nspid : Option (List (List ℕ))

-- What the system shows at the time of a call.
pub record System : Type 0 where
  pub proc : List ProcEntry
  -- The field `starttime` of /proc/<pid>/stat.
  pub starttime_ticks : ℕ → Option ℕ
  -- `sysconf(_SC_CLK_TCK)`, 0 for an error.
  pub clk_tck : ℕ

unfoldable pub read_start_time_ns : System → ℕ → Result CreateError ℕ
read_start_time_ns sys pid =
    if pid == 0 then err unreadable_process else elim (sys.starttime_ticks pid) [
      | none ↦ err unreadable_process
      | some ticks ↦
          if sys.clk_tck == 0
          then err unreadable_process
          else ok (saturating_mul ticks (10 ^ 9 / sys.clk_tck))
    ]

-- `is_ascii_hexdigit`
abbrev pub is_hex_digit : ℕ → Bool
is_hex_digit c =
    (leb b'0' c && leb c b'9') || (leb b'a' c && leb c b'f') || (leb b'A' c && leb c b'F')

abbrev pub all_hex : List ℕ → Bool
all_hex [] = true
all_hex (c ∷ cs) = is_hex_digit c && all_hex cs

-- `pids.last() == Some(&container_pid)`
abbrev pub ends_in : List ℕ → ℕ → Bool
ends_in [] pid = false
ends_in (p ∷ []) pid = p == pid
ends_in (p ∷ q ∷ ps) pid = ends_in (q ∷ ps) pid

abbrev pub any_ends_in : List (List ℕ) → ℕ → Bool
any_ends_in [] pid = false
any_ends_in (line ∷ lines) pid = ends_in line pid || any_ends_in lines pid

-- The process is in the container, and has this number there.
abbrev pub is_container_pid : List ℕ → ℕ → ProcEntry → Bool
is_container_pid prefix pid entry =
    elim entry.cgroup [ none ↦ false | some content ↦ contains content prefix ]
    && elim entry.nspid [ none ↦ false | some lines ↦ any_ends_in lines pid ]

unfoldable pub find_host_pid : List ℕ → ℕ → List ProcEntry → Result CreateError ℕ
find_host_pid prefix pid [] = err unresolved_container
find_host_pid prefix pid (entry ∷ entries) =
    if is_container_pid prefix pid entry
    then ok entry.host_pid
    else find_host_pid prefix pid entries

unfoldable pub resolve_container_pid : System → ℕ → List ℕ → Result CreateError ℕ
resolve_container_pid sys container_pid container_id =
    if ltb (length container_id) 12
    then err unresolved_container
    else if not (all_hex container_id)
    then err unresolved_container
    else find_host_pid (take 12 container_id) container_pid sys.proc

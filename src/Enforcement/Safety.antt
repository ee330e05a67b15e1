-- ===== src/Enforcement/Safety.antt =====
-- cognitod/src/enforcement/safety.rs: which processes may be killed. The process table is the
-- system's, and `to_lowercase` the standard library's: both are arguments.
use linnix.Prelude.{ℕ, Bool, false, ◌||◌, Option, none, some, List, [], ◌∷◌, leb, if◌then◌else◌}
use linnix.Prelude.Keys.{◌==◌, nat_eq}
use linnix.Prelude.Bytes.{contains}
use linnix.Prelude.Results.{Result, ok, err}

pub data SafetyError : Type 0 where
  is_init is_self is_critical is_own_child : SafetyError

-- A process that the table shows: its name, in bytes, and its parent.
pub record ProcInfo : Type 0 where
  pub name : List ℕ
  pub parent : Option ℕ

pub record Host : Type 0 where
  pub my_pid : ℕ
  pub process : ℕ → Option ProcInfo
  pub to_lowercase : List ℕ → List ℕ

-- `CRITICAL_NAMES`
abbrev pub critical_names : List (List ℕ)
critical_names =
    (b's' ∷ b'y' ∷ b's' ∷ b't' ∷ b'e' ∷ b'm' ∷ b'd' ∷ [])
    ∷ (b'i' ∷ b'n' ∷ b'i' ∷ b't' ∷ [])
    ∷ (b's' ∷ b's' ∷ b'h' ∷ b'd' ∷ [])
    ∷ (b'a' ∷ b'u' ∷ b'd' ∷ b'i' ∷ b't' ∷ b'd' ∷ [])
    ∷ (b'c' ∷ b'o' ∷ b'g' ∷ b'n' ∷ b'i' ∷ b't' ∷ b'o' ∷ b'd' ∷ [])
    ∷ (b'c' ∷ b'o' ∷ b'n' ∷ b't' ∷ b'a' ∷ b'i' ∷ b'n' ∷ b'e' ∷ b'r' ∷ b'd' ∷ [])
    ∷ (b'd' ∷ b'o' ∷ b'c' ∷ b'k' ∷ b'e' ∷ b'r' ∷ b'd' ∷ [])
    ∷ []

abbrev pub contains_any : List ℕ → List (List ℕ) → Bool
contains_any name [] = false
contains_any name (critical ∷ names) = contains name critical || contains_any name names

abbrev pub is_child_of : ℕ → Option ℕ → Bool
is_child_of pid none = false
is_child_of pid (some parent) = parent == pid

abbrev pub check_process : Host → Option ProcInfo → Result SafetyError (Unit {0})
check_process host none = ok tt
check_process host (some proc) =
    if contains_any (host.to_lowercase proc.name) critical_names
    then err is_critical
    else if is_child_of host.my_pid proc.parent
    then err is_own_child
    else ok tt

unfoldable pub is_safe_to_kill : Host → ℕ → Result SafetyError (Unit {0})
is_safe_to_kill host pid =
    if leb pid 1
    then err is_init
    else if pid == host.my_pid
    then err is_self
    else check_process host (host.process pid)

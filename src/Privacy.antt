-- ===== src/Privacy.antt =====
-- cognitod/src/privacy.rs: what of a receipt a counterparty sees. Paths and URLs are their bytes;
-- `to_lowercase` is an argument.
mod Tests
use Prim.Native.Char.{code}
use Prim.Native.String.{[] as empty, ◌∷◌ as ◌∷∷◌}
use linnix.Prelude.{
  ℕ, zero, suc, Bool, true, false, not, ◌&&◌, ◌||◌, Option, none, some, List, [], ◌∷◌, String,
  if◌then◌else◌, keep_if,
}
use linnix.Prelude.Keys.{◌==◌, nat_eq, string_eq}
use linnix.Prelude.Bytes.{starts_with}
use linnix.Prelude.Results.{Result, ok, err}
use linnix.Receipt.Crates.{Bytes}
use linnix.Receipt.Signing.{same_bytes}

pub data RedactionLevel : Type 0 where
  unredacted external full : RedactionLevel

-- `Display`
abbrev pub level_name : RedactionLevel → String
level_name unredacted = "none"
level_name external = "external"
level_name full = "full"

-- `from_str`, with `to_lowercase`; the error is the text that was not understood.
abbrev pub parse_level : (String → String) → String → Result String RedactionLevel
parse_level to_lowercase s =
    if to_lowercase s == "none"
    then ok unredacted
    else if to_lowercase s == "external"
    then ok external
    else if to_lowercase s == "full"
    then ok full
    else err (to_lowercase s)

-- The bytes of a text in ASCII.
abbrev pub ascii : String → Bytes
ascii empty = []
ascii (c ∷∷ s) = code c ∷ ascii s

abbrev add_byte : ℕ → List Bytes → List Bytes
add_byte c [] = (c ∷ []) ∷ []
add_byte c (piece ∷ pieces) = (c ∷ piece) ∷ pieces

-- The pieces of a path between slashes.
abbrev pub split_path : Bytes → List Bytes
split_path [] = [] ∷ []
split_path (c ∷ cs) =
    let pieces = split_path cs in if c == b'/' then [] ∷ pieces else add_byte c pieces

abbrev pub is_component : Bytes → Bool
is_component piece = not (same_bytes piece []) && not (same_bytes piece (ascii "."))

abbrev pub last_component : List Bytes → Option Bytes
last_component [] = none
last_component (piece ∷ []) = if same_bytes piece (ascii "..") then none else some piece
last_component (piece ∷ next ∷ pieces) = last_component (next ∷ pieces)

-- `Path::file_name`: the last component that is not `.`; none for `..` and for the root.
abbrev pub file_name : Bytes → Option Bytes
file_name path = last_component (keep_if is_component (split_path path))

-- `unwrap_or(binary_path)`
abbrev pub basename : Bytes → Bytes
basename binary_path = elim (file_name binary_path) [ none ↦ binary_path | some name ↦ name ]

abbrev pub is_one_of : Bytes → List String → Bool
is_one_of name [] = false
is_one_of name (other ∷ others) = same_bytes name (ascii other) || is_one_of name others

abbrev pub classify_name : Bytes → String
classify_name name =
    if is_one_of name ("curl" ∷ "wget" ∷ "fetch" ∷ "httpie" ∷ "aria2c" ∷ [])
    then "network_transfer"
    else if is_one_of name
        ("jq" ∷ "yq" ∷ "csvtool" ∷ "awk" ∷ "sed" ∷ "grep" ∷ "sort" ∷ "uniq" ∷ "cut" ∷ "tr" ∷ [])
    then "data_processing"
    else if is_one_of name ("bash" ∷ "sh" ∷ "zsh" ∷ "fish" ∷ "dash" ∷ [])
    then "shell_execution"
    else if is_one_of name
        ("python" ∷ "python3" ∷ "python3.11" ∷ "python3.12" ∷ "node" ∷ "ruby" ∷ "perl" ∷ [])
    then "interpreter_execution"
    else if is_one_of name
        ("gcc" ∷ "g++" ∷ "clang" ∷ "rustc" ∷ "cargo" ∷ "make" ∷ "cmake" ∷ "ninja" ∷ [])
    then "build_tool"
    else if is_one_of name ("docker" ∷ "podman" ∷ "kubectl" ∷ "helm" ∷ "crictl" ∷ [])
    then "container_tool"
    else if is_one_of name
        ("apt" ∷ "apt-get" ∷ "yum" ∷ "dnf" ∷ "pip" ∷ "pip3" ∷ "npm" ∷ "yarn" ∷ "pnpm" ∷ [])
    then "package_manager"
    else if is_one_of name
        ("cp" ∷ "mv" ∷ "rm" ∷ "mkdir" ∷ "chmod" ∷ "chown" ∷ "tar" ∷ "zip" ∷ "unzip" ∷ "gzip" ∷ [])
    then "file_operation"
    else if is_one_of name
        ("ps" ∷ "top" ∷ "htop" ∷ "lsof" ∷ "strace" ∷ "ltrace" ∷ "perf" ∷ "vmstat" ∷ "iostat" ∷ [])
    then "system_inspection"
    else "tool_execution"

abbrev pub classify_binary : Bytes → String
classify_binary binary_path = classify_name (basename binary_path)

pub record ReceiptRedactor : Type 0 where
  pub level : RedactionLevel

unfoldable pub redact_level : RedactionLevel → Bytes → Bytes
redact_level unredacted binary_path = binary_path
redact_level external binary_path = basename binary_path
redact_level full binary_path = ascii (classify_binary binary_path)

abbrev pub redact_binary : ReceiptRedactor → Bytes → Bytes
redact_binary redactor binary_path = redact_level redactor.level binary_path

abbrev pub should_redact_args : ReceiptRedactor → Bool
should_redact_args redactor = true

-- What stands after the first `://`.
abbrev pub after_scheme : Bytes → Option Bytes
after_scheme [] = none
after_scheme (c ∷ cs) =
    let later = after_scheme cs in
    if starts_with (c ∷ cs) (ascii "://") then some (skip 3 (c ∷ cs)) else later
  where
    skip : ℕ → Bytes → Bytes
    skip zero bytes = bytes
    skip (suc n) [] = []
    skip (suc n) (b ∷ bytes) = skip n bytes

abbrev pub until_slash : Bytes → Bytes
until_slash [] = []
until_slash (c ∷ cs) = if c == b'/' then [] else c ∷ until_slash cs

pub redact_url : RedactionLevel → Bytes → Bytes
redact_url unredacted url = url
redact_url external url = elim (after_scheme url) [
  | none ↦ until_slash url
  | some rest ↦ until_slash rest
]
redact_url full url = ascii "[redacted]"

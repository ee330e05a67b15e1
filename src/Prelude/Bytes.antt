-- ===== src/Prelude/Bytes.antt =====
-- Texts as their bytes: `starts_with`, `strip_prefix` and `contains` of `str`.
use Prim.Native.Nat.{ℕ}
use mathlib.Core.Bool.{Bool, true, false, ◌&&◌, ◌||◌}
use mathlib.Core.Option.{Option, none, some}
use mathlib.Core.List.{List, [], ◌∷◌, ◌++◌}
use mathlib.Core.Path.{◌≡◌, refl}
use linnix.Prelude.Tests.{if◌then◌else◌}
use linnix.Prelude.Keys.{◌==◌, nat_eq, ==_refl}

abbrev pub starts_with : List ℕ → List ℕ → Bool
starts_with s [] = true
starts_with [] (p ∷ ps) = false
starts_with (c ∷ cs) (p ∷ ps) = c == p && starts_with cs ps

-- `str::contains`
abbrev pub contains : List ℕ → List ℕ → Bool
contains [] pattern_bytes = starts_with [] pattern_bytes
contains (c ∷ cs) pattern_bytes = starts_with (c ∷ cs) pattern_bytes || contains cs pattern_bytes

abbrev pub strip_prefix : List ℕ → List ℕ → Option (List ℕ)
strip_prefix [] s = some s
strip_prefix (p ∷ ps) [] = none
strip_prefix (p ∷ ps) (c ∷ cs) = if c == p then strip_prefix ps cs else none

pub strip_prefix-append : (ps s : List ℕ) → strip_prefix ps (ps ++ s) ≡ some s
strip_prefix-append [] s = refl
strip_prefix-append (p ∷ ps) s = rw (==_refl p) (strip_prefix-append ps s)

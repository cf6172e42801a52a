-- ===== src/Prelude/Text.antt =====
-- Texts as lists of code points, for the code that takes them apart.
use Prim.Native.Char.{code}
use Prim.Native.String.{String}
use Prim.Native.Nat.{ℕ}
use mathlib.Core.Path.{◌≡◌, refl}
use mathlib.Core.Bool.{Bool, true, false, ◌&&◌}
use mathlib.Core.List.{List, [], ◌∷◌, ◌++◌}
use mathlib.Core.Option.{Option, none, some}
use native.Mathlib.Omega.{arith}
use robo_services.Prelude.Tests.{nat_beq, if◌then◌else◌}
use robo_services.Prelude.Lists.{is_empty}

abbrev pub Text : Type 0
Text = List ℕ

abbrev pub codes : String → Text
codes String.[] = []
codes (String.◌∷◌ c s) = code c ∷ codes s

-- What is left behind a prefix.
abbrev pub strip_prefix : Text → Text → Option Text
strip_prefix [] s = some s
strip_prefix (c ∷ p) [] = none
strip_prefix (c ∷ p) (d ∷ s) = if nat_beq c d then strip_prefix p s else none

-- `s.rstrip(c)`
abbrev pub strip_end : ℕ → Text → Text
strip_end c [] = []
strip_end c (d ∷ s) =
    let rest = strip_end c s in if is_empty rest && nat_beq d c then [] else d ∷ rest

abbrev pub has_code : ℕ → Text → Bool
has_code c [] = false
has_code c (d ∷ s) = if nat_beq d c then true else has_code c s

pub strip_prefix-append : (p s : Text) → strip_prefix p (p ++ s) ≡ some s
strip_prefix-append [] s = refl
strip_prefix-append (c ∷ p) s = ground (arith, strip_prefix-append p s)

-- `needle in s`
abbrev pub has_sub : Text → Text → Bool
has_sub needle [] = is_empty needle
has_sub needle (c ∷ s) =
    let later = has_sub needle s in
    elim (strip_prefix needle (c ∷ s)) [ some rest ↦ true | none ↦ later ]

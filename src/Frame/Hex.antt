-- ===== src/Frame/Hex.antt =====
-- `bytes.hex()`: two lower-case digits for each byte.
use Prim.Native.Char.{Char}
use Prim.Native.String.{[], ◌∷◌}
use mathlib.Core.List.{List}
use robo_services.Prelude.{ℕ, String, ◌/◌, ◌%◌, ◌==◌, nat_eq, if◌then◌else◌}

hex_digit : ℕ → Char
hex_digit n =
    if n == 0
    then "0"
    else if n == 1
    then "1"
    else if n == 2
    then "2"
    else if n == 3
    then "3"
    else if n == 4
    then "4"
    else if n == 5
    then "5"
    else if n == 6
    then "6"
    else if n == 7
    then "7"
    else if n == 8
    then "8"
    else if n == 9
    then "9"
    else if n == 10
    then "a"
    else if n == 11
    then "b"
    else if n == 12
    then "c"
    else if n == 13
    then "d"
    else if n == 14
    then "e"
    else "f"

unfoldable pub hex : List ℕ → String
unfolding hex_digit
hex List.[] = []
hex (List.◌∷◌ b bs) = hex_digit (b / 16 % 16) ∷ (hex_digit (b % 16) ∷ hex bs)

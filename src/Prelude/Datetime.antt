-- ===== src/Prelude/Datetime.antt =====
-- `datetime.fromtimestamp(n / d, tz=UTC)`, for the units of a second that the code divides by:
-- milliseconds and microseconds. The quotient is the nearest double, and the fraction of that is
-- rounded to the nearest microsecond. Below 2 ^ 33 seconds, in the year 2242, both roundings
-- together give back the number; from there on the doubles are further apart than microseconds.
use Prim.Native.Nat.{ℕ, ◌+◌, ◌*◌, ◌/◌, ◌%◌, ◌^◌, ◌<◌}
use mathlib.Core.Path.{◌≡◌, refl}
use mathlib.Core.Option.{Option, none, some}
use native.Mathlib.Omega.{arith}
use robo_services.Prelude.Tests.{ltb, nat_beq, if◌then◌else◌}

-- `n / d` to the nearest integer, and to the even one of two.
abbrev pub round_half_even : ℕ → ℕ → ℕ
round_half_even n d =
    let q = n / d in
    let twice = 2 * (n % d) in
    if ltb twice d then q else if ltb d twice then q + 1 else if nat_beq (q % 2) 0 then q else q + 1

-- How many doubles a second has, of the seconds `n / d` from 2 ^ 33 to the year 9999.
abbrev pub doubles_in_second : ℕ → ℕ → ℕ
doubles_in_second n d =
    if ltb n (2 ^ 34 * d)
    then 2 ^ 19
    else if ltb n (2 ^ 35 * d)
    then 2 ^ 18
    else if ltb n (2 ^ 36 * d)
    then 2 ^ 17
    else if ltb n (2 ^ 37 * d)
    then 2 ^ 16
    else 2 ^ 15

abbrev pub second_us : ℕ
second_us = 1000000

-- 10000-01-01, in seconds
abbrev pub end_of_dates : ℕ
end_of_dates = 253402300800

-- The microseconds since the epoch; none where it raises, as the year would be past 9999.
unfoldable pub from_timestamp : ℕ → ℕ → Option ℕ
from_timestamp n d =
    if ltb n (2 ^ 33 * d)
    then some (n * (second_us / d))
    else let grid = doubles_in_second n d in
      let x = round_half_even (n * grid) d in
      let us = (x / grid) * second_us + round_half_even ((x % grid) * second_us) grid in
      if ltb us (end_of_dates * second_us) then some us else none

pub from_timestamp-early :
    (n d : ℕ) → n < 2 ^ 33 * d → from_timestamp n d ≡ some (n * (second_us / d))
unfolding from_timestamp
from_timestamp-early n d h = ground arith

-- A time in 2242 that is off by a microsecond, and the first that raises.
from_timestamp_2242 : from_timestamp 8600000000000001 1000000 ≡ some 8600000000000002
unfolding from_timestamp
from_timestamp_2242 = refl

from_timestamp_10000 : from_timestamp 253402300800000 1000 ≡ none
unfolding from_timestamp
from_timestamp_10000 = refl

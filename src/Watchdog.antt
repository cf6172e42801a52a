-- ===== src/Watchdog.antt =====
-- src/can_pub_sub_probe/consumer_watchdog.py: a process exits when the topic has grown and the
-- consumed offset has not moved for `stall_after`, or when reading the topic fails `max_failures`
-- times in a row. Times of the monotonic clock are numbers.
pub mod Stalls
use robo_services.Prelude.{
  ℕ, suc, ◌+◌, ◌-◌, Bool, false, true, not, ◌||◌, List, [], ◌∷◌, leb, if◌then◌else◌, nat_beq,
  Option, none, some,
}

pub record Dog : Type 0 where
  pub stall_after : ℕ
  pub max_failures : ℕ
  pub offset : Option ℕ
  pub count_at_progress : Option ℕ
  pub behind_since : Option ℕ
  pub failures : ℕ

-- The two reasons, with what their texts print.
pub data Stall : Type 0 where
  stayed : ℕ → ℕ → Option ℕ → ℕ → Stall
  unreadable : ℕ → Stall

unfoldable pub new_dog : ℕ → ℕ → Dog
new_dog stall_after max_failures = record {
  stall_after = stall_after;
  max_failures = max_failures;
  offset = none;
  count_at_progress = none;
  behind_since = none;
  failures = 0;
}

abbrev pub same_offset : Option ℕ → Option ℕ → Bool
same_offset none none = true
same_offset (some a) (some b) = nat_beq a b
same_offset _ _ = false

abbrev pub or_now : Option ℕ → ℕ → ℕ
or_now none now = now
or_now (some t) now = t

-- `observe`, from the test of the count on.
unfoldable pub observe_behind : Dog → ℕ → ℕ → Option ℕ → ℕ → Dog × Option Stall
observe_behind d at_progress messages_count consumed_offset now =
    if leb messages_count at_progress
    then (d, none)
    else let since = or_now d.behind_since now in
      let d' : Dog = record d { behind_since = some since } in
      if leb (since + d.stall_after) now
      then (d', some (stayed at_progress messages_count consumed_offset (now - since)))
      else (d', none)

unfoldable pub observe : Dog → ℕ → Option ℕ → ℕ → Dog × Option Stall
observe d₀ messages_count consumed_offset now =
    let d : Dog = record d₀ { failures = 0 } in
    let progress : Dog × Option Stall = (
      record d {
        offset = consumed_offset;
        count_at_progress = some messages_count;
        behind_since = none;
      },
      none,
    ) in
    elim d.count_at_progress [
      | none ↦ progress
      | some at_progress ↦
          if not (same_offset consumed_offset d.offset)
          then progress
          else observe_behind d at_progress messages_count consumed_offset now
    ]

unfoldable pub failed : Dog → Dog × Option Stall
failed d₀ =
    let d : Dog = record d₀ { failures = suc d₀.failures } in
    if leb d.max_failures d.failures then (d, some (unreadable d.failures)) else (d, none)

-- What a round of `watch` reads: a count with the consumed offset and the time, or nothing.
pub data Reading : Type 0 where
  count : ℕ → Option ℕ → ℕ → Reading
  nothing : Reading

unfoldable pub round : Dog → Reading → Dog × Option Stall
round d (count n offset now) = observe d n offset now
round d nothing = failed d

-- `watch`: the rounds until `stop` is set, which ends the list, or the first stall.

unfoldable pub watch : Dog → List Reading → Option Stall
watch d [] = none
watch d (r ∷ rs) =
    let (d', stall) = round d r in elim stall [ none ↦ watch d' rs | some reason ↦ some reason ]

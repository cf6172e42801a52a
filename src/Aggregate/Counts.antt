-- ===== src/Aggregate/Counts.antt =====
-- Which samples a window gets.
use robo_services.Prelude.{
  ℕ, String, Bool, ◌%◌, ◌&&◌, leb, ltb, ◌≡◌, sym, ◌∙◌, arith, false, List, [], ◌∷◌, ◌++◌, ◌+◌, ◌*◌,
  ◌/◌, ◌≤◌, ◌<◌, if◌then◌else◌, ◌==◌, nat_eq, string_eq, pair_eq, Option, none, some, Bool-cases,
  inl, inr,
}
use mathlib.Core.Path.{subst}
use native.Mathlib.Nat.{div-mul-le_self, lt-div-mul-add, mul_assoc}
use robo_services.Prelude.Dict.{Dict, get, get_or}
use robo_services.Signal.{SignalEvent}
use robo_services.Routing.{RoutedSignal}
use robo_services.Aggregate.{
  AggregationConfig, WindowKey, WindowBucket, window_start_of, window_seconds, second_us,
}

positive : (n : ℕ) → (n == 0) ≡ false → 0 < n
positive n h = ground arith

module _ {F : Type 0} where
  -- The samples of a window's bucket
  abbrev pub samples_in : Option (WindowBucket F) → List F
  samples_in none = []
  samples_in (some bucket) = bucket.values

  abbrev pub samples_at : Dict WindowKey (WindowBucket F) → WindowKey → List F
  samples_at buckets k = samples_in (get buckets k)

-- Whether a time lies in the window of that length that starts there: a multiple of the length that
-- is not after it, and it is before the next.
abbrev pub covers : ℕ → ℕ → ℕ → Bool
covers size start t = leb start t && ltb t (start + size) && start % size == 0

module _ {F : Type 0} (cfg : AggregationConfig F) where
  -- The length of a signal's windows, in microseconds
  abbrev pub window_us : String → ℕ
  window_us name = get_or cfg.signal_window_seconds name cfg.default_window_seconds * 1000000

  -- Whether a routed signal belongs to the window of that topic, name and start
  abbrev pub falls_into : WindowKey → RoutedSignal F → Bool
  falls_into (topic, (name, start)) x =
      x.topic == topic
      && (x.event.signal_name == name
          && covers (window_us x.event.signal_name) start x.event.captured_at)

  -- The value of a routed signal that is no probe and falls into the window
  abbrev pub sample_for : WindowKey → RoutedSignal F → List F
  sample_for k x = elim x.event.probe [
    | some probe ↦ []
    | none ↦ if falls_into k x then x.event.value ∷ [] else []
  ]

  abbrev pub samples_for : WindowKey → List (RoutedSignal F) → List F
  samples_for k [] = []
  samples_for k (x ∷ xs) = sample_for k x ++ samples_for k xs

  -- A window starts at a multiple of its length, and a sample's time lies in its window: not before
  -- the start, and before the start of the next one.
  pub window_start_of_bounds :
      (event : SignalEvent F) (start : ℕ)
      → window_start_of cfg event ≡ some start
      → let size = window_seconds cfg event.signal_name * second_us in
        (start ≤ event.captured_at)
        × (event.captured_at < start + size)
        × ((n : ℕ) × (start ≡ n * size))
  unfolding window_start_of
  window_start_of_bounds event start h =
      let seconds = window_seconds cfg event.signal_name in
      let size = seconds * second_us in
      let n = event.captured_at / size in
      elim (Bool-cases (seconds == 0)) [
        | inl e ↦ ground (arith, h, e)
        | inr e ↦
            let is : n * seconds * second_us ≡ start = ground (arith, h, e) in
            let at : start ≡ n * size = sym is ∙ mul_assoc n seconds second_us in
            let some_length : 0 < size = omega (arith, positive seconds e) in
            (
              subst (λ x. x ≤ event.captured_at) (sym at) (div-mul-le_self event.captured_at size),
              subst (λ x. event.captured_at < x + size) (sym at) (lt-div-mul-add some_length),
              (n, at),
            )
      ]

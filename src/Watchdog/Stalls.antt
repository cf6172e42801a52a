-- ===== src/Watchdog/Stalls.antt =====
-- When the watchdog gives up, and when it does not.
use robo_services.Prelude.{
  ℕ, suc, ◌+◌, ◌<◌, ◌≡◌, ◌⊎◌, ◌↔◌, refl, true, List, [], ◌∷◌, arith, Option, none, some, inl, inr,
  All,
}
use mathlib.Core.Path.{subst}
use robo_services.Watchdog.{
  Dog, new_dog, same_offset, or_now, observe_behind, observe, failed, Reading, count, nothing,
  round, watch,
}

-- Every reading shows `n` messages in the topic, or fails.
abbrev pub Shows : ℕ → Reading → Type 0
Shows n (count m offset now) = m ≡ n
Shows n nothing = Unit

-- Fewer than `k` readings fail in a row, `f` having failed before.
abbrev pub FewFailures : ℕ → ℕ → List Reading → Type 0
FewFailures k f [] = Unit
FewFailures k f (count m offset now ∷ rs) = FewFailures k 0 rs
FewFailures k f (nothing ∷ rs) = (suc f < k) × FewFailures k (suc f) rs

-- The topic has not grown since the progress that the dog has noted.
abbrev AtRest : ℕ → Dog → Type 0
AtRest n d = (d.count_at_progress ≡ none) ⊎ (d.count_at_progress ≡ some n)

observe-AtRest :
    (d : Dog) (m n : ℕ) (offset : Option ℕ) (now : ℕ)
    → m ≡ n
    → AtRest n d
    → let (d', stall) = observe d m offset now in
      (stall ≡ none)
      × (d'.count_at_progress ≡ some n)
      × (d'.max_failures ≡ d.max_failures)
      × (d'.failures ≡ 0)
unfolding observe observe_behind
observe-AtRest d m n offset now e h = ground arith

failed_below :
    (d : Dog)
    → suc d.failures < d.max_failures
    → ((failed d).1 ≡ none)
      × ((failed d).0.count_at_progress ≡ d.count_at_progress)
      × ((failed d).0.max_failures ≡ d.max_failures)
      × ((failed d).0.failures ≡ suc d.failures)
unfolding failed
failed_below d h = ground arith

watch-AtRest :
    (n : ℕ) (d : Dog) (rs : List Reading)
    → AtRest n d
    → All (Shows n) rs
    → FewFailures d.max_failures d.failures rs
    → watch d rs ≡ none
unfolding watch round
watch-AtRest n d [] rest shows few = refl
watch-AtRest n d (count m offset now ∷ rs) rest shows few =
    let (calm, at_n, max', failures') = observe-AtRest d m n offset now shows.0 rest in
    let rest' =
      watch-AtRest n (observe d m offset now).0 rs (inr at_n) shows.1 (rw (max', failures') few) in
    ground (arith, calm, rest')
watch-AtRest n d (nothing ∷ rs) rest shows few =
    let (calm, same, max', failures') = failed_below d few.0 in
    let rest' =
      watch-AtRest n (failed d).0 rs (rw same rest) shows.1 (rw (max', failures') few.1) in
    ground (arith, calm, rest')

-- A topic that never grows never trips the watchdog, whatever offsets and times are read, as long
-- as fewer than `max_failures` readings fail in a row.
pub watch_idle :
    (stall_after max_failures n : ℕ) (rs : List Reading)
    → All (Shows n) rs
    → FewFailures max_failures 0 rs
    → watch (new_dog stall_after max_failures) rs ≡ none
unfolding new_dog
watch_idle stall_after max_failures n rs shows few =
    watch-AtRest n (new_dog stall_after max_failures) rs (inl refl) shows few

-- A reading of a topic that has grown past `c`, with the offset still at `o`.
abbrev pub Stuck : ℕ → Option ℕ → Reading → Type 0
Stuck c o (count m offset now) = (c < m) × (offset ≡ o)
Stuck c o nothing = ⊥

abbrev pub Before : ℕ → Reading → Type 0
Before limit (count m offset now) = now < limit
Before limit nothing = Unit

same_offset_refl : (o : Option ℕ) → same_offset o o ≡ true
same_offset_refl none = refl
same_offset_refl (some a) = ground arith

module _ (c : ℕ) (o : Option ℕ) where
  record IsBehind (since : ℕ) (d : Dog) : Type 0 where
    progress : d.count_at_progress ≡ some c
    at_offset : d.offset ≡ o
    behind : d.behind_since ≡ some since

  observe_stuck :
      (d : Dog) (m since : ℕ) (offset : Option ℕ) (now : ℕ)
      → d.count_at_progress ≡ some c
      → d.offset ≡ o
      → or_now d.behind_since now ≡ since
      → (c < m) × (offset ≡ o)
      → let (d', stall) = observe d m offset now in
        IsBehind since d'
        × (d'.stall_after ≡ d.stall_after)
        × ((stall ≡ none) ↔ (now < since + d.stall_after))
  unfolding observe observe_behind
  observe_stuck d m since offset now p a b h =
      let still : same_offset offset d.offset ≡ true = rw (h.1, a) (same_offset_refl o) in
      (
        record { progress = ground arith; at_offset = ground arith; behind = ground arith },
        ground arith,
        (ground arith, ground arith),
      )

  -- One stuck reading in front of others that the dog judges by the same limit.
  watch_cons :
      (d : Dog) (m since : ℕ) (offset : Option ℕ) (now : ℕ) (rs : List Reading)
      → d.count_at_progress ≡ some c
      → d.offset ≡ o
      → or_now d.behind_since now ≡ since
      → (c < m) × (offset ≡ o)
      → ((d' : Dog)
          → IsBehind since d'
          → (watch d' rs ≡ none) ↔ All (Before (since + d'.stall_after)) rs)
      → (watch d (count m offset now ∷ rs) ≡ none)
        ↔ All (Before (since + d.stall_after)) (count m offset now ∷ rs)
  unfolding watch round
  watch_cons d m since offset now rs p a b h rest =
      let d' = (observe d m offset now).0 in
      let (b', same, exact) = observe_stuck d m since offset now p a b h in
      let ih = subst (λ s. (watch d' rs ≡ none) ↔ All (Before (since + s)) rs) same (rest d' b') in
      (
        λ calm. (exact.0 (ground arith), ih.0 (ground (arith, calm, exact))),
        λ k. ground (arith, exact.1 k.0, ih.1 k.1),
      )

  watch_behind :
      (since : ℕ) (d : Dog) (rs : List Reading)
      → IsBehind since d
      → All (Stuck c o) rs
      → (watch d rs ≡ none) ↔ All (Before (since + d.stall_after)) rs
  unfolding watch
  watch_behind since d [] b stuck = ((λ _. tt), (λ _. refl))
  watch_behind since d (nothing ∷ rs) b stuck = absurd stuck.0
  watch_behind since d (count m offset now ∷ rs) b stuck =
      watch_cons d m since offset now rs b.progress b.at_offset (rw b.behind refl) stuck.0
        (λ d' b'. watch_behind since d' rs b' stuck.1)

  -- Once the topic is seen to have grown past the count of the last progress, and the offset never
  -- moves again, the watchdog keeps quiet through exactly those readings that come less than
  -- `stall_after` later than the first of them: it gives up at the first other reading.
  pub watch-Stuck :
      (d : Dog) (m since : ℕ) (offset : Option ℕ) (rs : List Reading)
      → d.count_at_progress ≡ some c
      → d.offset ≡ o
      → d.behind_since ≡ none
      → All (Stuck c o) (count m offset since ∷ rs)
      → (watch d (count m offset since ∷ rs) ≡ none)
        ↔ All (Before (since + d.stall_after)) (count m offset since ∷ rs)
  watch-Stuck d m since offset rs p a b stuck =
      watch_cons d m since offset since rs p a (rw b refl) stuck.0
        (λ d' b'. watch_behind since d' rs b' stuck.1)

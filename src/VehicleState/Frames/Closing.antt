-- ===== src/VehicleState/Frames/Closing.antt =====
-- frames.py: when a frame may close, closing it, and the offsets that are safe to store.
use robo_services.Prelude.{
  ℕ, ◌+◌, ◌-◌, Bool, not, ◌||◌, List, [], ◌∷◌, ◌++◌, any, all, is_empty, length, ltb, leb,
  if◌then◌else◌, ◌==◌, nat_eq, string_eq, pair_eq, Option, none, some,
}
use robo_services.Prelude.Dict.{Dict, get, set, pop}
use robo_services.VehicleState.Kind.{Kind, gps, imu, can, unknown, discovery, session, sample_kinds}
use robo_services.VehicleState.Frames.{
  Key, Receipt, OpenFrame, FrameTable, event_lag_us, above, raised, frames_of,
}

pub data Status : Type 0 where
  complete incomplete empty : Status

-- A list with what an option holds in front.
abbrev pub noted : Option ℕ → List ℕ → List ℕ
noted none ns = ns
noted (some n) ns = n ∷ ns

module _ {F : Type 0} where
  -- `any(self.counts[k] for k in SAMPLE_KINDS)`
  unfoldable pub has_samples : OpenFrame F → Bool
  has_samples f = any (λ k. not (f.counts k == 0)) sample_kinds

  unfoldable pub settled : FrameTable F → Kind → Key → ℕ → ℕ → Bool
  settled t kind key base now =
      above (get (t.hwm kind) key) base
      || above (t.hwm_any kind) (base + event_lag_us)
      || leb (t.last_message_at kind + t.grace_s) now

  -- The kinds whose counts differ from the receipt's.
  unfoldable pub mismatched : OpenFrame F → Receipt → List Kind
  mismatched f r =
      (if f.counts gps == r.gps then [] else gps ∷ [])
      ++ ((if f.counts imu == r.imu then [] else imu ∷ [])
          ++ (if f.counts can + f.counts unknown + f.counts discovery == r.can
              then []
              else can ∷ unknown ∷ discovery ∷ []))

  abbrev short_status : OpenFrame F → Status
  short_status f = if has_samples f then incomplete else empty

  unfoldable pub status : FrameTable F → Key → ℕ → OpenFrame F → ℕ → Option Status
  status t key base f now = elim f.receipt [
    | none ↦
        if not (settled t session key base now)
        then none
        else if any (λ k. not (settled t k key base now)) sample_kinds
        then none
        else some (short_status f)
    | some r ↦
        let wrong = mismatched f r in
        if is_empty wrong
        then some complete
        else if all (λ k. settled t k key base now) wrong
        then some (short_status f)
        else none
  ]

  unfoldable pub close : FrameTable F → Key → ℕ → FrameTable F
  close t key base =
      let rest = pop (frames_of t key) base in
      record t {
        frames = if is_empty rest then pop t.frames key else set t.frames key rest;
        closed_upto = set t.closed_upto key (raised (get t.closed_upto key) base);
      }

  -- The first offsets of a kind among the frames of a session, and among all.
  unfoldable pub firsts_in : Kind → Dict ℕ (OpenFrame F) → List ℕ
  firsts_in kind [] = []
  firsts_in kind ((base, f) ∷ fs) = noted (f.first_offset kind) (firsts_in kind fs)

  unfoldable pub firsts : Kind → Dict Key (Dict ℕ (OpenFrame F)) → List ℕ
  firsts kind [] = []
  firsts kind ((key, fs) ∷ sessions) = firsts_in kind fs ++ firsts kind sessions

-- Python's `min` of a list that is not empty.
unfoldable pub minimum : ℕ → List ℕ → ℕ
minimum m [] = m
minimum m (n ∷ ns) = minimum (if ltb n m then n else m) ns

module _ {F : Type 0} where
  -- `commit_offsets`, for one kind.
  unfoldable pub commit_offset : FrameTable F → Kind → Option ℕ
  commit_offset t kind = elim (firsts kind t.frames) [
    | [] ↦ t.last_offset kind
    | n ∷ ns ↦ let m = minimum n ns in if ltb 0 m then some (m - 1) else none
  ]

  unfoldable pub open_count_in : Dict Key (Dict ℕ (OpenFrame F)) → ℕ
  open_count_in [] = 0
  open_count_in ((key, fs) ∷ sessions) = length fs + open_count_in sessions

-- ===== src/Receiver/Intake/Heartbeats.antt =====
-- How often the registry hears of a device from the UDP loop.
use robo_services.Prelude.{
  ℕ, ◌+◌, ◌≤◌, ◌≡◌, ◌≢◌, Result, ok, err, suc, leb, ◌⊎◌, ap, sym, ◌∙◌, arith, String, true, List,
  [], ◌∷◌, if◌then◌else◌, ◌==◌, string_eq, option_eq, pair_eq, pair_beq_iff, ltb, Option, none,
  some, Option-cases, Bool-cases, inl, inr, All, All-imp,
}
use mathlib.Core.Path.{subst}
use mathlib.Core.Option.{some-injective}
use robo_services.Prelude.Dict.{get, set, get-set}
use robo_services.Receiver.{
  ReceiverSettings, Python, NormalizedIngressMessage, Raised, packet_error, Published, normalized,
  diagnostic,
}
use robo_services.Receiver.Packets.{Sender}
use robo_services.Frame.{Bytes}
use robo_services.Receiver.Outbox.{
  Receiver, publish, headers_of, register_device, heartbeat_every_s, publish_normalized,
  publish_all, publish_diagnostic, register_first,
}
use robo_services.Receiver.Intake.{
  on_datagram, try_packets, then_do, Datagram, run_receiver, normalize_packets,
}

abbrev pub HeartbeatKey : Type 0
HeartbeatKey = String × Option String

-- A device that is to be registered, for an account, at a time.
pub record Sighting : Type 0 where
  pub device_id : String
  pub user_sub : Option String
  pub now : ℕ

-- No two heartbeats of one device and account are less than ten minutes apart; the last is first.
abbrev pub IsAfter : HeartbeatKey × ℕ → HeartbeatKey × ℕ → Type 0
IsAfter later earlier = (later.0 ≢ earlier.0) ⊎ (earlier.1 + heartbeat_every_s ≤ later.1)

abbrev pub IsSpaced : List (HeartbeatKey × ℕ) → Type 0
IsSpaced [] = Unit
IsSpaced (b ∷ bs) = All (IsAfter b) bs × IsSpaced bs

keys_agree : (k j : HeartbeatKey) → (k == j) ≡ true → k ≡ j
keys_agree k j e = ground (arith, pair_beq_iff k j)

module _ {F : Type 0} (settings : ReceiverSettings) where
  -- What is noted for a key is at least as late as each of its heartbeats.
  record IsNoted (r : Receiver F) : Type 0 where
    spaced : IsSpaced r.heartbeats
    noted :
        (k : HeartbeatKey)
        → All
            (λ (b : HeartbeatKey × ℕ).
              (b.0 ≢ k) ⊎ ((t : ℕ) × ((get r.last_heartbeat k ≡ some t) × (b.1 ≤ t))))
            r.heartbeats

  -- A heartbeat sent, and noted
  abbrev sent : Receiver F → HeartbeatKey → ℕ → Receiver F
  sent r k now = record r {
    last_heartbeat = set r.last_heartbeat k now;
    heartbeats = (k, now) ∷ r.heartbeats;
  }

  IsNoted-sent :
      (r : Receiver F) (k : HeartbeatKey) (now : ℕ)
      → IsNoted r
      → ((t : ℕ) → get r.last_heartbeat k ≡ some t → t + heartbeat_every_s ≤ now)
      → IsNoted (sent r k now)
  IsNoted-sent r k now h late = record {
    spaced = (All-imp (spaced_from) r.heartbeats (h.noted k), h.spaced);
    noted = λ j. (head j, All-imp (noted_from j) r.heartbeats (h.noted j));
  }
    where
      spaced_from :
          (b : HeartbeatKey × ℕ)
          → (b.0 ≢ k) ⊎ ((t : ℕ) × ((get r.last_heartbeat k ≡ some t) × (b.1 ≤ t)))
          → IsAfter (k, now) b
      spaced_from b (inl other) = inl (λ e. other (sym e))
      spaced_from b (inr (t, (e, le))) = inr (omega (arith, late t e, le))

      head :
          (j : HeartbeatKey)
          → (k ≢ j) ⊎ ((t : ℕ) × ((get (set r.last_heartbeat k now) j ≡ some t) × (now ≤ t)))
      head j = elim (Bool-cases (k == j)) [
        | inl e ↦ inr (
          now,
          (
            get-set r.last_heartbeat k j now
                ∙ ap (λ b. if b then some now else get r.last_heartbeat j) e,
            omega (arith),
          ),
        )
        | inr e ↦ inl (λ same. ground (arith, pair_beq_iff k j))
      ]

      noted_from :
          (j : HeartbeatKey) (b : HeartbeatKey × ℕ)
          → (b.0 ≢ j) ⊎ ((t : ℕ) × ((get r.last_heartbeat j ≡ some t) × (b.1 ≤ t)))
          → (b.0 ≢ j) ⊎ ((t : ℕ) × ((get (set r.last_heartbeat k now) j ≡ some t) × (b.1 ≤ t)))
      noted_from j b (inl other) = inl other
      noted_from j b (inr (t, (e, le))) = elim (Bool-cases (k == j)) [
        | inl same ↦ inr (
          now,
          (
            get-set r.last_heartbeat k j now
                ∙ ap (λ b. if b then some now else get r.last_heartbeat j) same,
            omega (arith, late t (ap (λ i. get r.last_heartbeat i) (keys_agree k j same) ∙ e), le),
          ),
        )
        | inr other ↦ inr (
          t,
          (
            get-set r.last_heartbeat k j now
                ∙ ap (λ b. if b then some now else get r.last_heartbeat j) other
                ∙ e,
            le,
          ),
        )
      ]

  -- A registration either sends nothing, or sends a heartbeat that is late enough.
  register_device-cases :
      (s : Sighting) (r : Receiver F)
      → let k : HeartbeatKey = (s.device_id, s.user_sub) in
        (register_device settings s.device_id s.user_sub s.now r ≡ r)
        ⊎ ((register_device settings s.device_id s.user_sub s.now r ≡ sent r k s.now)
            × ((t : ℕ) → get r.last_heartbeat k ≡ some t → t + heartbeat_every_s ≤ s.now))
  unfolding register_device
  register_device-cases s r = elim (Bool-cases settings.has_registry) [
    | inr off ↦ inl (ground arith)
    | inl on ↦ elim (Option-cases (get r.last_heartbeat (s.device_id, s.user_sub))) [
      | inl e ↦ inr (ground arith, λ t is. absurd (cc))
      | inr (t, e) ↦ elim (Bool-cases (ltb s.now (t + heartbeat_every_s))) [
        | inl early ↦ inl (ground arith)
        | inr due ↦ inr (
          ground arith,
          λ t' is.
              subst (λ x. x + heartbeat_every_s ≤ s.now) (some-injective t t' (sym e ∙ is))
                (ground arith),
        )
      ]
    ]
  ]

  IsNoted-register_device :
      (s : Sighting) (r : Receiver F)
      → IsNoted r
      → IsNoted (register_device settings s.device_id s.user_sub s.now r)
  IsNoted-register_device s r h = elim (register_device-cases s r) [
    | inl same ↦ subst IsNoted (sym same) h
    | inr (new, late) ↦
        subst IsNoted (sym new) (IsNoted-sent r (s.device_id, s.user_sub) s.now h late)
  ]

module _ {F : Type 0} (py : Python F) (settings : ReceiverSettings) where
  IsNoted-publish :
      (item : Published F) (r : Receiver F)
      → IsNoted settings r
      → IsNoted settings (publish py item r).0
  unfolding publish
  IsNoted-publish item r h = elim (Bool-cases (py.takes r.published item)) [
    | inl e ↦ rw (e) (record { spaced = h.spaced; noted = h.noted })
    | inr e ↦ rw (e) h
  ]

  IsNoted-publish_normalized :
      (r : Receiver F) (m : NormalizedIngressMessage F)
      → IsNoted settings r
      → IsNoted settings (publish_normalized py r m).0
  unfolding publish_normalized
  IsNoted-publish_normalized r m h = elim (Bool-cases (py.can_dump m)) [
    | inl e ↦ rw (e) (IsNoted-publish (normalized m.topic (headers_of m) m) r h)
    | inr e ↦ rw (e) h
  ]

  IsNoted-publish_all :
      (r : Receiver F) (ms : List (NormalizedIngressMessage F))
      → IsNoted settings r
      → IsNoted settings (publish_all py r ms).0
  unfolding publish_all
  IsNoted-publish_all r [] h = h
  IsNoted-publish_all r (m ∷ ms) h = elim (Option-cases (publish_normalized py r m).1) [
    | inl e ↦
        rw (publish_all, e)
          (IsNoted-publish_all (publish_normalized py r m).0 ms (IsNoted-publish_normalized r m h))
    | inr (raised, e) ↦ rw (publish_all, e) (IsNoted-publish_normalized r m h)
  ]

  IsNoted-register_first :
      (ms : List (NormalizedIngressMessage F)) (now : ℕ) (r : Receiver F)
      → IsNoted settings r
      → IsNoted settings (register_first settings ms now r).0
  unfolding register_first
  IsNoted-register_first [] now r h = h
  IsNoted-register_first (m ∷ ms) now r h =
      IsNoted-register_device settings
        (record { device_id = m.device_id; user_sub = m.user_sub; now = now }) r h

  IsNoted-on_datagram :
      (received_at : String) (now : ℕ) (sender : Sender) (raw_payload : Bytes) (r : Receiver F)
      → IsNoted settings r
      → IsNoted settings (on_datagram py settings received_at now sender raw_payload r).0
  unfolding on_datagram try_packets publish_diagnostic
  IsNoted-on_datagram received_at now sender raw_payload r h =
      cases (normalize_packets py settings received_at raw_payload sender)
    where
      next :
          (ms : List (NormalizedIngressMessage F)) (p : Receiver F × Option Raised)
          → IsNoted settings p.0
          → IsNoted settings (then_do p (register_first settings ms now)).0
      next ms (r', none) g = IsNoted-register_first ms now r' g
      next ms (r', some e) g = g

      cases :
          (packets : Result Raised (List (NormalizedIngressMessage F)))
          → IsNoted settings
              (try_packets py settings sender raw_payload r
                (λ ms. then_do (publish_all py r ms) (register_first settings ms now))
                packets).0
      cases (ok ms) = next ms (publish_all py r ms) (IsNoted-publish_all r ms h)
      cases (err (packet_error fault)) =
          IsNoted-publish
            (diagnostic settings.diagnostics_topic "INVALID_PAYLOAD" fault sender raw_payload) r h
      cases (err _) = h

  IsNoted-run_receiver :
      (max_packets : Option ℕ) (processed : ℕ) (ds : List Datagram) (r : Receiver F)
      → IsNoted settings r
      → IsNoted settings (run_receiver py settings max_packets processed ds r).0
  unfolding run_receiver
  IsNoted-run_receiver max_packets processed [] r h = h
  IsNoted-run_receiver max_packets processed (d ∷ ds) r h =
      ends max_packets (on_datagram py settings d.received_at d.now d.sender d.content r).1
        (IsNoted-run_receiver max_packets (suc processed) ds r' after)
    where
      r' : Receiver F
      r' = (on_datagram py settings d.received_at d.now d.sender d.content r).0

      after : IsNoted settings r'
      after = IsNoted-on_datagram d.received_at d.now d.sender d.content r h

      later : Receiver F × Option Raised
      later = run_receiver py settings max_packets (suc processed) ds r'

      ends :
          (limits : Option ℕ) (e : Option Raised)
          → IsNoted settings later.0
          → IsNoted settings
              (elim e as (λ x. Receiver F × Option Raised) [
                | some raised ↦ (r', some raised)
                | none ↦ elim limits as (λ x. Receiver F × Option Raised) [
                  | none ↦ later
                  | some limit ↦ if leb limit (suc processed) then (r', none) else later
                ]
              ]).0
      ends limits (some raised) g = after
      ends none none g = g
      ends (some limit) none g = elim (Bool-cases (leb limit (suc processed))) [
        | inl e ↦ rw (e) after
        | inr e ↦ rw (e) g
      ]

  -- Whatever datagrams come, whenever and however often, the heartbeats that the UDP loop sends from
  -- its start on are at least ten minutes apart for each device and account that they name.
  pub run_receiver-IsSpaced :
      (max_packets : Option ℕ) (ds : List Datagram)
      → IsSpaced
          (run_receiver py settings max_packets 0 ds
            (record { published = []; last_heartbeat = []; heartbeats = [] })).0.heartbeats
  run_receiver-IsSpaced max_packets ds =
      (IsNoted-run_receiver max_packets 0 ds _ (record { spaced = tt; noted = λ k. tt })).spaced

-- ===== src/VehicleState/Kind.antt =====
-- services/vehicle_state/app/frames.py, `SAMPLE_KINDS` and `KINDS`: the topics that are read, and
-- tables with an entry for each.
use robo_services.Prelude.{◌≡◌, ◌↔◌, Bool, false, true, List, [], ◌∷◌, arith, if◌then◌else◌, Eq}

pub data Kind : Type 0 where
  gps imu can unknown discovery session : Kind

abbrev pub kind_beq : Kind → Kind → Bool
kind_beq gps gps = true
kind_beq imu imu = true
kind_beq can can = true
kind_beq unknown unknown = true
kind_beq discovery discovery = true
kind_beq session session = true
kind_beq _ _ = false

pub kind_beq_iff : (a b : Kind) → (kind_beq a b ≡ true) ↔ (a ≡ b)
kind_beq_iff a b = ground arith

instance abbrev pub kind_eq : Eq Kind
kind_eq = record { beq = kind_beq; beq_iff = kind_beq_iff }

abbrev pub sample_kinds : List Kind
sample_kinds = gps ∷ imu ∷ can ∷ unknown ∷ discovery ∷ []

abbrev pub kinds : List Kind
kinds = gps ∷ imu ∷ can ∷ unknown ∷ discovery ∷ session ∷ []

-- `table[kind] = v`
abbrev pub update {ℓ} : {A : Type ℓ} → (Kind → A) → Kind → A → Kind → A
update f k v j = if kind_beq k j then v else f j

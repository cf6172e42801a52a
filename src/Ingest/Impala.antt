-- ===== src/Ingest/Impala.antt =====
-- profiles.py, `build_impala_2008_can_profile`: the signals of one car. The bytes of a frame are below
-- 256, so a shift and an or is a sum.
use robo_services.Prelude.{
  ℕ, ◌+◌, ◌*◌, ◌%◌, String, List, [], ◌∷◌, ◌++◌, map, get_elem?, if◌then◌else◌, ◌==◌, nat_eq, none,
  some, Result, ok, err, ◌>>=◌,
}
use robo_services.Prelude.Int.{ℤ, pos, sub_ℕ}
use robo_services.Prelude.Dict.{Dict, keys}
use robo_services.Frame.{RawFrame}
use robo_services.Signal.{FloatOps}
use robo_services.Ingest.{ExtractError, value_error, SignalDefinition, VehicleCanProfile, decode}

-- `frame.data[index]`
unfoldable pub byte_at : RawFrame → ℕ → Result ExtractError ℕ
byte_at frame index = elim (get_elem? frame.payload index) [
  | none ↦ err value_error
  | some b ↦ ok b
]

-- `_u16_be`
unfoldable pub u16_be : RawFrame → ℕ → Result ExtractError ℕ
u16_be frame index = do
  high ← byte_at frame index
  low ← byte_at frame (index + 1)
  ok (high * 256 + low)

module _ {F : Type 0} (ops : FloatOps F) (of_int : ℤ → F) where
  abbrev with_u16 : ℕ → (F → F) → RawFrame → Result ExtractError F
  with_u16 index f frame = u16_be frame index >>= λ n. ok (f (of_int (pos n)))

  abbrev with_byte : ℕ → (ℕ → F) → RawFrame → Result ExtractError F
  with_byte index f frame = byte_at frame index >>= λ n. ok (f n)

  abbrev definition : String → String → ℕ → (RawFrame → Result ExtractError F) → SignalDefinition F
  definition name unit minimum_dlc extractor = record {
    name = name;
    unit = unit;
    minimum_dlc = minimum_dlc;
    extractor = extractor;
  }

  unfoldable pub impala_definitions : Dict ℕ (List (SignalDefinition F))
  impala_definitions =
      (
        0x0C9,
        definition "EngineRPM" "rpm" 3 (with_u16 1 (λ n. ops.mul n (ops.decimal 25 2)))
            ∷ definition "ThrottlePosition" "percent" 5
                (with_byte 4 (λ b. ops.div (of_int (pos b)) (ops.decimal 255 2)))
            ∷ definition "BrakePedalApplied" "bool" 6
                (with_byte 5 (λ b. if b % 2 == 1 then ops.decimal 1 0 else ops.decimal 0 0))
            ∷ [],
      )
      ∷ (
        0x3E9,
        definition "VehicleSpeed" "mph" 2 (with_u16 0 (λ n. ops.mul n (ops.decimal 1 2))) ∷ [],
      )
      ∷ (
        0x4C1,
        definition "CoolantTemp" "degC" 3 (with_byte 2 (λ b. of_int (sub_ℕ b 40)))
            ∷ definition "IntakeAirTemp" "degC" 4 (with_byte 3 (λ b. of_int (sub_ℕ b 40)))
            ∷ definition "AmbientTemp" "degC" 5 (
                with_byte 4
                  (λ b. ops.sub (ops.div (of_int (pos b)) (of_int (pos 2))) (of_int (pos 40))))
            ∷ [],
      )
      ∷ (0x4D1, definition "EngineOilTemp" "degC" 3 (with_byte 2 (λ b. of_int (sub_ℕ b 40))) ∷ [])
      ∷ (
        0x1EF,
        definition "MassAirFlow" "g/s" 4 (with_u16 2 (λ n. ops.div n (of_int (pos 100)))) ∷ [],
      )
      ∷ (0x135, definition "TransmissionGear" "gear" 1 (with_byte 0 (λ b. of_int (pos b))) ∷ [])
      ∷ []

-- `signal_versions`: 1 for each signal
abbrev pub versions_of : {F : Type 0} → Dict ℕ (List (SignalDefinition F)) → Dict String ℕ
versions_of [] = []
versions_of ((can_id, signal_definitions) ∷ rest) =
    map (λ d. (d.name, 1)) signal_definitions ++ versions_of rest

unfoldable pub build_impala_2008_can_profile :
    {F : Type 0} → FloatOps F → (ℤ → F) → VehicleCanProfile F
build_impala_2008_can_profile ops of_int = record {
  name = "gm-global-a-2008-impala-hs-can";
  vehicle = "2008 Chevrolet Impala";
  bus = "HS-CAN";
  baud = 500000;
  accepted_can_ids = keys (impala_definitions ops of_int);
  signal_versions = versions_of (impala_definitions ops of_int);
  decoder = decode (impala_definitions ops of_int);
}

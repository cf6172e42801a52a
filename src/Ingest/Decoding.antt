-- ===== src/Ingest/Decoding.antt =====
-- When a frame of the Impala decodes.
use robo_services.Prelude.{
  ℕ, ◌+◌, ◌*◌, map, ◌<◌, ◌≤◌, ◌≡◌, inl, inr, refl, arith, zero, suc, Bool, true, false, List, [],
  ◌∷◌, length, get_elem?, all, leb, ◌==◌, nat_eq, Option, none, some, Bool-cases, Result, ok, err,
  ◌>>=◌, All,
}
use robo_services.Prelude.Int.{ℤ}
use robo_services.Prelude.Dict.{Dict, get}
use robo_services.Frame.{RawFrame, IsValid}
use robo_services.Signal.{FloatOps, DecodedSignal}
use robo_services.Ingest.{
  SignalDefinition, IngestError, unknown_can_id_error, decode_failure_error, decode_signal,
  decode_signals, decode,
}
use robo_services.Ingest.Impala.{byte_at, u16_be, impala_definitions}

-- An extractor that reads no byte past the length it asks for
abbrev IsSound : {F : Type 0} → SignalDefinition F → Type 0
IsSound {F} d =
    (frame : RawFrame)
    → IsValid frame
    → d.minimum_dlc ≤ frame.dlc
    → (value : F) × (d.extractor frame ≡ ok value)

get_elem?-found : (xs : List ℕ) (i : ℕ) → i < length xs → (x : ℕ) × (get_elem? xs i ≡ some x)
get_elem?-found [] i h = absurd (omega (arith, h))
get_elem?-found (x ∷ xs) zero h = (x, refl)
get_elem?-found (x ∷ xs) (suc i) h = get_elem?-found xs i (omega (arith, h))

byte_at-found :
    (frame : RawFrame) (i : ℕ) → IsValid frame → i < frame.dlc → (b : ℕ) × (byte_at frame i ≡ ok b)
unfolding byte_at
byte_at-found frame i v h =
    let (b, e) = get_elem?-found frame.payload i (omega (arith, v.payload_fits, h)) in
    (b, ground (arith, e))

u16_be-found :
    (frame : RawFrame) (i : ℕ)
    → IsValid frame
    → i + 1 < frame.dlc
    → (n : ℕ) × (u16_be frame i ≡ ok n)
unfolding u16_be
u16_be-found frame i v h =
    let (a, e) = byte_at-found frame i v (omega (arith, h)) in
    let (b, f) = byte_at-found frame (i + 1) v h in (a * 256 + b, ground (arith, e, f))

-- The DLC suffices for each definition.
abbrev pub is_long_enough : {F : Type 0} → List (SignalDefinition F) → RawFrame → Bool
is_long_enough ds frame = all (λ d. leb d.minimum_dlc frame.dlc) ds

-- The result of a table's lookup that is right for a frame.
pub data Decodes {F : Type 0} (frame : RawFrame) (found : Option (List (SignalDefinition F)))
    (r : Result IngestError (List (DecodedSignal F))) : Type 0 where
  unknown : found ≡ none → r ≡ err unknown_can_id_error → Decodes frame found r
  too_short :
      (ds : List (SignalDefinition F))
      → found ≡ some ds
      → is_long_enough ds frame ≡ false
      → r ≡ err decode_failure_error
      → Decodes frame found r
  complete :
      (ds : List (SignalDefinition F))
      → found ≡ some ds
      → is_long_enough ds frame ≡ true
      → (signals : List (DecodedSignal F)) → r ≡ ok signals
      → map (λ s. s.name) signals ≡ map (λ d. d.name) ds
      → Decodes frame found r

abbrev FoundSound : {F : Type 0} → Option (List (SignalDefinition F)) → Type 0
FoundSound none = Unit
FoundSound (some ds) = All IsSound ds

module _ {F : Type 0} (frame : RawFrame) (valid : IsValid frame) where
  decode_signal-found :
      (d : SignalDefinition F)
      → IsSound d
      → d.minimum_dlc ≤ frame.dlc
      → (s : DecodedSignal F) × ((decode_signal frame d ≡ ok s) × (s.name ≡ d.name))
  unfolding decode_signal
  decode_signal-found d sound h =
      let (value, e) = sound frame valid h in
      (record { name = d.name; value = value; unit = d.unit }, (ground (arith, e), refl))

  decode_signal-short :
      (d : SignalDefinition F)
      → frame.dlc < d.minimum_dlc
      → decode_signal frame d ≡ err decode_failure_error
  unfolding decode_signal
  decode_signal-short d h = ground arith

  decode_signals-short :
      (ds : List (SignalDefinition F))
      → All IsSound ds
      → is_long_enough ds frame ≡ false
      → decode_signals frame ds ≡ err decode_failure_error
  unfolding decode_signals
  decode_signals-short [] sound h = absurd (cc)
  decode_signals-short (d ∷ ds) sound h = elim (Bool-cases (leb d.minimum_dlc frame.dlc)) [
    | inr short ↦ ground (arith, decode_signal-short d (ground arith))
    | inl long ↦
        let (s, (e, same)) = decode_signal-found d sound.0 (ground arith) in
        ground (arith, e, decode_signals-short ds sound.1 (ground arith))
  ]

  decode_signals-found :
      (ds : List (SignalDefinition F))
      → All IsSound ds
      → is_long_enough ds frame ≡ true
      → (signals : List (DecodedSignal F)) × ((decode_signals frame ds ≡ ok signals)
          × (map (λ s. s.name) signals ≡ map (λ d. d.name) ds))
  unfolding decode_signals
  decode_signals-found [] sound h = ([], (refl, refl))
  decode_signals-found (d ∷ ds) sound h =
      let (s, (e, same)) = decode_signal-found d sound.0 (ground arith) in
      let (signals, (f, names)) = decode_signals-found ds sound.1 (ground arith) in
      (s ∷ signals, (ground (arith, e, f), cc))

  Decodes-decode_signals :
      (found : Option (List (SignalDefinition F)))
      → FoundSound found
      → Decodes frame found (elim found as (λ x. Result IngestError (List (DecodedSignal F))) [
        | none ↦ err unknown_can_id_error
        | some ds ↦ decode_signals frame ds
      ])
  Decodes-decode_signals none sound = unknown refl refl
  Decodes-decode_signals (some ds) sound = elim (Bool-cases (is_long_enough ds frame)) [
    | inr short ↦ too_short ds refl short (decode_signals-short ds sound short)
    | inl long ↦
        let (signals, (e, names)) = decode_signals-found ds sound long in
        complete ds refl long signals e names
  ]

-- All definitions of a table are sound.
abbrev AreSound : {F : Type 0} → Dict ℕ (List (SignalDefinition F)) → Type 0
AreSound [] = Unit
AreSound ((i, ds) ∷ rest) = All IsSound ds × AreSound rest

get-AreSound :
    {F : Type 0} (table : Dict ℕ (List (SignalDefinition F))) (i : ℕ)
    → AreSound table
    → FoundSound (get table i)
unfolding get
get-AreSound [] i sound = tt
get-AreSound ((j, ds) ∷ rest) i sound = elim (Bool-cases (j == i)) [
  | inl e ↦ rw (e) sound.0
  | inr e ↦ rw (e) (get-AreSound rest i sound.1)
]

module _ {F : Type 0} where
  reads_byte :
      (i n : ℕ) (f : ℕ → F)
      → i < n
      → (frame : RawFrame) → IsValid frame
      → n ≤ frame.dlc
      → (value : F) × ((byte_at frame i >>= λ b. ok (f b)) ≡ ok value)
  reads_byte i n f h frame v long =
      let (b, e) = byte_at-found frame i v (omega (arith, h, long)) in (f b, ground (arith, e))

  reads_u16 :
      (i n : ℕ) (f : ℕ → F)
      → i + 1 < n
      → (frame : RawFrame) → IsValid frame
      → n ≤ frame.dlc
      → (value : F) × ((u16_be frame i >>= λ b. ok (f b)) ≡ ok value)
  reads_u16 i n f h frame v long =
      let (b, e) = u16_be-found frame i v (omega (arith, h, long)) in (f b, ground (arith, e))

module _ {F : Type 0} (ops : FloatOps F) (of_int : ℤ → F) where
  impala_definitions-AreSound : AreSound (impala_definitions ops of_int)
  unfolding impala_definitions
  impala_definitions-AreSound = (
    (
      reads_u16 1 3 _ (ground arith),
      (reads_byte 4 5 _ (ground arith), (reads_byte 5 6 _ (ground arith), tt)),
    ),
    (
      (reads_u16 0 2 _ (ground arith), tt),
      (
        (
          reads_byte 2 3 _ (ground arith),
          (reads_byte 3 4 _ (ground arith), (reads_byte 4 5 _ (ground arith), tt)),
        ),
        (
          (reads_byte 2 3 _ (ground arith), tt),
          ((reads_u16 2 4 _ (ground arith), tt), ((reads_byte 0 1 _ (ground arith), tt), tt)),
        ),
      ),
    ),
  )

  -- On a valid frame the Impala's decoder raises nothing but `UnknownCanIdError`, exactly for an id
  -- that has no definitions, and `DecodeFailureError`, exactly where the DLC is below what one of the
  -- id's definitions asks for; it gives the signals of all definitions, in order, otherwise.
  pub Decodes-impala :
      (frame : RawFrame)
      → IsValid frame
      → Decodes frame
          (get (impala_definitions ops of_int) frame.can_id)
          (decode (impala_definitions ops of_int) frame)
  unfolding decode
  Decodes-impala frame valid =
      Decodes-decode_signals frame valid (get (impala_definitions ops of_int) frame.can_id)
        (get-AreSound (impala_definitions ops of_int) frame.can_id impala_definitions-AreSound)

-- ===== src/Frame/Codec/RoundTrip.antt =====
-- The 17-byte record and the record files of frame_codec.py keep what they are given.
use robo_services.Prelude.{
  ℕ, ◌/◌, ◌%◌, ◌^◌, ◌-◌, ◌<◌, ◌≤◌, ◌≡◌, sym, ap, ◌∙◌, ◌∷◌, ◌++◌, arith, length, take, replicate,
  length-append, length-replicate, take-append, take-length, ◌==◌, nat_eq, ok, err, Bool-cases, inl,
  inr,
}
use robo_services.Prelude.Int.{pos}
use robo_services.Frame.{Bytes, RawFrame, struct_error, IsValid, raw_frame, padded_data}
use robo_services.Frame.Codec.{
  frame_size, be32, of_be32, can_word, serialize_frame, parse_frame, unpack,
}

of_be32-be32 :
    (n : ℕ)
    → n < 2 ^ 32
    → of_be32 (n / 2 ^ 24 % 256) (n / 2 ^ 16 % 256) (n / 2 ^ 8 % 256) (n % 256) ≡ n
unfolding of_be32
of_be32-be32 n h = omega arith

raw_frame_self :
    (f : RawFrame)
    → IsValid f
    → raw_frame (pos f.timestamp_ms) (pos f.can_id) (pos f.dlc) f.payload f.is_extended ≡ ok f
unfolding raw_frame
raw_frame_self f v =
    let cut : take f.dlc f.payload ≡ f.payload =
      ap (λ n. take n f.payload) (sym v.payload_fits) ∙ take-length f.payload in
    ground (arith, cut, v.payload_fits)

-- The word keeps the id and the flag.
can_word_parts :
    (f : RawFrame)
    → f.can_id ≤ 0x1FFFFFFF
    → (can_word f < 2 ^ 32)
      × (can_word f % 2 ^ 31 ≡ f.can_id)
      × ((can_word f / 2 ^ 31 % 2 == 1) ≡ f.is_extended)
unfolding can_word
can_word_parts f h = elim (Bool-cases f.is_extended) [
  | inl e ↦ rw e (omega arith, omega arith, ground arith)
  | inr e ↦ rw e (omega arith, omega arith, ground arith)
]

take-padded_data : (f : RawFrame) → IsValid f → take f.dlc (padded_data f) ≡ f.payload
unfolding padded_data
take-padded_data f v =
    ap (λ n. take n (f.payload ++ replicate (8 - length f.payload) 0)) (sym v.payload_fits)
    ∙ take-append f.payload (replicate (8 - length f.payload) 0)

length-padded_data : (f : RawFrame) → IsValid f → length (padded_data f) ≡ 8
unfolding padded_data
length-padded_data f v = omega (
  arith,
  length-append f.payload (replicate (8 - length f.payload) 0),
  length-replicate {A = ℕ} (8 - length f.payload) 0,
  v.payload_fits,
  v.dlc_fits,
)

-- The record of a valid frame.
record_of : RawFrame → Bytes
record_of f = be32 f.timestamp_ms ++ (be32 (can_word f) ++ (f.dlc ∷ padded_data f))

serialize_frame-record_of :
    (f : RawFrame) → IsValid f → f.timestamp_ms < 2 ^ 32 → serialize_frame f ≡ ok (record_of f)
unfolding serialize_frame record_of
serialize_frame-record_of f v h = ground (arith, (can_word_parts f v.id_fits).0, v.dlc_fits)

length-record_of : (f : RawFrame) → IsValid f → length (record_of f) ≡ 17
unfolding record_of be32
length-record_of f v = omega (arith, length-padded_data f v)

unpack-record_of :
    (f : RawFrame) → IsValid f → f.timestamp_ms < 2 ^ 32 → unpack (record_of f) ≡ ok f
unfolding unpack record_of be32
unpack-record_of f v h =
    simp
      (
        of_be32-be32 f.timestamp_ms h,
        of_be32-be32 (can_word f) (can_word_parts f v.id_fits).0,
        (can_word_parts f v.id_fits).1,
        (can_word_parts f v.id_fits).2,
        take-padded_data f v,
      )
      (raw_frame_self f v)

-- A valid frame whose timestamp fits 32 bits has a record of 17 bytes, and parsing the record
-- gives the frame back, its id, flag, DLC and data included.
pub parse_frame-serialize_frame :
    (f : RawFrame)
    → IsValid f
    → f.timestamp_ms < 2 ^ 32
    → (b : Bytes) × (serialize_frame f ≡ ok b) × (length b ≡ frame_size) × (parse_frame b ≡ ok f)
unfolding parse_frame
parse_frame-serialize_frame f v h = (
  record_of f,
  serialize_frame-record_of f v h,
  length-record_of f v,
  rw (length-record_of f v) (unpack-record_of f v h),
)

-- A valid frame whose timestamp is 2 ^ 32 milliseconds or more (after 1970-02-19, if it counts from
-- the epoch) is refused by the packer.
pub serialize_frame-late :
    (f : RawFrame) → IsValid f → 2 ^ 32 ≤ f.timestamp_ms → serialize_frame f ≡ err struct_error
unfolding serialize_frame
serialize_frame-late f v h = ground arith

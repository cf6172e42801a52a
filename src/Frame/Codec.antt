-- ===== src/Frame/Codec.antt =====
-- src/can_pub_sub_probe/frame_codec.py: the 17-byte record `>IIB8s` (timestamp, CAN word with
-- the extended flag in bit 31, DLC, eight data bytes), and files of such records.
pub mod RoundTrip
pub mod Files
use robo_services.Prelude.{
  ℕ, zero, suc, ◌+◌, ◌*◌, ◌/◌, ◌%◌, ◌^◌, Bool, not, List, [], ◌∷◌, ◌++◌, length, take, drop, ltb,
  ◌==◌, nat_eq, if◌then◌else◌, ◌&&◌, Result, ok, err, ◌>>=◌, Option, none, some, ◌-◌,
}
use robo_services.Prelude.Int.{pos}
use robo_services.Frame.{
  Bytes, RawFrame, FrameError, struct_error, wrong_size, misaligned, truncated, raw_frame,
  padded_data,
}

abbrev pub frame_size : ℕ
frame_size = 17

abbrev pub extended_flag : ℕ
extended_flag = 0x80000000

-- The format `I` in network order.
unfoldable pub be32 : ℕ → Bytes
be32 n = (n / 2 ^ 24 % 256) ∷ (n / 2 ^ 16 % 256) ∷ (n / 2 ^ 8 % 256) ∷ (n % 256) ∷ []

unfoldable pub of_be32 : ℕ → ℕ → ℕ → ℕ → ℕ
of_be32 a b c d = a * 2 ^ 24 + b * 2 ^ 16 + c * 2 ^ 8 + d

-- `can_id | 0x80000000` for an id below 2 ^ 31, and the plain id.
unfoldable pub can_word : RawFrame → ℕ
can_word f = f.can_id + (if f.is_extended then extended_flag else 0)

-- `struct.pack` raises where a number does not fit its field.
unfoldable pub serialize_frame : RawFrame → Result FrameError Bytes
unfolding be32 can_word padded_data
serialize_frame f =
    if ltb f.timestamp_ms (2 ^ 32) && (ltb (can_word f) (2 ^ 32) && ltb f.dlc 256)
    then ok (be32 f.timestamp_ms ++ (be32 (can_word f) ++ (f.dlc ∷ padded_data f)))
    else err struct_error

-- `struct.unpack` of a record whose size has been checked.
unpack : Bytes → Result FrameError RawFrame
unfolding of_be32 raw_frame
unpack (t0 ∷ t1 ∷ t2 ∷ t3 ∷ w0 ∷ w1 ∷ w2 ∷ w3 ∷ dlc ∷ padded) =
    let word = of_be32 w0 w1 w2 w3 in
    raw_frame (pos (of_be32 t0 t1 t2 t3)) (pos (word % 2 ^ 31)) (pos dlc) (take dlc padded)
      (word / 2 ^ 31 % 2 == 1)
unpack _ = err struct_error

unfoldable pub parse_frame : Bytes → Result FrameError RawFrame
unfolding unpack
parse_frame payload = if not (length payload == frame_size) then err wrong_size else unpack payload

-- A generator: what it yields, and the exception that ends it, if any.
abbrev pub Yields : Type 0
Yields = List RawFrame × Option FrameError

abbrev pub yield_then : Result FrameError RawFrame → Yields → Yields
yield_then (ok f) (fs, e) = (f ∷ fs, e)
yield_then (err e) rest = ([], some e)

-- The records at the offsets 0, 17, 34, …: `n` of them.
unfoldable pub records : ℕ → Bytes → Yields
records zero payload = ([], none)
records (suc n) payload =
    yield_then (parse_frame (take frame_size payload)) (records n (drop frame_size payload))

unfoldable pub iter_frame_bytes : Bytes → Yields
unfolding records parse_frame
iter_frame_bytes payload =
    if not (length payload % frame_size == 0)
    then ([], some misaligned)
    else records (length payload / frame_size) payload

-- The read loop of `iter_frame_file`: a chunk of at most 17 bytes a round, and the last one empty.
unfoldable pub read_records : ℕ → Bytes → Yields
read_records zero content = ([], none)
read_records (suc fuel) content =
    let chunk = take frame_size content in
    let rest = read_records fuel (drop frame_size content) in
    if length chunk == 0
    then ([], none)
    else if not (length chunk == frame_size)
    then ([], some truncated)
    else yield_then (parse_frame chunk) rest

-- Each round that goes on reads a byte, so one round more than the bytes is enough.
unfoldable pub iter_frame_file : Bytes → Yields
unfolding read_records parse_frame
iter_frame_file content = read_records (suc (length content)) content

-- The content written, until a frame that cannot be packed raises.
unfoldable pub write_frame_file : List RawFrame → Result FrameError Bytes
unfolding serialize_frame
write_frame_file [] = ok []
write_frame_file (f ∷ fs) = do
  record_bytes ← serialize_frame f
  rest ← write_frame_file fs
  ok (record_bytes ++ rest)

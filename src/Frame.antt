-- ===== src/Frame.antt =====
-- src/can_pub_sub_probe/models.py, `RawFrame`: one CAN frame as the recorder captured it, and
-- the checks that its constructor makes. Python's ints may be negative, so the constructor takes
-- integers; what it accepts is not. A `bytes` value is the list of its bytes.
pub mod Hex
pub mod Codec
pub mod Probe
pub mod Replay
use robo_services.Prelude.{
  ℕ, ◌≤◌, ◌≡◌, Bool, true, not, ◌&&◌, List, arith, length, take, ltb, if◌then◌else◌, Result, ok,
  err, replicate, ◌++◌, ◌-◌, none, some,
}
use robo_services.Prelude.Datetime.{from_timestamp}
use robo_services.Prelude.Int.{ℤ, pos, pos_part, ltb_ℤ, leb_ℤ}

abbrev pub Bytes : Type 0
Bytes = List ℕ

pub data FrameError : Type 0 where
  bad_timestamp bad_can_id bad_dlc data_too_long data_too_short : FrameError
  struct_error wrong_size misaligned truncated : FrameError
  index_error bad_fragment byte_out_of_range time_out_of_range : FrameError

pub record RawFrame : Type 0 where
  pub timestamp_ms : ℕ
  pub can_id : ℕ
  pub dlc : ℕ
  pub payload : Bytes
  pub is_extended : Bool

-- `RawFrame(...)` with `__post_init__`: the checks in order, then the data cut to the DLC.
unfoldable pub raw_frame : ℤ → ℤ → ℤ → Bytes → Bool → Result FrameError RawFrame
raw_frame timestamp_ms can_id dlc payload is_extended =
    if ltb_ℤ timestamp_ms (pos 0)
    then err bad_timestamp
    else if not (leb_ℤ (pos 0) can_id && leb_ℤ can_id (pos 0x1FFFFFFF))
    then err bad_can_id
    else if not (leb_ℤ (pos 0) dlc && leb_ℤ dlc (pos 8))
    then err bad_dlc
    else if ltb 8 (length payload)
    then err data_too_long
    else if ltb_ℤ (pos (length payload)) dlc
    then err data_too_short
    else ok (record {
      timestamp_ms = pos_part timestamp_ms;
      can_id = pos_part can_id;
      dlc = pos_part dlc;
      payload = take (pos_part dlc) payload;
      is_extended = is_extended;
    })

-- `padded_data`: `data.ljust(8, b"\x00")`.
unfoldable pub padded_data : RawFrame → Bytes
padded_data f = f.payload ++ replicate (8 - length f.payload) 0

-- `captured_at`, in microseconds since the epoch, with `utc_from_timestamp_ms`.
unfoldable pub captured_at : RawFrame → Result FrameError ℕ
captured_at f = elim (from_timestamp f.timestamp_ms 1000) [
  | none ↦ err time_out_of_range
  | some t ↦ ok t
]

-- What the constructor guarantees of a frame.
pub record IsValid (f : RawFrame) : Type 0 where
  pub id_fits : f.can_id ≤ 0x1FFFFFFF
  pub dlc_fits : f.dlc ≤ 8
  pub payload_fits : length f.payload ≡ f.dlc

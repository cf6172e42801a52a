-- ===== src/Tests/Recorder.antt =====
-- The frame codec and the probes of src/can_pub_sub_probe.
use robo_services.Prelude.{◌*◌, ◌≡◌, refl, true, [], ◌∷◌, arith, length, none, ok}
use robo_services.Frame.{RawFrame, Bytes, IsValid}
use robo_services.Frame.Codec.{
  frame_size, serialize_frame, parse_frame, write_frame_file, iter_frame_file, iter_frame_bytes,
}
use robo_services.Frame.Codec.RoundTrip.{parse_frame-serialize_frame}
use robo_services.Frame.Codec.Files.{iter_frame_file-write_frame_file}

abbrev engine_frame : RawFrame
engine_frame = record {
  timestamp_ms = 4294967295;
  can_id = 0x18DAF110;
  dlc = 3;
  payload = 2 ∷ 1 ∷ 12 ∷ [];
  is_extended = true;
}

engine_frame-IsValid : IsValid engine_frame
engine_frame-IsValid = record { id_fits = omega arith; dlc_fits = omega arith; payload_fits = refl }

parse_frame-serialize_frame_example :
    (b : Bytes) × (serialize_frame engine_frame ≡ ok b)
    × (length b ≡ frame_size)
    × (parse_frame b ≡ ok engine_frame)
parse_frame-serialize_frame_example =
    parse_frame-serialize_frame engine_frame engine_frame-IsValid (omega arith)

iter_frame_file-write_frame_file_example :
    (b : Bytes) × (write_frame_file (engine_frame ∷ engine_frame ∷ []) ≡ ok b)
    × (length b ≡ 17 * 2)
    × (iter_frame_file b ≡ (engine_frame ∷ engine_frame ∷ [], none))
    × (iter_frame_bytes b ≡ (engine_frame ∷ engine_frame ∷ [], none))
iter_frame_file-write_frame_file_example =
    iter_frame_file-write_frame_file (engine_frame ∷ engine_frame ∷ []) (
      record { valid = engine_frame-IsValid; early = omega arith },
      (record { valid = engine_frame-IsValid; early = omega arith }, tt),
    )

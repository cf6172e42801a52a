-- ===== src/Frame/Probe.antt =====
-- src/can_pub_sub_probe/probe.py: probes travel as CAN frames of one id, with a magic first byte,
-- four bytes of tracer id, a flow number and flags. `ProbeContext` is that of models.py.
pub mod Detection
use robo_services.Prelude.{
  ℕ, ◌*◌, ◌%◌, String, Bool, false, not, List, [], ◌∷◌, ◌++◌, length, ltb, ◌==◌, nat_eq,
  if◌then◌else◌, Result, ok, err, ◌>>=◌, Option, none, some,
}
use robo_services.Prelude.Int.{ℤ, pos}
use robo_services.Frame.{
  Bytes, RawFrame, FrameError, index_error, bad_fragment, byte_out_of_range, raw_frame, captured_at,
}
use robo_services.Frame.Hex.{hex}

pub record ProbeContext : Type 0 where
  pub tracer_id : String
  pub flow_id : ℕ
  pub injected_at : ℕ
  pub suppress_egress : Bool

abbrev pub probe_can_id : ℕ
probe_can_id = 0x7FF

abbrev pub probe_magic : ℕ
probe_magic = 0xCA

abbrev pub probe_payload_bytes : ℕ
probe_payload_bytes = 8

-- The part of `detect_probe` that reads the data; `flags & 1` is `flags % 2`. Reading past the end
-- of the data raises `IndexError`, but for the slice.
unfoldable pub read_probe : RawFrame → Bytes → Result FrameError (Option ProbeContext)
unfolding hex
read_probe f [] = err index_error
read_probe f (magic ∷ a ∷ b ∷ c ∷ d ∷ flow ∷ flags ∷ rest) =
    if not (magic == probe_magic)
    then ok none
    else (captured_at f >>= λ t. ok (
        some (record {
          tracer_id = hex (a ∷ b ∷ c ∷ d ∷ []);
          flow_id = flow;
          injected_at = t;
          suppress_egress = flags % 2 == 1;
        })))
read_probe f (magic ∷ rest) = if not (magic == probe_magic) then ok none else err index_error

unfoldable pub detect_probe : RawFrame → Result FrameError (Option ProbeContext)
unfolding read_probe
detect_probe f =
    if not (f.can_id == probe_can_id)
    then ok none
    else if not (f.dlc == probe_payload_bytes)
    then ok none
    else read_probe f f.payload

unfoldable pub build_probe_frame : ℤ → Bytes → ℕ → Bool → Result FrameError RawFrame
unfolding raw_frame
build_probe_frame timestamp_ms tracer_fragment flow_id suppress_egress =
    if not (length tracer_fragment == 4)
    then err bad_fragment
    else if not (ltb flow_id 256)
    then err byte_out_of_range
    else let flags : ℕ = if suppress_egress then 1 else 0 in
      raw_frame timestamp_ms (pos probe_can_id) (pos probe_payload_bytes)
        (probe_magic ∷ (tracer_fragment ++ (flow_id ∷ flags ∷ 0 ∷ []))) false

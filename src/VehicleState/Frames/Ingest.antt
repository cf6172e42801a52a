-- ===== src/VehicleState/Frames/Ingest.antt =====
-- frames.py, `FrameTable.ingest`, and the `handle` of main.py that calls it.
use robo_services.Prelude.{
  ℕ, suc, ◌+◌, Bool, false, true, not, ◌&&◌, ◌||◌, [], ◌∷◌, ◌++◌, if◌then◌else◌, ◌==◌, nat_eq,
  string_eq, pair_eq, Option, none, some,
}
use robo_services.Prelude.Dict.{get, set}
use robo_services.VehicleState.Kind.{
  Kind, gps, imu, can, unknown, discovery, session, kind_beq, update,
}
use robo_services.VehicleState.Frames.{
  Key, Message, OpenFrame, FrameTable, reaches, raised, frames_of, find_frame, new_frame,
  later_receipt, are_comparable, first_seen,
}

-- How a call of `ingest` ended.
pub data Ending : Type 0 where
  no_session untagged late not_a_frame absorbed raised_error : Ending

module _ {F : Type 0} where
  -- What every message of a frame notes in it: `first_offset`, `last_progress`, `received_at`.
  unfoldable pub touch : OpenFrame F → Kind → ℕ → Message F → ℕ → OpenFrame F
  touch f kind offset m now = record f {
    first_offset = update f.first_offset kind (some (first_seen (f.first_offset kind) offset));
    last_progress = now;
    received_at = later_receipt m.received_at f.received_at;
  }

  -- The last part of `ingest`, on the frame: the sample, or the receipt. The Boolean is false where
  -- a field that the code reads is missing, and it raises; the count is kept then.
  unfoldable pub absorb : OpenFrame F → Kind → ℕ → Message F → OpenFrame F × Bool
  absorb f session base m = (
    record f {
      receipt = some m.payload.receipt;
      contents = record f.contents { imu_filled = m.payload.receipt.imu_missing };
    },
    true,
  )
  absorb f gps base m =
      let c = update f.counts gps (suc (f.counts gps)) in
      elim m.captured_at [
        | none ↦ (record f { counts = c }, false)
        | some t ↦ (
          record f {
            counts = c;
            contents = record f.contents {
              gps = f.contents.gps ++ ((record { t_us = t; payload = m.payload.fix }) ∷ []);
            };
          },
          true,
        )
      ]
  absorb f imu base m =
      let c = update f.counts imu (suc (f.counts imu)) in
      elim m.captured_at [
        | none ↦ (record f { counts = c }, false)
        | some t ↦ elim m.payload.accel_m_s2 [
          | none ↦ (record f { counts = c }, false)
          | some a ↦ elim m.payload.gyro_deg_s [
            | none ↦ (record f { counts = c }, false)
            | some g ↦ (
              record f {
                counts = c;
                contents = record f.contents {
                  imu = f.contents.imu ++ ((record { t_us = t; accel = a; gyro = g }) ∷ []);
                };
              },
              true,
            )
          ]
        ]
      ]
  absorb f can base m = (
    record f {
      counts = update f.counts can (suc (f.counts can));
      contents = record f.contents {
        can =
            f.contents.can
            ++ ((record { t_us = base + m.payload.dt_us; signals = m.payload.signals }) ∷ []);
        dbc = elim m.payload.dbc [ none ↦ f.contents.dbc | some d ↦ d ];
      };
    },
    true,
  )
  absorb f unknown base m = (
    record f {
      counts = update f.counts unknown (suc (f.counts unknown));
      contents = record f.contents {
        dbc = elim m.payload.dbc [ none ↦ f.contents.dbc | some d ↦ d ];
      };
    },
    true,
  )
  absorb f discovery base m =
      (record f { counts = update f.counts discovery (suc (f.counts discovery)) }, true)

  unfoldable pub frame_or_new : FrameTable F → Key → ℕ → ℕ → OpenFrame F
  unfolding find_frame new_frame
  frame_or_new t key base now = elim (find_frame t key base) [
    | none ↦ new_frame key base now
    | some f ↦ f
  ]

  abbrev pub key_of : Message F → Key
  key_of m = (m.source_session, m.device_id)

  abbrev pub has_no_session : Message F → Bool
  has_no_session m =
      (m.source_session == "") || (m.source_session == "proto-live") || (m.device_id == "")

  -- The first lines of `ingest`, which every message reaches.
  unfoldable pub mark_read : FrameTable F → Kind → ℕ → ℕ → FrameTable F
  mark_read t kind offset now = record t {
    last_offset = update t.last_offset kind (some offset);
    last_message_at = update t.last_message_at kind now;
  }

  unfoldable pub absorb_if : Bool → OpenFrame F → Kind → ℕ → Message F → OpenFrame F × Bool
  absorb_if true f kind base m = absorb f kind base m
  absorb_if false f kind base m = (f, false)

  -- The frame of a message, after it. Nothing is absorbed where the receive times cannot be
  -- compared: the code raises there.
  unfoldable pub taken : OpenFrame F → Kind → ℕ → Message F → ℕ → ℕ → OpenFrame F × Bool
  taken f kind offset m now base =
      absorb_if (are_comparable m.received_at f.received_at) (touch f kind offset m now) kind base m

  -- From the look-up of the frame on, for a message with a tag that is not late.
  unfoldable pub take_in : FrameTable F → Kind → ℕ → Message F → ℕ → ℕ → FrameTable F × Bool
  take_in t kind offset m now base =
      let key = key_of m in
      let old = frame_or_new t key base now in
      let (f, fine) = taken old kind offset m now base in
      let compared = are_comparable m.received_at old.received_at in
      (
        record t {
          frames = set t.frames key (set (frames_of t key) base f);
          hwm =
              if compared
              then update t.hwm kind (set (t.hwm kind) key (raised (get (t.hwm kind) key) base))
              else t.hwm;
          hwm_any =
              if compared
              then update t.hwm_any kind (some (raised (t.hwm_any kind) base))
              else t.hwm_any;
        },
        fine,
      )

  unfoldable pub ingest : FrameTable F → Kind → ℕ → Message F → ℕ → FrameTable F × Ending
  ingest t₀ kind offset m now =
      let t = mark_read t₀ kind offset now in
      if has_no_session m
      then (
        record t { skipped = record t.skipped { no_session = suc t.skipped.no_session } },
        no_session,
      )
      else if kind_beq kind session && not (m.message_type == "frame")
      then (t, not_a_frame)
      else elim m.payload.base_timestamp_us [
        | none ↦ (
          record t { skipped = record t.skipped { untagged = suc t.skipped.untagged } },
          untagged,
        )
        | some base ↦
            if reaches (get t.closed_upto (key_of m)) base
            then (record t { skipped = record t.skipped { late = suc t.skipped.late } }, late)
            else let (t', fine) = take_in t kind offset m now base in
              (t', if fine then absorbed else raised_error)
      ]

  -- `handle`: an unreadable record (`none`) is only marked as read. The number counts those, and
  -- the records on which `ingest` raised.
  unfoldable pub handle : FrameTable F → Kind → ℕ → Option (Message F) → ℕ → FrameTable F × ℕ
  handle t kind offset none now =
      (record t { last_offset = update t.last_offset kind (some offset) }, 1)
  handle t kind offset (some m) now =
      let (t', ending) = ingest t kind offset m now in
      (t', elim ending [ raised_error ↦ 1 | _ ↦ 0 ])

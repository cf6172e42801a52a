-- ===== src/Tests/VehicleState.antt =====
-- A session whose two frames are open when the first is closed.
use robo_services.Prelude.{
  nat_eq, ℕ, ◌≡◌, ◌<◌, ◌≤◌, ◌+◌, ◌++◌, map, refl, List, [], ◌∷◌, arith, none, some,
}
use robo_services.Prelude.Dict.{Dict, get, get_or, set, pop}
use robo_services.VehicleState.Kind.{Kind, gps, imu, can, unknown, discovery, session}
use robo_services.VehicleState.Snapshot.{GpsPayload}
use robo_services.VehicleState.Frames.{
  OpenFrame, FrameTable, Message, new_table, find_frame, frames_of, new_frame,
}
use robo_services.VehicleState.Frames.Ingest.{
  ingest, absorbed, handle, mark_read, take_in, absorb, touch, taken, absorb_if, frame_or_new,
}
use robo_services.VehicleState.Frames.Closing.{
  open_count_in, commit_offset, close, firsts, firsts_in, minimum,
}
use robo_services.VehicleState.Frames.Ready.{ReadyFrame, sorted_frames, ready_in, ready}
use robo_services.VehicleState.Frames.Ready.Oldest.{
  IsAscending, count_ready, ready_quiet, ready_in-sorted_frames,
}
use robo_services.VehicleState.Frames.Offsets.{IsNext}
use robo_services.VehicleState.Frames.Replay.{
  Event, reads, closes, run, after, InOrder, commit_offset-run,
}

abbrev no_fix : GpsPayload ℕ
no_fix = record {
  latitude = none;
  longitude = none;
  altitude_m = none;
  ground_speed_kph = none;
  heading_deg = none;
  num_sats = none;
  hdop = none;
}

abbrev sample : ℕ → Message ℕ
sample base = record {
  source_session = "s1";
  device_id = "d1";
  message_type = "can";
  captured_at = none;
  received_at = none;
  payload = record {
    base_timestamp_us = some base;
    receipt = record { gps = 0; imu = 0; can = 0; imu_missing = none };
    dt_us = 5;
    signals = [];
    dbc = none;
    fix = no_fix;
    accel_m_s2 = none;
    gyro_deg_s = none;
  };
}

abbrev earlier : List (Event ℕ)
earlier = reads can 7 (some (sample 1000)) 1 ∷ []

abbrev later : List (Event ℕ)
later = reads can 9 (some (sample 2000)) 3 ∷ closes ("s1", "d1") 1000 ∷ []

earlier-InOrder : InOrder (new_table 60) earlier
unfolding new_table
earlier-InOrder = (λ l h. ground arith, tt)

IsNext-offset : IsNext (run (new_table 60) earlier) can 8
unfolding run after handle ingest mark_read take_in new_table find_frame frames_of get get_or absorb
IsNext-offset = λ l h. ground arith

sample_absorbed : (ingest (run (new_table 60) earlier) can 8 (sample 2000) 2).1 ≡ absorbed
unfolding run after handle ingest mark_read take_in new_table find_frame frames_of get get_or set
    taken absorb_if absorb touch frame_or_new new_frame
sample_absorbed = refl

offset_stored :
    commit_offset (run (ingest (run (new_table 60) earlier) can 8 (sample 2000) 2).0 later) can
    ≡ some 7
unfolding run after handle ingest mark_read take_in new_table find_frame frames_of get get_or set
    pop taken absorb_if absorb touch frame_or_new new_frame close commit_offset firsts firsts_in
    minimum
offset_stored = refl

commit_offset-run_example : 7 < 8
commit_offset-run_example =
    commit_offset-run 60 earlier later can 8 (sample 2000) 2 2000 earlier-InOrder IsNext-offset refl
      sample_absorbed (refl, tt) offset_stored

-- The table after one message at the time 1.
abbrev one_frame : FrameTable ℕ
one_frame = run (new_table 60) earlier

one_frame_quiet : (k : Kind) → one_frame.last_message_at k + one_frame.grace_s ≤ 61
unfolding run after handle ingest mark_read take_in new_table find_frame frames_of get get_or absorb
one_frame_quiet k = ground arith

ready_quiet_example : count_ready (ready one_frame 61) ≡ open_count_in one_frame.frames
ready_quiet_example = ready_quiet one_frame 61 one_frame_quiet

abbrev two_frames : Dict ℕ (OpenFrame ℕ)
two_frames = (2000, new_frame ("s1", "d1") 2000 0) ∷ (1000, new_frame ("s1", "d1") 1000 0) ∷ []

ready_in-sorted_frames_example :
    (later : Dict ℕ (OpenFrame ℕ)) × ((sorted_frames two_frames
        ≡ map
            (λ (x : ReadyFrame ℕ). x.0)
            (ready_in one_frame ("s1", "d1") 61 (sorted_frames two_frames))
          ++ later)
      × (IsAscending (sorted_frames two_frames)
          × ((base : ℕ) → get (sorted_frames two_frames) base ≡ get two_frames base)))
ready_in-sorted_frames_example = ready_in-sorted_frames one_frame 61 ("s1", "d1") two_frames

abbrev receipted : OpenFrame ℕ
receipted = record (new_frame ("s1", "d1") 1000 0) {
  receipt = some (record { gps = 0; imu = 2; can = 1; imu_missing = none });
  counts = λ k. elim k [ gps ↦ 0 | imu ↦ 2 | can ↦ 1 | unknown ↦ 0 | discovery ↦ 0 | session ↦ 0 ];
}

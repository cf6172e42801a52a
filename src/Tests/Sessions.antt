-- ===== src/Tests/Sessions.antt =====
-- A session's start and a frame receipt that is delivered twice.
use robo_services.Prelude.{
  Option, ◌≡◌, refl, [], ◌∷◌, Bool, true, ℕ, none, some, ok, string_eq, nat_eq, pair_eq,
}
use robo_services.Prelude.Dict.{get, set}
use robo_services.SessionTracker.{
  Payload, Record, Db, session_start, frame, upsert, touch_columns, start_columns, count_columns,
  frame_row, apply_frame, apply_kind, apply, deliver, counted, duplicate,
}
use robo_services.SessionTracker.Users.{user_known, deliver-user_known}
use robo_services.SessionTracker.Redelivery.{renewed, apply-again}
use robo_services.SessionTracker.Counting.{
  frames_received, different_frames, empty_db, deliver-frames_received,
}

abbrev any_track : ℕ → Bool
any_track t = true

abbrev no_fields : Payload
no_fields = record {
  json = "{}";
  captured_at = none;
  mode = none;
  vehicle_id = none;
  track_id = none;
  reason = none;
  frames = none;
  first_frame_us = none;
  last_frame_us = none;
  base_timestamp_us = none;
  gps = none;
  imu = none;
  imu_missing = none;
  can = none;
}

abbrev start : Record
start = record {
  message_type = session_start;
  source_session = some "s1";
  device_id = some "d1";
  user_sub = some "ann";
  captured_at = some "2026-11-04T10:00:00Z";
  received_at = some 5;
  applied_at = 7;
  payload = record no_fields { mode = some "track"; track_id = some 3 };
}

abbrev receipt : Record
receipt = record start {
  message_type = frame;
  user_sub = none;
  payload = record no_fields { base_timestamp_us = some 1000; can = some 40 };
}

receipt_counts : different_frames ("s1", "d1") (start ∷ receipt ∷ receipt ∷ []) [] ≡ 1
receipt_counts = refl

deliver-frames_received_example :
    frames_received (deliver any_track empty_db (start ∷ receipt ∷ receipt ∷ [])) ("s1", "d1")
    ≡ different_frames ("s1", "d1") (start ∷ receipt ∷ receipt ∷ []) []
deliver-frames_received_example =
    deliver-frames_received any_track (start ∷ receipt ∷ receipt ∷ []) ("s1", "d1")

abbrev after_receipt : Db
unfolding upsert touch_columns count_columns frame_row get set
after_receipt =
    upsert
      (record (upsert empty_db ("s1", "d1") (touch_columns receipt)) {
        session_frames = ((("s1", "d1"), 1000), frame_row receipt) ∷ [];
      })
      ("s1", "d1") (count_columns receipt)

receipt_applied : apply any_track empty_db receipt ≡ ok (after_receipt, counted)
unfolding apply apply_kind apply_frame upsert touch_columns count_columns frame_row get set
    after_receipt
receipt_applied = refl

apply-again_example :
    apply any_track after_receipt (record receipt { applied_at = 9 })
    ≡ ok (renewed 9 (some ("s1", "d1")) frame after_receipt, duplicate)
apply-again_example = apply-again any_track empty_db receipt after_receipt counted 9 receipt_applied

abbrev after_start : Db
unfolding upsert start_columns get set
after_start = upsert empty_db ("s1", "d1") (start_columns any_track start)

ann_known : user_known after_start ("s1", "d1") ≡ true
unfolding after_start upsert start_columns get set
ann_known = refl

deliver-user_known_example :
    user_known (deliver any_track after_start (receipt ∷ receipt ∷ [])) ("s1", "d1") ≡ true
deliver-user_known_example =
    deliver-user_known any_track (receipt ∷ receipt ∷ []) after_start ("s1", "d1") ann_known

abbrev not_ended : Option ℕ
not_ended = none

-- ===== src/Lib.antt =====
-- A verification library for robo-services: telemetry from cars and phones is received, decoded,
-- checked, routed, aggregated and stored by small Python services that pass records over topics.
--
-- The library `can_pub_sub_probe` (src/can_pub_sub_probe) has the types and the hops of the
-- pipeline; every hop may drop an event, and reports each drop of a probe to a diagnostic sink.
--   Frame            models.py `RawFrame`: a CAN frame and its constructor's checks
--   Frame.Codec      frame_codec.py: the 17-byte record and files of records
--   Frame.Probe      probe.py: tracer probes that travel as CAN frames
--   Frame.Replay     replay.py, `replay_frames`
--   Signal           models.py, the events; diagnostics.py, `emit_drop` and the in-memory sink
--   Validate         hops/validate.py: `ValidationEngine`
--   Ingest           hops/ingest.py: `IngestNormalizer`, with the decoder of profiles.py; Ingest.Impala
--                    has the profile of one car
--   Routing          routing.py: `SignalRouter`
--   Aggregate        hops/aggregate.py: `AggregationEngine`; Aggregate.Engine has `aggregate` itself
--   Sinks            sinks.py: `SinkEngine` over `InMemorySinkBackend`
--   Pipeline         pipeline.py: `run_local_pipeline`, the hops one after the other
--   Archive          archive_writer.py: the buffers of records and the objects that they end in
--   Watchdog         consumer_watchdog.py: `ProgressWatchdog` and `watch`
--
-- The services:
--   VehicleState     services/vehicle_state/app/frames.py, `FrameTable`: a phone's frame arrives as
--                    records of six topics, is closed when its receipt's counts are in or its topics
--                    have settled, and until then holds back the offsets that are stored; main.py,
--                    `handle`. VehicleState.Rows has snapshot.py, `build_rows`, the rows of a frame;
--                    Roles, Registry and Store have the files of those names; Loop has main.py,
--                    `write_ready`, which writes the frames that can close, and `store_offsets`
--   Auth.Topics      services/mqtt_auth/app/main.py, `check_acl`, which decides who may write where,
--                    and ingest/kreceiver/kreceiver_proto/receiver_app.py, `user_from_topic`, which
--                    relies on it
--   Receiver         ingest/kreceiver/kreceiver_proto (models.py, config.py, receiver_app.py) with the
--                    messages of telemetry.proto: Receiver.Packets has the MessagePack and JSON
--                    packets, Receiver.Frames the protobuf frame, Receiver.Outbox publishing and
--                    heartbeats, Receiver.Intake the choice between the formats, the MQTT callback and
--                    the UDP loop
--   Auth.Keys        services/mqtt_auth/app/device_tokens.py, `KeyLookup`
--   Auth.Login       device_tokens.py, `verify`, and main.py, `check_user`
--   Decode           services/can_decode/app/dbc_resolver.py, `DbcResolver`
--   SessionTracker   services/session_tracker/app/store.py, `apply`: session records to the tables
--                    `sessions` and `session_frames`
--   Sessions         services/registry/app/services/sessions.py, `derive_state`
-- Prelude holds what they share, and Tests the inputs on which the hypotheses hold.
--
-- An operation takes the state and gives the state afterwards with what it returns. Python's floats
-- are a type with operations of which nothing is assumed; `fnmatch`, PyJWT, clocks and what a call
-- to another service answers are arguments. `datetime.fromtimestamp` is Prelude.Datetime: it rounds
-- to a double and to a microsecond, which are off from 2242 on, and raises past the year 9999; the
-- receiver, whose times may be negative, has it as an argument. Dicts are association lists in
-- insertion order, times are numbers. A file's read loop runs on fuel, one more than the file's bytes, and reads at least
-- one byte a round; all other loops are structural.
--
-- Not modelled: the broker client, the parsers of JSON, MessagePack and protobuf, SQL but for the
-- statements of session-tracker and vehicle-state, HTTP handlers, and the other services;
-- concurrency, but for the orders of reads and closes of the frame table, of reads, ticks and
-- restarts of vehicle-state, and of calls for keys. A tick of vehicle-state is one step: messages
-- that arrive while it waits for the database or the registry are left out.
pub mod Archive
pub mod Prelude
pub mod Frame
pub mod Signal
pub mod Ingest
pub mod Validate
pub mod Routing
pub mod Aggregate
pub mod Sinks
pub mod Pipeline
pub mod VehicleState
pub mod Watchdog
pub mod Auth
pub mod Receiver
pub mod Decode
pub mod SessionTracker
pub mod Sessions
pub mod Tests

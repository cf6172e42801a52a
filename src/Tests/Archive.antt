-- ===== src/Tests/Archive.antt =====
-- Three messages of one session, in files of two records.
use robo_services.Prelude.{ℕ, ◌≡◌, refl, List, [], ◌∷◌, arith, none, some, All, map, length}
use robo_services.Prelude.Dict.{get, get_or, set, pop}
use robo_services.Prelude.Sort.{sum_of}
use robo_services.Archive.{
  ArchiveWriterSettings, Formats, ArchivePayload, ArchiveRecord, BufferKey, Archive, new_archive,
  ArchiveTurn, takes, flushes, or_text, text_or, parse_event_time, normalize_record, flush_buffer,
  take_record, is_due, due_objects, kept_buffers, flush_due_buffers, all_objects, flush_all,
  archive_turns,
}
use robo_services.Archive.Measured.{in_object}
use robo_services.Archive.Kept.{IsObject}
use robo_services.Archive.Conservation.{records_of, archive_turns_lem}

abbrev settings : ArchiveWriterSettings
settings = record { max_records_per_file = 2; max_seconds_per_file = 30 }

abbrev payload : ArchivePayload
payload = record {
  device_id = some "d1";
  source_session = some "s1";
  captured_at = none;
  received_at = some "";
  message_type = none;
  source = none;
}

abbrev formats : Formats
formats = record {
  loads = λ text. some payload;
  parse_time = λ text. none;
  date = λ t. "2026-11-03";
  hour = λ t. "12";
  iso = λ t. "2026-11-03T12:00:00Z";
}

abbrev turns : List ArchiveTurn
turns =
    takes "telemetry.raw.gps" (record { payload_text = "{}"; headers_json = "{}" }) 1
    ∷ takes "telemetry.raw.gps" (record { payload_text = "{}"; headers_json = "{}" }) 2
    ∷ flushes 3
    ∷ takes "telemetry.raw.gps" (record { payload_text = "{}"; headers_json = "{}" }) 4
    ∷ []

abbrev after : Archive
after = elim (archive_turns formats settings new_archive turns) [ none ↦ new_archive | some a ↦ a ]

ends : archive_turns formats settings new_archive turns ≡ some after
unfolding archive_turns normalize_record take_record flush_due_buffers flush_all all_objects
    flush_buffer due_objects kept_buffers is_due get get_or set pop or_text text_or parse_event_time
ends = refl

two_files : map (λ (o : BufferKey × List ArchiveRecord). length o.1) after.objects ≡ 2 ∷ 1 ∷ []
unfolding archive_turns normalize_record take_record flush_due_buffers flush_all all_objects
    flush_buffer due_objects kept_buffers is_due get get_or set pop or_text text_or parse_event_time
two_files = refl

archive_turns_lem_example :
    (after.buffers ≡ [])
    × ((measure : ArchiveRecord → ℕ)
        → sum_of (in_object measure) after.objects ≡ sum_of measure (records_of formats turns))
    × All (IsObject settings (omega arith)) after.objects
archive_turns_lem_example = archive_turns_lem settings (omega arith) formats turns after ends

-- ===== src/Archive.antt =====
-- src/can_pub_sub_probe/archive_writer.py: the records of the topics, buffered by topic, session and
-- hour, and written to files of an object store. Times are microseconds; `json.loads` and the formats
-- of dates are parameters, and so is the file format: an object is the list of its records.
pub mod Measured
pub mod Kept
pub mod Conservation
use robo_services.Prelude.{
  ℕ, ◌+◌, ◌*◌, String, Bool, true, false, ◌&&◌, List, [], ◌∷◌, ◌++◌, length, is_empty, leb,
  if◌then◌else◌, ◌==◌, Eq, string_eq, pair_eq, Option, none, some,
}
use robo_services.Prelude.Dict.{Dict, get_or, set, pop}

pub record ArchiveWriterSettings : Type 0 where
  pub max_records_per_file : ℕ
  pub max_seconds_per_file : ℕ

-- The fields of a payload that are read; a blank text is one that is missing.
pub record ArchivePayload : Type 0 where
  pub device_id : Option String
  pub source_session : Option String
  pub captured_at : Option String
  pub received_at : Option String
  pub message_type : Option String
  pub source : Option String

pub record IggyMessage : Type 0 where
  pub payload_text : String
  pub headers_json : String

pub record ArchiveRecord : Type 0 where
  pub topic : String
  pub device_id : String
  pub source_session : String
  pub captured_at : Option String
  pub received_at : Option String
  pub message_type : Option String
  pub source : Option String
  pub event_date : String
  pub event_hour : String
  pub event_timestamp : String
  pub archived_at : String
  pub headers_json : String
  pub payload_json : String

-- topic, source session, date and hour
abbrev pub BufferKey : Type 0
BufferKey = (String × String) × (String × String)

pub record BufferState : Type 0 where
  pub started_at : ℕ
  pub records : List ArchiveRecord

pub record Archive : Type 0 where
  pub buffers : Dict BufferKey BufferState
  pub objects : List (BufferKey × List ArchiveRecord)

-- `loads` gives `none` where the payload is not an object of such fields, and `normalize_record`
-- raises; `parse_time` is `datetime.fromisoformat`, in UTC, `none` on a ValueError.
pub record Formats : Type 0 where
  pub loads : String → Option ArchivePayload
  pub parse_time : String → Option ℕ
  pub date : ℕ → String
  pub hour : ℕ → String
  pub iso : ℕ → String

abbrev pub new_archive : Archive
new_archive = record { buffers = []; objects = [] }

-- `a or b`, for texts
unfoldable pub or_text : Option String → Option String → Option String
or_text none b = b
or_text (some s) b = if s == "" then b else some s

unfoldable pub text_or : Option String → String → String
text_or none s = s
text_or (some t) s = if t == "" then s else t

module _ (py : Formats) where
  unfoldable pub parse_event_time : Option String → ℕ → ℕ
  parse_event_time none fallback = fallback
  parse_event_time (some value) fallback =
      if value == "" then fallback else elim (py.parse_time value) [ none ↦ fallback | some t ↦ t ]

  unfoldable pub normalize_record : String → IggyMessage → ℕ → Option ArchiveRecord
  normalize_record topic message archived_at = elim (py.loads message.payload_text) [
    | none ↦ none
    | some payload ↦
        let event_time =
          parse_event_time (or_text payload.captured_at payload.received_at) archived_at in
        some (record {
          topic = topic;
          device_id = text_or payload.device_id "unknown-device";
          source_session = text_or payload.source_session "unknown-session";
          captured_at = payload.captured_at;
          received_at = payload.received_at;
          message_type = payload.message_type;
          source = payload.source;
          event_date = py.date event_time;
          event_hour = py.hour event_time;
          event_timestamp = py.iso event_time;
          archived_at = py.iso archived_at;
          headers_json = message.headers_json;
          payload_json = message.payload_text;
        })
  ]

abbrev pub build_buffer_key : ArchiveRecord → BufferKey
build_buffer_key r = ((r.topic, r.source_session), (r.event_date, r.event_hour))

-- The object that `flush_buffer` puts, if there is one.
unfoldable pub flush_buffer : BufferKey → BufferState → List (BufferKey × List ArchiveRecord)
flush_buffer key state = if is_empty state.records then [] else (key, state.records) ∷ []

module _ (settings : ArchiveWriterSettings) where
  -- The body of the loop over messages, from the record on.
  unfoldable pub take_record : Archive → ArchiveRecord → ℕ → Archive
  take_record a r archived_at =
      let key = build_buffer_key r in
      let old = get_or a.buffers key (record { started_at = archived_at; records = [] }) in
      let state = record old { records = old.records ++ (r ∷ []) } in
      if leb settings.max_records_per_file (length state.records)
      then record a { objects = a.objects ++ flush_buffer key state; buffers = pop a.buffers key }
      else record a { buffers = set a.buffers key state }

  -- `flush_due_buffers`: the objects that it puts, and the buffers that it keeps.
  unfoldable pub is_due : ℕ → BufferState → Bool
  is_due now state = leb (state.started_at + settings.max_seconds_per_file * 1000000) now

  unfoldable pub due_objects :
      ℕ → Dict BufferKey BufferState → List (BufferKey × List ArchiveRecord)
  due_objects now [] = []
  due_objects now ((key, state) ∷ buffers) =
      let rest = due_objects now buffers in
      if is_due now state then flush_buffer key state ++ rest else rest

  unfoldable pub kept_buffers : ℕ → Dict BufferKey BufferState → Dict BufferKey BufferState
  kept_buffers now [] = []
  kept_buffers now ((key, state) ∷ buffers) =
      let rest = kept_buffers now buffers in
      if is_empty state.records
      then rest
      else if is_due now state
      then rest
      else (key, state) ∷ rest

  unfoldable pub flush_due_buffers : Archive → ℕ → Archive
  flush_due_buffers a now = record a {
    objects = a.objects ++ due_objects now a.buffers;
    buffers = kept_buffers now a.buffers;
  }

-- The flush of all buffers that an interrupt asks for.
unfoldable pub all_objects : Dict BufferKey BufferState → List (BufferKey × List ArchiveRecord)
all_objects [] = []
all_objects ((key, state) ∷ buffers) = flush_buffer key state ++ all_objects buffers

unfoldable pub flush_all : Archive → Archive
flush_all a = record { objects = a.objects ++ all_objects a.buffers; buffers = [] }

-- What the loop does, in order: it takes a message of a topic, or ends a round.
pub data ArchiveTurn : Type 0 where
  takes : String → IggyMessage → ℕ → ArchiveTurn
  flushes : ℕ → ArchiveTurn

-- The loop up to an interrupt; `none` where a payload raises, which ends the program.
unfoldable pub archive_turns :
    Formats → ArchiveWriterSettings → Archive → List ArchiveTurn → Option Archive
archive_turns py settings a [] = some (flush_all a)
archive_turns py settings a (flushes now ∷ turns) =
    archive_turns py settings (flush_due_buffers settings a now) turns
archive_turns py settings a (takes topic message archived_at ∷ turns) =
    elim (normalize_record py topic message archived_at) [
      | none ↦ none
      | some r ↦ archive_turns py settings (take_record settings a r archived_at) turns
    ]

-- ===== src/Archive/Conservation.antt =====
-- archive_writer.py: every record that is taken is written to one object, with others of its key.
use mathlib.Core.Path.{subst}
use mathlib.Core.Option.{some-injective}
use robo_services.Prelude.{
  ℕ, ◌+◌, ◌<◌, ◌≡◌, refl, List, [], ◌∷◌, arith, string_eq, pair_eq, none, some, Option-cases, inl,
  inr, All, All-append,
}
use robo_services.Prelude.Sort.{sum_of, sum_of-append}
use robo_services.Archive.{
  ArchiveWriterSettings, Formats, ArchiveRecord, Archive, new_archive, normalize_record,
  take_record, due_objects, flush_due_buffers, all_objects, flush_all, ArchiveTurn, takes, flushes,
  archive_turns,
}
use robo_services.Archive.Measured.{in_object, held, held-take_record, held-due, all_objects-total}
use robo_services.Archive.Kept.{
  IsObject, IsKept, take_record-IsKept, kept_buffers-IsDict, kept_buffers-IsBuffer,
  all_objects-IsObject, due_objects-IsObject,
}

-- The records of the messages, in order.
abbrev pub records_of : Formats → List ArchiveTurn → List ArchiveRecord
records_of py [] = []
records_of py (flushes now ∷ turns) = records_of py turns
records_of py (takes topic message archived_at ∷ turns) =
    elim (normalize_record py topic message archived_at) [
      | none ↦ []
      | some r ↦ r ∷ records_of py turns
    ]

module _ (settings : ArchiveWriterSettings) (some_room : 0 < settings.max_records_per_file) where
  -- What the files hold, after the turns that follow.
  abbrev Written : Formats → Archive → List ArchiveTurn → Archive → Type 0
  Written py a turns b =
      (b.buffers ≡ [])
      × ((measure : ArchiveRecord → ℕ)
          → sum_of (in_object measure) b.objects
            ≡ held measure a + sum_of measure (records_of py turns))
      × All (IsObject settings some_room) b.objects

  archive_turns-Written :
      (py : Formats) (a : Archive) (turns : List ArchiveTurn) (b : Archive)
      → IsKept settings some_room a
      → archive_turns py settings a turns ≡ some b
      → Written py a turns b
  unfolding archive_turns flush_all flush_due_buffers
  archive_turns-Written py a [] b h e = subst (Written py a []) (some-injective _ b e) (
    refl,
    λ measure. omega (
      arith,
      sum_of-append (in_object measure) a.objects (all_objects a.buffers),
      all_objects-total measure a.buffers,
    ),
    All-append (IsObject settings some_room) a.objects (all_objects a.buffers) h.written
        (all_objects-IsObject settings some_room a.buffers h.buffered),
  )
  archive_turns-Written py a (flushes now ∷ turns) b h e =
      let kept : IsKept settings some_room (flush_due_buffers settings a now) = record {
        distinct = kept_buffers-IsDict settings some_room now a.buffers h.distinct;
        buffered = kept_buffers-IsBuffer settings some_room now a.buffers h.buffered;
        written =
            All-append (IsObject settings some_room) a.objects (due_objects settings now a.buffers)
              h.written (due_objects-IsObject settings some_room now a.buffers h.buffered);
      } in
      let (none_left, all_there, sized) =
        archive_turns-Written py (flush_due_buffers settings a now) turns b kept e in
      (
        none_left,
        λ measure. omega (
          arith,
          all_there measure,
          sum_of-append (in_object measure) a.objects (due_objects settings now a.buffers),
          held-due measure settings now a.buffers,
        ),
        sized,
      )
  archive_turns-Written py a (takes topic message archived_at ∷ turns) b h e =
      elim (Option-cases (normalize_record py topic message archived_at)) [
        | inl e' ↦ absurd (ground (arith, e, e'))
        | inr (r, e') ↦
            let (none_left, all_there, sized) =
              archive_turns-Written py (take_record settings a r archived_at) turns b
                (take_record-IsKept settings some_room a r archived_at h) (ground (arith, e, e')) in
            (
              none_left,
              λ measure. ground (
                arith,
                e',
                all_there measure,
                held-take_record measure settings a r archived_at h.distinct,
              ),
              sized,
            )
      ]

  -- Where no payload raises, and a file may have a record, the loop, from no buffers up to the
  -- interrupt, whatever it takes and in whatever order rounds end, leaves no buffer; every record of
  -- the messages is then in exactly one object, counted by any measure, and each object has between
  -- one record and the limit, all of its topic, session, date and hour.
  pub archive_turns_lem :
      (py : Formats) (turns : List ArchiveTurn) (b : Archive)
      → archive_turns py settings new_archive turns ≡ some b
      → (b.buffers ≡ [])
        × ((measure : ArchiveRecord → ℕ)
            → sum_of (in_object measure) b.objects ≡ sum_of measure (records_of py turns))
        × All (IsObject settings some_room) b.objects
  archive_turns_lem py turns b e =
      let (none_left, all_there, sized) =
        archive_turns-Written py new_archive turns b
          (record { distinct = tt; buffered = tt; written = tt }) e in
      (none_left, λ measure. omega (arith, all_there measure), sized)

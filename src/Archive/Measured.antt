-- ===== src/Archive/Measured.antt =====
-- archive_writer.py: what is measured of all records, in the buffers and in the objects.
use robo_services.Prelude.{
  ℕ, ◌+◌, ◌≡◌, refl, true, List, [], ◌∷◌, ◌++◌, arith, length, is_empty, leb, if◌then◌else◌,
  string_eq, pair_eq, Option, none, some, Bool-cases, inl, inr,
}
use robo_services.Prelude.Dict.{Dict, get, get_or, IsDict, total, measure_at, total-set, total-pop}
use robo_services.Prelude.Sort.{sum_of, sum_of-append}
use robo_services.Archive.{
  ArchiveWriterSettings, ArchiveRecord, BufferKey, BufferState, Archive, build_buffer_key,
  flush_buffer, take_record, due_objects, kept_buffers, all_objects,
}

module _ (measure : ArchiveRecord → ℕ) where
  abbrev pub in_object : BufferKey × List ArchiveRecord → ℕ
  in_object o = sum_of measure o.1

  abbrev pub in_buffer : BufferState → ℕ
  in_buffer state = sum_of measure state.records

  -- What all records measure that were taken.
  abbrev pub held : Archive → ℕ
  held a = sum_of in_object a.objects + total in_buffer a.buffers

  sum_of-flush_buffer :
      (key : BufferKey) (state : BufferState)
      → sum_of in_object (flush_buffer key state) ≡ in_buffer state
  unfolding flush_buffer
  sum_of-flush_buffer key state = of state.records refl
    where
      of :
          (rs : List ArchiveRecord)
          → state.records ≡ rs
          → sum_of in_object (if is_empty rs then [] else (key, rs) ∷ []) ≡ sum_of measure rs
      of [] e = refl
      of (r ∷ rs) e = omega arith

  sum_of-empty : (rs : List ArchiveRecord) → is_empty rs ≡ true → sum_of measure rs ≡ 0
  sum_of-empty [] h = refl
  sum_of-empty (r ∷ rs) h = absurd (cc)

  -- The records of a buffer with one more.
  in_buffer-more :
      (a : Archive) (r : ArchiveRecord) (archived_at : ℕ)
      → sum_of measure (
          (get_or a.buffers
            (build_buffer_key r)
            (record { started_at = archived_at; records = [] })).records
          ++ (r ∷ []))
        ≡ measure_at in_buffer (get a.buffers (build_buffer_key r)) + measure r
  unfolding get_or
  in_buffer-more a r archived_at = of (get a.buffers (build_buffer_key r))
    where
      of :
          (o : Option BufferState)
          → sum_of measure (
              (elim o as (λ _. BufferState) [
                | none ↦ record { started_at = archived_at; records = [] }
                | some state ↦ state
              ]).records
              ++ (r ∷ []))
            ≡ measure_at in_buffer o + measure r
      of none = omega arith
      of (some state) = omega (arith, sum_of-append measure state.records (r ∷ []))

  pub held-take_record :
      (settings : ArchiveWriterSettings) (a : Archive) (r : ArchiveRecord) (archived_at : ℕ)
      → IsDict a.buffers
      → held (take_record settings a r archived_at) ≡ held a + measure r
  unfolding take_record
  held-take_record settings a r archived_at h =
      let key = build_buffer_key r in
      let old : BufferState =
        get_or a.buffers key (record { started_at = archived_at; records = [] }) in
      let state : BufferState = record old { records = old.records ++ (r ∷ []) } in
      let more = in_buffer-more a r archived_at in
      elim (Bool-cases (leb settings.max_records_per_file (length state.records))) [
        | inl e ↦
            rw (take_record, e)
              (omega (
                arith,
                more,
                total-pop in_buffer a.buffers key h,
                sum_of-flush_buffer key state,
                sum_of-append in_object a.objects (flush_buffer key state),
              ))
        | inr e ↦ rw (take_record, e) (omega (arith, more, total-set in_buffer a.buffers key state))
      ]

  pub held-due :
      (settings : ArchiveWriterSettings) (now : ℕ) (buffers : Dict BufferKey BufferState)
      → sum_of in_object (due_objects settings now buffers)
          + total in_buffer (kept_buffers settings now buffers)
        ≡ total in_buffer buffers
  unfolding due_objects kept_buffers
  held-due settings now [] = omega arith
  held-due settings now ((key, state) ∷ buffers) =
      let rest = held-due settings now buffers in
      let put = sum_of-flush_buffer key state in
      let both =
        sum_of-append in_object (flush_buffer key state) (due_objects settings now buffers) in
      elim (Bool-cases (is_empty state.records)) [
        | inl e ↦ ground (arith, e, rest, put, both, sum_of-empty state.records e)
        | inr e ↦ ground (arith, e, rest, put, both)
      ]

  pub all_objects-total :
      (buffers : Dict BufferKey BufferState)
      → sum_of in_object (all_objects buffers) ≡ total in_buffer buffers
  unfolding all_objects
  all_objects-total [] = refl
  all_objects-total ((key, state) ∷ buffers) = omega (
    arith,
    sum_of-append in_object (flush_buffer key state) (all_objects buffers),
    sum_of-flush_buffer key state,
    all_objects-total buffers,
  )

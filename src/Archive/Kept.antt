-- ===== src/Archive/Kept.antt =====
-- archive_writer.py: the buffers have different keys and room for a record, and the objects do not
-- exceed the limit; both have records of their key.
use mathlib.Core.Path.{subst}
use robo_services.Prelude.{
  ℕ, ◌≤◌, ◌<◌, ◌≡◌, refl, sym, List, [], ◌∷◌, ◌++◌, arith, length, is_empty, leb, if◌then◌else◌,
  string_eq, pair_eq, Option, none, some, Bool-cases, inl, inr, All, All-append, length-append,
}
use robo_services.Prelude.Dict.{
  Dict, get, get_or, All-set, All-get, All-pop, IsDict, IsDict-set, IsDict-pop,
}
use robo_services.Archive.{
  ArchiveWriterSettings, ArchiveRecord, BufferKey, BufferState, Archive, build_buffer_key,
  flush_buffer, take_record, is_due, due_objects, kept_buffers, all_objects,
}

module _ (settings : ArchiveWriterSettings) (some_room : 0 < settings.max_records_per_file) where
  abbrev pub HaveKey : BufferKey → List ArchiveRecord → Type 0
  HaveKey key rs = All (λ r. build_buffer_key r ≡ key) rs

  -- An object has at least one record and at most the limit, all of its key.
  abbrev pub IsObject : BufferKey × List ArchiveRecord → Type 0
  IsObject o = (0 < length o.1) × (length o.1 ≤ settings.max_records_per_file) × HaveKey o.0 o.1

  abbrev pub IsBuffer : BufferKey × BufferState → Type 0
  IsBuffer e = (length e.1.records < settings.max_records_per_file) × HaveKey e.0 e.1.records

  pub record IsKept (a : Archive) : Type 0 where
    pub distinct : IsDict a.buffers
    pub buffered : All IsBuffer a.buffers
    pub written : All IsObject a.objects

  flush_buffer-IsObject :
      (key : BufferKey) (state : BufferState)
      → length state.records ≤ settings.max_records_per_file
      → HaveKey key state.records
      → All IsObject (flush_buffer key state)
  unfolding flush_buffer
  flush_buffer-IsObject key state few mine = of state.records few mine
    where
      of :
          (rs : List ArchiveRecord)
          → length rs ≤ settings.max_records_per_file
          → HaveKey key rs
          → All IsObject (if is_empty rs then [] else (key, rs) ∷ [])
      of [] few mine = tt
      of (r ∷ rs) few mine = ((omega arith, few, mine), tt)

  get_or-IsBuffer :
      (buffers : Dict BufferKey BufferState) (key : BufferKey) (now : ℕ)
      → All IsBuffer buffers
      → IsBuffer (key, get_or buffers key (record { started_at = now; records = [] }))
  unfolding get_or
  get_or-IsBuffer buffers key now h = of (get buffers key) refl
    where
      of :
          (o : Option BufferState)
          → get buffers key ≡ o
          → IsBuffer (
            key,
            elim o as (λ _. BufferState) [
              | none ↦ record { started_at = now; records = [] }
              | some state ↦ state
            ],
          )
      of none e = (some_room, tt)
      of (some state) e = All-get IsBuffer buffers key state e h

  pub take_record-IsKept :
      (a : Archive) (r : ArchiveRecord) (archived_at : ℕ)
      → IsKept a
      → IsKept (take_record settings a r archived_at)
  unfolding take_record
  take_record-IsKept a r archived_at h =
      let key = build_buffer_key r in
      let old : BufferState =
        get_or a.buffers key (record { started_at = archived_at; records = [] }) in
      let state : BufferState = record old { records = old.records ++ (r ∷ []) } in
      let was = get_or-IsBuffer a.buffers key archived_at h.buffered in
      let more = length-append old.records (r ∷ []) in
      let mine = All-append (λ x. build_buffer_key x ≡ key) old.records (r ∷ []) was.1 (refl, tt) in
      elim (Bool-cases (leb settings.max_records_per_file (length state.records))) [
        | inl e ↦
            rw (take_record, e)
              (record {
                distinct = IsDict-pop a.buffers key h.distinct;
                buffered = All-pop IsBuffer a.buffers key h.buffered;
                written =
                    All-append IsObject a.objects (flush_buffer key state) h.written
                      (flush_buffer-IsObject key state (omega (arith, more, was.0)) mine);
              })
        | inr e ↦
            rw (take_record, e)
              (record {
                distinct = IsDict-set a.buffers key state h.distinct;
                buffered =
                    All-set IsBuffer a.buffers key state
                      (λ j same.
                        subst (λ k. IsBuffer (k, state)) (sym same) (ground (arith, e), mine))
                      h.buffered;
                written = h.written;
              })
      ]

  kept_buffers-absent :
      (now : ℕ) (buffers : Dict BufferKey BufferState) (key : BufferKey)
      → get buffers key ≡ none
      → get (kept_buffers settings now buffers) key ≡ none
  unfolding kept_buffers get
  kept_buffers-absent now [] key h = refl
  kept_buffers-absent now ((j, state) ∷ buffers) key h =
      ground (arith, h, kept_buffers-absent now buffers key)

  pub due_objects-IsObject :
      (now : ℕ) (buffers : Dict BufferKey BufferState)
      → All IsBuffer buffers
      → All IsObject (due_objects settings now buffers)
  unfolding due_objects
  due_objects-IsObject now [] h = tt
  due_objects-IsObject now ((key, state) ∷ buffers) h =
      let rest = due_objects-IsObject now buffers h.1 in
      elim (Bool-cases (is_due settings now state)) [
        | inl e ↦ rw e (
            All-append IsObject (flush_buffer key state) (due_objects settings now buffers)
              (flush_buffer-IsObject key state (omega (arith, h.0.0)) h.0.1) rest)
        | inr e ↦ rw e rest
      ]

  pub kept_buffers-IsDict :
      (now : ℕ) (buffers : Dict BufferKey BufferState)
      → IsDict buffers
      → IsDict (kept_buffers settings now buffers)
  unfolding kept_buffers
  kept_buffers-IsDict now [] h = tt
  kept_buffers-IsDict now ((key, state) ∷ buffers) h =
      let rest = kept_buffers-IsDict now buffers h.1 in
      elim (Bool-cases (is_empty state.records)) [
        | inl e ↦ rw e rest
        | inr e ↦ elim (Bool-cases (is_due settings now state)) [
          | inl d ↦ rw (e, d) rest
          | inr d ↦ rw (e, d) (kept_buffers-absent now buffers key h.0, rest)
        ]
      ]

  pub kept_buffers-IsBuffer :
      (now : ℕ) (buffers : Dict BufferKey BufferState)
      → All IsBuffer buffers
      → All IsBuffer (kept_buffers settings now buffers)
  unfolding kept_buffers
  kept_buffers-IsBuffer now [] h = tt
  kept_buffers-IsBuffer now ((key, state) ∷ buffers) h =
      let rest = kept_buffers-IsBuffer now buffers h.1 in
      elim (Bool-cases (is_empty state.records)) [
        | inl e ↦ rw e rest
        | inr e ↦ elim (Bool-cases (is_due settings now state)) [
          | inl d ↦ rw (e, d) rest
          | inr d ↦ rw (e, d) (h.0, rest)
        ]
      ]

  pub all_objects-IsObject :
      (buffers : Dict BufferKey BufferState)
      → All IsBuffer buffers
      → All IsObject (all_objects buffers)
  unfolding all_objects
  all_objects-IsObject [] h = tt
  all_objects-IsObject ((key, state) ∷ buffers) h =
      All-append IsObject (flush_buffer key state) (all_objects buffers)
        (flush_buffer-IsObject key state (omega (arith, h.0.0)) h.0.1)
        (all_objects-IsObject buffers h.1)

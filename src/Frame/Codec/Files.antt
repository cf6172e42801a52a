-- ===== src/Frame/Codec/Files.antt =====
-- Files of 17-byte records: what `write_frame_file` writes, both readers read back.
use robo_services.Prelude.{
  ℕ, zero, suc, ◌*◌, ◌/◌, ◌%◌, ◌^◌, ◌<◌, ◌≡◌, refl, sym, ap, ◌∙◌, List, [], ◌∷◌, ◌++◌, arith,
  length, take, drop, length-append, take-append, drop-append, All, nat_eq, ok, none,
}
use robo_services.Frame.{Bytes, RawFrame, IsValid}
use robo_services.Frame.Codec.{
  parse_frame, records, iter_frame_bytes, read_records, iter_frame_file, write_frame_file,
  yield_then,
}
use robo_services.Frame.Codec.RoundTrip.{parse_frame-serialize_frame}

-- A frame that the packer takes.
pub record Packs (f : RawFrame) : Type 0 where
  pub valid : IsValid f
  pub early : f.timestamp_ms < 2 ^ 32

module _ (b rest : Bytes) (size : length b ≡ 17) where
  take-record : take 17 (b ++ rest) ≡ b
  take-record = ap (λ n. take n (b ++ rest)) (sym size) ∙ take-append b rest

  drop-record : drop 17 (b ++ rest) ≡ rest
  drop-record = ap (λ n. drop n (b ++ rest)) (sym size) ∙ drop-append b rest

  -- One record more at the front is one frame more.
  records-suc :
      (n : ℕ) {f : RawFrame}
      → parse_frame b ≡ ok f
      → records (suc n) (b ++ rest) ≡ yield_then (ok f) (records n rest)
  unfolding records
  records-suc n p = simp (take-record, drop-record, p)

  read_records-suc :
      (fuel : ℕ) {f : RawFrame}
      → parse_frame b ≡ ok f
      → read_records (suc fuel) (b ++ rest) ≡ yield_then (ok f) (read_records fuel rest)
  unfolding read_records
  read_records-suc fuel p = simp (take-record, drop-record, p, size)

-- What has been written: some number of records, which both loops read back.
record Written (fs : List RawFrame) (b : Bytes) : Type 0 where
  written : write_frame_file fs ≡ ok b
  size : length b ≡ 17 * length fs
  by_offset : records (length fs) b ≡ (fs, none)
  by_chunk : (fuel : ℕ) → length fs < fuel → read_records fuel b ≡ (fs, none)

read_records-empty : (fuel : ℕ) → 0 < fuel → read_records fuel [] ≡ ([], none)
unfolding read_records
read_records-empty zero h = absurd (omega arith)
read_records-empty (suc fuel) h = refl

module _ (f : RawFrame) (fs : List RawFrame) (b rest : Bytes) (size : length b ≡ 17)
    (parsed : parse_frame b ≡ ok f) where
  read_records-cons :
      (fuel : ℕ)
      → ((k : ℕ) → length fs < k → read_records k rest ≡ (fs, none))
      → suc (length fs) < fuel
      → read_records fuel (b ++ rest) ≡ (f ∷ fs, none)
  read_records-cons zero ih lt = absurd (omega arith)
  read_records-cons (suc k) ih lt =
      read_records-suc b rest size k parsed ∙ ap (yield_then (ok f)) (ih k (omega arith))

  records-cons :
      records (length fs) rest ≡ (fs, none) → records (suc (length fs)) (b ++ rest) ≡ (f ∷ fs, none)
  records-cons ih = records-suc b rest size (length fs) parsed ∙ ap (yield_then (ok f)) ih

write_frame_file-Written : (fs : List RawFrame) → All Packs fs → (b : Bytes) × Written fs b
unfolding write_frame_file records
write_frame_file-Written [] h =
    ([], record { written = refl; size = refl; by_offset = refl; by_chunk = read_records-empty })
write_frame_file-Written (f ∷ fs) h =
    let (b, packed, size, parsed) = parse_frame-serialize_frame f h.0.valid h.0.early in
    let (rest, w) = write_frame_file-Written fs h.1 in
    (
      b ++ rest,
      record {
        written = rw (packed, w.written);
        size = omega (arith, length-append b rest, size, w.size);
        by_offset = records-cons f fs b rest size parsed w.by_offset;
        by_chunk = λ fuel lt. read_records-cons f fs b rest size parsed fuel w.by_chunk lt;
      },
    )

-- Any valid frames with timestamps below 2 ^ 32 are written to a file of 17 bytes each, and both
-- readers give back those frames, in order, and raise nothing.
pub iter_frame_file-write_frame_file :
    (fs : List RawFrame)
    → All Packs fs
    → (b : Bytes) × (write_frame_file fs ≡ ok b)
      × (length b ≡ 17 * length fs)
      × (iter_frame_file b ≡ (fs, none))
      × (iter_frame_bytes b ≡ (fs, none))
unfolding iter_frame_file iter_frame_bytes
iter_frame_file-write_frame_file fs h =
    let (b, w) = write_frame_file-Written fs h in
    let count : length b / 17 ≡ length fs = omega (arith, w.size) in
    let exact : length b % 17 ≡ 0 = omega (arith, w.size) in
    (
      b,
      w.written,
      w.size,
      w.by_chunk (suc (length b)) (omega (arith, w.size)),
      rw (exact, count) w.by_offset,
    )

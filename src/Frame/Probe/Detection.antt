-- ===== src/Frame/Probe/Detection.antt =====
-- A probe frame carries its context, and the detector finds exactly the probes.
use robo_services.Prelude.{
  ℕ, ◌≡◌, ◌==◌, nat_eq, if◌then◌else◌, refl, Bool, true, false, [], ◌∷◌, arith, length, ok, none,
  some, Bool-cases, inl, inr, ◌⊎◌,
}
use robo_services.Frame.{Bytes, RawFrame, IsValid, captured_at}
use robo_services.Frame.Probe.{ProbeContext, probe_can_id, probe_magic, detect_probe, read_probe}

probe_frame : ℕ → ℕ → ℕ → ℕ → ℕ → ℕ → Bool → RawFrame
probe_frame ts a b c d flow suppress = record {
  timestamp_ms = ts;
  can_id = probe_can_id;
  dlc = 8;
  payload = probe_magic ∷ a ∷ b ∷ c ∷ d ∷ flow ∷ (if suppress then 1 else 0) ∷ 0 ∷ [];
  is_extended = false;
}

abbrev pub starts_with_magic : Bytes → Bool
starts_with_magic [] = false
starts_with_magic (b ∷ bs) = b == probe_magic

-- The probe id, eight data bytes and the magic byte first.
abbrev pub IsProbe : RawFrame → Type 0
IsProbe f = (f.can_id ≡ probe_can_id) × (f.dlc ≡ 8) × (starts_with_magic f.payload ≡ true)

-- What `read_probe` finds in data of eight bytes.
read_probe_exact :
    (f : RawFrame) (bs : Bytes)
    → length bs ≡ 8
    → (t : ℕ) → captured_at f ≡ ok t
    → ((read_probe f bs ≡ ok none) × (starts_with_magic bs ≡ false))
      ⊎ ((p : ProbeContext) × (read_probe f bs ≡ ok (some p)) × (starts_with_magic bs ≡ true))
unfolding read_probe
read_probe_exact f (m ∷ a ∷ b ∷ c ∷ d ∷ flow ∷ flags ∷ rest) h t dated =
    elim (Bool-cases (m == probe_magic)) [
      | inl e ↦ rw (e, dated) (inr (_, refl, refl))
      | inr e ↦ rw e (inl (refl, refl))
    ]
read_probe_exact f [] h t dated = absurd (omega arith)
read_probe_exact f _ h t dated = absurd (omega arith)

pub detect_probe_exact :
    (f : RawFrame)
    → IsValid f
    → (t : ℕ) → captured_at f ≡ ok t
    → ((detect_probe f ≡ ok none) × ¬ IsProbe f)
      ⊎ ((p : ProbeContext) × (detect_probe f ≡ ok (some p)) × IsProbe f)
unfolding detect_probe
detect_probe_exact f v t dated = elim (Bool-cases (f.can_id == probe_can_id)) [
  | inl e ↦ elim (Bool-cases (f.dlc == 8)) [
    | inl d ↦ elim (read_probe_exact f f.payload (ground arith) t dated) [
      | inl (r, m) ↦ inl (rw (e, d) r, λ q. cc (q.2))
      | inr (p, r, m) ↦ inr (p, rw (e, d) r, (ground arith, ground arith, m))
    ]
    | inr d ↦ inl (rw (e, d) refl, λ q. ground arith)
  ]
  | inr e ↦ inl (rw e refl, λ q. ground arith)
]

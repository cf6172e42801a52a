-- ===== src/VehicleState/Loop/Written.antt =====
-- main.py, `write_ready`: no frame leaves the table before its rows are in the database.
use mathlib.Core.Path.{subst, ap₂}
use robo_services.Prelude.{
  ℕ, ◌≡◌, ◌⊎◌, refl, sym, ap, ◌∙◌, true, ◌&&◌, List, [], ◌∷◌, ◌==◌, nat_eq, nat_beq_iff, string_eq,
  pair_eq, pair_beq_iff, some, Bool-cases, inl, inr, All, All-imp,
}
use robo_services.Prelude.Dict.{Dict, get_or, set}
use robo_services.VehicleState.Frames.{Key, OpenFrame, FrameTable, find_frame}
use robo_services.VehicleState.Frames.Closing.{empty, status, close}
use robo_services.VehicleState.Frames.Find.{find_frame-close, get_or-set}
use robo_services.VehicleState.Frames.Labels.{AllFrames, IsLabelled, AllFrames-close}
use robo_services.VehicleState.Rows.{Carry}
use robo_services.VehicleState.Store.{StoredRow, RowTable, upsert_rows, is_written}
use robo_services.VehicleState.Loop.{Service, WrittenState, new_session}
use robo_services.VehicleState.Loop.Anchored.{
  HasRow, IsAnchored, AreRowsFrom, HasRow-upsert_rows, upsert_rows-IsAnchored,
}

module _ {F : Type 0} where
  -- A frame is held under its session and its tag.
  abbrev pub HoldsIn : ℕ → OpenFrame F → Dict ℕ (OpenFrame F) → Type 0
  HoldsIn base f [] = ⊥
  HoldsIn base f ((b, g) ∷ fs) = ((b ≡ base) × (g ≡ f)) ⊎ HoldsIn base f fs

  abbrev pub Holds : Dict Key (Dict ℕ (OpenFrame F)) → Key → ℕ → OpenFrame F → Type 0
  Holds [] key base f = ⊥
  Holds ((k, fs) ∷ d) key base f = ((k ≡ key) × HoldsIn base f fs) ⊎ Holds d key base f

  All-HoldsIn : (fs : Dict ℕ (OpenFrame F)) → All (λ (x : ℕ × OpenFrame F). HoldsIn x.0 x.1 fs) fs
  All-HoldsIn [] = tt
  All-HoldsIn (x ∷ fs) =
      (inl (refl, refl), All-imp (λ (y : ℕ × OpenFrame F) h. inr h) fs (All-HoldsIn fs))

  pub AllFrames-Holds : (d : Dict Key (Dict ℕ (OpenFrame F))) → AllFrames (Holds d) d
  AllFrames-Holds [] = tt
  AllFrames-Holds ((key, fs) ∷ d) = (
    All-imp (λ (y : ℕ × OpenFrame F) h. inl (refl, h)) fs (All-HoldsIn fs),
    All-imp (λ (e : Key × Dict ℕ (OpenFrame F)) h. All-imp (λ (y : ℕ × OpenFrame F) k. inr k) e.1 h)
        d (AllFrames-Holds d),
  )

  -- Between two ticks: a frame has the labels of its place; what a session counts as written has a row at its tag, and so has every frame
  -- with a row.
  pub record IsSound (s : Service F) : Type 0 where
    pub labelled : AllFrames IsLabelled s.table.frames
    pub anchored : IsAnchored s.rows
    pub stored :
        (key : Key) (base : ℕ)
        → is_written base (get_or s.sessions key new_session).written ≡ true
        → HasRow s.rows key base

  -- What a session counts as written after a frame of a session was written.
  written-set :
      (d : Dict Key (WrittenState F)) (key k : Key) (base b : ℕ) (carry : Carry F)
      → is_written b
          (get_or
            (set d key
              (record { written = base ∷ (get_or d key new_session).written; carry = carry }))
            k
            new_session).written
        ≡ true
      → ◌≡◌ {A = Key × ℕ} (key, base) (k, b)
        ⊎ (is_written b (get_or d k new_session).written ≡ true)
  written-set d key k base b carry h =
      let state : WrittenState F = record {
        written = base ∷ (get_or d key new_session).written;
        carry = carry;
      } in
      let at =
        sym (
          ap (λ (x : WrittenState F). is_written b x.written)
            (get_or-set d key k state new_session))
        ∙ h in
      elim (Bool-cases (key == k)) [
        | inr e ↦ inr (rw e at at)
        | inl e ↦
            let same : key ≡ k = (pair_beq_iff key k).0 e in
            let here : is_written b (base ∷ (get_or d key new_session).written) ≡ true =
              rw e at at in
            elim (Bool-cases (base == b)) [
              | inl f ↦ inl (ap₂ (λ j c. (j, c)) same ((nat_beq_iff base b).0 f))
              | inr f ↦ inr (
                  subst (λ (j : Key). is_written b (get_or d j new_session).written ≡ true) same
                    (rw f at here))
            ]
      ]

  module _ (t₀ : FrameTable F) (now : ℕ) where
    -- The table held the frame at the start, with nothing in it to write.
    abbrev pub WasEmpty : Key → ℕ → Type 0
    WasEmpty key base =
        (f : OpenFrame F) × Holds t₀.frames key base f × (status t₀ key base f now ≡ some empty)

    -- Each frame of the start is still open as it was, or has a row at its tag, or was empty.
    abbrev pub Accounts : Service F → Type 0
    Accounts s =
        (key : Key) (base : ℕ) (f : OpenFrame F)
        → find_frame t₀ key base ≡ some f
        → (find_frame s.table key base ≡ some f) ⊎ (HasRow s.rows key base ⊎ WasEmpty key base)

    -- Closing a frame that has a row, or was empty.
    close-Accounts :
        (s s' : Service F) (key : Key) (base : ℕ)
        → s'.table ≡ close s.table key base
        → ((k : Key) (b : ℕ) → HasRow s.rows k b → HasRow s'.rows k b)
        → HasRow s'.rows key base ⊎ WasEmpty key base
        → Accounts s
        → Accounts s'
    close-Accounts s s' key base same more done h k b f found = elim (h k b f found) [
      | inr (inl row) ↦ inr (inl (more k b row))
      | inr (inr was) ↦ inr (inr was)
      | inl still ↦
          let at =
            ap (λ (t : FrameTable F). find_frame t k b) same
            ∙ find_frame-close s.table key base k b in
          elim (Bool-cases ((key == k) && (base == b))) [
            | inl e ↦ inr (
                subst (λ (p : Key × ℕ). HasRow s'.rows p.0 p.1 ⊎ WasEmpty p.0 p.1)
                  ((pair_beq_iff (key, base) (k, b)).0 e) done)
            | inr e ↦ inl (at ∙ rw e still)
          ]
    ]

    -- What a step of the tick keeps.
    abbrev pub Keeps : Service F → Type 0
    Keeps s = IsSound s × Accounts s

    -- A step that closes a frame and writes nothing.
    pub close-Keeps :
        (s s' : Service F) (key : Key) (base : ℕ)
        → s'.table ≡ close s.table key base
        → s'.rows ≡ s.rows
        → s'.sessions ≡ s.sessions
        → HasRow s.rows key base ⊎ WasEmpty key base
        → Keeps s
        → Keeps s'
    close-Keeps s s' key base same rows sessions done h = (
      record {
        labelled =
            subst (λ (t : FrameTable F). AllFrames IsLabelled t.frames) (sym same)
              (AllFrames-close IsLabelled s.table key base h.0.labelled);
        anchored = subst IsAnchored (sym rows) h.0.anchored;
        stored = λ k b w.
            subst (λ (db : RowTable F). HasRow db k b) (sym rows)
              (h.0.stored k b (
                subst
                  (λ (d : Dict Key (WrittenState F)).
                    is_written b (get_or d k new_session).written ≡ true)
                  sessions w));
      },
      close-Accounts s s' key base same
          (λ k b row. subst (λ (db : RowTable F). HasRow db k b) (sym rows) row)
          (elim done [
            | inl row ↦ inl (subst (λ (db : RowTable F). HasRow db key base) (sym rows) row)
            | inr was ↦ inr was
          ])
          h.1,
    )

    -- A step that writes the rows of a frame and closes it.
    pub upsert_rows-Keeps :
        (s s' : Service F) (key : Key) (base : ℕ) (rs : List (StoredRow F)) (carry : Carry F)
        → AreRowsFrom key base rs
        → s'.table ≡ close s.table key base
        → s'.rows ≡ upsert_rows rs s.rows
        → s'.sessions
          ≡ set s.sessions key (record {
            written = base ∷ (get_or s.sessions key new_session).written;
            carry = carry;
          })
        → Keeps s
        → Keeps s'
    upsert_rows-Keeps s s' key base rs carry made same rows sessions h =
        let (anchored, there) = upsert_rows-IsAnchored rs s.rows key base made h.0.anchored in
        (
          record {
            labelled =
                subst (λ (t : FrameTable F). AllFrames IsLabelled t.frames) (sym same)
                  (AllFrames-close IsLabelled s.table key base h.0.labelled);
            anchored = subst IsAnchored (sym rows) anchored;
            stored = λ k b w.
                subst (λ (db : RowTable F). HasRow db k b) (sym rows)
                  (elim (written-set s.sessions key k base b carry (
                    subst
                      (λ (d : Dict Key (WrittenState F)).
                        is_written b (get_or d k new_session).written ≡ true)
                      sessions w)) [
                        | inl e ↦
                            subst (λ (p : Key × ℕ). HasRow (upsert_rows rs s.rows) p.0 p.1) e there
                        | inr e ↦ HasRow-upsert_rows rs s.rows k b (h.0.stored k b e)
                      ]);
          },
          close-Accounts s s' key base same
              (λ k b row.
                subst (λ (db : RowTable F). HasRow db k b) (sym rows)
                  (HasRow-upsert_rows rs s.rows k b row))
              (inl (subst (λ (db : RowTable F). HasRow db key base) (sym rows) there)) h.1,
        )

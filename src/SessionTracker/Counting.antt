-- ===== src/SessionTracker/Counting.antt =====
-- How many frames a session has received.
use robo_services.Prelude.{
  ◌≡◌, refl, ap, sym, ◌∙◌, List, [], ◌∷◌, ◌+◌, arith, Bool, true, false, ◌||◌, ℕ, Option, none,
  some, Option-cases, inl, inr, ok, err, nat_eq, string_eq, pair_eq, if◌then◌else◌, ◌==◌, any,
  pair_beq_iff,
}
use robo_services.Prelude.Dict.{Dict, get, set, contains, get-set}
use robo_services.SessionTracker.Redelivery.{counted_db, apply_frame_found, apply_frame_new}
use robo_services.SessionTracker.{
  SessionKey, Session, SessionFrame, Db, Record, MessageType, or_blank, upsert, start_columns,
  end_columns, touch_columns, count_columns, frame_row, apply_frame, apply_kind, apply, deliver,
  session_start, session_end, frame, other, both,
}

abbrev FrameKey : Type 0
FrameKey = SessionKey × ℕ

-- The session and the base timestamp of a frame receipt.
abbrev pub frame_key_of : Option SessionKey → MessageType → Option ℕ → Option FrameKey
frame_key_of (some key) frame (some base) = some (key, base)
frame_key_of _ _ _ = none

abbrev pub frame_key : Record → Option FrameKey
frame_key r =
    frame_key_of (both r.source_session r.device_id) r.message_type r.payload.base_timestamp_us

abbrev pub seen_in : List FrameKey → FrameKey → Bool
seen_in seen k = any (λ j. j == k) seen

-- How many different frame receipts of a session there are among the records, but for those seen.
abbrev pub count_new : SessionKey → List FrameKey → Option FrameKey → (List FrameKey → ℕ) → ℕ
count_new key seen none rest = rest seen
count_new key seen (some k) rest =
    let others = rest (k ∷ seen) in
    if seen_in seen k then rest seen else (if k.0 == key then 1 else 0) + others

abbrev pub different_frames : SessionKey → List Record → List FrameKey → ℕ
different_frames key [] seen = 0
different_frames key (r ∷ rs) seen =
    count_new key seen (frame_key r) (λ s. different_frames key rs s)

abbrev pub frames_received : Db → SessionKey → ℕ
frames_received db key = (or_blank (get db.sessions key)).frames_received

-- A look-up after a `set`, by whether the keys are equal.
frames_of_either :
    (b : Bool) (n : ℕ) (v : Session) (o : Option Session) (m : ℕ)
    → (b ≡ true → v.frames_received ≡ n + m)
    → (or_blank o).frames_received ≡ m
    → (or_blank (if b then some v else o)).frames_received ≡ (if b then n else 0) + m
frames_of_either true n v o m h e = h refl
frames_of_either false n v o m h e = omega (arith, e)

upsert-received :
    (db : Db) (k key : SessionKey) (f : Session → Session) (n : ℕ)
    → ((s : Session) → (f s).frames_received ≡ n + s.frames_received)
    → frames_received (upsert db k f) key ≡ (if k == key then n else 0) + frames_received db key
unfolding upsert
upsert-received db k key f n grows =
    let v = f (or_blank (get db.sessions k)) in
    ap (λ (o : Option Session). (or_blank o).frames_received) (get-set db.sessions k key v)
    ∙ frames_of_either (k == key) n v (get db.sessions key) (frames_received db key)
        (λ e.
          grows (or_blank (get db.sessions k))
          ∙ ap (λ (j : SessionKey). n + frames_received db j) ((pair_beq_iff k key).0 e))
        refl

upsert-received_same :
    (db : Db) (k key : SessionKey) (f : Session → Session)
    → ((s : Session) → (f s).frames_received ≡ s.frames_received)
    → frames_received (upsert db k f) key ≡ frames_received db key
upsert-received_same db k key f same =
    ground (arith, upsert-received db k key f 0 (λ s. omega (arith, same s)))

add_shuffle : (a b c : ℕ) → (a + b) + c ≡ b + (a + c)
add_shuffle a b c = omega arith

-- What a step has done to the count of a session and to the frames.
record Stepped (db db' : Db) (k : Option FrameKey) : Type 0 where
  counts :
      (key : SessionKey) (seen : List FrameKey) (rest : List FrameKey → ℕ)
      → ((j : FrameKey) → contains db.session_frames j ≡ seen_in seen j)
      → (seen' : List FrameKey) × (((j : FrameKey)
            → contains db'.session_frames j ≡ seen_in seen' j)
          × (count_new key seen k rest + frames_received db key
              ≡ rest seen' + frames_received db' key))

contains-get :
    (d : Dict FrameKey SessionFrame) (k : FrameKey) (o : Option SessionFrame)
    → get d k ≡ o
    → contains d k ≡ elim o [ none ↦ false | some row ↦ true ]
unfolding contains
contains-get d k o h = ap (λ (x : Option SessionFrame). elim x [ none ↦ false | some row ↦ true ]) h

contains_either :
    (b : Bool) (row : SessionFrame) (o : Option SessionFrame)
    → elim (if b then some row else o) [ none ↦ false | some _ ↦ true ]
      ≡ (b || elim o [ none ↦ false | some _ ↦ true ])
contains_either true row o = refl
contains_either false row o = refl

contains-set :
    (d : Dict FrameKey SessionFrame) (k j : FrameKey) (row : SessionFrame)
    → contains (set d k row) j ≡ (k == j || contains d j)
unfolding contains
contains-set d k j row =
    contains-get (set d k row) j (if k == j then some row else get d j) (get-set d k j row)
    ∙ contains_either (k == j) row (get d j)

module _ (db : Db) (k : SessionKey) (base : ℕ) (r : Record) (key : SessionKey)
    (seen : List FrameKey) (rest : List FrameKey → ℕ) where
  count_new_old :
      seen_in seen (k, base) ≡ true → count_new key seen (some (k, base)) rest ≡ rest seen
  count_new_old h =
      ap
        (λ (b : Bool).
          if b then rest seen else (if k == key then 1 else 0) + rest ((k, base) ∷ seen))
        h

  count_new_first :
      seen_in seen (k, base) ≡ false
      → count_new key seen (some (k, base)) rest
        ≡ (if k == key then 1 else 0) + rest ((k, base) ∷ seen)
  count_new_first h =
      ap
        (λ (b : Bool).
          if b then rest seen else (if k == key then 1 else 0) + rest ((k, base) ∷ seen))
        h

counted_db-received :
    (db : Db) (k key : SessionKey) (base : ℕ) (r : Record)
    → frames_received (counted_db db k base r) key
      ≡ (if k == key then 1 else 0) + frames_received db key
unfolding counted_db touch_columns count_columns
counted_db-received db k key base r =
    let x = record db { session_frames = set db.session_frames (k, base) (frame_row r) } in
    upsert-received (upsert x k (touch_columns r)) k key (count_columns r) 1 (λ s. omega arith)
    ∙ ap (λ (n : ℕ). (if k == key then 1 else 0) + n)
        (upsert-received_same x k key (touch_columns r) (λ s. refl))

counted_db-contains :
    (db : Db) (k : SessionKey) (base : ℕ) (r : Record) (j : FrameKey)
    → contains (counted_db db k base r).session_frames j
      ≡ ((k, base) == j || contains db.session_frames j)
unfolding counted_db upsert
counted_db-contains db k base r j = contains-set db.session_frames (k, base) j (frame_row r)

touched-Stepped :
    (db : Db) (k : SessionKey) (base : ℕ) (r : Record) (row : SessionFrame)
    → get db.session_frames (k, base) ≡ some row
    → Stepped db (upsert db k (touch_columns r)) (some (k, base))
unfolding upsert touch_columns
touched-Stepped db k base r row h = record {
  counts = λ key seen rest same.
      let old =
        count_new_old db k base r key seen rest
          (sym (same (k, base)) ∙ contains-get db.session_frames (k, base) (some row) h) in
      let still = upsert-received_same db k key (touch_columns r) (λ s. refl) in
      (
        seen,
        (
          same,
          ap (λ (n : ℕ). n + frames_received db key) old
              ∙ ap (λ (n : ℕ). rest seen + n) (sym still),
        ),
      );
}

counted-Stepped :
    (db : Db) (k : SessionKey) (base : ℕ) (r : Record)
    → get db.session_frames (k, base) ≡ none
    → Stepped db (counted_db db k base r) (some (k, base))
counted-Stepped db k base r h = record {
  counts = λ key seen rest same.
      let first =
        count_new_first db k base r key seen rest
          (sym (same (k, base)) ∙ contains-get db.session_frames (k, base) none h) in
      (
        (k, base) ∷ seen,
        (
          λ j. counted_db-contains db k base r j ∙ ap (λ (b : Bool). (k, base) == j || b) (same j),
          ap (λ (n : ℕ). n + frames_received db key) first
              ∙ (add_shuffle (if k == key then 1 else 0) (rest ((k, base) ∷ seen))
                    (frames_received db key)
                  ∙ ap (λ (n : ℕ). rest ((k, base) ∷ seen) + n)
                      (sym (counted_db-received db k key base r))),
        ),
      );
}

apply_frame-Stepped :
    (db : Db) (k : SessionKey) (base : ℕ) (r : Record)
    → Stepped db (apply_frame db k base r).0 (some (k, base))
apply_frame-Stepped db k base r = elim (Option-cases (get db.session_frames (k, base))) [
  | inr (row, h) ↦ rw (apply_frame_found db k base r row h) (touched-Stepped db k base r row h)
  | inl h ↦ rw (apply_frame_new db k base r h) (counted-Stepped db k base r h)
]

apply_kind-Stepped :
    (tracks : ℕ → Bool) (db : Db) (k : Option SessionKey) (kind : MessageType) (base : Option ℕ)
    (r : Record)
    → Stepped db
        (elim (apply_kind tracks db k kind base r) [ err e ↦ db | ok (db', o) ↦ db' ])
        (frame_key_of k kind base)
unfolding apply_kind start_columns end_columns upsert
apply_kind-Stepped tracks db none kind base r = record {
  counts = λ key seen rest same. (seen, (same, refl));
}
apply_kind-Stepped tracks db (some k) session_start base r = record {
  counts = λ key seen rest same. (
    seen,
    (
      same,
      ap (λ (n : ℕ). rest seen + n)
          (sym (upsert-received_same db k key (start_columns tracks r) (λ s. refl))),
    ),
  );
}
apply_kind-Stepped tracks db (some k) session_end base r = record {
  counts = λ key seen rest same. (
    seen,
    (
      same,
      ap (λ (n : ℕ). rest seen + n)
          (sym (upsert-received_same db k key (end_columns r) (λ s. refl))),
    ),
  );
}
apply_kind-Stepped tracks db (some k) frame none r = record {
  counts = λ key seen rest same. (seen, (same, refl));
}
apply_kind-Stepped tracks db (some k) frame (some base) r = apply_frame-Stepped db k base r
apply_kind-Stepped tracks db (some k) other base r = record {
  counts = λ key seen rest same. (seen, (same, refl));
}

count_run :
    (tracks : ℕ → Bool) (rs : List Record) (db : Db) (key : SessionKey) (seen : List FrameKey)
    → ((j : FrameKey) → contains db.session_frames j ≡ seen_in seen j)
    → different_frames key rs seen + frames_received db key
      ≡ frames_received (deliver tracks db rs) key
unfolding deliver apply
count_run tracks [] db key seen same = omega arith
count_run tracks (r ∷ rs) db key seen same =
    let step =
      apply_kind-Stepped tracks db (both r.source_session r.device_id) r.message_type
        r.payload.base_timestamp_us r in
    let (seen', (same', grown)) = step.counts key seen (λ s. different_frames key rs s) same in
    grown ∙ count_run tracks rs _ key seen' same'

abbrev pub empty_db : Db
empty_db = record { sessions = []; session_frames = [] }

-- After any records on empty tables, each session's `frames_received` is the number of different
-- frame receipts of that session among them, however often each was delivered and in what order.
pub deliver-frames_received :
    (tracks : ℕ → Bool) (rs : List Record) (key : SessionKey)
    → frames_received (deliver tracks empty_db rs) key ≡ different_frames key rs []
unfolding contains get
deliver-frames_received tracks rs key =
    let h = count_run tracks rs empty_db key [] (λ j. refl) in omega (arith, h)

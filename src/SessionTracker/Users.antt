-- ===== src/SessionTracker/Users.antt =====
-- The user of a session.
use robo_services.Prelude.{
  ◌≡◌, refl, ap, ◌∙◌, List, [], ◌∷◌, Bool, true, false, ℕ, String, Option, none, some, Option-cases,
  inl, inr, ok, err, string_eq, nat_eq, pair_eq, pair_beq_iff, if◌then◌else◌, ◌==◌,
}
use robo_services.Prelude.Dict.{get, set, get-set}
use robo_services.SessionTracker.{
  SessionKey, Session, Db, Record, MessageType, coalesce, or_blank, upsert, start_columns,
  end_columns, touch_columns, count_columns, frame_row, apply_frame, apply_kind, apply, deliver,
  session_start, session_end, frame, other, both,
}
use robo_services.SessionTracker.Redelivery.{counted_db, apply_frame_found, apply_frame_new}

abbrev pub known : Option String → Bool
known none = false
known (some u) = true

-- The session is there, with a user.
abbrev pub user_known : Db → SessionKey → Bool
user_known db key = known (or_blank (get db.sessions key)).user_sub

known-coalesce : (a b : Option String) → known b ≡ true → known (coalesce a b) ≡ true
known-coalesce none b h = h
known-coalesce (some u) b h = refl

known_either :
    (b : Bool) (v : Session) (o : Option Session)
    → (b ≡ true → known v.user_sub ≡ true)
    → known (or_blank o).user_sub ≡ true
    → known (or_blank (if b then some v else o)).user_sub ≡ true
known_either true v o h e = h refl
known_either false v o h e = e

-- A change that keeps a known user.
upsert-user_known :
    (db : Db) (k key : SessionKey) (f : Session → Session)
    → ((s : Session) → known s.user_sub ≡ true → known (f s).user_sub ≡ true)
    → user_known db key ≡ true
    → user_known (upsert db k f) key ≡ true
unfolding upsert
upsert-user_known db k key f keeps h =
    let v = f (or_blank (get db.sessions k)) in
    ap (λ (o : Option Session). known (or_blank o).user_sub) (get-set db.sessions k key v)
    ∙ known_either (k == key) v (get db.sessions key)
        (λ e.
          keeps (or_blank (get db.sessions k))
            (ap (λ (j : SessionKey). user_known db j) ((pair_beq_iff k key).0 e) ∙ h))
        h

counted_db-user_known :
    (db : Db) (k key : SessionKey) (base : ℕ) (r : Record)
    → user_known db key ≡ true
    → user_known (counted_db db k base r) key ≡ true
unfolding counted_db touch_columns count_columns
counted_db-user_known db k key base r h =
    let x = record db { session_frames = set db.session_frames (k, base) (frame_row r) } in
    upsert-user_known (upsert x k (touch_columns r)) k key (count_columns r) (λ s p. p)
      (upsert-user_known x k key (touch_columns r) (λ s p. known-coalesce r.user_sub s.user_sub p)
        h)

apply_frame-user_known :
    (db : Db) (k key : SessionKey) (base : ℕ) (r : Record)
    → user_known db key ≡ true
    → user_known (apply_frame db k base r).0 key ≡ true
unfolding touch_columns
apply_frame-user_known db k key base r h = elim (Option-cases (get db.session_frames (k, base))) [
  | inr (row, e) ↦ rw (apply_frame_found db k base r row e) (
      upsert-user_known db k key (touch_columns r) (λ s p. known-coalesce r.user_sub s.user_sub p)
        h)
  | inl e ↦ rw (apply_frame_new db k base r e) (counted_db-user_known db k key base r h)
]

apply_kind-user_known :
    (tracks : ℕ → Bool) (db : Db) (k : Option SessionKey) (kind : MessageType) (base : Option ℕ)
    (r : Record) (key : SessionKey)
    → user_known db key ≡ true
    → user_known (elim (apply_kind tracks db k kind base r) [ err e ↦ db | ok (db', o) ↦ db' ]) key
      ≡ true
unfolding apply_kind start_columns end_columns
apply_kind-user_known tracks db none kind base r key h = h
apply_kind-user_known tracks db (some k) session_start base r key h =
    upsert-user_known db k key (start_columns tracks r)
      (λ s p. known-coalesce r.user_sub s.user_sub p) h
apply_kind-user_known tracks db (some k) session_end base r key h =
    upsert-user_known db k key (end_columns r) (λ s p. known-coalesce r.user_sub s.user_sub p) h
apply_kind-user_known tracks db (some k) frame none r key h = h
apply_kind-user_known tracks db (some k) frame (some base) r key h =
    apply_frame-user_known db k key base r h
apply_kind-user_known tracks db (some k) other base r key h = h

-- A session whose user is known keeps a known user, whatever records follow, those without a user
-- included.
pub deliver-user_known :
    (tracks : ℕ → Bool) (rs : List Record) (db : Db) (key : SessionKey)
    → user_known db key ≡ true
    → user_known (deliver tracks db rs) key ≡ true
unfolding deliver apply
deliver-user_known tracks [] db key h = h
deliver-user_known tracks (r ∷ rs) db key h = deliver-user_known tracks rs _ key (
    apply_kind-user_known tracks db (both r.source_session r.device_id) r.message_type
      r.payload.base_timestamp_us r key h)

-- ===== src/SessionTracker/Redelivery.antt =====
-- A record that is delivered again.
use mathlib.Core.Path.{subst}
use robo_services.Prelude.{
  ◌≡◌, refl, ap, sym, ◌∙◌, [], ◌∷◌, arith, Bool, ℕ, String, Option, none, some, Option-cases, inl,
  inr, Result, ok, err, nat_eq, string_eq, pair_eq, Eq,
}
use robo_services.Prelude.Dict.{Dict, get, set, get-set_self}
use robo_services.SessionTracker.{
  SessionKey, Session, SessionFrame, Db, Record, MessageType, Outcome, started, ended, counted,
  duplicate, coalesce, or_blank, upsert, start_columns, end_columns, touch_columns, count_columns,
  frame_row, apply_frame, apply_kind, apply, ApplyError, session_start, session_end, frame, other,
  both,
}

module _ {ℓ κ} {K : Type ℓ} {V : Type κ} ⦃e : Eq K⦄ where
  set-set : (d : Dict K V) (k : K) (v w : V) → set (set d k v) k w ≡ set d k w
  unfolding set
  set-set [] k v w = ground (arith, e.beq_iff k k)
  set-set ((j, u) ∷ d) k v w = ground (arith, e.beq_iff j k, set-set d k v w)

-- What `apply` returns for a record that it has applied before.
abbrev pub again : Outcome → Outcome
again counted = duplicate
again o = o

coalesce_again {ℓ} : {A : Type ℓ} (a b : Option A) → coalesce a (coalesce a b) ≡ coalesce a b
coalesce_again none b = refl
coalesce_again (some a) b = refl

upsert_fused :
    (db : Db) (key : SessionKey) (f g : Session → Session)
    → upsert (upsert db key f) key g ≡ upsert db key (λ s. g (f s))
unfolding upsert
upsert_fused db key f g =
    let d = db.sessions in
    let v = f (or_blank (get d key)) in
    ap (λ (x : Option Session). record db { sessions = set (set d key v) key (g (or_blank x)) })
      (get-set_self d key v)
    ∙ ap (λ (x : Dict SessionKey Session). record db { sessions = x }) (set-set d key v (g v))

-- Two changes of a row that are the same after a third.
upsert_same :
    (db : Db) (key : SessionKey) (f g h : Session → Session)
    → ((s : Session) → g (f s) ≡ h (f s))
    → upsert (upsert db key f) key g ≡ upsert (upsert db key f) key h
unfolding upsert
upsert_same db key f g h same =
    upsert_fused db key f g
    ∙ (ap (λ (v : Session). record db { sessions = set db.sessions key v })
          (same (or_blank (get db.sessions key)))
        ∙ sym (upsert_fused db key f h))

-- The record, applied at another time
abbrev pub applied_later : ℕ → Record → Record
applied_later t r = record r { applied_at = t }

-- A row whose `updated_at` is another
abbrev pub with_updated_at : ℕ → Session → Session
with_updated_at t s = record s { updated_at = t }

start_columns_again :
    (tracks : ℕ → Bool) (t : ℕ) (r : Record) (s : Session)
    → start_columns tracks (applied_later t r) (start_columns tracks r s)
      ≡ with_updated_at t (start_columns tracks r s)
unfolding start_columns
start_columns_again tracks t r s =
    ap (λ (u : Option String). record (start_columns tracks r s) { user_sub = u; updated_at = t })
      (coalesce_again r.user_sub s.user_sub)

end_columns_again :
    (t : ℕ) (r : Record) (s : Session)
    → end_columns (applied_later t r) (end_columns r s) ≡ with_updated_at t (end_columns r s)
unfolding end_columns
end_columns_again t r s =
    ap (λ (u : Option String). record (end_columns r s) { user_sub = u; updated_at = t })
      (coalesce_again r.user_sub s.user_sub)

touch_columns_again :
    (t : ℕ) (r : Record) (s : Session)
    → touch_columns (applied_later t r) (touch_columns r s) ≡ with_updated_at t (touch_columns r s)
unfolding touch_columns
touch_columns_again t r s =
    ap (λ (u : Option String). record (touch_columns r s) { user_sub = u; updated_at = t })
      (coalesce_again r.user_sub s.user_sub)

-- A session that a frame has just touched and counted, touched again.
touch_columns_counted :
    (t : ℕ) (r : Record) (s : Session)
    → touch_columns (applied_later t r) (count_columns r (touch_columns r s))
      ≡ with_updated_at t (count_columns r (touch_columns r s))
unfolding touch_columns count_columns
touch_columns_counted t r s =
    ap
      (λ (u : Option String). record (count_columns r (touch_columns r s)) {
        user_sub = u;
        updated_at = t;
      })
      (coalesce_again r.user_sub s.user_sub)

pub apply_frame_found :
    (db : Db) (key : SessionKey) (base : ℕ) (r : Record) (row : SessionFrame)
    → get db.session_frames (key, base) ≡ some row
    → apply_frame db key base r ≡ (upsert db key (touch_columns r), duplicate)
unfolding apply_frame upsert
apply_frame_found db key base r row h = rw (apply_frame, h) refl

-- The tables after a frame that is new.
unfoldable pub counted_db : Db → SessionKey → ℕ → Record → Db
counted_db db key base r =
    upsert
      (upsert (record db { session_frames = set db.session_frames (key, base) (frame_row r) }) key
        (touch_columns r))
      key (count_columns r)

pub apply_frame_new :
    (db : Db) (key : SessionKey) (base : ℕ) (r : Record)
    → get db.session_frames (key, base) ≡ none
    → apply_frame db key base r ≡ (counted_db db key base r, counted)
unfolding apply_frame upsert counted_db
apply_frame_new db key base r h = rw (apply_frame, h) refl

counted_db_again :
    (db : Db) (key : SessionKey) (base t : ℕ) (r : Record)
    → upsert (counted_db db key base r) key (touch_columns (applied_later t r))
      ≡ upsert (counted_db db key base r) key (with_updated_at t)
unfolding counted_db
counted_db_again db key base t r =
    let x = record db { session_frames = set db.session_frames (key, base) (frame_row r) } in
    let fused = upsert_fused x key (touch_columns r) (count_columns r) in
    ap (λ (y : Db). upsert y key (touch_columns (applied_later t r))) fused
    ∙ (upsert_same x key (λ s. count_columns r (touch_columns r s))
          (touch_columns (applied_later t r)) (with_updated_at t) (touch_columns_counted t r)
        ∙ sym (ap (λ (y : Db). upsert y key (with_updated_at t)) fused))

frame_found_again :
    (db : Db) (key : SessionKey) (base : ℕ) (r : Record)
    → get (counted_db db key base r).session_frames (key, base) ≡ some (frame_row r)
unfolding counted_db upsert
frame_found_again db key base r = get-set_self db.session_frames (key, base) (frame_row r)

frame_kept :
    (db : Db) (key : SessionKey) (f : Session → Session) (k : SessionKey × ℕ)
    → get (upsert db key f).session_frames k ≡ get db.session_frames k
unfolding upsert
frame_kept db key f k = refl

apply_frame-again :
    (db : Db) (key : SessionKey) (base t : ℕ) (r : Record)
    → let (db', o) = apply_frame db key base r in
      apply_frame db' key base (applied_later t r) ≡ (upsert db' key (with_updated_at t), again o)
apply_frame-again db key base t r = elim (Option-cases (get db.session_frames (key, base))) [
  | inr (row, h) ↦ rw (apply_frame_found db key base r row h) (
      apply_frame_found (upsert db key (touch_columns r)) key base (applied_later t r) row
        (frame_kept db key (touch_columns r) (key, base) ∙ h)
      ∙ ap (λ (x : Db). (x, duplicate))
          (upsert_same db key (touch_columns r) (touch_columns (applied_later t r))
            (with_updated_at t) (touch_columns_again t r)))
  | inl h ↦ rw (apply_frame_new db key base r h) (
      apply_frame_found (counted_db db key base r) key base (applied_later t r) (frame_row r)
        (frame_found_again db key base r)
      ∙ ap (λ (x : Db). (x, duplicate)) (counted_db_again db key base t r))
]

-- The tables with `updated_at` of a record's session set, which a record of another type leaves.
unfoldable pub renewed : ℕ → Option SessionKey → MessageType → Db → Db
renewed t none kind db = db
renewed t (some key) other db = db
renewed t (some key) kind db = upsert db key (with_updated_at t)

Again :
    (ℕ → Bool)
    → ℕ
    → Option SessionKey
    → MessageType
    → Option ℕ
    → Record
    → Result ApplyError (Db × Outcome)
    → Type 0
Again tracks t key kind base r (err e) = Unit
Again tracks t key kind base r (ok (db, o)) =
    apply_kind tracks db key kind base (applied_later t r) ≡ ok (renewed t key kind db, again o)

apply_kind-Again :
    (tracks : ℕ → Bool) (t : ℕ) (db : Db) (key : Option SessionKey) (kind : MessageType)
    (base : Option ℕ) (r : Record)
    → Again tracks t key kind base r (apply_kind tracks db key kind base r)
unfolding Again apply_kind renewed
apply_kind-Again tracks t db none kind base r = tt
apply_kind-Again tracks t db (some key) session_start base r =
    ap (λ (x : Db). ok (x, started))
      (upsert_same db key (start_columns tracks r) (start_columns tracks (applied_later t r))
        (with_updated_at t) (start_columns_again tracks t r))
apply_kind-Again tracks t db (some key) session_end base r =
    ap (λ (x : Db). ok (x, ended))
      (upsert_same db key (end_columns r) (end_columns (applied_later t r)) (with_updated_at t)
        (end_columns_again t r))
apply_kind-Again tracks t db (some key) frame none r = tt
apply_kind-Again tracks t db (some key) frame (some base) r =
    ap (λ (x : Db × Outcome). ok x) (apply_frame-again db key base t r)
apply_kind-Again tracks t db (some key) other base r = refl

-- A record that was applied, applied once more at another time to the tables that it left, changes
-- nothing in them but `updated_at` of its session, which a record of another type leaves too, and
-- returns the same, but for a frame that was counted, which is then a duplicate.
pub apply-again :
    (tracks : ℕ → Bool) (db : Db) (r : Record) (db' : Db) (o : Outcome) (t : ℕ)
    → apply tracks db r ≡ ok (db', o)
    → apply tracks db' (applied_later t r)
      ≡ ok (renewed t (both r.source_session r.device_id) r.message_type db', again o)
unfolding apply Again
apply-again tracks db r db' o t h =
    subst
      (Again tracks t (both r.source_session r.device_id) r.message_type r.payload.base_timestamp_us
        r)
      h
      (apply_kind-Again tracks t db (both r.source_session r.device_id) r.message_type
        r.payload.base_timestamp_us r)

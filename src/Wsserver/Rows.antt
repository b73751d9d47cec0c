-- ===== src/Wsserver/Rows.antt =====
-- What cmd/wsserver/main.go does behind a report without the database: bans and removals.
use whisper_chat.Prelude.{
  ℕ, String, ◌≡◌, refl, ap, ◌∙◌, inl, inr, Bool, true, false, Option, none, some, List, leb,
  if◌then◌else◌, Bool-cases, Option-cases, ◌==◌, nat_eq, text_eq, list_eq,
}
use whisper_chat.Redis.Client.{Result, ok, err}
use whisper_chat.Session.{Session, status_matching}
use whisper_chat.Report.{Row, count_recent}
use whisper_chat.Protocol.{type_banned}
use whisper_chat.Protocol.Server.{new_server_message}
use whisper_chat.Protocol.Messages.{banned}
use whisper_chat.Prelude.Dict.{lookup}
use whisper_chat.Ws.Connections.{remove_id}
use whisper_chat.Ws.Server.{removed, remove_connection, send_message}
use whisper_chat.Ws.Server.Removal.{remove_id-cases}
use whisper_chat.Wsserver.{Services, App, World}
use whisper_chat.Wsserver.Publishing.{app-send_message}
use whisper_chat.Wsserver.Disconnect.{leave_queue, leave_chat, clean_up, disconnected, callbacks}
use whisper_chat.Wsserver.Abuse.{put_out, escalated, cross_check, tracked}
use whisper_chat.Session
use whisper_chat.Ws.Connections

module _ {Data : Type 0} (w : Services Data) (now : ℕ) where
  db-if :
      (b : Bool) (x y : App w) (d : w.postgres.State)
      → x.db ≡ d
      → y.db ≡ d
      → (if b then x else y).db ≡ d
  db-if true x y d h g = h
  db-if false x y d h g = g

  db-leave_chat : (id chat_id : String) (a : App w) → (leave_chat w now id chat_id a).db ≡ a.db
  unfolding leave_chat
  db-leave_chat id chat_id a = db-if _ _ _ a.db refl refl

  db-clean_up :
      (id : String) (found : Result (Option Session.Session)) (a : App w)
      → (clean_up w now id found a).db ≡ a.db
  unfolding clean_up leave_queue
  db-clean_up id err a = refl
  db-clean_up id (ok none) a = refl
  db-clean_up id (ok (some session)) a =
      let waits : Bool = session.status == status_matching in
      let a' : App w = if waits then leave_queue w now id a else a in
      let left : a'.db ≡ a.db = db-if waits (leave_queue w now id a) a a.db refl refl in
      db-if (session.chat_id == "") a' (leave_chat w now id session.chat_id a') a.db left
        (db-leave_chat id session.chat_id a' ∙ left)

  db-disconnected : (id : String) (a : App w) → (disconnected w now id a).db ≡ a.db
  unfolding disconnected
  db-disconnected id a =
      let (found, rdb) = Session.get w.redis id a.rdb in
      db-clean_up id found (record a { rdb = rdb })

  -- The database hears nothing of a removal.
  db-remove_connection :
      (ref : ℕ) (s : World w)
      → (remove_connection w.sockets (callbacks w now) ref s).app.db ≡ s.app.db
  unfolding remove_connection removed
  db-remove_connection ref s = elim (Option-cases (lookup ref s.conns.heap)) [
    | inl gone ↦ rw (remove_connection, gone) refl
    | inr (c, here) ↦ elim (remove_id-cases c.id s.conns) [
      | inl nothing ↦ rw (remove_connection, here, nothing) refl
      | inr (_, _, found) ↦ rw (remove_connection, here, found) (db-disconnected c.id s.app)
    ]
  ]

  db-put_out :
      (partner_id : String) (duration : ℕ) (s : World w)
      → (put_out w (callbacks w now) partner_id duration s).app.db ≡ s.app.db
  unfolding put_out
  db-put_out partner_id duration s =
      let m =
        new_server_message type_banned
          (banned (record { duration = duration; reason = "multiple_reports" })) in
      let s' : World w = (send_message w.sockets partner_id m s).1 in
      let told : s'.app.db ≡ s.app.db =
        ap (λ (a : App w). a.db) (app-send_message w.sockets partner_id m s) in
      elim (Option-cases (Connections.get partner_id s'.conns)) [
        | inl away ↦ rw (put_out, away) told
        | inr (p, here) ↦ rw (put_out, here) (db-remove_connection p.0 s' ∙ told)
      ]

  abbrev pub rows : World w → List Row
  rows s = w.postgres.rows s.app.db

  rows-escalated :
      (partner_id : String) (x : Result ℕ × World w)
      → rows (escalated w (callbacks w now) partner_id x) ≡ rows x.1
  unfolding escalated
  rows-escalated partner_id (err, s) = refl
  rows-escalated partner_id (ok duration, s) = ap w.postgres.rows (db-put_out partner_id duration s)

  cross_check-counted :
      (partner_id fingerprint : String) (s : World w) (count : Result ℕ)
      → (w.postgres.count_rows fingerprint 86400 s.app.db).0 ≡ count
      → rows (cross_check w (callbacks w now) partner_id fingerprint s) ≡ rows s
  unfolding cross_check count_recent
  cross_check-counted partner_id fingerprint s err h =
      rw (cross_check, h) (w.postgres.rows-count_rows fingerprint 86400 s.app.db)
  cross_check-counted partner_id fingerprint s (ok n) h =
      let s' : World w = record s {
        app = record s.app { db = (w.postgres.count_rows fingerprint 86400 s.app.db).1 };
      } in
      let same : rows s' ≡ rows s = w.postgres.rows-count_rows fingerprint 86400 s.app.db in
      elim (Bool-cases (leb 3 n)) [
        | inl many ↦ rw (cross_check, h) (rw many (rows-escalated partner_id _ ∙ same))
        | inr few ↦ rw (cross_check, h) (rw few same)
      ]

  -- What follows a report stores nothing more.
  pub rows-tracked :
      (partner_id fingerprint : String) (x : Result (Bool × ℕ) × World w)
      → rows (tracked w (callbacks w now) partner_id fingerprint x) ≡ rows x.1
  unfolding tracked
  rows-tracked partner_id fingerprint (err, s) = refl
  rows-tracked partner_id fingerprint (ok (true, duration), s) =
      ap w.postgres.rows (db-put_out partner_id duration s)
  rows-tracked partner_id fingerprint (ok (false, duration), s) =
      cross_check-counted partner_id fingerprint s _ refl

-- ===== src/Wsserver/Abuse.antt =====
-- The handlers of cmd/wsserver/main.go against abuse: set_fingerprint and report.
use whisper_chat.Prelude.{
  ℕ, String, Bool, not, ◌&&◌, Option, none, some, map, leb, if◌then◌else◌, ◌==◌, nat_eq, text_eq,
  list_eq,
}
use whisper_chat.Redis.Commands.{Datum, text, int}
use whisper_chat.Redis.Client.{Result, ok, err}
use whisper_chat.Ban.{BanStatus, auto_ban_threshold, is_banned, escalate, report_and_check}
use whisper_chat.Chat.Store.{ChatSession, is_participant, get_partner}
use whisper_chat.Chat.Buffer.{BufferedMessage}
use whisper_chat.Session.{set_fingerprint}
use whisper_chat.Report.{MessageEntry, create, count_recent}
use whisper_chat.Protocol.{type_banned}
use whisper_chat.Protocol.Messages.{
  ClientMessage, set_fingerprint as fingerprint_msg, report, ReportMsg, banned,
}
use whisper_chat.Ws.Server.{Callbacks, remove_connection}
use whisper_chat.Wsserver.{Services, App, World, with_redis, reply, tell}
use whisper_chat.Chat.Store
use whisper_chat.Chat.Buffer
use whisper_chat.Session
use whisper_chat.Ws.Connections

module _ {Data : Type 0} (w : Services Data) (calls : Callbacks (App w)) where
  -- The reason of a ban as a text.
  abbrev pub reason_text : Datum → String
  reason_text (text t) = t
  reason_text (int n) = w.redis.decimal n

  unfoldable pub turn_away : ℕ → BanStatus → World w → World w
  turn_away ref status s =
      if status.failed
      then s
      else if status.banned
      then remove_connection w.sockets calls ref (
          reply ref type_banned
            (banned (record { duration = status.seconds; reason = reason_text status.reason })) s)
      else s

  -- set_fingerprint, once the fingerprint is stored.
  unfoldable pub check_ban : ℕ → String → Result (Unit {0}) × World w → World w
  unfolding turn_away
  check_ban ref fingerprint (err, s) = s
  check_ban ref fingerprint (ok _, s) =
      let (status, s') = with_redis (is_banned w.redis fingerprint) s in turn_away ref status s'

  unfoldable pub handle_set_fingerprint : ℕ → String → ClientMessage → World w → World w
  unfolding check_ban
  handle_set_fingerprint ref sid (fingerprint_msg m) s =
      if m.fingerprint == ""
      then s
      else check_ban ref m.fingerprint (with_redis (set_fingerprint w.redis m.fingerprint sid) s)
  handle_set_fingerprint ref sid _ s = s

  -- The partner hears of the ban and is disconnected, where it is on this server.
  unfoldable pub put_out : String → ℕ → World w → World w
  put_out partner_id duration s =
      let s' =
        tell partner_id type_banned
          (banned (record { duration = duration; reason = "multiple_reports" })) s in
      elim (Connections.get partner_id s'.conns) [
        | none ↦ s'
        | some p ↦ remove_connection w.sockets calls p.0 s'
      ]

  unfoldable pub escalated : String → Result ℕ × World w → World w
  unfolding put_out
  escalated partner_id (err, s) = s
  escalated partner_id (ok duration, s) = put_out partner_id duration s

  -- The cross-check against PostgreSQL, over 24 hours.
  unfoldable pub cross_check : String → String → World w → World w
  unfolding escalated
  cross_check partner_id fingerprint s =
      let (count, db) = count_recent w.postgres fingerprint 86400 s.app.db in
      let s' = record s { app = record s.app { db = db } } in
      elim count [
        | err ↦ s'
        | ok n ↦
            if leb auto_ban_threshold n
            then escalated partner_id
                (with_redis (escalate w.redis fingerprint (text "multiple_reports")) s')
            else s'
      ]

  -- The report handler, once the report is tracked.
  unfoldable pub tracked : String → String → Result (Bool × ℕ) × World w → World w
  unfolding cross_check
  tracked partner_id fingerprint (err, s) = s
  tracked partner_id fingerprint (ok (is_now_banned, duration), s) =
      if is_now_banned then put_out partner_id duration s else cross_check partner_id fingerprint s

  abbrev pub entry_of : BufferedMessage → MessageEntry
  entry_of m = record { from = m.sender; text = m.text; ts = m.ts }

  -- The report is stored where the reporter's fingerprint is known; an error is logged only.
  unfoldable pub store_report : ReportMsg → String → String → World w → World w
  store_report m reporter reported s =
      if reporter == ""
      then s
      else let stored =
          create w.postgres
            (record {
              reporter_fingerprint = reporter;
              reported_fingerprint = reported;
              chat_id = m.chat_id;
              reason = m.reason;
              messages = map entry_of (Buffer.get m.chat_id s.app.buffer);
            })
            s.app.db in
        record s { app = record s.app { db = stored.1 } }

  abbrev pub fingerprint_of : Result (Option Session.Session) → String
  fingerprint_of (ok (some session)) = session.fingerprint
  fingerprint_of _ = ""

  -- The report handler, once the partner's fingerprint is read; a session that is not found and one
  -- without a fingerprint end it alike.
  unfoldable pub file_report : String → String → String → ReportMsg → World w → World w
  unfolding store_report tracked
  file_report sid partner_id fingerprint m s =
      if fingerprint == ""
      then s
      else let (reporter, s1) = with_redis (Session.get w.redis sid) s in
        let s2 = store_report m (fingerprint_of reporter) fingerprint s1 in
        tracked partner_id fingerprint
          (with_redis (report_and_check w.redis fingerprint (text m.reason)) s2)

  unfoldable pub read_partner : String → String → ReportMsg → World w → World w
  unfolding file_report
  read_partner sid partner_id m s =
      let (partner, s') = with_redis (Session.get w.redis partner_id) s in
      file_report sid partner_id (fingerprint_of partner) m s'

  -- The report handler, once the chat is read.
  unfoldable pub report_partner :
      String → ReportMsg → Result (Option ChatSession) → World w → World w
  unfolding read_partner
  report_partner sid m (ok (some cs)) s =
      if is_participant cs sid && not (get_partner cs sid == "")
      then read_partner sid (get_partner cs sid) m s
      else s
  report_partner sid m _ s = s

  unfoldable pub handle_report : String → ClientMessage → World w → World w
  unfolding report_partner
  handle_report sid (report m) s =
      let (found, s') = with_redis (Store.get w.redis m.chat_id) s in report_partner sid m found s'
  handle_report sid _ s = s

-- ===== src/Wsserver/Reports.antt =====
-- Which reports the report handler of cmd/wsserver/main.go stores.
use mathlib.Core.List.{append-nil}
use whisper_chat.Prelude.{
  ℕ, String, ◌≡◌, refl, sym, ap, ◌∙◌, inl, inr, Bool, true, false, not, ◌&&◌, ◌||◌, Option, none,
  some, List, [], ◌∷◌, ◌++◌, map, if◌then◌else◌, Bool-cases, ◌==◌, nat_eq, text_eq, list_eq,
  contains,
}
use whisper_chat.Redis.Client.{Result, ok, err}
use whisper_chat.Ban.{report_and_check}
use whisper_chat.Chat.Store.{ChatSession, is_participant, get_partner}
use whisper_chat.Session.{Session, status_matching}
use whisper_chat.Report.{Row, create, MessageEntry, messages_column}
use whisper_chat.Protocol.Messages.{report, ReportMsg}
use whisper_chat.Wsserver.{Services, World, with_redis}
use whisper_chat.Wsserver.Disconnect.{callbacks}
use whisper_chat.Wsserver.Abuse.{
  tracked, entry_of, store_report, fingerprint_of, file_report, read_partner, report_partner,
  handle_report,
}
use whisper_chat.Chat.Buffer.{BufferedMessage}
use whisper_chat.Redis.Commands.{text}
use whisper_chat.Wsserver.Rows.{rows, rows-tracked}
use whisper_chat.Chat.Store
use whisper_chat.Chat.Buffer
use whisper_chat.Session

module _ {Data : Type 0} (w : Services Data) (now : ℕ) where
  abbrev pub fingerprint : Result (Option Session.Session) → String
  fingerprint (ok (some session)) = session.fingerprint
  fingerprint _ = ""

  -- The last messages of the chat, `none` where there are none.
  abbrev pub snapshot : List BufferedMessage → Option (List MessageEntry)
  snapshot [] = none
  snapshot (b ∷ l) = some (map (λ x. record { from = x.sender; text = x.text; ts = x.ts }) (b ∷ l))

  -- The row for a report, by the fingerprints of the reporter and of the partner.
  abbrev pub row : ReportMsg → String → String → World w → Row
  row m reporter reported s = record {
    reporter_fingerprint = reporter;
    reported_fingerprint = reported;
    chat_id = m.chat_id;
    reason = m.reason;
    messages = snapshot (Buffer.get m.chat_id s.app.buffer);
  }

  abbrev pub is_valid_reason : String → Bool
  is_valid_reason reason = contains reason ("harassment" ∷ "spam" ∷ "explicit" ∷ "other" ∷ [])

  abbrev pub filed_for : ReportMsg → String → String → World w → List Row
  filed_for m reporter reported s =
      if reported == "" || (reporter == "" || not (is_valid_reason m.reason))
      then []
      else row m reporter reported s ∷ []

  -- The rows for a report, by what is found of the chat.
  abbrev pub filed_in : String → ReportMsg → Result (Option ChatSession) → World w → List Row
  filed_in sid m (ok (some cs)) s =
      let partner_id = if sid == cs.user_a then cs.user_b else cs.user_a in
      let (partner, rdb) = Session.get w.redis partner_id s.app.rdb in
      let reporter = (Session.get w.redis sid rdb).0 in
      if (sid == cs.user_a || sid == cs.user_b) && not (partner_id == "")
      then filed_for m (fingerprint reporter) (fingerprint partner) s
      else []
  filed_in sid m _ s = []

  messages_column-snapshot :
      (l : List BufferedMessage)
      → messages_column (map (entry_of w (callbacks w now)) l) ≡ snapshot l
  messages_column-snapshot [] = refl
  messages_column-snapshot (b ∷ l) = refl

  fingerprint_of-fingerprint :
      (found : Result (Option Session.Session))
      → fingerprint_of w (callbacks w now) found ≡ fingerprint found
  fingerprint_of-fingerprint err = refl
  fingerprint_of-fingerprint (ok none) = refl
  fingerprint_of-fingerprint (ok (some session)) = refl

  module _ (takes : (r : Row) (d : w.postgres.State) → (w.postgres.insert_row r d).0 ≡ true) where
    rows-store_report :
        (m : ReportMsg) (reporter reported : String) (s : World w)
        → (reported == "") ≡ false
        → rows w now (store_report w (callbacks w now) m reporter reported s)
          ≡ rows w now s ++ filed_for m reporter reported s
    unfolding store_report create
    rows-store_report m reporter reported s known =
        let l = Buffer.get m.chat_id s.app.buffer in
        elim (Bool-cases (reporter == "")) [
          | inl nobody ↦ rw (known, nobody) (sym (append-nil (rows w now s)))
          | inr someone ↦ elim (Bool-cases (is_valid_reason m.reason)) [
            | inl valid ↦
                let told : Row = record (row m reporter reported s) {
                  messages = messages_column (map (entry_of w (callbacks w now)) l);
                } in
                let same : told ≡ row m reporter reported s =
                  ap (λ x. record (row m reporter reported s) { messages = x })
                    (messages_column-snapshot l) in
                rw (known, someone, valid)
                  (w.postgres.rows-insert_row told s.app.db
                    ∙ rw (takes told s.app.db) (ap (λ x. rows w now s ++ x ∷ []) same))
            | inr other ↦ rw (known, someone, other) (sym (append-nil (rows w now s)))
          ]
        ]

    rows-file_report :
        (sid partner_id reported : String) (m : ReportMsg) (s : World w)
        → rows w now (file_report w (callbacks w now) sid partner_id reported m s)
          ≡ rows w now s
            ++ filed_for m (fingerprint (Session.get w.redis sid s.app.rdb).0) reported s
    unfolding file_report
    rows-file_report sid partner_id reported m s = elim (Bool-cases (reported == "")) [
      | inl unknown ↦ rw unknown (sym (append-nil (rows w now s)))
      | inr known ↦
          let mine = (Session.get w.redis sid s.app.rdb).0 in
          let s1 : World w = (with_redis (Session.get w.redis sid) s).1 in
          let reporter = fingerprint_of w (callbacks w now) mine in
          let s2 = store_report w (callbacks w now) m reporter reported s1 in
          let x = with_redis (report_and_check w.redis reported (text m.reason)) s2 in
          let step : file_report w (callbacks w now) sid partner_id reported m s
              ≡ tracked w (callbacks w now) partner_id reported x =
            rw (file_report, known) refl in
          ap (rows w now) step
          ∙ rows-tracked w now partner_id reported x
          ∙ rows-store_report m reporter reported s1 known
          ∙ ap (λ f. rows w now s ++ filed_for m f reported s) (fingerprint_of-fingerprint mine)
    ]

    rows-read_partner :
        (sid partner_id : String) (m : ReportMsg) (s : World w)
        → let (partner, rdb) = Session.get w.redis partner_id s.app.rdb in
          rows w now (read_partner w (callbacks w now) sid partner_id m s)
          ≡ rows w now s
            ++ filed_for m (fingerprint (Session.get w.redis sid rdb).0) (fingerprint partner) s
    unfolding read_partner
    rows-read_partner sid partner_id m s =
        let (partner, rdb) = Session.get w.redis partner_id s.app.rdb in
        let s' : World w = record s { app = record s.app { rdb = rdb } } in
        rows-file_report sid partner_id (fingerprint_of w (callbacks w now) partner) m s'
        ∙ ap (λ f. rows w now s ++ filed_for m (fingerprint (Session.get w.redis sid rdb).0) f s)
            (fingerprint_of-fingerprint partner)

    rows-report_partner :
        (sid : String) (m : ReportMsg) (found : Result (Option ChatSession)) (s : World w)
        → rows w now (report_partner w (callbacks w now) sid m found s)
          ≡ rows w now s ++ filed_in sid m found s
    unfolding report_partner is_participant get_partner
    rows-report_partner sid m err s = sym (append-nil (rows w now s))
    rows-report_partner sid m (ok none) s = sym (append-nil (rows w now s))
    rows-report_partner sid m (ok (some cs)) s =
        let nothing = sym (append-nil (rows w now s)) in
        elim (Bool-cases (sid == cs.user_a)) [
          | inl first ↦ elim (Bool-cases (cs.user_b == "")) [
            | inl alone ↦ rw (first, alone) nothing
            | inr paired ↦ rw (first, paired) (rows-read_partner sid cs.user_b m s)
          ]
          | inr not_first ↦ elim (Bool-cases (sid == cs.user_b)) [
            | inr outside ↦ rw (not_first, outside) nothing
            | inl second ↦ elim (Bool-cases (cs.user_a == "")) [
              | inl alone ↦ rw (not_first, second, alone) nothing
              | inr paired ↦ rw (not_first, second, paired) (rows-read_partner sid cs.user_a m s)
            ]
          ]
        ]

    -- Where PostgreSQL takes the row, a report stores one row if Redis gives the chat, the reporter is
    -- one of its users and the other one is known, Redis gives sessions of both with a fingerprint, and
    -- the reason is one of the four. The row has the two fingerprints, the chat, the reason and the
    -- messages that are buffered of the chat. In every other case nothing is stored, and the bans and
    -- removals that a report leads to change no row.
    pub rows-handle_report :
        (sid : String) (m : ReportMsg) (s : World w)
        → w.postgres.rows (handle_report w (callbacks w now) sid (report m) s).app.db
          ≡ w.postgres.rows s.app.db
            ++ filed_in sid m
                (Store.get w.redis m.chat_id s.app.rdb).0
                (with_redis (Store.get w.redis m.chat_id) s).1
    unfolding handle_report
    rows-handle_report sid m s =
        let (found, s') = with_redis (Store.get w.redis m.chat_id) s in
        rows-report_partner sid m found s'

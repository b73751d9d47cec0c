-- ===== src/Ban.antt =====
-- internal/ban/store.go: bans on browser fingerprints, and the offense counter that leads to them.
-- Durations are in seconds.
pub mod Offenses
pub mod Expiry
use whisper_chat.Prelude.{
  ℕ, zero, suc, ◌+◌, ◌-◌, ◌*◌, ◌/◌, ◌%◌, ◌^◌, ◌≤◌, ◌<◌, compare, Ordering, String, ◌≡◌, refl, sym,
  ap, ap₂, subst, ◌∙◌, fun_ext, ◌≢◌, ◌↔◌, ◌⊎◌, inl, inr, Bool, true, false, not, ◌&&◌, ◌||◌, Option,
  none, some, List, [], ◌∷◌, ◌++◌, map, arith, ltb, leb, if◌then◌else◌, ltb→lt, lt→ltb, leb→le,
  le→leb, tests, Bool-cases, Option-cases, Eq, ◌==◌, nat_eq, text_eq, list_eq, ==-self, ==-ne,
  length, get_or, set, drop, replicate, length-append, length-set, length-replicate,
  get_or-set_self, get_or-set_ne, All, contains,
}
use whisper_chat.Redis.{Redis}
use whisper_chat.Redis.Commands.{Key, Datum, int, text, Command}
use whisper_chat.Redis.Client.{Result, ok, err, as_done, as_number, as_datum, as_score, ask}

abbrev pub ban_15_min : ℕ
ban_15_min = 900

abbrev pub ban_1_hour : ℕ
ban_1_hour = 3600

abbrev pub ban_24_hour : ℕ
ban_24_hour = 86400

abbrev pub reports_ttl : ℕ
reports_ttl = 86400

abbrev pub auto_ban_threshold : ℕ
auto_ban_threshold = 3

abbrev pub ban_key : String → Key
ban_key fingerprint = record { prefix = "ban:"; id = fingerprint }

abbrev pub reports_key : String → Key
reports_key fingerprint = record { prefix = "reports:"; id = fingerprint }

-- (isBanned, remainingSeconds, reason, err)
pub record BanStatus : Type 0 where
  pub banned : Bool
  pub seconds : ℕ
  pub reason : Datum
  pub failed : Bool

abbrev pub not_banned : Bool → BanStatus
not_banned failed = record { banned = false; seconds = 0; reason = text ""; failed = failed }

unfoldable pub escalation_duration : ℕ → ℕ
escalation_duration count =
    if leb count 1 then ban_15_min else if count == 2 then ban_1_hour else ban_24_hour

module _ (r : Redis) where
  open r use {State}

  seconds_left : Result (Option ℕ) → ℕ
  seconds_left (ok (some t)) = t
  seconds_left _ = 0

  ban_found : Key → Result (Option Datum) × State → BanStatus × State
  unfolding seconds_left
  ban_found k (err, s) = (not_banned true, s)
  ban_found k (ok none, s) = (not_banned false, s)
  ban_found k (ok (some why), s) =
      let (life, s') = ask r as_score (Command.ttl_of k) s in
      (record { banned = true; seconds = seconds_left life; reason = why; failed = false }, s')

  unfoldable pub is_banned : String → State → BanStatus × State
  unfolding ban_found
  is_banned fingerprint s =
      let k = ban_key fingerprint in ban_found k (ask r as_datum (Command.get k) s)

  unfoldable pub ban : String → ℕ → Datum → State → Result (Unit {0}) × State
  ban fingerprint duration reason s =
      ask r as_done (Command.set_for (ban_key fingerprint) reason duration) s

  unfoldable pub unban : String → State → Result (Unit {0}) × State
  unban fingerprint s = ask r as_done (Command.del (ban_key fingerprint)) s

  offenses : Result (Option Datum) → Result ℕ
  offenses (ok none) = ok 0
  offenses (ok (some (Datum.int n))) = ok n
  offenses _ = err

  unfoldable pub get_offense_count : String → State → Result ℕ × State
  unfolding offenses
  get_offense_count fingerprint s =
      let (reply, s') = ask r as_datum (Command.get (reports_key fingerprint)) s in
      (offenses reply, s')

  -- The counter after one more offense. The first one starts the 24 hours.
  expiring : ℕ → Result (Unit {0}) × State → Result ℕ × State
  expiring count (err, s) = (err, s)
  expiring count (ok _, s) = (ok count, s)

  started : Key → Result ℕ × State → Result ℕ × State
  unfolding expiring
  started k (err, s) = (err, s)
  started k (ok count, s) =
      if count == 1
      then expiring count (ask r as_done (Command.expire k reports_ttl) s)
      else (ok count, s)

  unfoldable pub count_offense : String → State → Result ℕ × State
  unfolding started
  count_offense fingerprint s =
      let k = reports_key fingerprint in started k (ask r as_number (Command.incr k) s)

  applied : ℕ → Result (Unit {0}) × State → Result ℕ × State
  applied duration (err, s) = (err, s)
  applied duration (ok _, s) = (ok duration, s)

  escalate_by : String → Datum → Result ℕ × State → Result ℕ × State
  unfolding applied
  escalate_by fingerprint reason (err, s) = (err, s)
  escalate_by fingerprint reason (ok count, s) =
      applied (escalation_duration count) (ban fingerprint (escalation_duration count) reason s)

  -- The duration of the ban that was applied.
  unfoldable pub escalate : String → Datum → State → Result ℕ × State
  unfolding escalate_by
  escalate fingerprint reason s = escalate_by fingerprint reason (count_offense fingerprint s)

  reported : ℕ → Result (Unit {0}) × State → Result (Bool × ℕ) × State
  reported duration (err, s) = (err, s)
  reported duration (ok _, s) = (ok (true, duration), s)

  report_count : String → Result ℕ × State → Result (Bool × ℕ) × State
  unfolding reported
  report_count fingerprint (err, s) = (err, s)
  report_count fingerprint (ok count, s) =
      if leb auto_ban_threshold count
      then reported (escalation_duration count)
          (ban fingerprint (escalation_duration count) (text "multiple_reports") s)
      else (ok (false, 0), s)

  -- Whether the fingerprint is now banned, and for how long. The reason is not used.
  unfoldable pub report_and_check : String → Datum → State → Result (Bool × ℕ) × State
  unfolding report_count
  report_and_check fingerprint reason s = report_count fingerprint (count_offense fingerprint s)

-- ===== src/Session.antt =====
-- internal/session/store.go: the sessions of users as Redis hashes. Times are the seconds of the
-- server's clock.
pub mod Calls
pub mod Late
pub mod Lifetime
use whisper_chat.Prelude.{
  ℕ, zero, suc, ◌+◌, ◌-◌, ◌*◌, ◌/◌, ◌%◌, ◌^◌, ◌≤◌, ◌<◌, compare, Ordering, String, ◌≡◌, refl, sym,
  ap, ap₂, subst, ◌∙◌, fun_ext, ◌≢◌, ◌↔◌, ◌⊎◌, inl, inr, Bool, true, false, not, ◌&&◌, ◌||◌, Option,
  none, some, List, [], ◌∷◌, ◌++◌, map, arith, ltb, leb, if◌then◌else◌, ltb→lt, lt→ltb, leb→le,
  le→leb, tests, Bool-cases, Option-cases, Eq, ◌==◌, nat_eq, text_eq, list_eq, ==-self, ==-ne,
  length, get_or, set, drop, replicate, length-append, length-set, length-replicate,
  get_or-set_self, get_or-set_ne, All, contains, ==-comm,
}
use whisper_chat.Prelude.Dict.{Dict, lookup}
use whisper_chat.Redis.{Redis}
use whisper_chat.Redis.Commands.{Key, Datum, int, text, Command, hset, expire, hgetall, del}
use whisper_chat.Redis.Client.{Result, ok, err, as_fields, as_done, ask}

abbrev pub session_ttl : ℕ
session_ttl = 3600

abbrev pub status_idle : String
status_idle = "idle"

abbrev pub status_matching : String
status_matching = "matching"

abbrev pub status_chatting : String
status_chatting = "chatting"

abbrev pub session_key : String → Key
session_key session_id = record { prefix = "session:"; id = session_id }

pub record Session : Type 0 where
  pub id : String
  pub status : String
  pub chat_id : String
  pub server : String
  pub interests : String
  pub fingerprint : String
  pub created_at : ℕ
  pub last_active : ℕ

module _ (r : Redis) where
  open r use {State, decimal}

  abbrev pub Fields : Type 0
  Fields = Dict String Datum

  -- Create, on a store of the server `server`; `true` for no error.
  unfoldable pub create : String → ℕ → String → State → Bool × State
  create server now session_id s =
      let k = session_key session_id in
      r.pipeline
        (hset k (
            ("id", text session_id)
            ∷ ("status", text status_idle)
            ∷ ("chat_id", text "")
            ∷ ("server", text server)
            ∷ ("interests", text "")
            ∷ ("fingerprint", text "")
            ∷ ("created_at", int now)
            ∷ ("last_active", int now)
            ∷ [])
          ∷ expire k session_ttl
          ∷ [])
        s

  -- Scan leaves a field that is missing as it is, and fails on a number that does not parse.
  scan_text : Option Datum → String
  scan_text none = ""
  scan_text (some (text t)) = t
  scan_text (some (int n)) = decimal n

  scan_int : Option Datum → Result ℕ
  scan_int none = ok 0
  scan_int (some (int n)) = ok n
  scan_int (some (text t)) = err

  with_times : Fields → Result ℕ → Result ℕ → Result Session
  unfolding scan_text
  with_times h (ok created) (ok active) = ok record {
    id = scan_text (lookup "id" h);
    status = scan_text (lookup "status" h);
    chat_id = scan_text (lookup "chat_id" h);
    server = scan_text (lookup "server" h);
    interests = scan_text (lookup "interests" h);
    fingerprint = scan_text (lookup "fingerprint" h);
    created_at = created;
    last_active = active;
  }
  with_times h _ _ = err

  -- A hash without an identifier is no session.
  known : Result Session → Result (Option Session)
  known err = err
  known (ok session) = if session.id == "" then ok none else ok (some session)

  scan : Result Fields → Result (Option Session)
  unfolding scan_int with_times known
  scan err = err
  scan (ok h) =
      known (with_times h (scan_int (lookup "created_at" h)) (scan_int (lookup "last_active" h)))

  unfoldable pub get : String → State → Result (Option Session) × State
  unfolding scan
  get session_id s =
      let (reply, s') = ask r as_fields (hgetall (session_key session_id)) s in (scan reply, s')

  unfoldable pub update_status : String → ℕ → String → State → Bool × State
  update_status status now session_id s =
      let k = session_key session_id in
      r.pipeline
        (hset k (("status", text status) ∷ ("last_active", int now) ∷ [])
          ∷ expire k session_ttl
          ∷ [])
        s

  unfoldable pub set_interests : String → ℕ → String → State → Result (Unit {0}) × State
  set_interests interests now session_id s =
      ask r as_done
        (hset (session_key session_id)
          (("interests", text interests) ∷ ("last_active", int now) ∷ []))
        s

  unfoldable pub set_chat_id : String → ℕ → String → State → Result (Unit {0}) × State
  set_chat_id chat_id now session_id s =
      ask r as_done
        (hset (session_key session_id) (
          ("chat_id", text chat_id)
          ∷ ("status", text status_chatting)
          ∷ ("last_active", int now)
          ∷ []))
        s

  unfoldable pub clear_chat_id : ℕ → String → State → Result (Unit {0}) × State
  clear_chat_id now session_id s =
      ask r as_done
        (hset (session_key session_id)
          (("chat_id", text "") ∷ ("status", text status_idle) ∷ ("last_active", int now) ∷ []))
        s

  unfoldable pub set_fingerprint : String → String → State → Result (Unit {0}) × State
  set_fingerprint fingerprint session_id s =
      ask r as_done (hset (session_key session_id) (("fingerprint", text fingerprint) ∷ [])) s

  unfoldable pub refresh_ttl : String → State → Result (Unit {0}) × State
  refresh_ttl session_id s = ask r as_done (expire (session_key session_id) session_ttl) s

  unfoldable pub delete : String → State → Result (Unit {0}) × State
  delete session_id s = ask r as_done (del (session_key session_id)) s

-- ===== src/Chat/Store.antt =====
-- internal/chat/store.go: chat sessions as Redis hashes, and the script that accepts a match.
pub mod Contract
pub mod Handshake
pub mod Partner
pub mod Accept
use whisper_chat.Prelude.{
  ℕ, zero, suc, ◌+◌, ◌-◌, ◌*◌, ◌/◌, ◌%◌, ◌^◌, ◌≤◌, ◌<◌, compare, Ordering, String, ◌≡◌, refl, sym,
  ap, ap₂, subst, ◌∙◌, fun_ext, ◌≢◌, ◌↔◌, ◌⊎◌, inl, inr, Bool, true, false, not, ◌&&◌, ◌||◌, Option,
  none, some, List, [], ◌∷◌, ◌++◌, map, arith, ltb, leb, if◌then◌else◌, ltb→lt, lt→ltb, leb→le,
  le→leb, tests, Bool-cases, Option-cases, Eq, ◌==◌, nat_eq, text_eq, list_eq, ==-self, ==-ne,
  length, get_or, set, drop, replicate, length-append, length-set, length-replicate,
  get_or-set_self, get_or-set_ne, All, contains, ==-comm,
}
use whisper_chat.Prelude.Dict.{Dict, lookup}
use whisper_chat.Redis.{Redis}
use whisper_chat.Redis.Commands.{
  Key, Datum, int, text, Command, hset, expire, zadd, zrem, hgetall, del, Reply, hget,
}
use whisper_chat.Redis.Scripts.{Script, ret, call}
use whisper_chat.Redis.Client.{Result, ok, err, as_fields, ask}

abbrev pub chat_ttl_pending : ℕ
chat_ttl_pending = 60

abbrev pub status_pending_accept : String
status_pending_accept = "pending_accept"

abbrev pub status_active : String
status_active = "active"

abbrev pub chat_key : String → Key
chat_key chat_id = record { prefix = "chat:"; id = chat_id }

abbrev pub pending_key : Key
pending_key = record { prefix = "match:pending_chats"; id = "" }

pub record ChatSession : Type 0 where
  pub chat_id : String
  pub user_a : String
  pub user_b : String
  pub status : String
  pub created_at : ℕ
  pub accept_deadline : ℕ
  pub accepted_a : Bool
  pub accepted_b : Bool

unfoldable pub get_partner : ChatSession → String → String
get_partner cs session_id =
    if session_id == cs.user_a then cs.user_b else if session_id == cs.user_b then cs.user_a else ""

unfoldable pub is_participant : ChatSession → String → Bool
is_participant cs session_id = session_id == cs.user_a || session_id == cs.user_b

-- The codes 1, 0, -1, -2 and -3 of acceptMatchLua.
pub data Acceptance : Type 0 where
  both_accepted waiting not_found wrong_status not_participant : Acceptance

-- `x == t` in Lua, for the text or false that HGET gave.
abbrev pub is_text : String → Reply → Bool
is_text t (Reply.datum (text u)) = t == u
is_text t _ = false

abbrev pub is_nil : Reply → Bool
is_nil Reply.nil = true
is_nil _ = false

-- acceptMatchLua from the reads of accepted_a and accepted_b on.
unfoldable pub accept_check : Key → Script Acceptance
accept_check k = call (hget k "accepted_a") λ accepted_a. call (hget k "accepted_b") λ accepted_b.
    if is_text "true" accepted_a && is_text "true" accepted_b
    then call (hset k (("status", text status_active) ∷ []))
        (λ _. call (expire k 7200) (λ _. ret both_accepted))
    else ret waiting

-- acceptMatchLua from the reads of user_a and user_b on.
unfoldable pub accept_mark : Key → String → Script Acceptance
accept_mark k session_id = call (hget k "user_a") λ user_a. call (hget k "user_b") λ user_b.
    if is_text session_id user_a
    then call (hset k (("accepted_a", text "true") ∷ [])) (λ _. accept_check k)
    else if is_text session_id user_b
    then call (hset k (("accepted_b", text "true") ∷ [])) (λ _. accept_check k)
    else ret not_participant

-- acceptMatchLua once the status is read.
unfoldable pub accept_status : Key → String → Reply → Script Acceptance
accept_status k session_id status =
    if is_nil status
    then ret not_found
    else if not (is_text status_pending_accept status)
    then ret wrong_status
    else accept_mark k session_id

unfoldable pub accept_match_lua : Key → String → Script Acceptance
unfolding accept_status
accept_match_lua k session_id = call (hget k "status") (accept_status k session_id)

module _ (r : Redis) where
  open r use {State, decimal}

  as_text : Option Datum → String
  as_text none = ""
  as_text (some (text t)) = t
  as_text (some (int n)) = decimal n

  -- strconv.ParseInt with its error ignored.
  as_int : Option Datum → ℕ
  as_int (some (int n)) = n
  as_int _ = 0

  -- The time is that of the server's clock, in seconds.
  unfoldable pub create_pending : ℕ → String → String → String → State → Bool × State
  create_pending now chat_id user_a user_b s =
      let k = chat_key chat_id in
      r.pipeline
        (hset k (
            ("user_a", text user_a)
            ∷ ("user_b", text user_b)
            ∷ ("status", text status_pending_accept)
            ∷ ("created_at", int now)
            ∷ ("accept_deadline", int (now + 15))
            ∷ ("accepted_a", text "false")
            ∷ ("accepted_b", text "false")
            ∷ [])
          ∷ expire k chat_ttl_pending
          ∷ zadd pending_key (now + 15) chat_id
          ∷ [])
        s

  unfoldable pub session_of : String → Dict String Datum → ChatSession
  unfolding as_text as_int
  session_of chat_id h = record {
    chat_id = chat_id;
    user_a = as_text (lookup "user_a" h);
    user_b = as_text (lookup "user_b" h);
    status = as_text (lookup "status" h);
    created_at = as_int (lookup "created_at" h);
    accept_deadline = as_int (lookup "accept_deadline" h);
    accepted_a = as_text (lookup "accepted_a" h) == "true";
    accepted_b = as_text (lookup "accepted_b" h) == "true";
  }

  found_session : String → Result (Dict String Datum) → Result (Option ChatSession)
  unfolding session_of
  found_session chat_id err = err
  found_session chat_id (ok []) = ok none
  found_session chat_id (ok (f ∷ h)) = ok (some (session_of chat_id (f ∷ h)))

  -- `ok none` is Go's nil session without an error.
  unfoldable pub get : String → State → Result (Option ChatSession) × State
  unfolding found_session
  get chat_id s =
      let (reply, s') = ask r as_fields (hgetall (chat_key chat_id)) s in
      (found_session chat_id reply, s')

  -- Go adds -1 to an error; no caller reads it.
  script_result : Option Acceptance → Result Acceptance
  script_result none = err
  script_result (some a) = ok a

  unfoldable pub accept_match : String → String → State → Result Acceptance × State
  unfolding script_result
  accept_match chat_id session_id s =
      let (reply, s') = r.eval (accept_match_lua (chat_key chat_id) session_id) s in
      (script_result reply, s')

  unfoldable pub delete : String → State → Bool × State
  delete chat_id s = r.pipeline (del (chat_key chat_id) ∷ zrem pending_key chat_id ∷ []) s

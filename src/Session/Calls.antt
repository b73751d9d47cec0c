-- ===== src/Session/Calls.antt =====
-- Histories of calls on a session of internal/session/store.go, and what they are to do to it.
use whisper_chat.Prelude.{ℕ, ◌-◌, String, Bool, ◌&&◌, List, [], ◌∷◌, ltb, nat_eq, text_eq, list_eq}
use whisper_chat.Redis.Commands.{key_eq}
use whisper_chat.Redis.{Redis}
use whisper_chat.Session.{
  Session, update_status, set_interests, set_chat_id, clear_chat_id, set_fingerprint, refresh_ttl,
}

-- A call on the session, so many seconds after the call before it, at the time `now` of the clock.
pub data Call : Type 0 where
  updates_status sets_interests sets_chat_id : ℕ → ℕ → String → Call
  clears_chat_id : ℕ → ℕ → Call
  sets_fingerprint : ℕ → String → Call
  refreshes : ℕ → Call

abbrev pub gap : Call → ℕ
gap (updates_status g now x) = g
gap (sets_interests g now x) = g
gap (sets_chat_id g now x) = g
gap (clears_chat_id g now) = g
gap (sets_fingerprint g x) = g
gap (refreshes g) = g

-- What a call is to do to the session.
unfoldable pub change : Call → Session → Session
change (updates_status g now x) session = record session { status = x; last_active = now }
change (sets_interests g now x) session = record session { interests = x; last_active = now }
change (sets_chat_id g now x) session = record session {
  chat_id = x;
  status = "chatting";
  last_active = now;
}
change (clears_chat_id g now) session = record session {
  chat_id = "";
  status = "idle";
  last_active = now;
}
change (sets_fingerprint g x) session = record session { fingerprint = x }
change (refreshes g) session = session

unfoldable pub change_all : List Call → Session → Session
change_all [] session = session
change_all (c ∷ calls) session = change_all calls (change c session)

-- The seconds that are left behind a call, of `t` before it.
unfoldable pub left_after : Call → ℕ → ℕ
left_after (updates_status g now x) t = 3600
left_after (refreshes g) t = 3600
left_after c t = t - gap c

-- No call, and not the Get `final` seconds later, comes too late.
unfoldable pub in_time : List Call → ℕ → ℕ → Bool
in_time [] final t = ltb final t
in_time (c ∷ calls) final t = ltb (gap c) t && in_time calls final (left_after c t)

abbrev pub new_session : String → ℕ → String → Session
new_session server now session_id = record {
  id = session_id;
  status = "idle";
  chat_id = "";
  server = server;
  interests = "";
  fingerprint = "";
  created_at = now;
  last_active = now;
}

module _ (r : Redis) (session_id : String) where
  open r use {State, elapse}

  unfoldable pub perform : Call → State → State
  perform (updates_status g now x) s = (update_status r x now session_id (elapse g s)).1
  perform (sets_interests g now x) s = (set_interests r x now session_id (elapse g s)).1
  perform (sets_chat_id g now x) s = (set_chat_id r x now session_id (elapse g s)).1
  perform (clears_chat_id g now) s = (clear_chat_id r now session_id (elapse g s)).1
  perform (sets_fingerprint g x) s = (set_fingerprint r x session_id (elapse g s)).1
  perform (refreshes g) s = (refresh_ttl r session_id (elapse g s)).1

  unfoldable pub perform_all : List Call → State → State
  perform_all [] s = s
  perform_all (c ∷ calls) s = perform_all calls (perform c s)

-- ===== src/Matching/Cleanup.antt =====
-- internal/matching/cleanup.go: one round of the cleanup loop. Times are in seconds.
pub mod Deadline
use whisper_chat.Prelude.{
  ℕ, String, Option, some, List, [], ◌∷◌, if◌then◌else◌, ◌==◌, nat_eq, text_eq, list_eq,
}
use whisper_chat.Redis.{Redis}
use whisper_chat.Redis.Commands.{Datum, text, int, Command}
use whisper_chat.Redis.Client.{Result, ok, err, as_number, as_datum, as_members, as_done, ask}
use whisper_chat.Session.{session_key}
use whisper_chat.Chat.Store.{chat_key, pending_key, status_pending_accept}
use whisper_chat.Messaging.Client.{Client, publish_match_notify}
use whisper_chat.Matching.Queue.{get_all_queued, dequeue}
use whisper_chat.Matching.Service.{Parts, Service}

module _ (r : Redis) where
  open r use {State}

  -- A user of the queue whose session does not exist leaves it; an error is passed over.
  unfoldable pub clean_stale_entry : String → Result ℕ × State → State
  clean_stale_entry sid (err, s) = s
  clean_stale_entry sid (ok n, s) = if n == 0 then (dequeue r sid s).1 else s

  unfoldable pub clean_each : List String → State → State
  unfolding clean_stale_entry
  clean_each [] s = s
  clean_each (sid ∷ sids) s =
      clean_each sids
        (clean_stale_entry sid (ask r as_number (Command.exists_key (session_key sid)) s))

  cleaned : Result (List String) × State → State
  unfolding clean_each
  cleaned (err, s) = s
  cleaned (ok sids, s) = clean_each sids s

  unfoldable pub clean_stale_entries : State → State
  unfolding cleaned
  clean_stale_entries s = cleaned (get_all_queued r s)

  -- A field as a text, "" for a missing one and for an error.
  abbrev pub text_or_empty : Result (Option Datum) → String
  text_or_empty (ok (some (text t))) = t
  text_or_empty (ok (some (int n))) = r.decimal n
  text_or_empty _ = ""

  abbrev pub read_field : String → String → State → String × State
  read_field chat_id field s =
      let (found, s') = ask r as_datum (Command.hget (chat_key chat_id) field) s in
      (text_or_empty found, s')

module _ {Data : Type 0} (w : Parts Data) where
  -- A user is told where there is one; an error is passed over.
  unfoldable pub notify_timed_out : String → String → Client w.nats → Client w.nats
  notify_timed_out chat_id user c =
      if user == ""
      then c
      else (publish_match_notify w.nats user
          (w.codec.match_notifications.marshal (record { type = "timed_out"; chat_id = chat_id }))
          c).1

  unfoldable pub expire_chat : String → Service w → Service w
  unfolding notify_timed_out
  expire_chat chat_id x =
      let (user_a, s1) = read_field w.redis chat_id "user_a" x.rdb in
      let (user_b, s2) = read_field w.redis chat_id "user_b" s1 in
      record x {
        rdb = (ask w.redis as_done (Command.del (chat_key chat_id)) s2).1;
        nats = notify_timed_out chat_id user_b (notify_timed_out chat_id user_a x.nats);
      }

  -- The body of the loop of cleanExpiredPendingChats.
  unfoldable pub clean_pending_chat : String → Service w → Service w
  unfolding expire_chat
  clean_pending_chat chat_id x =
      let (status, s) = read_field w.redis chat_id "status" x.rdb in
      let x1 = record x { rdb = s } in
      let x2 = if status == status_pending_accept then expire_chat chat_id x1 else x1 in
      record x2 { rdb = (ask w.redis as_done (Command.zrem pending_key chat_id) x2.rdb).1 }

  unfoldable pub clean_pending : List String → Service w → Service w
  unfolding clean_pending_chat
  clean_pending [] x = x
  clean_pending (chat_id ∷ chat_ids) x = clean_pending chat_ids (clean_pending_chat chat_id x)

  overdue : Result (List String) × w.redis.State → Service w → Service w
  unfolding clean_pending
  overdue (err, s) x = record x { rdb = s }
  overdue (ok chat_ids, s) x = clean_pending chat_ids (record x { rdb = s })

  unfoldable pub clean_expired_pending_chats : ℕ → Service w → Service w
  unfolding overdue
  clean_expired_pending_chats now x =
      overdue (ask w.redis as_members (Command.zrange_by_score pending_key now) x.rdb) x

  -- One tick of StartCleanup.
  unfoldable pub clean_round : ℕ → Service w → Service w
  clean_round now x =
      clean_expired_pending_chats now (record x { rdb = clean_stale_entries w.redis x.rdb })

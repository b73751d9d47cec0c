-- ===== src/Wsserver/Pairing.antt =====
-- The handlers of cmd/wsserver/main.go on the way to a chat: find_match, cancel_match, accept_match and
-- decline_match.
use whisper_chat.Prelude.{
  ℕ, String, ◌≡◌, refl, ap, inl, inr, Bool, true, false, Option, some, List, [], ◌∷◌, map,
  if◌then◌else◌, Bool-cases, nat_eq, text_eq, list_eq,
}
use whisper_chat.Redis.Client.{Result, ok}
use whisper_chat.Moderation.Patterns.{codes}
use whisper_chat.Moderation.Filter.{Filter, check, check_interests}
use whisper_chat.Moderation.Unicode.{Unicode}
use whisper_chat.Matching.Tags.{join_comma}
use whisper_chat.Ratelimit.{rule_match, allow}
use whisper_chat.Chat.Store.{ChatSession, get_partner, Acceptance, both_accepted, accept_match}
use whisper_chat.Session.{status_idle, status_matching, set_interests, update_status}
use whisper_chat.Messaging.Client.{
  publish_match_request, publish_match_cancel, publish_match_notify, subscribe_match_found,
  unsubscribe_match_found, unsubscribe_match_notify,
}
use whisper_chat.Protocol.{type_rate_limited, type_matching_started}
use whisper_chat.Protocol.Messages.{
  ClientMessage, find_match, accept_match as accept_msg, decline_match, rate_limited,
  matching_started,
}
use whisper_chat.Wsserver.{
  on_match_found, Services, World, with_redis, redis_call, nats_call, reply,
}
use whisper_chat.Wsserver.Notices.{enter_chat}
use whisper_chat.Chat.Store

-- CheckInterests on Go strings.
unfoldable pub clean_interests : Unicode → Filter → List String → List String
clean_interests u f [] = []
clean_interests u f (interest ∷ interests) =
    let rest = clean_interests u f interests in
    if (check u f (codes interest)).blocked then rest else interest ∷ rest

-- It is the filter's own function, on the code points of the texts.
pub map-clean_interests :
    (u : Unicode) (f : Filter) (l : List String)
    → map codes (clean_interests u f l) ≡ check_interests u f (map codes l)
unfolding clean_interests check_interests
map-clean_interests u f [] = refl
map-clean_interests u f (interest ∷ l) = elim (Bool-cases (check u f (codes interest)).blocked) [
  | inl blocked ↦ rw blocked (map-clean_interests u f l)
  | inr clean ↦ rw clean (ap (◌∷◌ (codes interest)) (map-clean_interests u f l))
]

module _ {Data : Type 0} (w : Services Data) (now : ℕ) where
  -- find_match within the limit.
  unfoldable pub start_matching : ℕ → String → List String → World w → World w
  start_matching ref sid wanted s =
      let interests = clean_interests w.unicode w.filter wanted in
      let s1 = redis_call (set_interests w.redis (join_comma interests) now sid) s in
      let s2 = redis_call (update_status w.redis status_matching now sid) s1 in
      let s3 =
        nats_call
          (publish_match_request w.nats
            (w.codec.match_requests.marshal (record { session_id = sid; interests = interests })))
          s2 in
      let s4 = nats_call (unsubscribe_match_found w.nats sid) s3 in
      let s5 = nats_call (subscribe_match_found w.nats sid (on_match_found sid)) s4 in
      reply ref type_matching_started (matching_started (record { timeout = 30 })) s5

  unfoldable pub handle_find_match : ℕ → String → ClientMessage → World w → World w
  unfolding start_matching
  handle_find_match ref sid (find_match m) s =
      let (verdict, s') = with_redis (allow w.redis sid rule_match) s in
      if verdict.allowed
      then start_matching ref sid m.interests s'
      else reply ref type_rate_limited (rate_limited (record { retry_after = rule_match.window }))
          s'
  handle_find_match ref sid _ s = s

  unfoldable pub handle_cancel_match : String → World w → World w
  handle_cancel_match sid s =
      let s1 =
        nats_call
          (publish_match_cancel w.nats
            (w.codec.cancel_requests.marshal (record { session_id = sid })))
          s in
      let s2 = nats_call (unsubscribe_match_found w.nats sid) s1 in
      let s3 = nats_call (unsubscribe_match_notify w.nats sid) s2 in
      redis_call (update_status w.redis status_idle now sid) s3

  -- Telling the partner by NATS, where the chat is found.
  unfoldable pub tell_partner : String → String → Result (Option ChatSession) → World w → World w
  tell_partner sid notice (ok (some cs)) s =
      nats_call
        (publish_match_notify w.nats (get_partner cs sid)
          (w.codec.match_notifications.marshal (record { type = notice; chat_id = cs.chat_id })))
        s
  tell_partner sid notice _ s = s

  -- accept_match where both have accepted.
  unfoldable pub activate : String → String → World w → World w
  unfolding tell_partner
  activate sid chat_id s =
      let s1 = enter_chat w now sid chat_id s in
      let (found, s2) = with_redis (Store.get w.redis chat_id) s1 in
      nats_call (unsubscribe_match_notify w.nats sid) (tell_partner sid "accepted" found s2)

  abbrev pub is_both : Result Acceptance → Bool
  is_both (ok both_accepted) = true
  is_both _ = false

  unfoldable pub handle_accept_match : String → ClientMessage → World w → World w
  unfolding activate
  handle_accept_match sid (accept_msg m) s =
      let (result, s') = with_redis (accept_match w.redis m.chat_id sid) s in
      if is_both result then activate sid m.chat_id s' else s'
  handle_accept_match sid _ s = s

  -- decline_match, once the chat is read.
  unfoldable pub decline : String → String → Result (Option ChatSession) → World w → World w
  decline sid chat_id (ok (some cs)) s =
      let s1 = redis_call (Store.delete w.redis chat_id) s in
      let s2 = tell_partner sid "declined" (ok (some cs)) s1 in
      let s3 = nats_call (unsubscribe_match_notify w.nats sid) s2 in
      redis_call (update_status w.redis status_idle now sid) s3
  decline sid chat_id _ s = s

  unfoldable pub handle_decline_match : String → ClientMessage → World w → World w
  unfolding decline
  handle_decline_match sid (decline_match m) s =
      let (found, s') = with_redis (Store.get w.redis m.chat_id) s in decline sid m.chat_id found s'
  handle_decline_match sid _ s = s

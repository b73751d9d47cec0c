-- ===== src/Tests/HandlerTests.antt =====
-- Runs of the handlers of cmd/wsserver and of the callbacks of the matching service.
use whisper_chat.Prelude.{
  ◌-◌, ◌≤◌, ◌<◌, String, ◌≡◌, refl, ◌≢◌, ◌⊎◌, ◌||◌, none, some, [], ◌∷◌, ◌++◌, arith, if◌then◌else◌,
  ◌==◌, nat_eq, text_eq, list_eq,
}
use whisper_chat.Prelude.Dict.{lookup, insert}
use whisper_chat.Ws.Connections.{add}
use whisper_chat.Redis.{is_member}
use whisper_chat.Redis.Commands.{text}
use whisper_chat.Redis.Client.{ok, ask}
use whisper_chat.Redis.Memory.{Memory, fresh, sound_memory, sound_memory_up}
use whisper_chat.Ban.{ban}
use whisper_chat.Session.{set_fingerprint, create}
use whisper_chat.Ratelimit.{rule_match, allow}
use whisper_chat.Protocol.Messages.{
  SetFingerprintMsg, FindMatchMsg, find_match, set_fingerprint as fingerprint_msg, ReportMsg,
  report,
}
use whisper_chat.Wsserver.{World, with_redis}
use whisper_chat.Wsserver.Abuse.{handle_set_fingerprint, handle_report}
use whisper_chat.Wsserver.Reports.{filed_in, rows-handle_report}
use whisper_chat.Wsserver.Banned.{banned_frame, handle_set_fingerprint-ban}
use whisper_chat.Wsserver.Disconnect.{callbacks}
use whisper_chat.Wsserver.Pairing.{handle_find_match}
use whisper_chat.Wsserver.Requests.{allowed_interests, sent-handle_find_match}
use whisper_chat.Matching.Payloads.{MatchRequest}
use whisper_chat.Matching.Queue.{is_queued}
use whisper_chat.Matching.Service.{hear, handle_match_request}
use whisper_chat.Matching.Service.Requests.{is_queued-hear}
use whisper_chat.Tests.Fakes.{payloads}
use whisper_chat.Tests.WsserverTests.{services, world, connection, chatting, parts, matcher}
use whisper_chat.Chat.Store

-- 600 seconds into a ban of 900.
abbrev in_ban : Memory
in_ban = sound_memory.elapse 600 (ban sound_memory "f" 900 (text "spam") (fresh [])).1

abbrev in_ban_world : World services
in_ban_world = record world { app = record world.app { rdb = in_ban } }

abbrev finger : String
finger = "f"

given : finger ≢ ""
given e = ground (arith, text_eq.beq_iff "f" "")

stored : (set_fingerprint sound_memory "f" "a" in_ban).0 ≡ ok tt
unfolding set_fingerprint ask ban lookup insert
stored = refl

registered : lookup 0 world.conns.heap ≡ some connection
unfolding add lookup insert
registered = refl

under_id : lookup connection.id world.conns.by_id ≡ some 0
unfolding add lookup insert
under_id = refl

handle_set_fingerprint-ban_example :
    let m : SetFingerprintMsg = record { type = "set_fingerprint"; fingerprint = "f" } in
    let s' =
      handle_set_fingerprint services
        (callbacks services 9)
        0
        "a"
        (fingerprint_msg m)
        in_ban_world in
    ((600 < 900)
      × (lookup connection.id s'.conns.by_id ≡ none)
      × (s'.net
          ≡ []
            ++ (1, banned_frame services (callbacks services 9) sound_memory_up (900 - 600) "spam")
              ∷ []))
    ⊎ ((900 ≤ 600) × (s'.conns ≡ in_ban_world.conns) × (s'.net ≡ in_ban_world.net))
handle_set_fingerprint-ban_example =
    handle_set_fingerprint-ban services (callbacks services 9) sound_memory_up 0 900 600 "f" "spam"
      (fresh []) in_ban_world connection given (omega arith) refl stored registered under_id refl

abbrev wish : FindMatchMsg
wish = record { type = "find_match"; interests = "go" ∷ "buy now www.spam.com" ∷ [] }

sent-handle_find_match_example :
    let request : MatchRequest = record {
      session_id = "a";
      interests = allowed_interests services.unicode services.filter wish.interests;
    } in
    (handle_find_match services 9 0 "a" (find_match wish) world).app.nats.conn.sent ≡ (
      if (allow sound_memory "a" rule_match chatting).0.allowed
      then []
        ++ (record { prefix = "match.request"; id = "" }, payloads.match_requests.marshal request)
          ∷ []
      else [])
sent-handle_find_match_example =
    sent-handle_find_match services 9 (λ subject d c. refl) 0 "a" wish world

abbrev asked : MatchRequest
asked = record { session_id = "a"; interests = "go" ∷ [] }

is_queued-hear_example :
    (is_queued sound_memory "a"
      (hear parts 9000 handle_match_request (payloads.match_requests.marshal asked) matcher).rdb).0
    ≡ ok (asked.session_id == "a" || is_member "a" [])
is_queued-hear_example = is_queued-hear parts sound_memory_up 9000 asked "a" [] matcher refl

-- The two users of a chat, with their fingerprints.
abbrev known_users : Memory
known_users =
    (set_fingerprint sound_memory "f" "b"
      (create sound_memory "ws-1" 0 "b"
        (set_fingerprint sound_memory "g" "a" (create sound_memory "ws-1" 0 "a" chatting).1).1).1).1

abbrev quarrel : World services
quarrel = record world { app = record world.app { rdb = known_users } }

abbrev complaint : ReportMsg
complaint = record { type = "report"; chat_id = "c"; reason = "spam" }

rows-handle_report_example :
    (handle_report services (callbacks services 9) "a" (report complaint) quarrel).app.db
    ≡ []
      ++ filed_in services 9 "a" complaint
          (Store.get sound_memory "c" known_users).0
          (with_redis (Store.get sound_memory "c") quarrel).1
rows-handle_report_example = rows-handle_report services 9 (λ r d. refl) "a" complaint quarrel

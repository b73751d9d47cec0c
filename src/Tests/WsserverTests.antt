-- ===== src/Tests/WsserverTests.antt =====
-- Runs of cmd/wsserver, cmd/moderator and the matching service.
use whisper_chat.Prelude.{
  ℕ, String, ◌≡◌, refl, ◌≢◌, ◌⊎◌, true, false, ◌&&◌, none, some, [], ◌∷◌, ◌++◌, if◌then◌else◌,
  nat_eq, text_eq, list_eq,
}
use whisper_chat.Wsserver.{App, Handler, on_chat, Services, World}
use whisper_chat.Prelude.Dict.{lookup, insert, Dict, remove}
use whisper_chat.Redis.Memory.{Memory, fresh, sound_memory, sound_memory_up}
use whisper_chat.Messaging.{Nats}
use whisper_chat.Messaging.Client.{Client}
use whisper_chat.Moderation.Unicode.{ascii}
use whisper_chat.Moderation.Patterns.{codes}
use whisper_chat.Moderation.Filter.{Filter, check}
use whisper_chat.Moderation.Reviews.{ModerationRequest, ModerationResult}
use whisper_chat.Moderator.{review, sent-review}
use whisper_chat.Chat.Buffer.{new_message_buffer}
use whisper_chat.Chat.Store.{create_pending, accept_match, chat_key, pending_key}
use whisper_chat.Protocol.Messages.{ChatMsg, message}
use whisper_chat.Ws.Connections.{Connection, new_connection_manager, add, get}
use whisper_chat.Wsserver.Chatting.{bytes, handle_message, message_event}
use whisper_chat.Wsserver.Publishing.{passed_on, is_sendable, handle_message-is_sendable}
use whisper_chat.Wsserver.Notices.{deliver}
use whisper_chat.Wsserver.Delivery.{partner_frame, deliver-message_event}
use whisper_chat.Matching.Queue.{Hashing}
use whisper_chat.Matching.Tiers.{MatchCandidate}
use whisper_chat.Matching.Payloads.{MatchResult}
use whisper_chat.Matching.Service.{Callback, Parts, Service, handle_match, search}
use whisper_chat.Matching.Service.Pairs.{
  sent-handle_match, first_found, open_tiers, search-open_tiers,
}
use whisper_chat.Session.{create, set_chat_id}
use whisper_chat.Wsserver.Disconnect.{disconnected}
use whisper_chat.Wsserver.Leaving.{notices, sent-disconnected}
use whisper_chat.Redis.{is_member}
use whisper_chat.Redis.Client.{ask}
use whisper_chat.Redis.Commands.{Value, missing, zset_of, within}
use whisper_chat.Matching.Cleanup.{
  clean_expired_pending_chats, clean_pending, clean_pending_chat, expire_chat, notify_timed_out,
}
use whisper_chat.Matching.Cleanup.Deadline.{is_pending, clean_expired_pending_chats-is_pending}
use whisper_chat.Tests.Fakes.{wire, quiet, taps, Payload, payloads, table}
use whisper_chat.Tests.Rankings.{orders}
use whisper_chat.Session
use whisper_chat.Chat.Buffer

abbrev pub services : Services Payload
services = record {
  redis = sound_memory;
  nats = wire Handler Payload;
  codec = payloads;
  sockets = taps;
  postgres = table;
  unicode = ascii;
  filter = record { words = []; phrases = [] };
  server_name = "ws-1";
}

-- A chat that both users have accepted.
abbrev pub chatting : Memory
chatting =
    (accept_match sound_memory "c" "b"
      (accept_match sound_memory "c" "a"
        (create_pending sound_memory 0 "c" "a" "b" (fresh [])).1).1).1

abbrev pub connection : Connection
connection = record {
  id = "a";
  socket = 1;
  fd = 11;
  created_at = 0;
  last_ping = 0;
  processing = false;
}

abbrev pub world : World services
world = record {
  conns = add 0 connection new_connection_manager;
  net = [];
  draining = false;
  app = record {
    rdb = chatting;
    nats = record { conn = quiet Handler Payload; subs = [] };
    buffer = new_message_buffer;
    db = [];
  };
}

abbrev hello : ChatMsg
hello = record { type = "message"; chat_id = "c"; text = "hello" }

handle_message-is_sendable_example :
    let s' = handle_message services 7 0 "a" (message hello) world in
    let passes = is_sendable services 7 "a" hello chatting in
    (s'.app.nats.conn.sent ≡ (if passes then [] ++ passed_on services 7 "a" hello else []))
    × (s'.app.buffer ≡ (
        if passes
        then Buffer.add "c"
            (record { sender = "a"; text = bytes "hello"; ts = 7 })
            new_message_buffer
        else new_message_buffer))
handle_message-is_sendable_example =
    handle_message-is_sendable services 7 (λ subject d c. refl) 0 "a" hello world

connected : get "a" world.conns ≡ some (0, connection)
unfolding get add insert lookup
connected = refl

abbrev user_a : String
user_a = "a"

abbrev user_b : String
user_b = "b"

deliver-message_event_example :
    let s' =
      deliver services 8
        (on_chat "a")
        (payloads.chat_events.marshal (message_event services 7 "b" "hello"))
        world in
    ((user_b ≡ user_a) × (s' ≡ world))
    ⊎ ((user_b ≢ user_a) × (s'.net ≡ [] ++ (1, partner_frame services 8 "hello" 7) ∷ []))
deliver-message_event_example =
    deliver-message_event services 8 7 "b" "a" "hello" world 0 connection connected refl

abbrev moderators : Nats ℕ Payload
moderators = wire ℕ Payload

abbrev spam : ModerationRequest
spam = record { session_id = "a"; chat_id = "c"; text = "aaaaaaaaaaaaaaa"; ts = 7 }

abbrev no_terms : Filter
no_terms = record { words = []; phrases = [] }

abbrev moderator : Client moderators
moderator = record { conn = quiet ℕ Payload; subs = [] }

sent-review_example :
    let result = check ascii no_terms (codes "aaaaaaaaaaaaaaa") in
    let verdict : ModerationResult = record {
      session_id = "a";
      chat_id = "c";
      blocked = true;
      reason = result.reason;
      term = result.term;
    } in
    (review moderators payloads ascii no_terms
      (payloads.moderation_requests.marshal spam)
      moderator).conn.sent
    ≡ (if result.blocked
        then []
          ++ (
            record { prefix = "moderation.result"; id = "a" },
            payloads.moderation_results.marshal verdict,
          )
            ∷ []
        else [])
sent-review_example =
    sent-review moderators payloads ascii no_terms spam moderator (λ subject d c. refl)

abbrev hashing : Hashing
hashing = record { sort_strings = λ l. l; digest = λ t. t }

abbrev pub parts : Parts Payload
parts = record {
  redis = sound_memory;
  nats = wire Callback Payload;
  codec = payloads;
  hashing = hashing;
  orders = orders;
  uuid = λ n. "chat";
}

abbrev pair : MatchCandidate
pair = record { session_a = "a"; session_b = "b"; shared_interests = "go" ∷ [] }

abbrev pub matcher : Service parts
matcher = record {
  rdb = fresh [];
  nats = record { conn = quiet Callback Payload; subs = [] };
  made = 0;
}

sent-handle_match_example :
    let told_a : MatchResult = record {
      timeout = false;
      chat_id = "chat";
      partner_id = "b";
      shared_interests = "go" ∷ [];
      accept_deadline = 15;
    } in
    (handle_match parts 9000 pair matcher).nats.conn.sent
    ≡ []
      ++ (record { prefix = "match.found"; id = "a" }, payloads.match_results.marshal told_a)
        ∷ (
          record { prefix = "match.found"; id = "b" },
          payloads.match_results.marshal (record told_a { partner_id = "a" }),
        )
        ∷ []
sent-handle_match_example = sent-handle_match parts (λ subject d c. refl) 9000 pair matcher

search-open_tiers_example :
    search parts "a" 12000 (fresh [])
    ≡ first_found parts (open_tiers parts "a" 12000) (none, fresh [])
search-open_tiers_example = search-open_tiers parts "a" 12000 (fresh [])

-- A session that chats.
abbrev app : App services
app = record world.app {
  rdb = (set_chat_id sound_memory "c" 5 "a" (create sound_memory "ws-1" 0 "a" chatting).1).1;
}

sent-disconnected_example :
    let (found, rdb) = Session.get sound_memory "a" app.rdb in
    (disconnected services 9 "a" app).nats.conn.sent ≡ [] ++ notices services 9 "a" found rdb
sent-disconnected_example = sent-disconnected services 9 (λ subject d c. refl) "a" app

-- A chat that nobody has accepted within its 15 seconds.
abbrev overdue : Service parts
overdue = record matcher { rdb = (create_pending sound_memory 0 "c" "a" "b" (fresh [])).1 }

abbrev deadlines : Dict String ℕ
deadlines = ("c", 15) ∷ []

abbrev at_stake : Value
at_stake = sound_memory.value overdue.rdb (chat_key "c")

deadline_set : sound_memory.value overdue.rdb pending_key ≡ zset_of deadlines
unfolding create_pending insert
deadline_set = refl

chat_gone :
    sound_memory.value (clean_expired_pending_chats parts 20 overdue).rdb (chat_key "c") ≡ missing
unfolding clean_expired_pending_chats clean_pending clean_pending_chat expire_chat create_pending
    insert lookup remove ask notify_timed_out
chat_gone = refl

clean_expired_pending_chats-is_pending_example :
    sound_memory.value (clean_expired_pending_chats parts 20 overdue).rdb (chat_key "c") ≡ (
      if is_member "c" (within 20 deadlines) && is_pending parts sound_memory_up at_stake
      then missing
      else at_stake)
clean_expired_pending_chats-is_pending_example =
    clean_expired_pending_chats-is_pending parts sound_memory_up 20 "c" deadlines overdue
      deadline_set

-- ===== src/Lib.antt =====
-- Whisper: anonymous chat between two strangers, matched by their interests. A WebSocket server
-- (cmd/wsserver), a matcher (cmd/matcher) and a moderator (cmd/moderator) share Redis and talk by NATS.
-- A frame from a user goes through internal/ws to a handler of cmd/wsserver, which uses the stores and
-- publishes; the other processes, and the server of the partner, hear of it by NATS.
--
--   Wsserver          cmd/wsserver/main.go          the handlers of the client's messages, the callbacks
--                                                   of NATS and of SetOnDisconnect
--   Ws.Connections    internal/ws/connection.go     the registry: Add, Remove, RemoveByFd, Get and others
--   Ws.Server         internal/ws/server.go         handleUpgrade, handleConn, RemoveConnection,
--                                                   SendMessage, Shutdown
--   Ws.Dispatcher     internal/ws/dispatcher.go     Register, Dispatch and its replies
--   Ws.Heartbeat      internal/ws/heartbeat.go      checkConnections, WritePing
--   Protocol          internal/protocol/messages.go the structs, ParseClientMessage, NewServerMessage
--   Messaging.Client  internal/messaging/nats.go    NATSClient with its table of subscriptions
--   Chat.Store        internal/chat/store.go        CreatePending, Get, AcceptMatch with its Lua script,
--                                                   Delete, GetPartner, IsParticipant
--   Chat.Buffer       internal/chat/buffer.go       NewMessageBuffer, Add, Get, Remove
--   Chat.Validator    internal/chat/validator.go    ValidateMessage
--   Session           internal/session/store.go     Create, Get, UpdateStatus, SetInterests, SetChatID,
--                                                   ClearChatID, SetFingerprint, RefreshTTL, Delete
--   Matching.Queue    internal/matching/queue.go    InterestsHash, Enqueue, Dequeue, GetEntry and the
--                                                   other operations of the queue
--   Matching.Tiers    internal/matching/exact.go,   TryExactMatch, TryRandomMatch
--                     internal/matching/random.go
--   Matching.Overlap  internal/matching/overlap.go, TryOverlapMatch, TrySingleInterestMatch
--                     internal/matching/single.go
--   Matching.Service  internal/matching/service.go, processQueue, handleMatch, handleTimeout, the two
--                     internal/matching/publisher.go callbacks, PublishMatchFound
--   Matching.Cleanup  internal/matching/cleanup.go  cleanStaleEntries, cleanExpiredPendingChats
--   Moderator         cmd/moderator/main.go         the review of a message
--   Report            internal/report/store.go      Create, CountRecent
--   Ban               internal/ban/store.go         IsBanned, Ban, Unban, GetOffenseCount, Escalate,
--                                                   ReportAndCheck
--   Ratelimit         internal/ratelimit/limiter.go Allow, Remaining and the three rules
--   Moderation.Filter internal/moderation/filter.go NewFilterWithTerms, Check, CheckInterests and the
--                                                   tokenizers
--   Moderation.Spam   internal/moderation/spam.go   the flood scans and the ordered checks;
--                                                   Moderation.Patterns has the two regular expressions
--
-- A function of the source is a definition of the same name in snake case. One that talks to Redis
-- takes the interface (Redis.antt) and the state of the server and gives the results with the new
-- state; the rest of a function behind a call that may fail is a helper by clauses on the call's
-- result. Redis itself is not part of the repository: Redis.antt states what its documentation
-- says of the commands that are sent, with lost connections, values of the wrong type, times to live
-- and the passing of time, and Redis/Memory.antt shows that it can be met. The tables of Go's package
-- unicode are an interface too (Moderation/Unicode.antt), sorting of texts and SHA-256 are parameters
-- (Matching/Queue.antt), while UTF-8 (Chat/Utf8.antt), the cutting of strings (Moderation/Words.antt,
-- Matching/Tags.antt) and matching of regular expressions (Moderation/Patterns.antt) are written out as
-- Go documents them.
--
-- NATS (Messaging.antt), sockets with epoll and the upgrade of HTTP (Ws/Server.antt), PostgreSQL
-- (Report.antt) and the order of Go's maps (Matching/Overlap.antt) are interfaces of the same kind;
-- Tests/Fakes.antt and Tests/Rankings.antt meet them. encoding/json is cut in two: a frame of a
-- client is what it reads, a value or an error (Protocol.antt), and what NATS carries is written and
-- read by a codec of which only the round trip is known (Payloads.antt). Connections are shared
-- objects, so that the registry holds references into a heap. A closure that is given to NATS is a
-- constructor with what it closes over (Wsserver.antt, Matching/Service.antt). The state of the
-- server contains that of the stores, of NATS and of the database, and a handler is a function from
-- this state to the next one.
--
-- Texts are lists of bytes where the code counts bytes (messages) and lists of code points where it
-- ranges over runes (the filter). Numbers are natural numbers: counters, times in whole seconds
-- and lengths that stay far below 2^63; no caller gives a ban a negative duration, and a JSON number
-- that is negative or no whole one is kept as its text. Every loop is a recursion on the list or on the number of rounds that are
-- left, so no fuel is needed. A mutex makes a call one step, and calls of several goroutines are
-- sequences of such steps (Chat/Buffer/History.antt, Chat/Store/Handshake.antt, Session/Calls.antt,
-- Ban/Offenses.antt, Ws/Connections/Registry.antt); steps of a call between two Redis commands are not
-- interleaved with those of others, and a handler of the server, an upgrade or a round of the matcher
-- is one step too.
--
-- Not modelled: reading the configuration and opening connections, the tickers and the event loop with
-- its pool of workers, the two status pages, metrics, migrations, epoll, the load generators and the
-- front end. The default blocklist is an argument of the filter. Log lines are left out, and the texts
-- of errors where no user sees them.
pub mod Ban
pub mod Chat
pub mod Matching
pub mod Messaging
pub mod Moderation
pub mod Moderator
pub mod Payloads
pub mod Prelude
pub mod Protocol
pub mod Ratelimit
pub mod Redis
pub mod Report
pub mod Session
pub mod Tests
pub mod Ws
pub mod Wsserver

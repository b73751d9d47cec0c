-- ===== src/Wsserver.antt =====
-- cmd/wsserver/main.go: the process that serves the users. Its parts come together here: what it calls,
-- its state, and the calls that its handlers make. Metrics and logs are left out.
pub mod Rows
pub mod Reports
pub mod Requests
pub mod Banned
pub mod Leaving
pub mod Delivery
pub mod Publishing
pub mod Handlers
pub mod Pairing
pub mod Abuse
pub mod Disconnect
pub mod Chatting
pub mod Notices
use whisper_chat.Prelude.{
  ℕ, zero, suc, ◌+◌, ◌-◌, ◌*◌, ◌/◌, ◌%◌, ◌^◌, ◌≤◌, ◌<◌, compare, Ordering, String, ◌≡◌, refl, sym,
  ap, ap₂, subst, ◌∙◌, fun_ext, ◌≢◌, ◌↔◌, ◌⊎◌, inl, inr, Bool, true, false, not, ◌&&◌, ◌||◌, Option,
  none, some, List, [], ◌∷◌, ◌++◌, map, arith, ltb, leb, if◌then◌else◌, ltb→lt, lt→ltb, leb→le,
  le→leb, tests, Bool-cases, Option-cases, Eq, ◌==◌, nat_eq, text_eq, list_eq, ==-self, ==-ne,
  length, get_or, set, drop, replicate, length-append, length-set, length-replicate,
  get_or-set_self, get_or-set_ne, All, contains, ==-comm,
}
use whisper_chat.Redis.{Redis}
use whisper_chat.Moderation.Unicode.{Unicode}
use whisper_chat.Moderation.Filter.{Filter}
use whisper_chat.Messaging.{Nats}
use whisper_chat.Messaging.Client.{Client}
use whisper_chat.Payloads.{Codec}
use whisper_chat.Report.{Postgres}
use whisper_chat.Chat.Buffer.{MessageBuffer}
use whisper_chat.Protocol.Messages.{ServerMessage}
use whisper_chat.Protocol.Server.{new_server_message}
use whisper_chat.Ws.Server.{Sockets, Server, write_message, send_message}

-- The callbacks that the server gives to NATS, with the session that each closes over.
pub data Handler : Type 0 where
  on_chat on_match_found on_match_notify on_moderation_result : String → Handler

-- What the server is built from, with the content filter's terms and the name of the server.
pub record Services (Data : Type 0) : Type 1 where
  pub redis : Redis
  pub nats : Nats Handler Data
  pub codec : Codec Data
  pub sockets : Sockets
  pub postgres : Postgres
  pub unicode : Unicode
  pub filter : Filter
  pub server_name : String

module _ {Data : Type 0} (w : Services Data) where
  pub record App : Type 0 where
    pub rdb : w.redis.State
    pub nats : Client w.nats
    pub buffer : MessageBuffer
    pub db : w.postgres.State

  abbrev pub World : Type 0
  World = Server w.sockets App

module _ {Data : Type 0} {w : Services Data} where
  -- A call of a store, with its result.
  abbrev pub with_redis {ℓ} :
      {A : Type ℓ} → (w.redis.State → A × w.redis.State) → World w → A × World w
  with_redis call s =
      let (a, rdb) = call s.app.rdb in (a, record s { app = record s.app { rdb = rdb } })

  -- A call of a store or of NATS whose result is not used.
  abbrev pub redis_call {ℓ} : {A : Type ℓ} → (w.redis.State → A × w.redis.State) → World w → World w
  redis_call call s = (with_redis call s).1

  abbrev pub nats_call : (Client w.nats → Bool × Client w.nats) → World w → World w
  nats_call call s = record s { app = record s.app { nats = (call s.app.nats).1 } }

  abbrev pub change_buffer : (MessageBuffer → MessageBuffer) → World w → World w
  change_buffer change s = record s { app = record s.app { buffer = change s.app.buffer } }

  -- conn.WriteMessage of a new server message
  abbrev pub reply : ℕ → String → ServerMessage → World w → World w
  reply ref msg_type m s = (write_message w.sockets ref (new_server_message msg_type m) s).1

  -- server.SendMessage of a new server message
  abbrev pub tell : String → String → ServerMessage → World w → World w
  tell session_id msg_type m s =
      (send_message w.sockets session_id (new_server_message msg_type m) s).1

-- ===== src/Ws/Server.antt =====
-- internal/ws/server.go: the server that owns the connections. The sockets, the upgrade of HTTP and
-- epoll are not part of the repository: they are an interface, with what is documented of them.
pub mod Frames
pub mod Removal
pub mod Limit
use whisper_chat.Prelude.{
  ℕ, zero, suc, ◌+◌, ◌-◌, ◌*◌, ◌/◌, ◌%◌, ◌^◌, ◌≤◌, ◌<◌, compare, Ordering, String, ◌≡◌, refl, sym,
  ap, ap₂, subst, ◌∙◌, fun_ext, ◌≢◌, ◌↔◌, ◌⊎◌, inl, inr, Bool, true, false, not, ◌&&◌, ◌||◌, Option,
  none, some, List, [], ◌∷◌, ◌++◌, map, arith, ltb, leb, if◌then◌else◌, ltb→lt, lt→ltb, leb→le,
  le→leb, tests, Bool-cases, Option-cases, Eq, ◌==◌, nat_eq, text_eq, list_eq, ==-self, ==-ne,
  length, get_or, set, drop, replicate, length-append, length-set, length-replicate,
  get_or-set_self, get_or-set_ne, All, contains, ==-comm,
}
use whisper_chat.Prelude.Dict.{Dict, lookup}
use whisper_chat.Protocol.{Json}
use whisper_chat.Ws.Connections.{
  Connection, Manager, add, remove_id, get, get_by_fd, count, all, update,
}

-- What is written to a socket: a text frame with a JSON object, or a ping.
pub data Frame : Type 0 where
  text_frame : Dict String Json → Frame
  ping_frame : Frame

-- Sockets are known by a number that is not used again.
pub record Sockets : Type 1 where
  pub Net : Type 0
  pub write : ℕ → Frame → Net → Bool × Net
  pub close : ℕ → Net → Net
  pub epoll_add : ℕ → Net → Bool × Net
  pub epoll_remove : ℕ → Net → Net
  -- What was written, oldest first.
  pub written : Net → List (ℕ × Frame)
  pub written-write :
      (socket : ℕ) (frame : Frame) (net : Net)
      → written (write socket frame net).1
        ≡ (if (write socket frame net).0 then written net ++ (socket, frame) ∷ [] else written net)
  pub written-close : (socket : ℕ) (net : Net) → written (close socket net) ≡ written net
  pub written-epoll_add : (socket : ℕ) (net : Net) → written (epoll_add socket net).1 ≡ written net
  pub written-epoll_remove :
      (socket : ℕ) (net : Net) → written (epoll_remove socket net) ≡ written net

-- Times are in seconds, sizes in bytes.
pub record ServerConfig : Type 0 where
  pub worker_pool_size : ℕ
  pub max_connections : ℕ
  pub read_timeout : ℕ
  pub write_timeout : ℕ
  pub max_frame_size : ℕ

abbrev pub default_server_config : ServerConfig
default_server_config = record {
  worker_pool_size = 256;
  max_connections = 100000;
  read_timeout = 10;
  write_timeout = 10;
  max_frame_size = 4096;
}

-- What the application does: the callback of SetOnDisconnect, and the session store's Create and Delete.
pub record Callbacks (App : Type 0) : Type 0 where
  pub on_disconnect : String → App → App
  pub create_session : String → App → App
  pub delete_session : String → App → App

module _ (k : Sockets) (App : Type 0) where
  -- The server's own state, with the application's.
  pub record Server : Type 0 where
    pub conns : Manager
    pub net : k.Net
    pub draining : Bool
    pub app : App

module _ (k : Sockets) {App : Type 0} where
  -- Connection.WriteMessage
  unfoldable pub write_message : ℕ → Dict String Json → Server k App → Bool × Server k App
  write_message ref message s = elim (lookup ref s.conns.heap) [
    | none ↦ (false, s)
    | some c ↦
        let (done, net) = k.write c.socket (text_frame message) s.net in
        (done, record s { net = net })
  ]

  -- Connection.WritePing of heartbeat.go
  unfoldable pub write_ping : ℕ → Server k App → Bool × Server k App
  write_ping ref s = elim (lookup ref s.conns.heap) [
    | none ↦ (false, s)
    | some c ↦ let (done, net) = k.write c.socket ping_frame s.net in (done, record s { net = net })
  ]

  unfoldable pub send_message : String → Dict String Json → Server k App → Bool × Server k App
  send_message id message s = elim (get id s.conns) [
    | none ↦ (false, s)
    | some p ↦
        let (done, net) = k.write p.1.socket (text_frame message) s.net in
        (done, record s { net = net })
  ]

  unfoldable pub broadcast_to : List ℕ → Dict String Json → Server k App → Server k App
  broadcast_to [] message s = s
  broadcast_to (ref ∷ refs) message s = broadcast_to refs message (write_message ref message s).1

  -- ConnectionManager.Broadcast: a failed write is passed over.
  unfoldable pub broadcast : Dict String Json → Server k App → Server k App
  unfolding broadcast_to
  broadcast message s = broadcast_to (all s.conns) message s

  module _ (calls : Callbacks App) where
    -- RemoveConnection, once the connection manager has answered.
    unfoldable pub removed :
        String → Option (ℕ × Connection) × Manager → Server k App → Server k App
    removed id (none, conns) s = s
    removed id (some p, conns) s = record s {
      conns = conns;
      net = k.close p.1.socket s.net;
      app = calls.delete_session id (calls.on_disconnect id s.app);
    }

    unfoldable pub remove_connection : ℕ → Server k App → Server k App
    remove_connection ref s = elim (lookup ref s.conns.heap) [
      | none ↦ s
      | some c ↦
          let s' = record s { net = k.epoll_remove c.socket s.net } in
          removed c.id (remove_id c.id s.conns) s'
    ]

    -- Shutdown up to the wait: no more upgrades, and the application hears of every connection.
    unfoldable pub tell_all : List ℕ → Server k App → Server k App
    tell_all [] s = s
    tell_all (ref ∷ refs) s = elim (lookup ref s.conns.heap) [
      | none ↦ tell_all refs s
      | some c ↦ tell_all refs (record s { app = calls.on_disconnect c.id s.app })
    ]

    unfoldable pub start_shutdown : Server k App → Server k App
    unfolding tell_all
    start_shutdown s = tell_all (all s.conns) (record s { draining = true })

    -- Shutdown after the wait: what is left is closed by force.
    unfoldable pub close_all : List ℕ → Server k App → Server k App
    close_all [] s = s
    close_all (ref ∷ refs) s = elim (lookup ref s.conns.heap) [
      | none ↦ close_all refs s
      | some c ↦ close_all refs (record s {
        app = calls.delete_session c.id s.app;
        net = k.close c.socket (k.epoll_remove c.socket s.net);
      })
    ]

    unfoldable pub finish_shutdown : Server k App → Server k App
    unfolding close_all
    finish_shutdown s = close_all (all s.conns) s

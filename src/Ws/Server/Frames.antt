-- ===== src/Ws/Server/Frames.antt =====
-- What internal/ws/server.go does with an upgrade and with a frame that a client sends.
use whisper_chat.Prelude.{
  ℕ, String, Bool, true, false, ◌&&◌, Option, none, some, ltb, leb, if◌then◌else◌, ◌==◌, nat_eq,
  text_eq, list_eq, length,
}
use whisper_chat.Prelude.Dict.{Dict}
use whisper_chat.Protocol.{Json, type_session_created, type_error}
use whisper_chat.Protocol.Messages.{session_created, error}
use whisper_chat.Protocol.Server.{new_server_message}
use whisper_chat.Ws.Connections.{Connection, Manager, add, remove_id, get_by_fd, count, update}
use whisper_chat.Ws.Server.{
  Sockets, ServerConfig, Callbacks, Server, write_message, remove_connection,
}

-- How an HTTP request ends.
pub data Upgrade : Type 0 where
  shutting_down too_many upgrade_failed epoll_failed registered : Upgrade

-- What a read of a frame gives: a time-out, another error, a control frame, or a data frame with its
-- length and, where the payload can be read, the JSON value that its bytes stand for, if any.
pub data Read : Type 0 where
  timed_out failed : Read
  control : (is_close : Bool) → Read
  frame : (length : ℕ) → (payload : Option (Option Json)) → Read

module _ (k : Sockets) {App : Type 0} (config : ServerConfig) (calls : Callbacks App) where
  -- conns.Remove, which closes what it removes.
  unfoldable pub unregistered : Option (ℕ × Connection) × Manager → Server k App → Server k App
  unregistered (none, conns) s = s
  unregistered (some p, conns) s = record s { conns = conns; net = k.close p.1.socket s.net }

  -- handleUpgrade, once the connection is in the manager and epoll has answered.
  unfoldable pub admit : ℕ → String → Bool × k.Net → Server k App → Upgrade × Server k App
  unfolding unregistered
  admit ref session_id (false, net) s =
      (epoll_failed, unregistered (remove_id session_id s.conns) (record s { net = net }))
  admit ref session_id (true, net) s =
      let s' = record s { net = net; app = calls.create_session session_id s.app } in
      let welcome =
        new_server_message type_session_created
          (session_created (record { session_id = session_id })) in
      (registered, (write_message k ref welcome s').1)

  -- handleUpgrade, where `upgraded` is the connection of the upgraded request: its object is new, its
  -- identifier is the one that uuid gives.
  unfoldable pub handle_upgrade : Option (ℕ × Connection) → Server k App → Upgrade × Server k App
  handle_upgrade upgraded s =
      if s.draining
      then (shutting_down, s)
      else if leb config.max_connections (count s.conns)
      then (too_many, s)
      else elim upgraded [
        | none ↦ (upgrade_failed, s)
        | some p ↦
            let s' = record s { conns = add p.0 p.1 s.conns } in
            admit p.0 p.1.id (k.epoll_add p.1.socket s'.net) s'
      ]

  frame_too_large : Dict String Json
  frame_too_large =
      new_server_message type_error
        (error (record { code = "frame_too_large"; message = "Message exceeds 4KB limit" }))

  module _ (on_message : ℕ → Option Json → Server k App → Server k App) where
    -- A read that is no time-out shows that the client is there.
    abbrev pub touch : ℕ → ℕ → Server k App → Server k App
    touch ref now s = record s { conns = update ref (λ c. record c { last_ping = now }) s.conns }

    unfoldable pub handle_read : ℕ → ℕ → Read → Server k App → Server k App
    unfolding frame_too_large
    handle_read ref now timed_out s = s
    handle_read ref now failed s = remove_connection k calls ref s
    handle_read ref now (control is_close) s =
        let s' = touch ref now s in if is_close then remove_connection k calls ref s' else s'
    handle_read ref now (frame length payload) s =
        let s' = touch ref now s in
        if ltb 0 config.max_frame_size && ltb config.max_frame_size length
        then (write_message k ref frame_too_large s').1
        else elim payload [
          | none ↦ remove_connection k calls ref s'
          | some value ↦ if length == 0 then s' else on_message ref value s'
        ]

    abbrev pub flag : ℕ → Bool → Server k App → Server k App
    flag ref b s = record s { conns = update ref (λ c. record c { processing = b }) s.conns }

    -- handleConn on a descriptor that epoll found ready. A connection that another worker reads is left
    -- to it.
    unfoldable pub handle_conn : ℕ → ℕ → Read → Server k App → Server k App
    unfolding handle_read
    handle_conn fd now read s = elim (get_by_fd fd s.conns) [
      | none ↦ s
      | some p ↦
          if p.1.processing then s else flag p.0 false (handle_read p.0 now read (flag p.0 true s))
    ]

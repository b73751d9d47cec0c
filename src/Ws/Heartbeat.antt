-- ===== src/Ws/Heartbeat.antt =====
-- internal/ws/heartbeat.go: one round of the heartbeat. Times are in seconds.
pub mod Round
use whisper_chat.Prelude.{
  ℕ, ◌+◌, ◌-◌, Bool, true, false, none, some, List, [], ◌∷◌, ltb, if◌then◌else◌, nat_eq, text_eq,
  list_eq,
}
use whisper_chat.Prelude.Dict.{lookup}
use whisper_chat.Ws.Connections.{all}
use whisper_chat.Ws.Server.{Sockets, Callbacks, Server, remove_connection, write_ping}

pub record HeartbeatConfig : Type 0 where
  pub interval : ℕ
  pub timeout : ℕ

abbrev pub default_heartbeat_config : HeartbeatConfig
default_heartbeat_config = record { interval = 30; timeout = 10 }

module _ (k : Sockets) {App : Type 0} (calls : Callbacks App) (config : HeartbeatConfig) where
  pinged : ℕ → Bool × Server k App → Server k App
  pinged ref (true, s) = s
  pinged ref (false, s) = remove_connection k calls ref s

  -- The body of the loop, for one connection.
  unfoldable pub check_connection : ℕ → ℕ → Server k App → Server k App
  unfolding pinged
  check_connection now ref s = elim (lookup ref s.conns.heap) [
    | none ↦ s
    | some c ↦
        if ltb (config.interval + config.timeout) (now - c.last_ping)
        then remove_connection k calls ref s
        else pinged ref (write_ping k ref s)
  ]

  unfoldable pub check_each : ℕ → List ℕ → Server k App → Server k App
  unfolding check_connection
  check_each now [] s = s
  check_each now (ref ∷ refs) s = check_each now refs (check_connection now ref s)

  unfoldable pub check_connections : ℕ → Server k App → Server k App
  unfolding check_each
  check_connections now s = check_each now (all s.conns) s

-- ===== src/Tests/WsTests.antt =====
-- Runs of internal/ws.
use whisper_chat.Prelude.{
  ℕ, ◌+◌, ◌-◌, ◌≤◌, ◌≡◌, refl, false, none, some, [], arith, nat_eq, text_eq, list_eq,
}
use whisper_chat.Prelude.Dict.{lookup, insert, remove}
use whisper_chat.Tests.Fakes.{taps, counting}
use whisper_chat.Ws.Connections.{
  Connection, Manager, new_connection_manager, add, remove_id, count, all,
}
use whisper_chat.Ws.Connections.Registry.{
  IsConsistent, IsNew, Reach, start, added, removed, Reach-IsConsistent,
}
use whisper_chat.Ws.Server.{
  removed as server_removed, Server, default_server_config, remove_connection, write_ping,
}
use whisper_chat.Ws.Server.Frames.{handle_upgrade}
use whisper_chat.Ws.Server.Removal.{remove_connection_twice}
use whisper_chat.Ws.Server.Limit.{Run, none_yet, upgraded, Run-count}
use whisper_chat.Ws.Heartbeat.{default_heartbeat_config, check_connections}
use whisper_chat.Ws.Heartbeat.Round.{check_connections-in_time}

abbrev lively_one : Connection
lively_one = record {
  id = "a";
  socket = 1;
  fd = 11;
  created_at = 0;
  last_ping = 100;
  processing = false;
}

abbrev silent_one : Connection
silent_one = record {
  id = "b";
  socket = 2;
  fd = 12;
  created_at = 0;
  last_ping = 50;
  processing = false;
}

abbrev two : Manager
two = add 1 silent_one (add 0 lively_one new_connection_manager)

lively_one-IsNew : IsNew 0 lively_one new_connection_manager
unfolding lookup
lively_one-IsNew = (refl, refl, refl)

silent_one-IsNew : IsNew 1 silent_one (add 0 lively_one new_connection_manager)
unfolding lookup add insert
silent_one-IsNew = (refl, refl, refl)

abbrev two-Reach : Reach two
two-Reach = added 1 silent_one (added 0 lively_one start lively_one-IsNew) silent_one-IsNew

Reach-IsConsistent_example : IsConsistent (remove_id "a" two).1
Reach-IsConsistent_example = Reach-IsConsistent (removed "a" two-Reach)

abbrev empty_server : Server taps ℕ
empty_server = record { conns = new_connection_manager; net = []; draining = false; app = 0 }

abbrev server : Server taps ℕ
server = record empty_server { conns = two }

remove_connection_twice_example :
    let s' = remove_connection taps counting 0 server in
    let s'' = remove_connection taps counting 0 s' in (s''.app ≡ s'.app) × (s''.conns ≡ s'.conns)
remove_connection_twice_example = remove_connection_twice taps counting 0 server

one_call_each : (remove_connection taps counting 0 server).app ≡ 2
unfolding remove_connection remove_id lookup add insert server_removed
one_call_each = refl

empty-count : count empty_server.conns ≤ 100000
unfolding count
empty-count = omega arith

abbrev upgraded_once :
    Run taps default_server_config counting empty_server
      (handle_upgrade taps default_server_config counting (some (0, lively_one)) empty_server).1
upgraded_once = upgraded (some (0, lively_one)) none_yet

Run-count_example :
    count
      (handle_upgrade taps default_server_config counting
        (some (0, lively_one))
        empty_server).1.conns
    ≤ 100000
Run-count_example = Run-count taps default_server_config counting upgraded_once empty-count

-- At 120 seconds the one is in time and the other is not.
abbrev after_round : Server taps ℕ
after_round = check_connections taps counting default_heartbeat_config 120 server

lively_stays : lookup "a" after_round.conns.by_id ≡ some 0
unfolding check_connections all add insert lookup remove remove_connection remove_id write_ping
    server_removed
lively_stays = refl

silent_goes : lookup "b" after_round.conns.by_id ≡ none
unfolding check_connections all add insert lookup remove remove_connection remove_id write_ping
    server_removed
silent_goes = refl

lively_there : lookup 0 after_round.conns.heap ≡ some lively_one
unfolding check_connections all add insert lookup remove remove_connection remove_id write_ping
    server_removed
lively_there = refl

two-IsConsistent : IsConsistent two
two-IsConsistent = Reach-IsConsistent two-Reach

check_connections-in_time_example : 120 - lively_one.last_ping ≤ 30 + 10
check_connections-in_time_example =
    check_connections-in_time taps counting default_heartbeat_config 120 server "a" 0 lively_one
      two-IsConsistent lively_stays lively_there

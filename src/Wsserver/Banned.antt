-- ===== src/Wsserver/Banned.antt =====
-- What the set_fingerprint handler of cmd/wsserver/main.go does with a user who is banned.
use whisper_chat.Prelude.{
  ℕ, ◌-◌, ◌≤◌, ◌<◌, String, ◌≡◌, refl, sym, ap, subst, ◌∙◌, ◌≢◌, ◌⊎◌, inl, inr, true, false, none,
  some, [], ◌∷◌, ◌++◌, arith, ltb, if◌then◌else◌, ltb→lt, Bool-cases, ◌==◌, nat_eq, text_eq,
  list_eq, ==-ne,
}
use whisper_chat.Redis.Commands.{Key, text, Command, hset, key_eq}
use whisper_chat.Redis.Client.{ok, as_done, value-ask_ne, ttl-ask_ne}
use whisper_chat.Ban.{BanStatus, ban_key, is_banned, ban, not_banned}
use whisper_chat.Ban.Expiry.{is_banned-same, is_banned-ban}
use whisper_chat.Session.{session_key, set_fingerprint}
use whisper_chat.Prelude.Dict.{lookup, insert}
use whisper_chat.Protocol.{str, num, type_banned}
use whisper_chat.Protocol.Messages.{set_fingerprint as fingerprint_msg, banned, SetFingerprintMsg}
use whisper_chat.Protocol.Server.{new_server_message, fields}
use whisper_chat.Ws.Connections.{Connection}
use whisper_chat.Ws.Server.{Frame, text_frame, Callbacks, write_message, remove_connection}
use whisper_chat.Ws.Server.Removal.{remove_connection-gone, written-remove_connection}
use whisper_chat.Wsserver.{Services, App, World, reply}
use whisper_chat.Wsserver.Abuse.{handle_set_fingerprint, check_ban, turn_away}

module _ {Data : Type 0} (w : Services Data) (calls : Callbacks (App w))
    (reliable : (s : w.redis.State) → w.redis.up s ≡ true) where
  -- The frame that tells of a ban.
  abbrev pub banned_frame : ℕ → String → Frame
  banned_frame seconds reason =
      text_frame (("type", str "banned") ∷ ("duration", num seconds) ∷ ("reason", str reason) ∷ [])

  -- SetFingerprint does not touch a ban.
  is_banned-set_fingerprint :
      (fingerprint sid : String) (s : w.redis.State)
      → (is_banned w.redis fingerprint (set_fingerprint w.redis fingerprint sid s).1).0
        ≡ (is_banned w.redis fingerprint s).0
  unfolding set_fingerprint
  is_banned-set_fingerprint fingerprint sid s =
      let c : Command = hset (session_key sid) (("fingerprint", text fingerprint) ∷ []) in
      let k : Key = ban_key fingerprint in
      is_banned-same w.redis reliable fingerprint _ s
        (value-ask_ne w.redis as_done c s k (reliable s) refl)
        (ttl-ask_ne w.redis as_done c s k (reliable s) refl)

  -- Who is banned is told so and removed.
  turn_away-banned :
      (ref seconds : ℕ) (reason : String) (s : World w) (c : Connection)
      → lookup ref s.conns.heap ≡ some c
      → lookup c.id s.conns.by_id ≡ some ref
      → (w.sockets.write c.socket (banned_frame seconds reason) s.net).0 ≡ true
      → let status : BanStatus = record {
        banned = true;
        seconds = seconds;
        reason = text reason;
        failed = false;
      } in
        let s' = turn_away w calls ref status s in
        (lookup c.id s'.conns.by_id ≡ none)
        × (w.sockets.written s'.net
            ≡ w.sockets.written s.net ++ (c.socket, banned_frame seconds reason) ∷ [])
  unfolding turn_away write_message new_server_message fields insert
  turn_away-banned ref seconds reason s c here under takes =
      let frame = banned_frame seconds reason in
      let s1 : World w = record s { net = (w.sockets.write c.socket frame s.net).1 } in
      let told : reply ref type_banned (banned (record { duration = seconds; reason = reason })) s
          ≡ s1 =
        rw (reply, write_message, here) refl in
      subst
        (λ x.
          (lookup c.id (remove_connection w.sockets calls ref x).conns.by_id ≡ none)
          × (w.sockets.written (remove_connection w.sockets calls ref x).net
              ≡ w.sockets.written s.net ++ (c.socket, frame) ∷ []))
        (sym told)
        (
          remove_connection-gone w.sockets calls ref s1 c here under,
          written-remove_connection w.sockets calls ref s1
              ∙ w.sockets.written-write c.socket frame s.net
              ∙ rw takes refl,
        )

  -- A registered user presents a fingerprint, `n` seconds after it was banned for a time of at least one
  -- second, with every command answered, the fingerprint stored and the frame taken by the socket.
  -- Before the ban is over, one frame is written, to the user's socket, with the seconds left and the
  -- ban's reason, and the user is no longer registered; from then on nothing is written, and the
  -- registry stays as it is.
  pub handle_set_fingerprint-ban :
      (ref duration n : ℕ) (fingerprint reason : String) (rdb : w.redis.State) (s : World w)
      (c : Connection)
      → fingerprint ≢ ""
      → 0 < duration
      → s.app.rdb ≡ w.redis.elapse n (ban w.redis fingerprint duration (text reason) rdb).1
      → (set_fingerprint w.redis fingerprint c.id s.app.rdb).0 ≡ ok tt
      → lookup ref s.conns.heap ≡ some c
      → lookup c.id s.conns.by_id ≡ some ref
      → (w.sockets.write c.socket (banned_frame (duration - n) reason) s.net).0 ≡ true
      → let m : SetFingerprintMsg = record {
        type = "set_fingerprint";
        fingerprint = fingerprint;
      } in
        let s' = handle_set_fingerprint w calls ref c.id (fingerprint_msg m) s in
        ((n < duration)
          × (lookup c.id s'.conns.by_id ≡ none)
          × (w.sockets.written s'.net
              ≡ w.sockets.written s.net ++ (c.socket, banned_frame (duration - n) reason) ∷ []))
        ⊎ ((duration ≤ n) × (s'.conns ≡ s.conns) × (s'.net ≡ s.net))
  unfolding handle_set_fingerprint check_ban
  handle_set_fingerprint-ban ref duration n fingerprint reason rdb s c given long then_ban done here
        under takes =
      let filled : (fingerprint == "") ≡ false = ==-ne fingerprint "" given in
      let positive : (duration == 0) ≡ false = ground arith in
      let rdb1 = (set_fingerprint w.redis fingerprint c.id s.app.rdb).1 in
      let rdb2 = (is_banned w.redis fingerprint rdb1).1 in
      let s1 : World w = record s { app = record s.app { rdb = rdb2 } } in
      let status : (is_banned w.redis fingerprint rdb1).0 ≡ (
          if ltb n duration
          then record {
            banned = true;
            seconds = duration - n;
            reason = text reason;
            failed = false;
          }
          else not_banned false) =
        is_banned-set_fingerprint fingerprint c.id s.app.rdb
        ∙ ap (λ x. (is_banned w.redis fingerprint x).0) then_ban
        ∙ is_banned-ban w.redis reliable fingerprint duration n (text reason) rdb
        ∙ rw positive refl in
      elim (Bool-cases (ltb n duration)) [
        | inl early ↦
            let (gone, told) = turn_away-banned ref (duration - n) reason s1 c here under takes in
            rw (filled, done, check_ban, status, early) (inl (ltb→lt n duration early, gone, told))
        | inr over ↦
            rw (filled, done, check_ban, status, over) (inr (ground (arith, over), refl, refl))
      ]

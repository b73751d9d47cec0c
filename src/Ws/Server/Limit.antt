-- ===== src/Ws/Server/Limit.antt =====
-- internal/ws/server.go: the limit on the number of connections.
use whisper_chat.Ws.Server.Frames.{unregistered}
use whisper_chat.Prelude.{
  ℕ, suc, ◌≤◌, String, ◌≡◌, refl, inl, inr, Bool, true, false, Option, [], ◌∷◌, arith, leb,
  Bool-cases, Option-cases, Eq, nat_eq, text_eq, list_eq, length,
}
use whisper_chat.Ws.Server.{
  Json, Sockets, ServerConfig, Callbacks, Server, write_message, remove_connection,
}
use whisper_chat.Prelude.Dict.{Dict, lookup, insert, remove}
use whisper_chat.Ws.Connections.{Connection, Manager, add, remove_id, count}
use whisper_chat.Ws.Server.Frames.{admit, handle_upgrade}
use whisper_chat.Ws.Server.Removal.{remove_id-cases, conns-remove_connection}

module _ {ℓ κ} {K : Type ℓ} {V : Type κ} ⦃e : Eq K⦄ where
  length-remove : (key : K) (m : Dict K V) → length (remove key m) ≤ length m
  unfolding remove
  length-remove key [] = omega arith
  length-remove key ((j, v) ∷ m) = let rest = length-remove key m in ground (arith, rest)

  length-insert : (key : K) (v : V) (m : Dict K V) → length (insert key v m) ≤ suc (length m)
  unfolding insert
  length-insert key v [] = omega arith
  length-insert key v ((j, w) ∷ m) = let rest = length-insert key v m in ground (arith, rest)

count-add : (ref : ℕ) (c : Connection) (m : Manager) → count (add ref c m) ≤ suc (count m)
unfolding count add
count-add ref c m = length-insert c.id ref m.by_id

count-remove_id : (id : String) (m : Manager) → count (remove_id id m).1 ≤ count m
unfolding count
count-remove_id id m = elim (remove_id-cases id m) [
  | inl nothing ↦ rw nothing (omega arith)
  | inr (_, _, found) ↦ rw found (length-remove id m.by_id)
]

module _ (k : Sockets) {App : Type 0} (config : ServerConfig) (calls : Callbacks App) where
  conns-write_message :
      (ref : ℕ) (message : Dict String Json) (s : Server k App)
      → (write_message k ref message s).1.conns ≡ s.conns
  unfolding write_message
  conns-write_message ref message s = elim (Option-cases (lookup ref s.conns.heap)) [
    | inl gone ↦ rw (write_message, gone) refl
    | inr (c, here) ↦ rw (write_message, here) refl
  ]

  count-admit :
      (ref : ℕ) (id : String) (answer : Bool × k.Net) (s : Server k App)
      → count (admit k config calls ref id answer s).1.conns ≤ count s.conns
  unfolding admit unregistered
  count-admit ref id (false, net) s = elim (remove_id-cases id s.conns) [
    | inl nothing ↦ rw nothing (omega arith)
    | inr (_, _, found) ↦ rw found (unfold count in length-remove id s.conns.by_id)
  ]
  count-admit ref id (true, net) s = rw (conns-write_message ref _ _) (omega arith)

  -- What changes the number of connections: upgrades and removals, one after the other in any order.
  pub data Run : Server k App → Server k App → Type 0 where
    none_yet : {s : Server k App} → Run s s
    upgraded :
        {s t : Server k App} (request : Option (ℕ × Connection))
        → Run s t
        → Run s (handle_upgrade k config calls request t).1
    taken_out : {s t : Server k App} (ref : ℕ) → Run s t → Run s (remove_connection k calls ref t)

  count-handle_upgrade :
      (request : Option (ℕ × Connection)) (s : Server k App)
      → count s.conns ≤ config.max_connections
      → count (handle_upgrade k config calls request s).1.conns ≤ config.max_connections
  unfolding handle_upgrade
  count-handle_upgrade request s h = elim (Bool-cases s.draining) [
    | inl stopping ↦ rw stopping h
    | inr running ↦ elim (Bool-cases (leb config.max_connections (count s.conns))) [
      | inl full ↦ rw (running, full) h
      | inr room ↦ elim (Option-cases request) [
        | inl failed ↦ rw (running, room, failed) h
        | inr (p, made) ↦
            let s' : Server k App = record s { conns = add p.0 p.1 s.conns } in
            let one_more = count-add p.0 p.1 s.conns in
            let kept = count-admit p.0 p.1.id (k.epoll_add p.1.socket s'.net) s' in
            rw (running, room, made) (ground (arith, one_more, kept, room))
      ]
    ]
  ]

  count-remove_connection :
      (ref : ℕ) (s : Server k App) → count (remove_connection k calls ref s).conns ≤ count s.conns
  unfolding remove_connection count
  count-remove_connection ref s = elim (Option-cases (lookup ref s.conns.heap)) [
    | inl gone ↦ rw (remove_connection, gone) (omega arith)
    | inr (c, here) ↦
        rw (conns-remove_connection k calls ref s c here) (count-remove_id c.id s.conns)
  ]

  -- Where each upgrade and each removal ends before the next begins, in whatever order they come, a
  -- server that starts within its limit on connections stays within it.
  pub Run-count :
      {s t : Server k App}
      → Run s t
      → count s.conns ≤ config.max_connections
      → count t.conns ≤ config.max_connections
  Run-count none_yet h = h
  Run-count (upgraded {s} {t} request run) h = count-handle_upgrade request t (Run-count run h)
  Run-count (taken_out {s} {t} ref run) h =
      let before = Run-count run h in
      let less = count-remove_connection ref t in omega (arith, before, less)

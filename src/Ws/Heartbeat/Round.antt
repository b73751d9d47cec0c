-- ===== src/Ws/Heartbeat/Round.antt =====
-- Who is left after a round of internal/ws/heartbeat.go.
use whisper_chat.Prelude.{
  ℕ, ◌+◌, ◌-◌, ◌≤◌, String, ◌≡◌, refl, sym, ap, subst, ◌∙◌, inl, inr, Bool, true, false, none, some,
  List, [], ◌∷◌, map, arith, ltb, Bool-cases, Option-cases, ◌==◌, nat_eq, text_eq, list_eq,
  contains,
}
use whisper_chat.Prelude.Dict.{Dict, lookup}
use whisper_chat.Ws.Connections.{Connection, Manager, all}
use whisper_chat.Ws.Connections.Registry.{IsConsistent}
use whisper_chat.Ws.Server.{Sockets, Callbacks, Server, write_ping, remove_connection}
use whisper_chat.Ws.Server.Removal.{remove_connection-shrinks, remove_connection-gone}
use whisper_chat.Ws.Heartbeat.{
  HeartbeatConfig, pinged, check_connection, check_each, check_connections,
}

-- What one state may be after another: the same objects, and no identifier that is new.
abbrev Shrinks : Manager → Manager → Type 0
Shrinks m m' =
    (m'.heap ≡ m.heap)
    × ((id : String) (ref : ℕ) → lookup id m'.by_id ≡ some ref → lookup id m.by_id ≡ some ref)

Shrinks-self : (m : Manager) → Shrinks m m
Shrinks-self m = (refl, λ id ref h. h)

Shrinks-trans : (a b c : Manager) → Shrinks a b → Shrinks b c → Shrinks a c
Shrinks-trans a b c (same, old) (same', old') =
    (same' ∙ same, λ id ref h. old id ref (old' id ref h))

-- Every registered reference is among those that a round looks at.
contains-all :
    (id : String) (ref : ℕ) (m : Dict String ℕ)
    → lookup id m ≡ some ref
    → contains ref (map (λ p. p.1) m) ≡ true
unfolding contains lookup
contains-all id ref [] h = ground (arith, h)
contains-all id ref ((j, other) ∷ m) h =
    let rest = contains-all id ref m in ground (arith, h, rest, nat_eq.beq_iff other ref)

module _ (k : Sockets) {App : Type 0} (calls : Callbacks App) (config : HeartbeatConfig) where
  conns-write_ping : (ref : ℕ) (s : Server k App) → (write_ping k ref s).1.conns ≡ s.conns
  unfolding write_ping
  conns-write_ping ref s = elim (Option-cases (lookup ref s.conns.heap)) [
    | inl gone ↦ rw (write_ping, gone) refl
    | inr (c, here) ↦ rw (write_ping, here) refl
  ]

  pinged-Shrinks :
      (ref : ℕ) (answer : Bool × Server k App)
      → Shrinks answer.1.conns (pinged k calls config ref answer).conns
  unfolding pinged
  pinged-Shrinks ref (true, s) = Shrinks-self s.conns
  pinged-Shrinks ref (false, s) = remove_connection-shrinks k calls ref s

  check_connection-Shrinks :
      (now ref : ℕ) (s : Server k App)
      → Shrinks s.conns (check_connection k calls config now ref s).conns
  unfolding check_connection
  check_connection-Shrinks now ref s = elim (Option-cases (lookup ref s.conns.heap)) [
    | inl gone ↦ rw (check_connection, gone) (Shrinks-self s.conns)
    | inr (c, here) ↦
        elim (Bool-cases (ltb (config.interval + config.timeout) (now - c.last_ping))) [
          | inl late ↦ rw (check_connection, here, late) (remove_connection-shrinks k calls ref s)
          | inr early ↦
              rw (check_connection, here, early)
                (subst (λ m. Shrinks m (pinged k calls config ref (write_ping k ref s)).conns)
                  (conns-write_ping ref s) (pinged-Shrinks ref (write_ping k ref s)))
        ]
  ]

  check_each-Shrinks :
      (now : ℕ) (refs : List ℕ) (s : Server k App)
      → Shrinks s.conns (check_each k calls config now refs s).conns
  unfolding check_each
  check_each-Shrinks now [] s = Shrinks-self s.conns
  check_each-Shrinks now (ref ∷ refs) s =
      Shrinks-trans s.conns (check_connection k calls config now ref s).conns
        (check_each k calls config now (ref ∷ refs) s).conns (check_connection-Shrinks now ref s)
        (check_each-Shrinks now refs (check_connection k calls config now ref s))

  module _ (now : ℕ) (id : String) (ref : ℕ) (c : Connection) (named : c.id ≡ id) where
    -- An object that is looked at and stays is in time.
    check_connection-stays :
        (s : Server k App)
        → lookup ref s.conns.heap ≡ some c
        → lookup id (check_connection k calls config now ref s).conns.by_id ≡ some ref
        → now - c.last_ping ≤ config.interval + config.timeout
    unfolding check_connection
    check_connection-stays s here stays =
        elim (Bool-cases (ltb (config.interval + config.timeout) (now - c.last_ping))) [
          | inr early ↦ ground (arith, early)
          | inl late ↦
              let under : lookup id s.conns.by_id ≡ some ref =
                (check_connection-Shrinks now ref s).1 id ref stays in
              let removed : check_connection k calls config now ref s
                  ≡ remove_connection k calls ref s =
                rw (check_connection, here, late) refl in
              let gone : lookup c.id (remove_connection k calls ref s).conns.by_id ≡ none =
                remove_connection-gone k calls ref s c here
                  (ap (λ i. lookup i s.conns.by_id) named ∙ under) in
              absurd (cc (gone, stays, ap (λ t. t.conns.by_id) removed, named))
        ]

    check_each-stays :
        (refs : List ℕ) (s : Server k App)
        → contains ref refs ≡ true
        → lookup ref s.conns.heap ≡ some c
        → lookup id (check_each k calls config now refs s).conns.by_id ≡ some ref
        → now - c.last_ping ≤ config.interval + config.timeout
    unfolding check_each contains
    check_each-stays [] s inside here stays = ground (arith, inside)
    check_each-stays (r ∷ refs) s inside here stays =
        let s' = check_connection k calls config now r s in
        elim (Bool-cases (r == ref)) [
          | inl same ↦
              let e : r ≡ ref = (nat_eq.beq_iff r ref).0 same in
              let kept : lookup id s'.conns.by_id ≡ some ref =
                (check_each-Shrinks now refs s').1 id ref stays in
              check_connection-stays s here (
                subst
                  (λ x. lookup id (check_connection k calls config now x s).conns.by_id ≡ some ref)
                  e kept)
          | inr other ↦
              check_each-stays refs s' (ground (arith, inside, other))
                (ap (lookup ref) (check_connection-Shrinks now r s).0 ∙ here) stays
        ]

  -- Where the registry's two maps agree, whoever is still registered after a round has been heard of
  -- within the interval and the time-out together.
  pub check_connections-in_time :
      (now : ℕ) (s : Server k App) (id : String) (ref : ℕ) (c : Connection)
      → IsConsistent s.conns
      → lookup id (check_connections k calls config now s).conns.by_id ≡ some ref
      → lookup ref (check_connections k calls config now s).conns.heap ≡ some c
      → now - c.last_ping ≤ config.interval + config.timeout
  unfolding check_connections all
  check_connections-in_time now s id ref c h stays there =
      let (same, old) = check_each-Shrinks now (all s.conns) s in
      let here : lookup ref s.conns.heap ≡ some c = ap (lookup ref) (sym same) ∙ there in
      let (c', here', named, _) = h.id_object id ref (old id ref stays) in
      let e : c ≡ c' = cc (here, here') in
      check_each-stays now id ref c (ap (λ x. x.id) e ∙ named) (all s.conns) s
        (contains-all id ref s.conns.by_id (old id ref stays)) here stays

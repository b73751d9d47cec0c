-- ===== src/Ws/Server/Removal.antt =====
-- internal/ws/server.go: what RemoveConnection leaves behind.
use whisper_chat.Prelude.{
  ℕ, String, ◌≡◌, refl, sym, ap, subst, ◌∙◌, ◌⊎◌, inl, inr, Option, none, some, arith, Option-cases,
  nat_eq, text_eq, list_eq, ==-self,
}
use whisper_chat.Prelude.Dict.{Dict, lookup, remove, lookup-remove}
use whisper_chat.Ws.Connections.{Connection, Manager, object, remove_id}
use whisper_chat.Ws.Connections.Registry.{object-cases}
use whisper_chat.Ws.Server.{Sockets, Callbacks, Server, removed, remove_connection}

-- remove_id either finds nothing, or takes one entry out of both maps.
pub remove_id-cases :
    (id : String) (m : Manager)
    → (remove_id id m ≡ (none, m))
      ⊎ ((ref : ℕ) × (c : Connection) × (remove_id id m
            ≡ (some (ref, c), record m { by_id = remove id m.by_id; by_fd = remove c.fd m.by_fd })))
unfolding remove_id
remove_id-cases id m = elim (object-cases (lookup id m.by_id) m) [
  | inl nothing ↦ inl (rw nothing refl)
  | inr (ref, c, _, _, both) ↦ inr (ref, c, rw both refl)
]

lookup-remove_self : (id : String) (m : Dict String ℕ) → lookup id (remove id m) ≡ none
lookup-remove_self id m = lookup-remove id id m ∙ rw (==-self id)

remove_id_twice :
    (id : String) (m : Manager) (p : Option (ℕ × Connection)) (m' : Manager)
    → remove_id id m ≡ (p, m')
    → remove_id id m' ≡ (none, m')
remove_id_twice id m p m' h = elim (remove_id-cases id m) [
  | inl nothing ↦
      let e : m ≡ m' = ap (λ x. x.1) (sym nothing ∙ h) in
      subst (λ x. remove_id id x ≡ (none, x)) e nothing
  | inr (ref, c, found) ↦
      let m'' = record m { by_id = remove id m.by_id; by_fd = remove c.fd m.by_fd } in
      let e : m'' ≡ m' = ap (λ x. x.1) (sym found ∙ h) in
      let none_left : remove_id id m'' ≡ (none, m'') =
        unfold remove_id in rw (lookup-remove_self id m.by_id) refl in
      subst (λ x. remove_id id x ≡ (none, x)) e none_left
]

module _ (k : Sockets) {App : Type 0} (calls : Callbacks App) where
  pub conns-remove_connection :
      (ref : ℕ) (s : Server k App) (c : Connection)
      → lookup ref s.conns.heap ≡ some c
      → (remove_connection k calls ref s).conns ≡ (remove_id c.id s.conns).1
  unfolding remove_connection removed
  conns-remove_connection ref s c here = elim (remove_id-cases c.id s.conns) [
    | inl nothing ↦ rw (remove_connection, here, nothing) refl
    | inr (_, _, found) ↦ rw (remove_connection, here, found) refl
  ]

  remove_connection-gone_object :
      (ref : ℕ) (s : Server k App)
      → lookup ref s.conns.heap ≡ none
      → remove_connection k calls ref s ≡ s
  unfolding remove_connection
  remove_connection-gone_object ref s gone = rw (remove_connection, gone) refl

  -- A removal keeps the objects, and what it leaves in the map of identifiers was there.
  pub remove_connection-shrinks :
      (ref : ℕ) (s : Server k App)
      → ((remove_connection k calls ref s).conns.heap ≡ s.conns.heap)
        × ((id : String) (ref' : ℕ)
            → lookup id (remove_connection k calls ref s).conns.by_id ≡ some ref'
            → lookup id s.conns.by_id ≡ some ref')
  remove_connection-shrinks ref s = elim (Option-cases (lookup ref s.conns.heap)) [
    | inl gone ↦ rw (remove_connection-gone_object ref s gone) (refl, λ id ref' h. h)
    | inr (c, here) ↦ elim (remove_id-cases c.id s.conns) [
      | inl nothing ↦ rw (conns-remove_connection ref s c here, nothing) (refl, λ id ref' h. h)
      | inr (_, _, found) ↦
          rw (conns-remove_connection ref s c here, found)
            (refl, λ id ref' h. ground (arith, h, lookup-remove c.id id s.conns.by_id))
    ]
  ]

  -- What a removal takes away: the identifier of the object, where it stands for the object.
  pub remove_connection-gone :
      (ref : ℕ) (s : Server k App) (c : Connection)
      → lookup ref s.conns.heap ≡ some c
      → lookup c.id s.conns.by_id ≡ some ref
      → lookup c.id (remove_connection k calls ref s).conns.by_id ≡ none
  unfolding remove_id
  remove_connection-gone ref s c here under =
      rw (conns-remove_connection ref s c here, under, object, here)
        (lookup-remove_self c.id s.conns.by_id)

  pub written-remove_connection :
      (ref : ℕ) (s : Server k App)
      → k.written (remove_connection k calls ref s).net ≡ k.written s.net
  unfolding remove_connection removed
  written-remove_connection ref s = elim (Option-cases (lookup ref s.conns.heap)) [
    | inl gone ↦ rw (remove_connection, gone) refl
    | inr (c, here) ↦ elim (remove_id-cases c.id s.conns) [
      | inl nothing ↦ rw (remove_connection, here, nothing) (k.written-epoll_remove c.socket s.net)
      | inr (ref', c', found) ↦
          rw (remove_connection, here, found)
            (k.written-close c'.socket (k.epoll_remove c.socket s.net)
              ∙ k.written-epoll_remove c.socket s.net)
    ]
  ]

  nothing_to_remove :
      (ref : ℕ) (s : Server k App) (c : Connection)
      → lookup ref s.conns.heap ≡ some c
      → remove_id c.id s.conns ≡ (none, s.conns)
      → let s' = remove_connection k calls ref s in (s'.app ≡ s.app) × (s'.conns ≡ s.conns)
  unfolding remove_connection removed
  nothing_to_remove ref s c here nothing = rw (remove_connection, here, nothing) (refl, refl)

  -- A connection that is removed by two goroutines, one after the other, is cleaned up once: the second
  -- removal finds nothing, so that the application does not hear of it again and the session is not
  -- deleted again.
  pub remove_connection_twice :
      (ref : ℕ) (s : Server k App)
      → let s' = remove_connection k calls ref s in
        let s'' = remove_connection k calls ref s' in (s''.app ≡ s'.app) × (s''.conns ≡ s'.conns)
  remove_connection_twice ref s = elim (Option-cases (lookup ref s.conns.heap)) [
    | inl gone ↦
        let e = remove_connection-gone_object ref s gone in
        let same = ap (remove_connection k calls ref) e in
        (ap (λ t. t.app) same, ap (λ t. t.conns) same)
    | inr (c, here) ↦
        let s' = remove_connection k calls ref s in
        let again : remove_id c.id s'.conns ≡ (none, s'.conns) =
          rw (conns-remove_connection ref s c here)
            (remove_id_twice c.id s.conns (remove_id c.id s.conns).0 _ refl) in
        let there : lookup ref s'.conns.heap ≡ some c =
          ap (lookup ref) (remove_connection-shrinks ref s).0 ∙ here in
        nothing_to_remove ref s' c there again
  ]

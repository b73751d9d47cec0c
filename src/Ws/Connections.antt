-- ===== src/Ws/Connections.antt =====
-- internal/ws/connection.go: the registry of connections. A connection is a shared object, so that the
-- maps hold references into a heap. A mutex makes each call one step.
pub mod Registry
use whisper_chat.Prelude.{
  ℕ, zero, suc, ◌+◌, ◌-◌, ◌*◌, ◌/◌, ◌%◌, ◌^◌, ◌≤◌, ◌<◌, compare, Ordering, String, ◌≡◌, refl, sym,
  ap, ap₂, subst, ◌∙◌, fun_ext, ◌≢◌, ◌↔◌, ◌⊎◌, inl, inr, Bool, true, false, not, ◌&&◌, ◌||◌, Option,
  none, some, List, [], ◌∷◌, ◌++◌, map, arith, ltb, leb, if◌then◌else◌, ltb→lt, lt→ltb, leb→le,
  le→leb, tests, Bool-cases, Option-cases, Eq, ◌==◌, nat_eq, text_eq, list_eq, ==-self, ==-ne,
  length, get_or, set, drop, replicate, length-append, length-set, length-replicate,
  get_or-set_self, get_or-set_ne, All, contains, ==-comm,
}
use whisper_chat.Prelude.Dict.{Dict, lookup, insert, remove}

-- `socket` stands for the TCP connection, `processing` for the flag that handleConn takes.
pub record Connection : Type 0 where
  pub id : String
  pub socket : ℕ
  pub fd : ℕ
  pub created_at : ℕ
  pub last_ping : ℕ
  pub processing : Bool

-- ConnectionManager, with the heap.
pub record Manager : Type 0 where
  pub heap : Dict ℕ Connection
  pub by_id : Dict String ℕ
  pub by_fd : Dict ℕ ℕ

abbrev pub new_connection_manager : Manager
new_connection_manager = record { heap = []; by_id = []; by_fd = [] }

-- Add, of a connection that is allocated at `ref`.
unfoldable pub add : ℕ → Connection → Manager → Manager
add ref c m = record {
  heap = insert ref c m.heap;
  by_id = insert c.id ref m.by_id;
  by_fd = insert c.fd ref m.by_fd;
}

-- The object behind a reference.
abbrev pub object : Option ℕ → Manager → Option (ℕ × Connection)
object none m = none
object (some ref) m = elim (lookup ref m.heap) [ none ↦ none | some c ↦ some (ref, c) ]

abbrev unregister : String → Option (ℕ × Connection) → Manager → Option (ℕ × Connection) × Manager
unregister id none m = (none, m)
unregister id (some (ref, c)) m =
    (some (ref, c), record m { by_id = remove id m.by_id; by_fd = remove c.fd m.by_fd })

-- Remove: the connection that was removed, whose socket the caller closes.
unfoldable pub remove_id : String → Manager → Option (ℕ × Connection) × Manager
remove_id id m = unregister id (object (lookup id m.by_id) m) m

unregister_fd : ℕ → Option (ℕ × Connection) → Manager → Option (ℕ × Connection) × Manager
unregister_fd fd none m = (none, m)
unregister_fd fd (some (ref, c)) m =
    (some (ref, c), record m { by_fd = remove fd m.by_fd; by_id = remove c.id m.by_id })

unfoldable pub remove_by_fd : ℕ → Manager → Option (ℕ × Connection) × Manager
unfolding unregister_fd
remove_by_fd fd m = unregister_fd fd (object (lookup fd m.by_fd) m) m

unfoldable pub get : String → Manager → Option (ℕ × Connection)
get id m = object (lookup id m.by_id) m

unfoldable pub get_by_fd : ℕ → Manager → Option (ℕ × Connection)
get_by_fd fd m = object (lookup fd m.by_fd) m

unfoldable pub count : Manager → ℕ
count m = length m.by_id

-- All, in the order of the map, which Go leaves open.
unfoldable pub all : Manager → List ℕ
all m = map (λ p. p.1) m.by_id

-- An assignment to a field of the object.
unfoldable pub update : ℕ → (Connection → Connection) → Manager → Manager
update ref change m = elim (lookup ref m.heap) [
  | none ↦ m
  | some c ↦ record m { heap = insert ref (change c) m.heap }
]

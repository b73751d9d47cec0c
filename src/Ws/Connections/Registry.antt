-- ===== src/Ws/Connections/Registry.antt =====
-- The two maps of internal/ws/connection.go agree.
use whisper_chat.Prelude.{
  ℕ, String, ◌≡◌, refl, sym, ap, subst, ◌∙◌, ◌⊎◌, inl, inr, false, Option, none, some, arith,
  Bool-cases, Option-cases, Eq, ◌==◌, nat_eq, text_eq, list_eq, ==-self, ==-ne,
}
use whisper_chat.Prelude.Dict.{Dict, lookup, insert, remove, lookup-insert, lookup-remove}
use whisper_chat.Ws.Connections.{
  Connection, Manager, new_connection_manager, object, add, remove_id, remove_by_fd,
}

-- A reference stands under the identifier and under the descriptor of its object, and nowhere else.
pub record IsConsistent (m : Manager) : Type 0 where
  pub id_object :
      (id : String) (ref : ℕ)
      → lookup id m.by_id ≡ some ref
      → (c : Connection) × (lookup ref m.heap ≡ some c)
        × (c.id ≡ id)
        × (lookup c.fd m.by_fd ≡ some ref)
  pub fd_object :
      (fd ref : ℕ)
      → lookup fd m.by_fd ≡ some ref
      → (c : Connection) × (lookup ref m.heap ≡ some c)
        × (c.fd ≡ fd)
        × (lookup c.id m.by_id ≡ some ref)

module _ {ℓ κ} {K : Type ℓ} {V : Type κ} ⦃e : Eq K⦄ where
  entry_kept :
      (k j : K) (m : Dict K V) (v : V)
      → lookup j (remove k m) ≡ some v
      → ((k == j) ≡ false) × (lookup j m ≡ some v)
  entry_kept k j m v h = ground (arith, h, lookup-remove k j m)

  lookup-remove_ne :
      (k j : K) (m : Dict K V) → (k == j) ≡ false → lookup j (remove k m) ≡ lookup j m
  lookup-remove_ne k j m other = lookup-remove k j m ∙ rw other

  lookup-insert_ne :
      (k j : K) (v : V) (m : Dict K V) → (k == j) ≡ false → lookup j (insert k v m) ≡ lookup j m
  lookup-insert_ne k j v m other = lookup-insert k j v m ∙ rw other

  lookup-insert_self : (k : K) (v : V) (m : Dict K V) → lookup k (insert k v m) ≡ some v
  lookup-insert_self k v m = lookup-insert k k v m ∙ rw (==-self k)

-- An object leaves both maps.
unregister-IsConsistent :
    (m : Manager) (ref : ℕ) (c : Connection)
    → IsConsistent m
    → lookup ref m.heap ≡ some c
    → lookup c.id m.by_id ≡ some ref
    → lookup c.fd m.by_fd ≡ some ref
    → IsConsistent (record m { by_id = remove c.id m.by_id; by_fd = remove c.fd m.by_fd })
unregister-IsConsistent m ref c h here under_id under_fd = record {
  id_object = λ id ref' found.
      let (apart, old) = entry_kept c.id id m.by_id ref' found in
      let (c', there, same, fd') = h.id_object id ref' old in
      let fd_apart : (c.fd == c'.fd) ≡ false =
        ==-ne c.fd c'.fd
          (λ e. absurd (cc (apart, ==-self c.id, under_fd, fd', e, here, there, same))) in
      (c', there, same, lookup-remove_ne c.fd c'.fd m.by_fd fd_apart ∙ fd');
  fd_object = λ fd ref' found.
      let (apart, old) = entry_kept c.fd fd m.by_fd ref' found in
      let (c', there, same, id') = h.fd_object fd ref' old in
      let id_apart : (c.id == c'.id) ≡ false =
        ==-ne c.id c'.id
          (λ e. absurd (cc (apart, ==-self c.fd, under_id, id', e, here, there, same))) in
      (c', there, same, lookup-remove_ne c.id c'.id m.by_id id_apart ∙ id');
}

pub object-cases :
    (o : Option ℕ) (m : Manager)
    → (object o m ≡ none)
      ⊎ ((ref : ℕ) × (c : Connection) × (o ≡ some ref)
          × (lookup ref m.heap ≡ some c)
          × (object o m ≡ some (ref, c)))
object-cases none m = inl refl
object-cases (some ref) m = elim (Option-cases (lookup ref m.heap)) [
  | inl gone ↦ inl (rw (object, gone))
  | inr (c, here) ↦ inr (ref, c, refl, here, rw (object, here))
]

remove_id-IsConsistent :
    (id : String) (m : Manager) → IsConsistent m → IsConsistent (remove_id id m).1
unfolding remove_id
remove_id-IsConsistent id m h = elim (object-cases (lookup id m.by_id) m) [
  | inl nothing ↦ rw nothing h
  | inr (ref, c, found, here, both) ↦
      let (c', there, same, under_fd) = h.id_object id ref found in
      let e : c ≡ c' = cc (here, there) in
      let named : c.id ≡ id = ap (λ x. x.id) e ∙ same in
      let under_id : lookup c.id m.by_id ≡ some ref =
        subst (λ i. lookup i m.by_id ≡ some ref) (sym named) found in
      let at_fd : lookup c.fd m.by_fd ≡ some ref =
        subst (λ x. lookup x.fd m.by_fd ≡ some ref) (sym e) under_fd in
      rw both (
        subst
          (λ i. IsConsistent (record m { by_id = remove i m.by_id; by_fd = remove c.fd m.by_fd }))
          named (unregister-IsConsistent m ref c h here under_id at_fd))
]

remove_by_fd-IsConsistent :
    (fd : ℕ) (m : Manager) → IsConsistent m → IsConsistent (remove_by_fd fd m).1
unfolding remove_by_fd
remove_by_fd-IsConsistent fd m h = elim (object-cases (lookup fd m.by_fd) m) [
  | inl nothing ↦ rw nothing h
  | inr (ref, c, found, here, both) ↦
      let (c', there, same, under_id) = h.fd_object fd ref found in
      let e : c ≡ c' = cc (here, there) in
      let numbered : c.fd ≡ fd = ap (λ x. x.fd) e ∙ same in
      let at_id : lookup c.id m.by_id ≡ some ref =
        subst (λ x. lookup x.id m.by_id ≡ some ref) (sym e) under_id in
      let at_fd : lookup c.fd m.by_fd ≡ some ref =
        subst (λ i. lookup i m.by_fd ≡ some ref) (sym numbered) found in
      rw both (
        subst
          (λ i. IsConsistent (record m { by_id = remove c.id m.by_id; by_fd = remove i m.by_fd }))
          numbered (unregister-IsConsistent m ref c h here at_id at_fd))
]

abbrev pub IsNew : ℕ → Connection → Manager → Type 0
IsNew ref c m =
    (lookup ref m.heap ≡ none) × (lookup c.id m.by_id ≡ none) × (lookup c.fd m.by_fd ≡ none)

-- Another entry of a map does not clash with the new one.
add-id :
    (ref : ℕ) (c : Connection) (m : Manager)
    → IsConsistent m
    → IsNew ref c m
    → (id : String) (ref' : ℕ) → lookup id (insert c.id ref m.by_id) ≡ some ref'
    → (c' : Connection) × (lookup ref' (insert ref c m.heap) ≡ some c')
      × (c'.id ≡ id)
      × (lookup c'.fd (insert c.fd ref m.by_fd) ≡ some ref')
add-id ref c m h (new_ref, new_id, new_fd) id ref' found = elim (Bool-cases (c.id == id)) [
  | inl same ↦
      let e : c.id ≡ id = (text_eq.beq_iff c.id id).0 same in
      let r : ref ≡ ref' = ground (arith, found, lookup-insert c.id id ref m.by_id, same) in
      (
        c,
        subst (λ x. lookup x (insert ref c m.heap) ≡ some c) r (lookup-insert_self ref c m.heap),
        e,
        lookup-insert_self c.fd ref m.by_fd ∙ ap some r,
      )
  | inr other ↦
      let (c', there, same, under_fd) =
        h.id_object id ref' (sym (lookup-insert_ne c.id id ref m.by_id other) ∙ found) in
      let ref_apart : (ref == ref') ≡ false =
        ==-ne ref ref' (λ e. absurd (cc (e, new_ref, there))) in
      let fd_apart : (c.fd == c'.fd) ≡ false =
        ==-ne c.fd c'.fd (λ e. absurd (cc (e, new_fd, under_fd))) in
      (
        c',
        lookup-insert_ne ref ref' c m.heap ref_apart ∙ there,
        same,
        lookup-insert_ne c.fd c'.fd ref m.by_fd fd_apart ∙ under_fd,
      )
]

add-fd :
    (ref : ℕ) (c : Connection) (m : Manager)
    → IsConsistent m
    → IsNew ref c m
    → (fd ref' : ℕ) → lookup fd (insert c.fd ref m.by_fd) ≡ some ref'
    → (c' : Connection) × (lookup ref' (insert ref c m.heap) ≡ some c')
      × (c'.fd ≡ fd)
      × (lookup c'.id (insert c.id ref m.by_id) ≡ some ref')
add-fd ref c m h (new_ref, new_id, new_fd) fd ref' found = elim (Bool-cases (c.fd == fd)) [
  | inl same ↦
      let e : c.fd ≡ fd = (nat_eq.beq_iff c.fd fd).0 same in
      let r : ref ≡ ref' = ground (arith, found, lookup-insert c.fd fd ref m.by_fd, same) in
      (
        c,
        subst (λ x. lookup x (insert ref c m.heap) ≡ some c) r (lookup-insert_self ref c m.heap),
        e,
        lookup-insert_self c.id ref m.by_id ∙ ap some r,
      )
  | inr other ↦
      let (c', there, same, under_id) =
        h.fd_object fd ref' (sym (lookup-insert_ne c.fd fd ref m.by_fd other) ∙ found) in
      let ref_apart : (ref == ref') ≡ false =
        ==-ne ref ref' (λ e. absurd (cc (e, new_ref, there))) in
      let id_apart : (c.id == c'.id) ≡ false =
        ==-ne c.id c'.id (λ e. absurd (cc (e, new_id, under_id))) in
      (
        c',
        lookup-insert_ne ref ref' c m.heap ref_apart ∙ there,
        same,
        lookup-insert_ne c.id c'.id ref m.by_id id_apart ∙ under_id,
      )
]

add-IsConsistent :
    (ref : ℕ) (c : Connection) (m : Manager)
    → IsConsistent m
    → IsNew ref c m
    → IsConsistent (add ref c m)
unfolding add
add-IsConsistent ref c m h new = record {
  id_object = add-id ref c m h new;
  fd_object = add-fd ref c m h new;
}

-- The registry and what was called on it, one after the other, where a connection is added only with an
-- identifier and a descriptor that are not in use.
pub data Reach : Manager → Type 0 where
  start : Reach new_connection_manager
  added : {m : Manager} (ref : ℕ) (c : Connection) → Reach m → IsNew ref c m → Reach (add ref c m)
  removed : {m : Manager} (id : String) → Reach m → Reach (remove_id id m).1
  removed_by_fd : {m : Manager} (fd : ℕ) → Reach m → Reach (remove_by_fd fd m).1

start-IsConsistent : IsConsistent new_connection_manager
start-IsConsistent = record {
  id_object = λ id ref h. absurd (unfold lookup in cc h);
  fd_object = λ fd ref h. absurd (unfold lookup in cc h);
}

-- After any calls of Add, Remove and RemoveByFd, with identifiers and descriptors that are not in use
-- when they are added, the two maps agree: what stands under an identifier is the object with that
-- identifier, and it stands under its descriptor, and the other way round.
pub Reach-IsConsistent : {m : Manager} → Reach m → IsConsistent m
Reach-IsConsistent start = start-IsConsistent
Reach-IsConsistent (added ref c reach new) = add-IsConsistent ref c _ (Reach-IsConsistent reach) new
Reach-IsConsistent (removed id reach) = remove_id-IsConsistent id _ (Reach-IsConsistent reach)
Reach-IsConsistent (removed_by_fd fd reach) =
    remove_by_fd-IsConsistent fd _ (Reach-IsConsistent reach)

-- ===== src/Messaging.antt =====
-- internal/messaging/nats.go: the client that keeps a process's subscriptions. NATS and its Go client
-- are not part of the repository: they are an interface, with what they document.
pub mod Publishing
pub mod Client
pub mod Subscriptions
use whisper_chat.Prelude.{
  ℕ, zero, suc, ◌+◌, ◌-◌, ◌*◌, ◌/◌, ◌%◌, ◌^◌, ◌≤◌, ◌<◌, compare, Ordering, String, ◌≡◌, refl, sym,
  ap, ap₂, subst, ◌∙◌, fun_ext, ◌≢◌, ◌↔◌, ◌⊎◌, inl, inr, Bool, true, false, not, ◌&&◌, ◌||◌, Option,
  none, some, List, [], ◌∷◌, ◌++◌, map, arith, ltb, leb, if◌then◌else◌, ltb→lt, lt→ltb, leb→le,
  le→leb, tests, Bool-cases, Option-cases, Eq, ◌==◌, nat_eq, text_eq, list_eq, ==-self, ==-ne,
  length, get_or, set, drop, replicate, length-append, length-set, length-replicate,
  get_or-set_self, get_or-set_ne, All, contains, ==-comm,
}

-- A subject: the constant of the source, and the identifier behind its dot (none for the empty text).
pub record Subject : Type 0 where
  pub prefix : String
  pub id : String

abbrev pub subject_beq : Subject → Subject → Bool
subject_beq a b = a.prefix == b.prefix && a.id == b.id

pub subject_beq_iff : (a b : Subject) → (subject_beq a b ≡ true) ↔ (a ≡ b)
subject_beq_iff a b = ground (arith, text_eq.beq_iff a.prefix b.prefix, text_eq.beq_iff a.id b.id)

instance abbrev pub subject_eq : Eq Subject
subject_eq = record { beq = subject_beq; beq_iff = subject_beq_iff }

-- `Handler` is what a subscription runs, `Data` what a message carries.
pub record Nats (Handler Data : Type 0) : Type 1 where
  pub Conn : Type 0
  -- A subscription is known by a number, its sid.
  pub publish : Subject → Data → Conn → Bool × Conn
  pub subscribe : Subject → Handler → Conn → Option ℕ × Conn
  pub unsubscribe : ℕ → Conn → Bool × Conn
  pub drain : ℕ → Conn → Bool × Conn
  pub drain_all : Conn → Bool × Conn
  -- What the connection has taken, oldest first, and what it delivers to.
  pub sent : Conn → List (Subject × Data)
  pub active : Conn → ℕ → Option (Subject × Handler)
  pub sent-publish :
      (subject : Subject) (d : Data) (c : Conn)
      → sent (publish subject d c).1
        ≡ (if (publish subject d c).0 then sent c ++ (subject, d) ∷ [] else sent c)
  pub sent-subscribe :
      (subject : Subject) (h : Handler) (c : Conn) → sent (subscribe subject h c).1 ≡ sent c
  pub sent-unsubscribe : (n : ℕ) (c : Conn) → sent (unsubscribe n c).1 ≡ sent c
  pub active-publish :
      (subject : Subject) (d : Data) (c : Conn) (n : ℕ)
      → active (publish subject d c).1 n ≡ active c n
  -- A new subscription has a number that is not in use.
  pub subscribe_fresh :
      (subject : Subject) (h : Handler) (c : Conn) (n : ℕ)
      → (subscribe subject h c).0 ≡ some n
      → active c n ≡ none
  pub active-subscribe :
      (subject : Subject) (h : Handler) (c : Conn) (n m : ℕ)
      → (subscribe subject h c).0 ≡ some n
      → active (subscribe subject h c).1 m ≡ (if n == m then some (subject, h) else active c m)
  pub active-subscribe_failed :
      (subject : Subject) (h : Handler) (c : Conn) (m : ℕ)
      → (subscribe subject h c).0 ≡ none
      → active (subscribe subject h c).1 m ≡ active c m
  -- Unsubscribing fails only on a closed connection, and then nothing is delivered any more.
  pub active-unsubscribe :
      (n m : ℕ) (c : Conn) → active (unsubscribe n c).1 m ≡ (if n == m then none else active c m)

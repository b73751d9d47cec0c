-- ===== src/Redis/Commands.antt =====
-- The Redis commands that the services send, and what Redis documents of each: its answer and
-- what it does to the value and to the time to live of its key. These are the terms in which the
-- interface of Redis.antt states its laws.
use whisper_chat.Prelude.{
  ℕ, ◌+◌, String, ◌≡◌, ◌↔◌, Bool, true, ◌&&◌, Option, none, some, List, [], ◌∷◌, arith, leb,
  if◌then◌else◌, Eq, ◌==◌, nat_eq, text_eq, list_eq, length, contains,
}
use whisper_chat.Prelude.Dict.{Dict, lookup, insert, remove}

-- A key is a prefix constant of the source with the identifier that is appended to it.
pub record Key : Type 0 where
  pub prefix : String
  pub id : String

abbrev pub key_beq : Key → Key → Bool
key_beq a b = a.prefix == b.prefix && a.id == b.id

pub key_beq_iff : (a b : Key) → (key_beq a b ≡ true) ↔ (a ≡ b)
key_beq_iff a b = ground (arith, text_eq.beq_iff a.prefix b.prefix, text_eq.beq_iff a.id b.id)

instance abbrev pub key_eq : Eq Key
key_eq = record { beq = key_beq; beq_iff = key_beq_iff }

-- A decimal integer is kept as a number.
pub data Datum : Type 0 where
  text : String → Datum
  int : ℕ → Datum

pub data Value : Type 0 where
  missing : Value
  str : Datum → Value
  hash : Dict String Datum → Value
  set : List String → Value
  zset : Dict String ℕ → Value

pub data Command : Type 0 where
  get del incr exists_key ttl_of : Key → Command
  set_for : Key → Datum → ℕ → Command
  expire : Key → ℕ → Command
  hset : Key → Dict String Datum → Command
  hget : Key → String → Command
  hgetall : Key → Command
  sadd srem : Key → String → Command
  smembers : Key → Command
  zadd : Key → ℕ → String → Command
  zrem zscore : Key → String → Command
  zrange zcard : Key → Command
  zrange_by_score : Key → ℕ → Command

abbrev pub key : Command → Key
key (get k) = k
key (del k) = k
key (incr k) = k
key (exists_key k) = k
key (ttl_of k) = k
key (set_for k d n) = k
key (expire k n) = k
key (hset k fs) = k
key (hget k f) = k
key (hgetall k) = k
key (sadd k m) = k
key (srem k m) = k
key (smembers k) = k
key (zadd k n m) = k
key (zrem k m) = k
key (zscore k m) = k
key (zrange k) = k
key (zcard k) = k
key (zrange_by_score k n) = k

abbrev pub hset_fields : Dict String Datum → Dict String Datum → Dict String Datum
hset_fields [] fs = fs
hset_fields ((f, d) ∷ new) fs = hset_fields new (insert f d fs)

abbrev pub without : String → List String → List String
without a [] = []
without a (x ∷ l) = let rest = without a l in if x == a then rest else x ∷ rest

-- A set or sorted set that loses its last member is gone.
abbrev pub set_of : List String → Value
set_of [] = missing
set_of (x ∷ l) = set (x ∷ l)

abbrev pub zset_of : Dict String ℕ → Value
zset_of [] = missing
zset_of (x ∷ l) = zset (x ∷ l)

-- What the key holds once the command has run. A command on a key of another type changes nothing.
abbrev pub effect : Command → Value → Value
effect (del k) v = missing
effect (set_for k d n) v = str d
effect (incr k) missing = str (int 1)
effect (incr k) (str (int n)) = str (int (n + 1))
effect (hset k fs) missing = hash (hset_fields fs [])
effect (hset k fs) (hash h) = hash (hset_fields fs h)
effect (sadd k m) missing = set (m ∷ [])
effect (sadd k m) (set l) = set (if contains m l then l else m ∷ l)
effect (srem k m) (set l) = set_of (without m l)
effect (zadd k n m) missing = zset ((m, n) ∷ [])
effect (zadd k n m) (zset l) = zset (insert m n l)
effect (zrem k m) (zset l) = zset_of (remove m l)
effect c v = v

-- The seconds that the key has left once the command has run: `none` for no expiry. The Go client
-- leaves a Set with the expiration 0 without one.
abbrev pub ttl_effect : Command → Value → Option ℕ → Option ℕ
ttl_effect (del k) v t = none
ttl_effect (set_for k d n) v t = if n == 0 then none else some n
ttl_effect (expire k n) missing t = t
ttl_effect (expire k n) (str d) t = some n
ttl_effect (expire k n) (hash h) t = some n
ttl_effect (expire k n) (set l) t = some n
ttl_effect (expire k n) (zset l) t = some n
ttl_effect (srem k m) (set l) t = elim (without m l) [ [] ↦ none | _ ∷ _ ↦ t ]
ttl_effect (zrem k m) (zset l) t = elim (remove m l) [ [] ↦ none | _ ∷ _ ↦ t ]
ttl_effect c v t = t

abbrev pub Db : Type 0
Db = Key → Value

abbrev pub after : Command → Db → Db
after c db k = if key c == k then effect c (db k) else db k

abbrev pub after_all : List Command → Db → Db
after_all [] db = db
after_all (c ∷ cs) db = after_all cs (after c db)

pub data Reply : Type 0 where
  nil done wrong_type : Reply
  datum : Datum → Reply
  number : ℕ → Reply
  fields : Dict String Datum → Reply
  members : List String → Reply

-- The members whose score is at most `max`.
abbrev pub within : ℕ → Dict String ℕ → Dict String ℕ
within max [] = []
within max ((m, n) ∷ l) = if leb n max then (m, n) ∷ within max l else within max l

abbrev pub found : Option Datum → Reply
found none = nil
found (some d) = datum d

abbrev pub scored : Option ℕ → Reply
scored none = nil
scored (some n) = number n

-- The order in which Redis lists a set (`arrange`) and a sorted set (`ranked`) is Redis's own.
module _ (arrange : List String → List String) (ranked : Dict String ℕ → List String) where
  abbrev pub answer : Command → Value → Option ℕ → Reply
  answer (get k) missing t = nil
  answer (get k) (str d) t = datum d
  answer (del k) missing t = number 0
  answer (del k) v t = number 1
  answer (incr k) missing t = number 1
  answer (incr k) (str (int n)) t = number (n + 1)
  answer (exists_key k) missing t = number 0
  answer (exists_key k) v t = number 1
  answer (ttl_of k) v t = scored t
  answer (set_for k d n) v t = done
  answer (expire k n) v t = done
  answer (hset k fs) missing t = done
  answer (hset k fs) (hash h) t = done
  answer (hget k f) missing t = nil
  answer (hget k f) (hash h) t = found (lookup f h)
  answer (hgetall k) missing t = fields []
  answer (hgetall k) (hash h) t = fields h
  answer (sadd k m) missing t = done
  answer (sadd k m) (set l) t = done
  answer (srem k m) missing t = done
  answer (srem k m) (set l) t = done
  answer (smembers k) missing t = members []
  answer (smembers k) (set l) t = members (arrange l)
  answer (zadd k n m) missing t = done
  answer (zadd k n m) (zset l) t = done
  answer (zrem k m) missing t = done
  answer (zrem k m) (zset l) t = done
  answer (zscore k m) missing t = nil
  answer (zscore k m) (zset l) t = scored (lookup m l)
  answer (zrange k) missing t = members []
  answer (zrange k) (zset l) t = members (ranked l)
  answer (zcard k) missing t = number 0
  answer (zcard k) (zset l) t = number (length l)
  answer (zrange_by_score k max) missing t = members []
  answer (zrange_by_score k max) (zset l) t = members (ranked (within max l))
  answer c v t = wrong_type

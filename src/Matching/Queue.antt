-- ===== src/Matching/Queue.antt =====
-- internal/matching/queue.go: the queue of waiting users, in five kinds of Redis keys. The time is
-- that of the service's clock, in milliseconds.
pub mod Entries
pub mod Leaving
use whisper_chat.Prelude.{
  ℕ, String, Bool, true, false, Option, none, some, List, [], ◌∷◌, ◌++◌, if◌then◌else◌, ◌==◌,
  nat_eq, text_eq, list_eq,
}
use whisper_chat.Prelude.Dict.{Dict, lookup}
use whisper_chat.Redis.{Redis}
use whisper_chat.Redis.Commands.{Key, Datum, int, text, Command}
use whisper_chat.Redis.Client.{Result, ok, err, as_fields, as_members, as_score, as_number, ask}
use whisper_chat.Matching.Tags.{join_comma, split_comma}

-- What the queue uses of Go's packages sort and crypto/sha256: sort.Strings, and the first eight bytes
-- of a SHA-256 sum in hexadecimal.
pub record Hashing : Type 0 where
  pub sort_strings : List String → List String
  pub digest : String → String

abbrev pub match_key_ttl : ℕ
match_key_ttl = 60

abbrev pub key_match_queue : Key
key_match_queue = record { prefix = "match:queue"; id = "" }

abbrev pub exact_key : String → Key
exact_key hash = record { prefix = "match:exact:"; id = hash }

abbrev pub interest_key : String → Key
interest_key tag = record { prefix = "match:interest:"; id = tag }

abbrev pub match_session_key : String → Key
match_session_key session_id = record { prefix = "match:session:"; id = session_id }

pub record QueueEntry : Type 0 where
  pub session_id : String
  pub interests : List String
  pub hash : String
  pub joined_at : ℕ

unfoldable pub interests_hash : Hashing → List String → String
interests_hash go interests = go.digest (join_comma (go.sort_strings interests))

-- The loop of Enqueue over the tags, and those of Dequeue and RefreshTTLs.
unfoldable pub join_tags : String → List String → List Command
join_tags session_id [] = []
join_tags session_id (tag ∷ tags) =
    Command.sadd (interest_key tag) session_id
    ∷ Command.expire (interest_key tag) match_key_ttl
    ∷ join_tags session_id tags

unfoldable pub leave_tags : String → List String → List Command
leave_tags session_id [] = []
leave_tags session_id (tag ∷ tags) =
    Command.srem (interest_key tag) session_id ∷ leave_tags session_id tags

unfoldable pub refresh_tags : List String → List Command
refresh_tags [] = []
refresh_tags (tag ∷ tags) = Command.expire (interest_key tag) match_key_ttl ∷ refresh_tags tags

unfoldable pub enqueue_commands : Hashing → ℕ → String → List String → List Command
enqueue_commands go now session_id interests =
    let hash = interests_hash go interests in
    Command.zadd key_match_queue now session_id
    ∷ Command.sadd (exact_key hash) session_id
    ∷ Command.expire (exact_key hash) match_key_ttl
    ∷ (join_tags session_id interests
        ++ Command.hset (match_session_key session_id) (
            ("interests", text (join_comma interests))
            ∷ ("hash", text hash)
            ∷ ("joined_at", int now)
            ∷ [])
          ∷ Command.expire (match_session_key session_id) match_key_ttl
          ∷ [])

unfoldable pub dequeue_commands : QueueEntry → List Command
dequeue_commands entry =
    Command.zrem key_match_queue entry.session_id
    ∷ Command.srem (exact_key entry.hash) entry.session_id
    ∷ (leave_tags entry.session_id entry.interests
        ++ Command.del (match_session_key entry.session_id) ∷ [])

unfoldable pub refresh_commands : QueueEntry → List Command
refresh_commands entry =
    Command.expire (exact_key entry.hash) match_key_ttl
    ∷ (refresh_tags entry.interests
        ++ Command.expire (match_session_key entry.session_id) match_key_ttl ∷ [])

module _ (r : Redis) where
  open r use {State, decimal}

  -- A field of the map that HGETALL gives; a missing one is the empty text.
  field_text : Option Datum → String
  field_text none = ""
  field_text (some (text t)) = t
  field_text (some (int n)) = decimal n

  -- Sscanf leaves 0 where there is no number.
  field_number : Option Datum → ℕ
  field_number (some (int n)) = n
  field_number _ = 0

  tags_of : String → List String
  tags_of joined = if joined == "" then [] else split_comma joined

  entry_found : String → Result (Dict String Datum) → Result (Option QueueEntry)
  unfolding tags_of field_text field_number
  entry_found session_id err = err
  entry_found session_id (ok []) = ok none
  entry_found session_id (ok (f ∷ h)) = ok (
      some (record {
        session_id = session_id;
        interests = tags_of (field_text (lookup "interests" (f ∷ h)));
        hash = field_text (lookup "hash" (f ∷ h));
        joined_at = field_number (lookup "joined_at" (f ∷ h));
      }))

  unfoldable pub get_entry : String → State → Result (Option QueueEntry) × State
  unfolding entry_found
  get_entry session_id s =
      let (reply, s') = ask r as_fields (Command.hgetall (match_session_key session_id)) s in
      (entry_found session_id reply, s')

  -- `true` for no error.
  unfoldable pub enqueue : Hashing → ℕ → String → List String → State → Bool × State
  enqueue go now session_id interests s =
      r.pipeline (enqueue_commands go now session_id interests) s

  with_entry : (QueueEntry → List Command) → Result (Option QueueEntry) × State → Bool × State
  with_entry commands (err, s) = (false, s)
  with_entry commands (ok none, s) = (true, s)
  with_entry commands (ok (some entry), s) = r.pipeline (commands entry) s

  unfoldable pub dequeue : String → State → Bool × State
  unfolding with_entry
  dequeue session_id s = with_entry dequeue_commands (get_entry session_id s)

  unfoldable pub refresh_ttls : String → State → Bool × State
  unfolding with_entry
  refresh_ttls session_id s = with_entry refresh_commands (get_entry session_id s)

  unfoldable pub get_all_queued : State → Result (List String) × State
  get_all_queued s = ask r as_members (Command.zrange key_match_queue) s

  scored : Result (Option ℕ) → Result Bool
  scored err = err
  scored (ok none) = ok false
  scored (ok (some score)) = ok true

  unfoldable pub is_queued : String → State → Result Bool × State
  unfolding scored
  is_queued session_id s =
      let (reply, s') = ask r as_score (Command.zscore key_match_queue session_id) s in
      (scored reply, s')

  unfoldable pub get_exact_candidates : String → State → Result (List String) × State
  get_exact_candidates hash s = ask r as_members (Command.smembers (exact_key hash)) s

  unfoldable pub get_interest_candidates : String → State → Result (List String) × State
  get_interest_candidates tag s = ask r as_members (Command.smembers (interest_key tag)) s

  unfoldable pub queue_size : State → Result ℕ × State
  queue_size s = ask r as_number (Command.zcard key_match_queue) s

-- ===== src/Matching/Queue/Entries.antt =====
-- What the queue of internal/matching/queue.go knows of a user behind Enqueue and Dequeue.
use whisper_chat.Prelude.{
  ℕ, String, ◌≡◌, refl, ap, ◌∙◌, true, some, List, [], ◌∷◌, nat_eq, text_eq, list_eq, ==-self,
}
use whisper_chat.Prelude.Dict.{Dict, lookup, insert}
use whisper_chat.Redis.{Redis}
use whisper_chat.Redis.Batches.{effects_at, after_all-effects_at, effects_at-append}
use whisper_chat.Redis.Commands.{
  Key, Value, Datum, int, text, Command, hash, missing, key_eq, hgetall, hset_fields,
}
use whisper_chat.Redis.Client.{ok, as_fields, ask_value}
use whisper_chat.Matching.Tags.{join_comma, plain_tags, split_comma-join_comma, join_comma-empty}
use whisper_chat.Matching.Queue.{
  Hashing, key_match_queue, match_session_key, interests_hash, join_tags, enqueue_commands, tags_of,
  entry_found, get_entry, enqueue,
}

-- The tags have keys of their own.
join_tags-session :
    (session_id id : String) (tags : List String) (v : Value)
    → effects_at (match_session_key id) (join_tags session_id tags) v ≡ v
unfolding join_tags
join_tags-session session_id id [] v = refl
join_tags-session session_id id (tag ∷ tags) v = join_tags-session session_id id tags v

pub join_tags-queue :
    (session_id : String) (tags : List String) (v : Value)
    → effects_at key_match_queue (join_tags session_id tags) v ≡ v
unfolding join_tags
join_tags-queue session_id [] v = refl
join_tags-queue session_id (tag ∷ tags) v = join_tags-queue session_id tags v

tags_of-join_comma :
    (r : Redis) (tags : List String) → plain_tags tags ≡ true → tags_of r (join_comma tags) ≡ tags
unfolding tags_of
tags_of-join_comma r [] h = unfold join_comma in refl
tags_of-join_comma r (t ∷ l) h = rw (join_comma-empty t l h) (split_comma-join_comma t l h)

module _ (r : Redis) (reliable : (s : r.State) → r.up s ≡ true) (go : Hashing)
    (session_id : String) where
  open r use {State, value}

  abbrev k : Key
  k = match_session_key session_id

  abbrev entry_fields : ℕ → List String → Dict String Datum
  entry_fields now interests =
      ("interests", text (join_comma interests))
      ∷ ("hash", text (interests_hash go interests))
      ∷ ("joined_at", int now)
      ∷ []

  entry_of :
      (now : ℕ) (interests : List String)
      → plain_tags interests ≡ true
      → entry_found r session_id (ok (hset_fields (entry_fields now interests) []))
        ≡ ok (
            some (record {
              session_id = session_id;
              interests = interests;
              hash = interests_hash go interests;
              joined_at = now;
            }))
  unfolding entry_found lookup insert
  entry_of now interests plain = rw (tags_of-join_comma r interests plain)

  pub enqueue-session :
      (now : ℕ) (interests : List String) (s : State)
      → value s k ≡ missing
      → value (enqueue r go now session_id interests s).1 k
        ≡ hash (hset_fields (entry_fields now interests) [])
  unfolding enqueue enqueue_commands
  enqueue-session now interests s h =
      let stores : List Command =
        Command.hset k (entry_fields now interests) ∷ Command.expire k 60 ∷ [] in
      let made : effects_at k stores (value s k)
          ≡ hash (hset_fields (entry_fields now interests) []) =
        rw (==-self k) (rw h) in
      r.value-pipeline _ s k (reliable s)
      ∙ after_all-effects_at (enqueue_commands go now session_id interests) (value s) k
      ∙ effects_at-append k (join_tags session_id interests) stores (value s k)
      ∙ ap (effects_at k stores) (join_tags-session session_id session_id interests (value s k))
      ∙ made

  -- With every command answered: the entry of a user who was not waiting is, behind Enqueue, the one
  -- that was given, with all the tags, where no tag is empty or has a comma.
  pub get_entry-enqueue :
      (now : ℕ) (interests : List String) (s : State)
      → value s k ≡ missing
      → plain_tags interests ≡ true
      → (get_entry r session_id (enqueue r go now session_id interests s).1).0
        ≡ ok (
            some (record {
              session_id = session_id;
              interests = interests;
              hash = interests_hash go interests;
              joined_at = now;
            }))
  unfolding get_entry
  get_entry-enqueue now interests s h plain =
      let s' = (enqueue r go now session_id interests s).1 in
      ap (entry_found r session_id)
        (ask_value r as_fields (hgetall k) s' _ (reliable s') (enqueue-session now interests s h))
      ∙ entry_of now interests plain

-- ===== src/Matching/Queue/Leaving.antt =====
-- Who is queued in internal/matching/queue.go behind Enqueue and Dequeue.
use whisper_chat.Prelude.{
  ℕ, String, ◌≡◌, refl, ap, ◌∙◌, inl, inr, Bool, true, false, not, ◌&&◌, ◌||◌, Option, none, some,
  List, [], ◌∷◌, Bool-cases, ◌==◌, nat_eq, text_eq, list_eq,
}
use whisper_chat.Prelude.Dict.{Dict, lookup, insert, remove, lookup-insert, lookup-remove}
use whisper_chat.Redis.{Redis, is_member}
use whisper_chat.Redis.Batches.{effects_at, after_all-effects_at, effects_at-append}
use whisper_chat.Redis.Commands.{
  Value, Command, effect, missing, zset, zset_of, key_eq, hgetall, zscore, answer,
  scored as found_score,
}
use whisper_chat.Redis.Client.{Result, ok, as_fields, as_score, ask_value, value-ask_ne}
use whisper_chat.Matching.Tags.{plain_tags}
use whisper_chat.Matching.Queue.{
  Hashing, QueueEntry, key_match_queue, match_session_key, join_tags, leave_tags, enqueue_commands,
  dequeue_commands, get_entry, enqueue, with_entry, dequeue, scored, is_queued,
}
use whisper_chat.Matching.Queue.Entries.{join_tags-queue, get_entry-enqueue}

leave_tags-queue :
    (session_id : String) (tags : List String) (v : Value)
    → effects_at key_match_queue (leave_tags session_id tags) v ≡ v
unfolding leave_tags
leave_tags-queue session_id [] v = refl
leave_tags-queue session_id (tag ∷ tags) v = leave_tags-queue session_id tags v

-- The sorted set with a member more, and with one less.
zadd-zset_of :
    (now : ℕ) (m : String) (z : Dict String ℕ)
    → effect (Command.zadd key_match_queue now m) (zset_of z) ≡ zset (insert m now z)
unfolding insert
zadd-zset_of now m [] = refl
zadd-zset_of now m (p ∷ z) = refl

pub zset-insert :
    (now : ℕ) (m : String) (z : Dict String ℕ) → zset (insert m now z) ≡ zset_of (insert m now z)
unfolding insert
zset-insert now m [] = refl
zset-insert now m ((j, w) ∷ z) = elim (Bool-cases (j == m)) [
  | inl same ↦ rw same
  | inr other ↦ rw other
]

-- As `is_member` reads the result of a lookup.
abbrev present : Option ℕ → Bool
present o = elim o [ none ↦ false | some n ↦ true ]

pub is_member-insert :
    (now : ℕ) (put m : String) (z : Dict String ℕ)
    → is_member m (insert put now z) ≡ (put == m || is_member m z)
is_member-insert now put m z =
    ap present (lookup-insert put m now z)
    ∙ elim (Bool-cases (put == m)) [ inl same ↦ rw same | inr other ↦ rw other ]

is_member-remove-insert :
    (now : ℕ) (gone m : String) (z : Dict String ℕ)
    → is_member m (remove gone (insert gone now z)) ≡ (not (gone == m) && is_member m z)
is_member-remove-insert now gone m z =
    ap present (lookup-remove gone m (insert gone now z)) ∙ elim (Bool-cases (gone == m)) [
      | inl same ↦ rw same
      | inr other ↦ rw other (ap present (lookup-insert gone m now z) ∙ rw other)
    ]

module _ (r : Redis) (reliable : (s : r.State) → r.up s ≡ true) where
  open r use {State, value}

  scored-found :
      (o : Option ℕ)
      → scored r (as_score (some (found_score o))) ≡ ok (elim o [ none ↦ false | some n ↦ true ])
  unfolding scored
  scored-found none = refl
  scored-found (some n) = refl

  scored-answer :
      (m : String) (z : Dict String ℕ) (t : Option ℕ)
      → scored r
          (as_score (some (answer r.arrange r.ranked (zscore key_match_queue m) (zset_of z) t)))
        ≡ ok (is_member m z)
  unfolding scored lookup
  scored-answer m [] t = refl
  scored-answer m (p ∷ z) t = scored-found (lookup m (p ∷ z))

  pub is_queued-zset_of :
      (m : String) (z : Dict String ℕ) (s : State)
      → value s key_match_queue ≡ zset_of z
      → (is_queued r m s).0 ≡ ok (is_member m z)
  unfolding is_queued
  is_queued-zset_of m z s h =
      ap (λ x. scored r x) (ask_value r as_score (zscore key_match_queue m) s _ (reliable s) h)
      ∙ scored-answer m z (r.ttl s key_match_queue)

  pub enqueue-queue :
      (go : Hashing) (now : ℕ) (session_id : String) (interests : List String) (z : Dict String ℕ)
      (s : State)
      → value s key_match_queue ≡ zset_of z
      → value (enqueue r go now session_id interests s).1 key_match_queue
        ≡ zset (insert session_id now z)
  unfolding enqueue enqueue_commands
  enqueue-queue go now session_id interests z s h =
      let q = key_match_queue in
      let added : Value = effect (Command.zadd q now session_id) (value s q) in
      r.value-pipeline _ s q (reliable s)
      ∙ after_all-effects_at (enqueue_commands go now session_id interests) (value s) q
      ∙ effects_at-append q (join_tags session_id interests) _ added
      ∙ join_tags-queue session_id interests added
      ∙ rw h (zadd-zset_of now session_id z)

  with_entry-some :
      (commands : QueueEntry → List Command) (p : Result (Option QueueEntry) × State)
      (entry : QueueEntry)
      → p.0 ≡ ok (some entry)
      → with_entry r commands p ≡ r.pipeline (commands entry) p.1
  unfolding with_entry
  with_entry-some commands (reply, s) entry h = rw (h, with_entry)

  dequeue-queue :
      (entry : QueueEntry) (z : Dict String ℕ) (s : State)
      → value s key_match_queue ≡ zset z
      → value (r.pipeline (dequeue_commands entry) s).1 key_match_queue
        ≡ zset_of (remove entry.session_id z)
  unfolding dequeue_commands
  dequeue-queue entry z s h =
      let q = key_match_queue in
      let gone : Value = effect (Command.zrem q entry.session_id) (value s q) in
      r.value-pipeline _ s q (reliable s)
      ∙ after_all-effects_at (dequeue_commands entry) (value s) q
      ∙ effects_at-append q (leave_tags entry.session_id entry.interests) _ gone
      ∙ leave_tags-queue entry.session_id entry.interests gone
      ∙ rw h

  -- With every command answered: behind Enqueue of a user who was not waiting, with tags that are not
  -- empty and have no comma, the user and no one else is queued more than before; behind a Dequeue
  -- then, the user is queued no more, and everyone else is as before.
  pub is_queued-dequeue :
      (go : Hashing) (now : ℕ) (session_id m : String) (interests : List String) (z : Dict String ℕ)
      (s : State)
      → value s key_match_queue ≡ zset_of z
      → value s (match_session_key session_id) ≡ missing
      → plain_tags interests ≡ true
      → let waiting = (enqueue r go now session_id interests s).1 in
        ((is_queued r m waiting).0 ≡ ok (session_id == m || is_member m z))
        × ((is_queued r m (dequeue r session_id waiting).1).0
            ≡ ok (not (session_id == m) && is_member m z))
  unfolding dequeue get_entry
  is_queued-dequeue go now session_id m interests z s h none_yet plain =
      let waiting = (enqueue r go now session_id interests s).1 in
      let looked = (get_entry r session_id waiting).1 in
      let queue : value waiting key_match_queue ≡ zset (insert session_id now z) =
        enqueue-queue go now session_id interests z s h in
      let same : value looked key_match_queue ≡ zset (insert session_id now z) =
        value-ask_ne r as_fields (hgetall (match_session_key session_id)) waiting key_match_queue
          (reliable waiting) refl
        ∙ queue in
      let known = get_entry-enqueue r reliable go session_id now interests s none_yet plain in
      (
        is_queued-zset_of m (insert session_id now z) waiting (queue ∙ zset-insert now session_id z)
            ∙ ap ok (is_member-insert now session_id m z),
        ap (λ p. (is_queued r m p.1).0) (with_entry-some dequeue_commands _ _ known)
            ∙ is_queued-zset_of m (remove session_id (insert session_id now z)) _
                (dequeue-queue _ _ looked same)
            ∙ ap ok (is_member-remove-insert now session_id m z),
      )

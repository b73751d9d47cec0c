-- ===== src/Tests/MatchingTests.antt =====
-- Runs of internal/matching.
use whisper_chat.Prelude.{
  ℕ, ◌≤◌, ◌<◌, String, ◌≡◌, refl, inl, true, false, not, ◌&&◌, ◌||◌, some, List, [], ◌∷◌, ◌==◌,
  nat_eq, text_eq, list_eq, contains,
}
use whisper_chat.Prelude.Dict.{remove, Dict, lookup, insert}
use whisper_chat.Matching.Tags.{plain_tags, has_comma, join_comma, split_comma}
use whisper_chat.Redis.Memory.{Memory, fresh, sound_memory, sound_memory_up}
use whisper_chat.Redis.{is_member}
use whisper_chat.Redis.Client.{ok, ask}
use whisper_chat.Matching.Queue.{
  Hashing, interests_hash, get_entry, enqueue, dequeue, is_queued, key_match_queue, join_tags,
  enqueue_commands, get_exact_candidates, QueueEntry, get_interest_candidates,
}
use whisper_chat.Redis.Commands.{zset_of}
use whisper_chat.Matching.Tiers.{MatchCandidate, try_exact_match, try_random_match}
use whisper_chat.Matching.Tiers.Candidates.{tiers-IsPartner, try_random_match_finds}
use whisper_chat.Matching.Queue.Entries.{get_entry-enqueue}
use whisper_chat.Matching.Queue.Leaving.{is_queued-dequeue}
use whisper_chat.Matching.Overlap.{mark, gather, first_valid, try_overlap_match}
use whisper_chat.Matching.Overlap.Scores.{shared_count}
use whisper_chat.Matching.Overlap.Best.{try_overlap_match-IsBest}
use whisper_chat.Tests.Rankings.{orders}

-- Any functions do.
abbrev hashing : Hashing
hashing = record { sort_strings = λ l. l; digest = λ t. t }

abbrev tags : List String
tags = "music" ∷ "go" ∷ []

tags-plain : plain_tags tags ≡ true
unfolding plain_tags has_comma
tags-plain = refl

get_entry-enqueue_example :
    (get_entry sound_memory "u" (enqueue sound_memory hashing 7000 "u" tags (fresh [])).1).0
    ≡ ok (
        some (record {
          session_id = "u";
          interests = tags;
          hash = interests_hash hashing tags;
          joined_at = 7000;
        }))
get_entry-enqueue_example =
    get_entry-enqueue sound_memory sound_memory_up hashing "u" 7000 tags (fresh []) refl tags-plain

abbrev user : String
user = "u"

abbrev waiting : Memory
waiting = (enqueue sound_memory hashing 7000 "u" tags (fresh [])).1

is_queued-dequeue_example :
    ((is_queued sound_memory user waiting).0 ≡ ok (user == user || is_member user []))
    × ((is_queued sound_memory user (dequeue sound_memory "u" waiting).1).0
        ≡ ok (not (user == user) && is_member user []))
is_queued-dequeue_example =
    is_queued-dequeue sound_memory sound_memory_up hashing 7000 "u" "u" tags [] (fresh []) refl refl
      tags-plain

-- A second user with the same tags.
abbrev two_waiting : Memory
two_waiting = (enqueue sound_memory hashing 8000 "v" tags waiting).1

abbrev two_queued : Dict String ℕ
two_queued = ("u", 7000) ∷ ("v", 8000) ∷ []

abbrev pair : MatchCandidate
pair = record { session_a = "u"; session_b = "v"; shared_interests = tags }

queue_of_two : sound_memory.value two_waiting key_match_queue ≡ zset_of two_queued
unfolding enqueue enqueue_commands join_tags insert
queue_of_two = refl

pair_found : (try_exact_match sound_memory "u" two_waiting).0 ≡ ok (some pair)
unfolding try_exact_match get_entry get_exact_candidates is_queued ask enqueue enqueue_commands
    join_tags insert interests_hash join_comma split_comma lookup contains
pair_found = refl

tiers-IsPartner_example :
    (pair.session_a ≡ user)
    × ((pair.session_b == user) ≡ false)
    × (is_member pair.session_b two_queued ≡ true)
tiers-IsPartner_example =
    tiers-IsPartner sound_memory sound_memory_up "u" two_queued two_waiting pair queue_of_two
      (inl pair_found)

abbrev other_user : String
other_user = "v"

try_random_match_finds_example :
    (c : MatchCandidate) × ((try_random_match sound_memory user two_waiting).0 ≡ ok (some c))
try_random_match_finds_example =
    try_random_match_finds sound_memory sound_memory_up user other_user two_queued two_waiting
      queue_of_two refl (unfold lookup in refl)

abbrev entry : QueueEntry
entry = record {
  session_id = "u";
  interests = tags;
  hash = interests_hash hashing tags;
  joined_at = 7000;
}

entry_read : (get_entry sound_memory "u" two_waiting).0 ≡ ok (some entry)
unfolding get_entry ask enqueue enqueue_commands join_tags insert interests_hash join_comma
    split_comma lookup
entry_read = refl

best_found : (try_overlap_match sound_memory hashing orders "u" two_waiting).0 ≡ ok (some pair)
unfolding try_overlap_match get_entry get_interest_candidates is_queued ask enqueue enqueue_commands
    join_tags insert interests_hash join_comma split_comma lookup contains gather mark first_valid
    remove
best_found = refl

abbrev shared_with : String → ℕ
shared_with id = shared_count sound_memory id tags two_waiting

v_shares_both : shared_with "v" ≡ 2
unfolding enqueue enqueue_commands join_tags insert contains
v_shares_both = refl

try_overlap_match-IsBest_example :
    (pair.session_a ≡ user)
    × ((pair.session_b == user) ≡ false)
    × (is_member pair.session_b two_queued ≡ true)
    × (0 < shared_with pair.session_b)
    × ((other : String)
        → (other == user) ≡ false
        → is_member other two_queued ≡ true
        → shared_with other ≤ shared_with pair.session_b)
try_overlap_match-IsBest_example =
    try_overlap_match-IsBest sound_memory hashing orders sound_memory_up "u" entry two_queued
      two_waiting pair queue_of_two entry_read best_found

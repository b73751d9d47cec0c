-- ===== src/Tests/SessionTests.antt =====
-- Runs of internal/session.
use whisper_chat.Prelude.{◌≡◌, refl, true, none, some, List, [], ◌∷◌, nat_eq, text_eq, list_eq}
use whisper_chat.Redis.Memory.{fresh, sound_memory, sound_memory_up}
use whisper_chat.Redis.Client.{ok, ask, as_number}
use whisper_chat.Redis.Commands.{exists_key}
use whisper_chat.Session.{create, get, set_interests, session_key}
use whisper_chat.Session.Calls.{Call, left_after, in_time, perform_all, change_all, new_session}
use whisper_chat.Session.Lifetime.{get-perform_all}
use whisper_chat.Session.Late.{late_set_interests}

abbrev calls : List Call
calls =
    Call.sets_fingerprint 1 "f"
    ∷ Call.updates_status 3000 4000 "matching"
    ∷ Call.sets_chat_id 3500 7500 "c"
    ∷ Call.refreshes 50
    ∷ []

calls-in_time : in_time calls 3599 3600 ≡ true
unfolding in_time left_after
calls-in_time = refl

get-perform_all_example :
    (get sound_memory "u" (
      sound_memory.elapse 3599
        (perform_all sound_memory "u" calls (create sound_memory "ws1" 1000 "u" (fresh [])).1))).0
    ≡ ok (some (change_all calls (new_session "ws1" 1000 "u")))
get-perform_all_example =
    get-perform_all sound_memory sound_memory_up "u" "ws1" 1000 calls 3599 (fresh []) refl refl
      calls-in_time

late_set_interests_example :
    let late =
      sound_memory.elapse 9000 (set_interests sound_memory "music" 5000 "u" (fresh [])).1 in
    ((get sound_memory "u" late).0 ≡ ok none)
    × (sound_memory.ttl late (session_key "u") ≡ none)
    × ((ask sound_memory as_number (exists_key (session_key "u")) late).0 ≡ ok 1)
late_set_interests_example =
    late_set_interests sound_memory sound_memory_up "u" "music" 5000 9000 (fresh []) refl refl

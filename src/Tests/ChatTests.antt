-- ===== src/Tests/ChatTests.antt =====
-- Runs of internal/chat.
use whisper_chat.Prelude.{
  ℕ, ◌≤◌, ◌<◌, String, ◌≡◌, refl, ap, ◌≢◌, ◌↔◌, inl, true, false, none, some, List, [], ◌∷◌, arith,
  ◌==◌, nat_eq, text_eq, list_eq, length, contains,
}
use whisper_chat.Chat.Store.{
  get_partner, is_participant, accept_match, create_pending, not_found, chat_key, ChatSession,
}
use whisper_chat.Redis.Memory.{Memory, fresh, sound_memory, sound_memory_up}
use whisper_chat.Redis.Client.{ok}
use whisper_chat.Chat.Buffer.{BufferedMessage, new_ring, add_ring, get_ring, new_message_buffer}
use whisper_chat.Chat.Buffer.Recent.{latest}
use whisper_chat.Chat.Buffer.History.{Call, run, kept, get-run}
use whisper_chat.Chat.Utf8.Encode.{encode}
use whisper_chat.Chat.Validator.{validate_message}
use whisper_chat.Chat.Validator.Accepts.{validate_message-encode}
use whisper_chat.Chat.Store.Contract.{accept}
use whisper_chat.Chat.Store.Handshake.{
  Holds, pending, progress, accept_calls, create_pending-Holds, accept_match-accept,
  get-accept_calls,
}
use whisper_chat.Chat.Buffer as Buffer
use whisper_chat.Chat.Store as Store

abbrev message : String → ℕ → BufferedMessage
message from n = record { sender = from; text = b'h' ∷ b'i' ∷ []; ts = n }

abbrev seven_calls : List Call
seven_calls =
    Call.adds "c" (message "u" 1)
    ∷ Call.adds "d" (message "x" 2)
    ∷ Call.adds "c" (message "v" 3)
    ∷ Call.adds "c" (message "u" 4)
    ∷ Call.removes "d"
    ∷ Call.adds "c" (message "u" 5)
    ∷ Call.adds "c" (message "u" 6)
    ∷ Call.adds "c" (message "v" 7)
    ∷ []

get-run_example :
    Buffer.get "c" (run seven_calls new_message_buffer) ≡ latest (kept "c" seven_calls [])
get-run_example = get-run "c" seven_calls

abbrev euro_text : List ℕ
euro_text = 0x20AC ∷ b'5' ∷ []

validate_message-encode_example : (validate_message (encode euro_text) ≡ none) ↔ (
    (0 < length (encode euro_text))
    × (length euro_text ≤ 2000)
    × (length (encode euro_text) ≤ 4096))
validate_message-encode_example =
    validate_message-encode euro_text (inl (omega arith), (inl (omega arith), tt))

abbrev both : List String
both = "u" ∷ "x" ∷ "v" ∷ []

abbrev user_a : String
user_a = "u"

abbrev user_b : String
user_b = "v"

u_not_v : user_a ≢ user_b
u_not_v h = let e : true ≡ false = ap (λ t. t == user_a) h in absurd (cc e)

abbrev created : Memory
created = (create_pending sound_memory 100 "c" "u" "v" (fresh [])).1

get-accept_calls_example :
    (Store.get sound_memory "c" (accept_calls sound_memory sound_memory_up "c" both created)).0
    ≡ ok (
        some (
          progress sound_memory sound_memory_up 100 "c" "u" "v"
            (contains "u" both)
            (contains "v" both)))
get-accept_calls_example =
    get-accept_calls sound_memory sound_memory_up 100 "c" "u" "v" both (fresh []) u_not_v refl

abbrev waiting_session : ChatSession
waiting_session = pending sound_memory sound_memory_up 100 "c" "u" "v"

accept_match-accept_example :
    ((accept_match sound_memory "c" "u" created).0 ≡ ok (accept waiting_session "u").0)
    × Holds sound_memory sound_memory_up
        (accept waiting_session "u").1
        (accept_match sound_memory "c" "u" created).1
accept_match-accept_example =
    accept_match-accept sound_memory sound_memory_up waiting_session "u" created
      (create_pending-Holds sound_memory sound_memory_up 100 "c" "u" "v" (fresh []) refl)

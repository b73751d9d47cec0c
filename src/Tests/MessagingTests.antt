-- ===== src/Tests/MessagingTests.antt =====
-- Runs of internal/messaging and internal/protocol.
use whisper_chat.Prelude.{
  ℕ, String, ◌≡◌, refl, Bool, true, none, some, [], ◌==◌, nat_eq, text_eq, list_eq, contains,
}
use whisper_chat.Prelude.Dict.{lookup}
use whisper_chat.Tests.Fakes.{wire, quiet}
use whisper_chat.Messaging.{Nats, Subject, subject_eq}
use whisper_chat.Messaging.Client.{
  Client, subject_match_request, keep, subscribe, unsubscribe, subscribe_to_chat,
  unsubscribe_from_chat,
}
use whisper_chat.Messaging.Subscriptions.{unsubscribe_from_chat-subscribe_to_chat, subscribe_twice}
use whisper_chat.Protocol.{Json, object, str, member, no_members, client_types}
use whisper_chat.Protocol.Messages.{ClientMessage, message, ping}
use whisper_chat.Protocol.Parse.{
  envelope_type, read_text, decode, decode_ping, parse_client_message,
}
use whisper_chat.Protocol.Roundtrip.{props_of, type_of, stamp, parse_client_message-props_of}
use whisper_chat.Protocol.Types.{parse_client_message-type}

abbrev nats : Nats String ℕ
nats = wire String ℕ

abbrev client : Client nats
client = record { conn = quiet String ℕ; subs = [] }

subscribed : (subscribe_to_chat nats "c" "s" "handler" client).0 ≡ true
unfolding subscribe_to_chat keep
subscribed = refl

unsubscribe_from_chat-subscribe_to_chat_example :
    let c' =
      (unsubscribe_from_chat nats "s" (subscribe_to_chat nats "c" "s" "handler" client).1).1 in
    ((m : ℕ) → nats.active c'.conn m ≡ nats.active client.conn m)
    × ((k : Subject) → lookup k c'.subs ≡ lookup k client.subs)
unsubscribe_from_chat-subscribe_to_chat_example =
    unsubscribe_from_chat-subscribe_to_chat nats "c" "s" "handler" client (unfold lookup in refl)
      subscribed

again : (subscribe nats subject_match_request "handler" client).0 ≡ true
unfolding subscribe keep
again = refl

and_again :
    (subscribe nats subject_match_request "other"
      (subscribe nats subject_match_request "handler" client).1).0
    ≡ true
unfolding subscribe keep
and_again = refl

subscribe_twice_example :
    let once = (subscribe nats subject_match_request "handler" client).1 in
    let c' =
      (unsubscribe nats subject_match_request
        (subscribe nats subject_match_request "other" once).1).1 in
    (lookup subject_match_request c'.subs ≡ none)
    × ((first : ℕ) × (lookup subject_match_request once.subs ≡ some first)
        × (nats.active once.conn first ≡ some (subject_match_request, "handler"))
        × (nats.active c'.conn first ≡ some (subject_match_request, "handler")))
subscribe_twice_example =
    subscribe_twice nats subject_match_request "handler" "other" client again and_again

abbrev same_text : String → String → Bool
same_text a b = a == b

abbrev hello : ClientMessage
hello = message (record { type = "message"; chat_id = "c"; text = "hello" })

parse_client_message-props_of_example :
    parse_client_message same_text (some (object (props_of hello)))
    ≡ record { type = type_of hello; msg = some (stamp hello) }
parse_client_message-props_of_example =
    parse_client_message-props_of same_text (λ a b h k. refl) hello

abbrev ping_value : Json
ping_value = object (member "type" (str "ping") no_members)

abbrev a_ping : ClientMessage
a_ping = ping (record { type = "ping" })

ping_parsed : (parse_client_message same_text (some ping_value)).msg ≡ some a_ping
unfolding parse_client_message envelope_type read_text decode decode_ping
ping_parsed = refl

parse_client_message-type_example :
    (type_of a_ping ≡ (parse_client_message same_text (some ping_value)).type)
    × (contains (parse_client_message same_text (some ping_value)).type client_types ≡ true)
parse_client_message-type_example =
    parse_client_message-type same_text (some ping_value) a_ping ping_parsed

-- ===== src/Wsserver/Requests.antt =====
-- What the find_match handler of cmd/wsserver/main.go asks the matcher for.
use mathlib.Core.Bool.{Bool-discrete}
use mathlib.Core.List.{filter}
use whisper_chat.Prelude.{
  ℕ, String, ◌≡◌, refl, ap, ◌∙◌, inl, inr, true, false, List, [], ◌∷◌, ◌++◌, if◌then◌else◌,
  Bool-cases, nat_eq, text_eq, list_eq,
}
use whisper_chat.Moderation.Patterns.{codes}
use whisper_chat.Moderation.Filter.{Filter, check}
use whisper_chat.Moderation.Unicode.{Unicode}
use whisper_chat.Ratelimit.{rule_match, allow}
use whisper_chat.Messaging.{Subject}
use whisper_chat.Messaging.Client.{
  Client, publish, publish_match_request, subscribe_match_found, unsubscribe_match_found,
  subject_match_request, subject_match_found,
}
use whisper_chat.Messaging.Publishing.{sent-publish_taken, sent-unsubscribe_key, sent-subscribe_key}
use whisper_chat.Protocol.Messages.{find_match, FindMatchMsg}
use whisper_chat.Matching.Payloads.{MatchRequest}
use whisper_chat.Wsserver.{on_match_found, App, Services, World}
use whisper_chat.Wsserver.Publishing.{app-write_message}
use whisper_chat.Wsserver.Pairing.{clean_interests, start_matching, handle_find_match}

-- The interests that the filter lets through, in their order.
abbrev pub allowed_interests : Unicode → Filter → List String → List String
allowed_interests u f = filter (λ i. Bool-discrete (check u f (codes i)).blocked false)

clean_interests-allowed :
    (u : Unicode) (f : Filter) (l : List String) → clean_interests u f l ≡ allowed_interests u f l
unfolding clean_interests
clean_interests-allowed u f [] = refl
clean_interests-allowed u f (i ∷ l) = elim (Bool-cases (check u f (codes i)).blocked) [
  | inl bad ↦ rw bad (clean_interests-allowed u f l)
  | inr good ↦ rw good (ap (◌∷◌ i) (clean_interests-allowed u f l))
]

module _ {Data : Type 0} (w : Services Data) (now : ℕ) where
  -- Where NATS takes what is published: a find_match within the rate limit is passed on to the matcher
  -- once, with the session and those of the interests that the filter does not block, in their order;
  -- of one over the limit nothing is published.
  pub sent-handle_find_match :
      ((subject : Subject) (d : Data) (c : w.nats.Conn) → (w.nats.publish subject d c).0 ≡ true)
      → (ref : ℕ) (sid : String) (m : FindMatchMsg) (s : World w)
      → let request : MatchRequest = record {
        session_id = sid;
        interests = allowed_interests w.unicode w.filter m.interests;
      } in
        w.nats.sent (handle_find_match w now ref sid (find_match m) s).app.nats.conn ≡ (
          if (allow w.redis sid rule_match s.app.rdb).0.allowed
          then w.nats.sent s.app.nats.conn
            ++ (
              record { prefix = "match.request"; id = "" },
              w.codec.match_requests.marshal request,
            )
              ∷ []
          else w.nats.sent s.app.nats.conn)
  unfolding handle_find_match start_matching publish_match_request subscribe_match_found
      unsubscribe_match_found
  sent-handle_find_match takes ref sid m s =
      let interests = clean_interests w.unicode w.filter m.interests in
      let d = w.codec.match_requests.marshal (record { session_id = sid; interests = interests }) in
      let c1 : Client w.nats = (publish w.nats subject_match_request d s.app.nats).1 in
      let found = subject_match_found sid in
      let c2 : Client w.nats = (unsubscribe_match_found w.nats sid c1).1 in
      elim (Bool-cases (allow w.redis sid rule_match s.app.rdb).0.allowed) [
        | inl within ↦ rw within (
            ap (λ (a : App w). w.nats.sent a.nats.conn) (app-write_message w.sockets ref _ _)
            ∙ sent-subscribe_key w.nats found (on_match_found sid) c2
            ∙ sent-unsubscribe_key w.nats found c1
            ∙ sent-publish_taken w.nats subject_match_request d s.app.nats (takes _ _ _)
            ∙ ap
                (λ l.
                  w.nats.sent s.app.nats.conn
                  ++ (
                    subject_match_request,
                    w.codec.match_requests.marshal (record { session_id = sid; interests = l }),
                  )
                    ∷ [])
                (clean_interests-allowed w.unicode w.filter m.interests))
        | inr limited ↦
            rw limited
              (ap (λ (a : App w). w.nats.sent a.nats.conn) (app-write_message w.sockets ref _ _))
      ]

-- ===== src/Tests/Fakes.antt =====
-- What the process talks to, in memory: these show that the interfaces can be met, and the tests run on
-- them.
use whisper_chat.Prelude.{
  ℕ, ◌+◌, ◌≤◌, ◌≡◌, refl, subst, true, none, some, List, [], ◌∷◌, ◌++◌, arith, if◌then◌else◌, ◌==◌,
  nat_eq, text_eq, list_eq,
}
use whisper_chat.Prelude.Dict.{Dict, lookup, insert, remove, lookup-insert, lookup-remove}
use whisper_chat.Redis.Client.{ok}
use whisper_chat.Messaging.{Nats, Subject}
use whisper_chat.Ws.Server.{Frame, Sockets, Callbacks}
use whisper_chat.Chat.Event.{ChatEvent}
use whisper_chat.Moderation.Reviews.{ModerationRequest, ModerationResult}
use whisper_chat.Matching.Payloads.{MatchRequest, CancelRequest, MatchResult, MatchNotification}
use whisper_chat.Payloads.{Codec}
use whisper_chat.Report.{Row, Postgres}

-- A number above all keys.
abbrev pub fresh_key {ℓ} : {A : Type ℓ} → Dict ℕ A → ℕ
fresh_key [] = 0
fresh_key ((j, a) ∷ m) = j + fresh_key m + 1

module _ {ℓ} {A : Type ℓ} where
  lookup-above : (n : ℕ) (m : Dict ℕ A) → fresh_key m ≤ n → lookup n m ≡ none
  unfolding lookup
  lookup-above n [] h = refl
  lookup-above n ((j, a) ∷ m) h =
      let rest = lookup-above n m (omega (arith, h)) in ground (arith, rest, h)

  pub lookup-fresh_key : (m : Dict ℕ A) → lookup (fresh_key m) m ≡ none
  lookup-fresh_key m = lookup-above (fresh_key m) m (omega arith)

module _ (Handler Data : Type 0) where
  pub record Wire : Type 0 where
    pub sent : List (Subject × Data)
    pub active : Dict ℕ (Subject × Handler)

  abbrev pub wire : Nats Handler Data
  wire = record {
    Conn = Wire;
    publish = λ subject d c. (true, record c { sent = c.sent ++ (subject, d) ∷ [] });
    subscribe = λ subject h c. (
      some (fresh_key c.active),
      record c { active = insert (fresh_key c.active) (subject, h) c.active },
    );
    unsubscribe = λ n c. (true, record c { active = remove n c.active });
    drain = λ n c. (true, c);
    drain_all = λ c. (true, c);
    sent = λ c. c.sent;
    active = λ c n. lookup n c.active;
    sent-publish = λ subject d c. refl;
    sent-subscribe = λ subject h c. refl;
    sent-unsubscribe = λ n c. refl;
    active-publish = λ subject d c n. refl;
    subscribe_fresh = λ subject h c n e.
        let same : fresh_key c.active ≡ n = ground (arith, e) in
        subst (λ x. lookup x c.active ≡ none) same (lookup-fresh_key c.active);
    active-subscribe = λ subject h c n m e.
        let same : fresh_key c.active ≡ n = ground (arith, e) in
        subst
          (λ x.
            lookup m (insert (fresh_key c.active) (subject, h) c.active)
            ≡ (if x == m then some (subject, h) else lookup m c.active))
          same (lookup-insert (fresh_key c.active) m (subject, h) c.active);
    active-subscribe_failed = λ subject h c m e. absurd (ground (arith, e));
    active-unsubscribe = λ n m c. lookup-remove n m c.active;
  }

  abbrev pub quiet : Wire
  quiet = record { sent = []; active = [] }

abbrev pub taps : Sockets
taps = record {
  Net = List (ℕ × Frame);
  write = λ socket frame net. (true, net ++ (socket, frame) ∷ []);
  close = λ socket net. net;
  epoll_add = λ socket net. (true, net);
  epoll_remove = λ socket net. net;
  written = λ net. net;
  written-write = λ socket frame net. refl;
  written-close = λ socket net. refl;
  written-epoll_add = λ socket net. refl;
  written-epoll_remove = λ socket net. refl;
}

-- An application that counts its calls.
abbrev pub counting : Callbacks ℕ
counting = record {
  on_disconnect = λ id n. n + 1;
  create_session = λ id n. n;
  delete_session = λ id n. n + 1;
}

-- Messages of NATS that are not yet bytes.
pub data Payload : Type 0 where
  event : ChatEvent → Payload
  request : MatchRequest → Payload
  cancel : CancelRequest → Payload
  result : MatchResult → Payload
  notification : MatchNotification → Payload
  review_request : ModerationRequest → Payload
  review_result : ModerationResult → Payload

abbrev pub payloads : Codec Payload
payloads = record {
  chat_events = record {
    marshal = event;
    unmarshal = λ d. elim d [ event e ↦ some e | _ ↦ none ];
    unmarshal-marshal = λ a. refl;
  };
  match_requests = record {
    marshal = request;
    unmarshal = λ d. elim d [ request e ↦ some e | _ ↦ none ];
    unmarshal-marshal = λ a. refl;
  };
  cancel_requests = record {
    marshal = cancel;
    unmarshal = λ d. elim d [ cancel e ↦ some e | _ ↦ none ];
    unmarshal-marshal = λ a. refl;
  };
  match_results = record {
    marshal = result;
    unmarshal = λ d. elim d [ result e ↦ some e | _ ↦ none ];
    unmarshal-marshal = λ a. refl;
  };
  match_notifications = record {
    marshal = notification;
    unmarshal = λ d. elim d [ notification e ↦ some e | _ ↦ none ];
    unmarshal-marshal = λ a. refl;
  };
  moderation_requests = record {
    marshal = review_request;
    unmarshal = λ d. elim d [ review_request e ↦ some e | _ ↦ none ];
    unmarshal-marshal = λ a. refl;
  };
  moderation_results = record {
    marshal = review_result;
    unmarshal = λ d. elim d [ review_result e ↦ some e | _ ↦ none ];
    unmarshal-marshal = λ a. refl;
  };
}

abbrev pub table : Postgres
table = record {
  State = List Row;
  insert_row = λ row s. (true, s ++ row ∷ []);
  count_rows = λ fingerprint window s. (ok 0, s);
  rows = λ s. s;
  rows-insert_row = λ row s. refl;
  rows-count_rows = λ fingerprint window s. refl;
}

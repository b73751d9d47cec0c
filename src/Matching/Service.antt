-- ===== src/Matching/Service.antt =====
-- internal/matching/service.go and publisher.go: the service that pairs the waiting users. Times are in
-- milliseconds. The clock is read once for each user of a round; a user who joins after that has waited
-- for 0.
pub mod Requests
pub mod Pairs
use whisper_chat.Prelude.{
  ℕ, ◌+◌, ◌-◌, ◌/◌, String, Bool, true, false, Option, none, some, List, [], ◌∷◌, leb,
  if◌then◌else◌, nat_eq, text_eq, list_eq,
}
use whisper_chat.Redis.{Redis}
use whisper_chat.Redis.Client.{Result, ok, err}
use whisper_chat.Chat.Store.{create_pending}
use whisper_chat.Messaging.{Nats}
use whisper_chat.Messaging.Client.{
  Client, publish, subject_match_found, subscribe_match_request, subscribe_match_cancel,
}
use whisper_chat.Payloads.{Codec}
use whisper_chat.Matching.Payloads.{MatchResult}
use whisper_chat.Matching.Queue.{
  Hashing, QueueEntry, get_entry, get_all_queued, is_queued, enqueue, dequeue, queue_size,
}
use whisper_chat.Matching.Tiers.{MatchCandidate, is_yes, try_exact_match, try_random_match}
use whisper_chat.Matching.Overlap.{Orders, try_overlap_match, try_single_interest_match}

abbrev pub tier1_max_wait : ℕ
tier1_max_wait = 10000

abbrev pub tier2_max_wait : ℕ
tier2_max_wait = 20000

abbrev pub tier3_max_wait : ℕ
tier3_max_wait = 25000

abbrev pub match_timeout : ℕ
match_timeout = 30000

-- The callbacks that Start gives to NATS.
pub data Callback : Type 0 where
  handle_match_request handle_cancel_request : Callback

-- What the service is built from; `uuid` gives a new identifier for each number.
pub record Parts (Data : Type 0) : Type 1 where
  pub redis : Redis
  pub nats : Nats Callback Data
  pub codec : Codec Data
  pub hashing : Hashing
  pub orders : Orders
  pub uuid : ℕ → String

module _ {Data : Type 0} (w : Parts Data) where
  -- Service, with the number of identifiers that were made.
  pub record Service : Type 0 where
    pub rdb : w.redis.State
    pub nats : Client w.nats
    pub made : ℕ

  -- A search, its error logged only.
  abbrev pub found :
      Result (Option MatchCandidate) × w.redis.State → Option MatchCandidate × w.redis.State
  found (err, s) = (none, s)
  found (ok m, s) = (m, s)

  -- The next tier, where its time has come and no earlier one found anyone.
  abbrev pub or_try :
      Bool
      → (w.redis.State → Result (Option MatchCandidate) × w.redis.State)
      → Option MatchCandidate × w.redis.State
      → Option MatchCandidate × w.redis.State
  or_try due tier (some m, s) = (some m, s)
  or_try due tier (none, s) = if due then found (tier s) else (none, s)

  -- The tiers of processQueue for a user who has waited so long.
  unfoldable pub search : String → ℕ → w.redis.State → Option MatchCandidate × w.redis.State
  search sid wait s = or_try (leb tier3_max_wait wait) (try_random_match w.redis sid) (
      or_try (leb tier2_max_wait wait) (try_single_interest_match w.redis w.hashing w.orders sid) (
        or_try (leb tier1_max_wait wait) (try_overlap_match w.redis w.hashing w.orders sid)
          (found (try_exact_match w.redis sid s))))

  abbrev pub result_for : String → String → List String → MatchResult
  result_for chat_id partner shared = record {
    timeout = false;
    chat_id = chat_id;
    partner_id = partner;
    shared_interests = shared;
    accept_deadline = 15;
  }

  -- The second user is told where the first could be.
  unfoldable pub publish_match_found :
      String → MatchCandidate → Client w.nats → Bool × Client w.nats
  publish_match_found chat_id m c =
      let (done, c') =
        publish w.nats (subject_match_found m.session_a)
          (w.codec.match_results.marshal (result_for chat_id m.session_b m.shared_interests)) c in
      if done
      then publish w.nats (subject_match_found m.session_b)
          (w.codec.match_results.marshal (result_for chat_id m.session_a m.shared_interests)) c'
      else (false, c')

  -- Errors are logged only.
  unfoldable pub handle_match : ℕ → MatchCandidate → Service → Service
  handle_match now m x =
      let chat_id = w.uuid x.made in
      let s1 = (dequeue w.redis m.session_a x.rdb).1 in
      let s2 = (dequeue w.redis m.session_b s1).1 in
      record {
        rdb = (create_pending w.redis (now / 1000) chat_id m.session_a m.session_b s2).1;
        nats = (publish_match_found chat_id m x.nats).1;
        made = x.made + 1;
      }

  abbrev pub timeout_result : MatchResult
  timeout_result = record {
    timeout = true;
    chat_id = "";
    partner_id = "";
    shared_interests = [];
    accept_deadline = 0;
  }

  unfoldable pub handle_timeout : String → Service → Service
  handle_timeout session_id x = record x {
    rdb = (dequeue w.redis session_id x.rdb).1;
    nats =
        (publish w.nats (subject_match_found session_id)
          (w.codec.match_results.marshal timeout_result) x.nats).1;
  }

  paired : ℕ → Option MatchCandidate × w.redis.State → Service → Service
  unfolding handle_match
  paired now (none, s) x = record x { rdb = s }
  paired now (some m, s) x = handle_match now m (record x { rdb = s })

  -- The body of the loop of processQueue, once the entry is read.
  unfoldable pub process_entry : ℕ → String → QueueEntry → Service → Service
  unfolding handle_timeout search paired
  process_entry now sid entry x =
      if leb match_timeout (now - entry.joined_at)
      then handle_timeout sid x
      else paired now (search sid (now - entry.joined_at) x.rdb) x

  with_entry : ℕ → String → Result (Option QueueEntry) → Service → Service
  unfolding process_entry
  with_entry now sid (ok (some entry)) x = process_entry now sid entry x
  with_entry now sid _ x = x

  unfoldable pub process_session : ℕ → String → Service → Service
  unfolding with_entry
  process_session now sid x =
      let (queued, s1) = is_queued w.redis sid x.rdb in
      let (entry, s2) = get_entry w.redis sid s1 in
      if is_yes w.redis queued
      then with_entry now sid entry (record x { rdb = s2 })
      else record x { rdb = s1 }

  process_all : (String → ℕ) → List String → Service → Service
  unfolding process_session
  process_all clock [] x = x
  process_all clock (sid ∷ sids) x = process_all clock sids (process_session (clock sid) sid x)

  listed : (String → ℕ) → Result (List String) × w.redis.State → Service → Service
  unfolding process_all
  listed clock (err, s) x = record x { rdb = s }
  listed clock (ok sids, s) x = process_all clock sids (record x { rdb = s })

  -- processQueue, where `clock` is the time at which a user is looked at.
  unfoldable pub process_queue : (String → ℕ) → Service → Service
  unfolding listed
  process_queue clock x = listed clock (get_all_queued w.redis x.rdb) x

  -- The size of the queue is only logged.
  sized : Bool × w.redis.State → w.redis.State
  sized (false, s) = s
  sized (true, s) = (queue_size w.redis s).1

  -- What NATS runs on the data of a message.
  unfoldable pub hear : ℕ → Callback → Data → Service → Service
  unfolding sized
  hear now handle_match_request d x = elim (w.codec.match_requests.unmarshal d) [
    | none ↦ x
    | some req ↦ record x {
      rdb = sized (enqueue w.redis w.hashing now req.session_id req.interests x.rdb);
    }
  ]
  hear now handle_cancel_request d x = elim (w.codec.cancel_requests.unmarshal d) [
    | none ↦ x
    | some req ↦ record x { rdb = (dequeue w.redis req.session_id x.rdb).1 }
  ]

  subscribed : Bool × Client w.nats → Bool × Client w.nats
  subscribed (false, c) = (false, c)
  subscribed (true, c) = subscribe_match_cancel w.nats handle_cancel_request c

  -- The subscriptions of Start; `false` where one of them fails.
  unfoldable pub start : Client w.nats → Bool × Client w.nats
  unfolding subscribed
  start c = subscribed (subscribe_match_request w.nats handle_match_request c)

-- ===== src/Matching/Service/Requests.antt =====
-- What the callbacks of internal/matching/service.go do to the queue.
use whisper_chat.Prelude.{
  ℕ, String, ◌≡◌, refl, ap, ◌∙◌, inl, inr, Bool, true, false, ◌||◌, Bool-cases, ◌==◌, nat_eq,
  text_eq, list_eq,
}
use whisper_chat.Redis.Commands.{Key, zset_of, key_eq, zcard}
use whisper_chat.Prelude.Dict.{Dict, insert}
use whisper_chat.Redis.{is_member}
use whisper_chat.Redis.Client.{ok, as_number, value-ask}
use whisper_chat.Matching.Payloads.{MatchRequest}
use whisper_chat.Matching.Queue.{key_match_queue, enqueue, queue_size, is_queued}
use whisper_chat.Matching.Queue.Leaving.{
  enqueue-queue, is_queued-zset_of, is_member-insert, zset-insert,
}
use whisper_chat.Matching.Service.{Parts, Service, hear, sized, handle_match_request}

module _ {Data : Type 0} (w : Parts Data)
    (reliable : (s : w.redis.State) → w.redis.up s ≡ true) where
  -- Looking at the size of the queue changes no value.
  value-sized :
      (b : Bool) (s : w.redis.State) (k : Key)
      → w.redis.value (sized w (b, s)) k ≡ w.redis.value s k
  unfolding sized queue_size
  value-sized false s k = refl
  value-sized true s k =
      value-ask w.redis as_number (zcard key_match_queue) s k (reliable s)
      ∙ elim (Bool-cases (key_match_queue == k)) [
        | inl same ↦ rw same refl
        | inr other ↦ rw other refl
      ]

  -- With every command answered, the matcher that hears a request puts the user in the queue, and
  -- nobody else in it or out of it.
  pub is_queued-hear :
      (now : ℕ) (req : MatchRequest) (m : String) (z : Dict String ℕ) (x : Service w)
      → w.redis.value x.rdb key_match_queue ≡ zset_of z
      → (is_queued w.redis m
          (hear w now handle_match_request (w.codec.match_requests.marshal req) x).rdb).0
        ≡ ok (req.session_id == m || is_member m z)
  unfolding hear
  is_queued-hear now req m z x queue =
      let read = w.codec.match_requests.unmarshal-marshal req in
      let put = enqueue w.redis w.hashing now req.session_id req.interests x.rdb in
      let z' = insert req.session_id now z in
      let waiting : w.redis.value (sized w put) key_match_queue ≡ zset_of z' =
        value-sized put.0 put.1 key_match_queue
        ∙ enqueue-queue w.redis reliable w.hashing now req.session_id req.interests z x.rdb queue
        ∙ zset-insert now req.session_id z in
      rw (hear, read)
        (is_queued-zset_of w.redis reliable m z' (sized w put) waiting
          ∙ ap ok (is_member-insert now req.session_id m z))

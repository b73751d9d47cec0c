-- ===== src/Matching/Cleanup/Deadline.antt =====
-- Which chats a round of internal/matching/cleanup.go deletes.
use whisper_chat.Redis.Commands.{zrange_by_score}
use whisper_chat.Redis.Commands.{within}
use whisper_chat.Matching.Cleanup.{as_members}
use whisper_chat.Redis.Commands.{zset_of}
use whisper_chat.Matching.Cleanup.{ask}
use whisper_chat.Matching.Cleanup.{clean_expired_pending_chats}
use whisper_chat.Prelude.Dict.{Dict}
use whisper_chat.Prelude.{
  ℕ, String, ◌≡◌, refl, sym, ap, ap₂, ◌∙◌, inl, inr, Bool, true, false, ◌&&◌, ◌||◌, Option, some,
  List, [], ◌∷◌, if◌then◌else◌, Bool-cases, Option-cases, ◌==◌, nat_eq, text_eq, list_eq, contains,
}
use whisper_chat.Prelude.Dict.{lookup}
use whisper_chat.Redis.{is_member}
use whisper_chat.Redis.Commands.{
  Key, key_eq, Value, missing, str, hash, set, zset, answer, hget, del, zrem,
}
use whisper_chat.Redis.Client.{ok, as_datum, as_done, ask_value, value-ask, value-ask_ne}
use whisper_chat.Chat.Store.{chat_key, pending_key}
use whisper_chat.Matching.Service.{Parts, Service}
use whisper_chat.Matching.Overlap.Scores.{if_same}
use whisper_chat.Matching.Cleanup.{
  text_or_empty, read_field, expire_chat, clean_pending_chat, clean_pending, overdue,
}

module _ {Data : Type 0} (w : Parts Data)
    (reliable : (s : w.redis.State) → w.redis.up s ≡ true) where
  open w.redis use {State, value}

  value-read_field :
      (chat_id field : String) (s : State) (k : Key)
      → value (read_field w.redis chat_id field s).1 k ≡ value s k
  value-read_field chat_id field s k =
      value-ask w.redis as_datum (hget (chat_key chat_id) field) s k (reliable s)
      ∙ if_same (chat_key chat_id == k) (value s k)

  value-expire_chat :
      (chat_id : String) (x : Service w) (k : Key)
      → value (expire_chat w chat_id x).rdb k
        ≡ (if chat_key chat_id == k then missing else value x.rdb k)
  unfolding expire_chat
  value-expire_chat chat_id x k =
      let s1 : State = (read_field w.redis chat_id "user_a" x.rdb).1 in
      let s2 : State = (read_field w.redis chat_id "user_b" s1).1 in
      value-ask w.redis as_done (del (chat_key chat_id)) s2 k (reliable s2)
      ∙ ap (λ v. if chat_key chat_id == k then missing else v)
          (value-read_field chat_id "user_b" s1 k ∙ value-read_field chat_id "user_a" x.rdb k)

  -- Is the chat that a key holds still waiting for its users?
  abbrev pub is_pending : Value → Bool
  is_pending (hash h) = text_or_empty w.redis (ok (lookup "status" h)) == "pending_accept"
  is_pending _ = false

  is_pending-hget :
      (k : Key) (v : Value) (t : Option ℕ)
      → (text_or_empty w.redis
            (as_datum (some (answer w.redis.arrange w.redis.ranked (hget k "status") v t)))
          == "pending_accept")
        ≡ is_pending v
  is_pending-hget k missing t = refl
  is_pending-hget k (str d) t = refl
  is_pending-hget k (hash h) t = elim (Option-cases (lookup "status" h)) [
    | inl none_there ↦ rw none_there refl
    | inr (d, there) ↦ rw there refl
  ]
  is_pending-hget k (set l) t = refl
  is_pending-hget k (zset l) t = refl

  status_read :
      (chat_id : String) (s : State)
      → ((read_field w.redis chat_id "status" s).0 == "pending_accept")
        ≡ is_pending (value s (chat_key chat_id))
  status_read chat_id s =
      ap (λ a. text_or_empty w.redis a == "pending_accept")
        (ask_value w.redis as_datum (hget (chat_key chat_id) "status") s _ (reliable s) refl)
      ∙ is_pending-hget (chat_key chat_id) (value s (chat_key chat_id)) _

  -- What is left of a chat's key.
  abbrev kept : Bool → Value → Value
  kept overdue v = if overdue && is_pending v then missing else v

  value-clean_pending_chat :
      (chat_id id : String) (x : Service w)
      → value (clean_pending_chat w chat_id x).rdb (chat_key id)
        ≡ kept (chat_id == id) (value x.rdb (chat_key id))
  unfolding clean_pending_chat
  value-clean_pending_chat chat_id id x =
      let s1 : State = (read_field w.redis chat_id "status" x.rdb).1 in
      let x1 : Service w = record x { rdb = s1 } in
      let x2 : Service w =
        if (read_field w.redis chat_id "status" x.rdb).0 == "pending_accept"
        then expire_chat w chat_id x1
        else x1 in
      let tracked =
        value-ask_ne w.redis as_done (zrem pending_key chat_id) x2.rdb (chat_key id)
          (reliable x2.rdb) refl in
      let same = value-read_field chat_id "status" x.rdb (chat_key id) in
      let status = status_read chat_id x.rdb in
      let v : Value = value x.rdb (chat_key id) in
      let its_own : (chat_id == id) ≡ true
          → is_pending (value x.rdb (chat_key chat_id)) ≡ is_pending v =
        λ h. ap (λ i. is_pending (value x.rdb (chat_key i))) ((text_eq.beq_iff chat_id id).0 h) in
      elim (Bool-cases (is_pending (value x.rdb (chat_key chat_id)))) [
        | inl pending ↦
            let expired : x2 ≡ expire_chat w chat_id x1 = rw (status ∙ pending) refl in
            let result : value x2.rdb (chat_key id) ≡ (if chat_id == id then missing else v) =
              ap (λ y. value y.rdb (chat_key id)) expired
              ∙ value-expire_chat chat_id x1 (chat_key id)
              ∙ ap (λ u. if chat_id == id then missing else u) same in
            tracked ∙ result ∙ elim (Bool-cases (chat_id == id)) [
              | inl own ↦ rw (own, sym (its_own own) ∙ pending) refl
              | inr other ↦ rw other refl
            ]
        | inr settled ↦
            let spared : x2 ≡ x1 = rw (status ∙ settled) refl in
            tracked
            ∙ ap (λ y. value y.rdb (chat_key id)) spared
            ∙ same
            ∙ elim (Bool-cases (chat_id == id)) [
              | inl own ↦ rw (own, sym (its_own own) ∙ settled) refl
              | inr other ↦ rw other refl
            ]
      ]

  kept_twice : (a b : Bool) (v : Value) → kept b (kept a v) ≡ kept (a || b) v
  kept_twice false b v = refl
  kept_twice true false v = refl
  kept_twice true true v = elim (Bool-cases (is_pending v)) [
    | inl pending ↦ rw pending refl
    | inr settled ↦ rw (settled, settled) refl
  ]

  value-clean_pending :
      (chat_ids : List String) (id : String) (x : Service w)
      → value (clean_pending w chat_ids x).rdb (chat_key id)
        ≡ kept (contains id chat_ids) (value x.rdb (chat_key id))
  unfolding clean_pending contains
  value-clean_pending [] id x = refl
  value-clean_pending (chat_id ∷ chat_ids) id x =
      value-clean_pending chat_ids id (clean_pending_chat w chat_id x)
      ∙ ap (kept (contains id chat_ids)) (value-clean_pending_chat chat_id id x)
      ∙ kept_twice (chat_id == id) (contains id chat_ids) (value x.rdb (chat_key id))

  overdue-kept :
      (l : List String) (id : String) (now : ℕ) (z : Dict String ℕ) (x : Service w)
      → (ask w.redis as_members (zrange_by_score pending_key now) x.rdb).0 ≡ ok l
      → contains id l ≡ is_member id (within now z)
      → value (clean_expired_pending_chats w now x).rdb (chat_key id)
        ≡ kept (is_member id (within now z)) (value x.rdb (chat_key id))
  unfolding clean_expired_pending_chats overdue
  overdue-kept l id now z x reply listed =
      let asked = ask w.redis as_members (zrange_by_score pending_key now) x.rdb in
      let x1 : Service w = record x { rdb = asked.1 } in
      let same : value asked.1 (chat_key id) ≡ value x.rdb (chat_key id) =
        value-ask_ne w.redis as_members (zrange_by_score pending_key now) x.rdb (chat_key id)
          (reliable x.rdb) refl in
      let opened : clean_expired_pending_chats w now x ≡ clean_pending w l x1 = rw reply refl in
      ap (λ y. value y.rdb (chat_key id)) opened
      ∙ value-clean_pending l id x1
      ∙ ap₂ kept listed same

  -- With every command answered, a round of the cleanup deletes a chat if its deadline in the set of
  -- pending chats is over and its users have not both accepted it; every other chat, an active one for
  -- instance, stays as it is.
  pub clean_expired_pending_chats-is_pending :
      (now : ℕ) (id : String) (z : Dict String ℕ) (x : Service w)
      → value x.rdb pending_key ≡ zset_of z
      → value (clean_expired_pending_chats w now x).rdb (chat_key id) ≡ (
          if is_member id (within now z) && is_pending (value x.rdb (chat_key id))
          then missing
          else value x.rdb (chat_key id))
  unfolding contains lookup
  clean_expired_pending_chats-is_pending now id [] x h =
      overdue-kept [] id now [] x
        (ask_value w.redis as_members (zrange_by_score pending_key now) x.rdb _ (reliable x.rdb) h)
        refl
  clean_expired_pending_chats-is_pending now id (p ∷ z) x h =
      overdue-kept (w.redis.ranked (within now (p ∷ z))) id now (p ∷ z) x
        (ask_value w.redis as_members (zrange_by_score pending_key now) x.rdb _ (reliable x.rdb) h)
        (w.redis.contains-ranked id (within now (p ∷ z)))

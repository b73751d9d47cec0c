-- ===== src/Session/Late.antt =====
-- SetInterests of internal/session/store.go on a session that is over.
use whisper_chat.Prelude.{
  ℕ, String, ◌≡◌, refl, ap, ◌∙◌, true, none, [], ◌∷◌, nat_eq, text_eq, list_eq,
}
use whisper_chat.Redis.Commands.{
  Command, hset_fields, Key, int, text, hset, hgetall, exists_key, hash, missing, key_eq,
}
use whisper_chat.Prelude.Dict.{insert, lookup}
use whisper_chat.Redis.{Redis}
use whisper_chat.Redis.Client.{
  ok, as_fields, as_number, as_done, ask, ask_value, value-ask_value, ttl-ask_value,
}
use whisper_chat.Session.{session_key, get, scan, set_interests}

module _ (r : Redis) (reliable : (s : r.State) → r.up s ≡ true) (session_id : String) where
  open r use {State, value, ttl, elapse}

  abbrev k : Key
  k = session_key session_id

  -- With every command answered: SetInterests on a session whose key is gone makes a hash with no time
  -- to live. However long one waits without another call, Get shows no session for it, and its key
  -- exists.
  pub late_set_interests :
      (interests : String) (now n : ℕ) (s : State)
      → value s k ≡ missing
      → ttl s k ≡ none
      → let late = elapse n (set_interests r interests now session_id s).1 in
        ((get r session_id late).0 ≡ ok none)
        × (ttl late k ≡ none)
        × ((ask r as_number (exists_key k) late).0 ≡ ok 1)
  unfolding set_interests get scan lookup insert
  late_set_interests interests now n s gone no_life =
      let c : Command = hset k (("interests", text interests) ∷ ("last_active", int now) ∷ []) in
      let s' : State = (ask r as_done c s).1 in
      let left : value s' k
          ≡ hash (hset_fields (("interests", text interests) ∷ ("last_active", int now) ∷ []) []) =
        value-ask_value r as_done c s _ (reliable s) gone in
      let life : ttl s' k ≡ none = ttl-ask_value r as_done c s _ _ (reliable s) gone no_life in
      let still : value (elapse n s') k
          ≡ hash (hset_fields (("interests", text interests) ∷ ("last_active", int now) ∷ []) []) =
        r.value-elapse n s' k ∙ rw life left in
      let unseen : scan r
            (ok (hset_fields (("interests", text interests) ∷ ("last_active", int now) ∷ []) []))
          ≡ ok none =
        refl in
      (
        ap (scan r) (ask_value r as_fields (hgetall k) (elapse n s') _ (reliable _) still) ∙ unseen,
        r.ttl-elapse n s' k ∙ rw life,
        ask_value r as_number (exists_key k) (elapse n s') _ (reliable _) still,
      )

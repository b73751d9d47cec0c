-- ===== src/Redis/Client.antt =====
-- One command at a time, as the Go code reads it: a result or an error.
use whisper_chat.Redis.{Value}
use whisper_chat.Prelude.{
  ℕ, String, ◌≡◌, ap, ap₂, ◌∙◌, true, false, Option, none, some, List, if◌then◌else◌, ◌==◌, nat_eq,
  text_eq, list_eq, ==-self,
}
use whisper_chat.Redis.{Redis}
use whisper_chat.Redis.Commands.{
  effect, ttl_effect, key_eq, Key, Datum, Command, Reply, key, after, answer,
}
use whisper_chat.Prelude.Dict.{Dict}

-- Go's (value, err), with the error's text left out.
pub data Result {ℓ} (A : Type ℓ) : Type ℓ where
  ok : A → Result A
  err : Result A

-- Err() == nil
abbrev pub as_done : Option Reply → Result (Unit {0})
as_done none = err
as_done (some Reply.wrong_type) = err
as_done (some other) = ok tt

-- Result() of INCR, ZCARD and EXISTS
abbrev pub as_number : Option Reply → Result ℕ
as_number (some (Reply.number n)) = ok n
as_number _ = err

-- Result() of GET and HGET, `ok none` for redis.Nil
abbrev pub as_datum : Option Reply → Result (Option Datum)
as_datum (some Reply.nil) = ok none
as_datum (some (Reply.datum d)) = ok (some d)
as_datum _ = err

-- Result() of ZSCORE and TTL, `ok none` for redis.Nil and for no time to live
abbrev pub as_score : Option Reply → Result (Option ℕ)
as_score (some Reply.nil) = ok none
as_score (some (Reply.number n)) = ok (some n)
as_score _ = err

abbrev pub as_fields : Option Reply → Result (Dict String Datum)
as_fields (some (Reply.fields h)) = ok h
as_fields _ = err

abbrev pub as_members : Option Reply → Result (List String)
as_members (some (Reply.members l)) = ok l
as_members _ = err

module _ (r : Redis) where
  open r use {
    State, up, value, ttl, send, send_up, send_down, arrange, ranked, value-send, ttl-send,
  }

  unfoldable pub ask {ℓ} :
      {A : Type ℓ} → (Option Reply → Result A) → Command → State → Result A × State
  ask read c s = let (reply, s') = send c s in (read reply, s')

  module _ {ℓ} {A : Type ℓ} (read : Option Reply → Result A) (c : Command) (s : State) where
    pub ask_up :
        up s ≡ true
        → (ask read c s).0 ≡ read (some (answer arrange ranked c (value s (key c)) (ttl s (key c))))
    unfolding ask
    ask_up h = ap read (send_up c s h)

    pub ask_down : up s ≡ false → (ask read c s).0 ≡ read none
    unfolding ask
    ask_down h = ap read (send_down c s h)

    pub value-ask : (k : Key) → up s ≡ true → value (ask read c s).1 k ≡ after c (value s) k
    unfolding ask
    value-ask k h = value-send c s k h

    pub ttl-ask :
        (k : Key)
        → up s ≡ true
        → ttl (ask read c s).1 k
          ≡ (if key c == k then ttl_effect c (value s k) (ttl s k) else ttl s k)
    unfolding ask
    ttl-ask k h = ttl-send c s k h

    -- The command's own key, and any other.
    pub value-ask_self : up s ≡ true → value (ask read c s).1 (key c) ≡ effect c (value s (key c))
    value-ask_self h = value-ask (key c) h ∙ rw (==-self (key c))

    pub ttl-ask_self :
        up s ≡ true → ttl (ask read c s).1 (key c) ≡ ttl_effect c (value s (key c)) (ttl s (key c))
    ttl-ask_self h = ttl-ask (key c) h ∙ rw (==-self (key c))

    pub value-ask_ne :
        (k : Key) → up s ≡ true → (key c == k) ≡ false → value (ask read c s).1 k ≡ value s k
    value-ask_ne k h other = value-ask k h ∙ rw other

    pub ttl-ask_ne :
        (k : Key) → up s ≡ true → (key c == k) ≡ false → ttl (ask read c s).1 k ≡ ttl s k
    ttl-ask_ne k h other = ttl-ask k h ∙ rw other

    -- The answer at a known value.
    pub ask_value :
        (v : Value)
        → up s ≡ true
        → value s (key c) ≡ v
        → (ask read c s).0 ≡ read (some (answer arrange ranked c v (ttl s (key c))))
    ask_value v h e = ask_up h ∙ ap (λ x. read (some (answer arrange ranked c x (ttl s (key c))))) e

    pub value-ask_value :
        (v : Value)
        → up s ≡ true
        → value s (key c) ≡ v
        → value (ask read c s).1 (key c) ≡ effect c v
    value-ask_value v h e = value-ask_self h ∙ ap (effect c) e

    pub ttl-ask_value :
        (v : Value) (t : Option ℕ)
        → up s ≡ true
        → value s (key c) ≡ v
        → ttl s (key c) ≡ t
        → ttl (ask read c s).1 (key c) ≡ ttl_effect c v t
    ttl-ask_value v t h e l = ttl-ask_self h ∙ ap₂ (ttl_effect c) e l

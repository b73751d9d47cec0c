-- ===== src/Ratelimit/Failures.antt =====
-- What a caller of internal/ratelimit/limiter.go can conclude from one answer, whatever
-- else fails.
use whisper_chat.Prelude.{
  ℕ, ◌+◌, ◌≤◌, ◌<◌, String, ◌≡◌, refl, sym, ap, ◌∙◌, inl, inr, true, false, Option, some, List,
  arith, ltb, leb, Bool-cases, nat_eq, text_eq, list_eq,
}
use whisper_chat.Redis.{Redis}
use whisper_chat.Prelude.Dict.{Dict}
use whisper_chat.Redis.Commands.{
  Key, int, text, Value, str, missing, key_eq, incr, expire, get, answer,
}
use whisper_chat.Redis.Client.{
  Result, ok, err, as_done, as_number, as_datum, ask, ask_up, ask_down, value-ask_self,
}
use whisper_chat.Ratelimit.{Rule, limit_key, counted, allow, remaining_requests, left}

-- The requests that a counter stands for.
abbrev pub used : Value → ℕ
used (str (int c)) = c
used _ = 0

used_of_answer :
    (arrange : List String → List String) (ranked : Dict String ℕ → List String) (k : Key)
    (v : Value) (t : Option ℕ) (n : ℕ)
    → as_number (some (answer arrange ranked (incr k) v t)) ≡ ok n
    → n ≡ used v + 1
used_of_answer arrange ranked k missing t n h = ground arith
used_of_answer arrange ranked k (str (int c)) t n h = ground arith
used_of_answer arrange ranked k v t n h = cc

module _ (r : Redis) (identifier : String) (rule : Rule) (s : r.State) where
  open r use {State, up, value, ttl}

  abbrev counter : Key
  counter = limit_key rule identifier

  counted_denies :
      (reply : Result ℕ) (s' : State)
      → (counted r rule counter (reply, s')).0.allowed ≡ false
      → (n : ℕ) × (reply ≡ ok n) × (rule.limit < n)
  unfolding counted
  counted_denies err s' h = cc
  counted_denies (ok n) s' h = (n, refl, ground arith)

  -- A request is refused only where Redis has answered and counts `limit` requests before it.
  pub refused_over_limit :
      (allow r identifier rule s).0.allowed ≡ false
      → (up s ≡ true) × (rule.limit ≤ used (value s counter))
  unfolding allow
  refused_over_limit h =
      let (n, reply, over) =
        counted_denies (ask r as_number (incr counter) s).0 (ask r as_number (incr counter) s).1
          h in
      elim (Bool-cases (up s)) [
        | inl working ↦ (
          working,
          omega (
            arith,
            used_of_answer _ _ counter (value s counter) (ttl s counter) n
                (sym (ask_up r as_number (incr counter) s working) ∙ reply),
          ),
        )
        | inr down ↦ cc (ask_down r as_number (incr counter) s down)
      ]

-- The number that Remaining reads from a value, and the count that the next INCR gives.
told_counts :
    (r : Redis) (rule : Rule) (k : Key) (v : Value) (t t' : Option ℕ) (n : ℕ)
    → left r rule (as_datum (some (answer r.arrange r.ranked (get k) v t))) ≡ (n, false)
    → (m : ℕ) × (as_number (some (answer r.arrange r.ranked (incr k) v t')) ≡ ok m)
      × (leb m rule.limit ≡ ltb 0 n)
unfolding left
told_counts r rule k missing t t' n h = (1, refl, ground arith)
told_counts r rule k (str (int c)) t t' n h = (c + 1, refl, ground arith)
told_counts r rule k (str (text d)) t t' n h = absurd (ground arith)
told_counts r rule k v t t' n h = absurd (ground arith)

module _ (r : Redis) (reliable : (s : r.State) → r.up s ≡ true) (identifier : String)
    (rule : Rule) where
  allow_counted :
      (n : ℕ) (s : r.State)
      → (ask r as_number (incr (limit_key rule identifier)) s).0 ≡ ok n
      → (allow r identifier rule s).0.allowed ≡ leb n rule.limit
  unfolding allow
  allow_counted n s reply =
      let k : Key = limit_key rule identifier in
      let s' : r.State = (ask r as_number (incr k) s).1 in
      let set : (ask r as_done (expire k rule.window) s').0 ≡ ok tt =
        ask_up r as_done (expire k rule.window) s' (reliable s') in
      rw (reply, allow) (ground (arith, set))

  -- With every command answered, where Remaining gives a number and no error, the next request is
  -- allowed exactly when that number is positive.
  pub allow-remaining :
      (n : ℕ) (s : r.State)
      → (remaining_requests r identifier rule s).0 ≡ (n, false)
      → (allow r identifier rule (remaining_requests r identifier rule s).1).0.allowed ≡ ltb 0 n
  unfolding remaining_requests
  allow-remaining n s h =
      let k : Key = limit_key rule identifier in
      let s' : r.State = (ask r as_datum (get k) s).1 in
      let same : r.value s' k ≡ r.value s k = value-ask_self r as_datum (get k) s (reliable s) in
      let shown = ask_up r as_datum (get k) s (reliable s) in
      let told : left r rule
            (as_datum (some (answer r.arrange r.ranked (get k) (r.value s k) (r.ttl s k))))
          ≡ (n, false) =
        ap (left r rule) (sym shown) ∙ h in
      let reply =
        ask_up r as_number (incr k) s' (reliable s')
        ∙ ap (λ v. as_number (some (answer r.arrange r.ranked (incr k) v (r.ttl s' k)))) same in
      let (m, counts, agrees) =
        told_counts r rule k (r.value s k) (r.ttl s k) (r.ttl s' k) n told in
      allow_counted m s' (reply ∙ counts) ∙ agrees

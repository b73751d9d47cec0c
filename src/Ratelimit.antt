-- ===== src/Ratelimit.antt =====
-- internal/ratelimit/limiter.go: a limit on the requests of one identifier, counted in Redis.
-- Windows are in seconds.
pub mod Failures
pub mod Window
use whisper_chat.Prelude.{
  ℕ, zero, suc, ◌+◌, ◌-◌, ◌*◌, ◌/◌, ◌%◌, ◌^◌, ◌≤◌, ◌<◌, compare, Ordering, String, ◌≡◌, refl, sym,
  ap, ap₂, subst, ◌∙◌, fun_ext, ◌≢◌, ◌↔◌, ◌⊎◌, inl, inr, Bool, true, false, not, ◌&&◌, ◌||◌, Option,
  none, some, List, [], ◌∷◌, ◌++◌, map, arith, ltb, leb, if◌then◌else◌, ltb→lt, lt→ltb, leb→le,
  le→leb, tests, Bool-cases, Option-cases, Eq, ◌==◌, nat_eq, text_eq, list_eq, ==-self, ==-ne,
  length, get_or, set, drop, replicate, length-append, length-set, length-replicate,
  get_or-set_self, get_or-set_ne, All, contains,
}
use whisper_chat.Redis.{Redis}
use whisper_chat.Redis.Commands.{Key, Datum, Command}
use whisper_chat.Redis.Client.{Result, ok, err, as_done, as_number, as_datum, ask}

pub record Rule : Type 0 where
  pub prefix : String
  pub limit : ℕ
  pub window : ℕ

abbrev pub rule_message : Rule
rule_message = record { prefix = "rl:msg:"; limit = 5; window = 10 }

abbrev pub rule_match : Rule
rule_match = record { prefix = "rl:match:"; limit = 10; window = 60 }

abbrev pub rule_connect : Rule
rule_connect = record { prefix = "rl:conn:"; limit = 5; window = 60 }

-- rule.Key + identifier
abbrev pub limit_key : Rule → String → Key
limit_key rule identifier = record { prefix = rule.prefix; id = identifier }

-- (allowed, err): `failed` where the error is not nil.
pub record Verdict : Type 0 where
  pub allowed : Bool
  pub failed : Bool

module _ (r : Redis) where
  open r use {State}

  -- The end of Allow, once the expiry is in order.
  verdict : Rule → ℕ → State → Verdict × State
  verdict rule count s =
      if ltb rule.limit count
      then (record { allowed = false; failed = false }, s)
      else (record { allowed = true; failed = false }, s)

  -- Allow, once the expiry of a first increment has been sent.
  expiry_set : Rule → Key → ℕ → Result (Unit {0}) × State → Verdict × State
  unfolding verdict
  expiry_set rule k count (err, s) =
      let (_, s') = ask r as_done (Command.del k) s in
      (record { allowed = true; failed = true }, s')
  expiry_set rule k count (ok _, s) = verdict rule count s

  -- Allow, once the counter has been incremented.
  counted : Rule → Key → Result ℕ × State → Verdict × State
  unfolding expiry_set
  counted rule k (err, s) = (record { allowed = true; failed = true }, s)
  counted rule k (ok count, s) =
      if count == 1
      then expiry_set rule k count (ask r as_done (Command.expire k rule.window) s)
      else verdict rule count s

  unfoldable pub allow : String → Rule → State → Verdict × State
  unfolding counted
  allow identifier rule s =
      let k = limit_key rule identifier in counted rule k (ask r as_number (Command.incr k) s)

  -- Int() fails on a value that is no decimal integer.
  left : Rule → Result (Option Datum) → ℕ × Bool
  left rule err = (rule.limit, true)
  left rule (ok none) = (rule.limit, false)
  left rule (ok (some (Datum.text t))) = (rule.limit, true)
  left rule (ok (some (Datum.int count))) =
      if ltb rule.limit count then (0, false) else (rule.limit - count, false)

  -- Remaining: the number, and whether the error is not nil.
  unfoldable pub remaining_requests : String → Rule → State → (ℕ × Bool) × State
  unfolding left
  remaining_requests identifier rule s =
      let (reply, s') = ask r as_datum (Command.get (limit_key rule identifier)) s in
      (left rule reply, s')

-- ===== src/Ratelimit/Window.antt =====
-- The limiter of internal/ratelimit/limiter.go over a window of time.
use mathlib.Core.Path.{subst₂}
use mathlib.Core.List.{append-nil}
use whisper_chat.Prelude.{
  ℕ, zero, suc, ◌+◌, ◌-◌, ◌≤◌, ◌<◌, String, ◌≡◌, refl, sym, ap, ap₂, ◌∙◌, Bool, true, false, some,
  List, [], ◌∷◌, ◌++◌, arith, leb, ◌==◌, nat_eq, text_eq, list_eq, length,
}
use whisper_chat.Redis.{Redis, expires_in}
use whisper_chat.Redis.Commands.{Key, int, str, missing, key_eq, incr, expire}
use whisper_chat.Redis.Client.{value-ask_self, ttl-ask_self, ok, as_done, as_number, ask, ask_up}
use whisper_chat.Ratelimit.{Rule, limit_key, verdict, expiry_set, allow}

verdict-allowed :
    (r : Redis) (rule : Rule) (n : ℕ) (s : r.State)
    → (verdict r rule n s).0.allowed ≡ leb n rule.limit
unfolding verdict
verdict-allowed r rule n s = ground arith

verdict-state : (r : Redis) (rule : Rule) (n : ℕ) (s : r.State) → (verdict r rule n s).1 ≡ s
unfolding verdict
verdict-state r rule n s = ground arith

module _ (r : Redis) (reliable : (s : r.State) → r.up s ≡ true) (identifier : String)
    (rule : Rule) where
  open r use {State, up, value, ttl, elapse}

  abbrev k : Key
  k = limit_key rule identifier

  -- The counter stands at `c` and lives `t` seconds more.
  record Counts (c t : ℕ) (s : State) : Type 0 where
    count : value s k ≡ str (int c)
    life : ttl s k ≡ some t

  allow_next :
      (c t : ℕ) (s : State)
      → Counts c t s
      → 0 < c
      → ((allow r identifier rule s).0.allowed ≡ leb (c + 1) rule.limit)
        × Counts (c + 1) t (allow r identifier rule s).1
  unfolding allow
  allow_next c t s h pos =
      let s' : State = (ask r as_number (incr k) s).1 in
      let reply : (ask r as_number (incr k) s).0 ≡ ok (c + 1) =
        ask_up r as_number (incr k) s (reliable s) ∙ rw h.count in
      let more : (c + 1 == 1) ≡ false = ground arith in
      rw (reply, allow, more)
        (let count' : value s' k ≡ str (int (c + 1)) =
            value-ask_self r as_number (incr k) s (reliable s) ∙ rw h.count in
          let life' : ttl s' k ≡ some t =
            ttl-ask_self r as_number (incr k) s (reliable s) ∙ h.life in
          (
            verdict-allowed r rule (c + 1) s',
            rw verdict-state (record { count = count'; life = life' }),
          ))

  allow_first :
      (s : State)
      → value s k ≡ missing
      → ((allow r identifier rule s).0.allowed ≡ leb 1 rule.limit)
        × Counts 1 rule.window (allow r identifier rule s).1
  unfolding allow
  allow_first s h =
      let s' : State = (ask r as_number (incr k) s).1 in
      let reply : (ask r as_number (incr k) s).0 ≡ ok 1 =
        ask_up r as_number (incr k) s (reliable s) ∙ rw h in
      let s'' : State = (ask r as_done (expire k rule.window) s').1 in
      let count' : value s' k ≡ str (int 1) =
        value-ask_self r as_number (incr k) s (reliable s) ∙ rw h in
      let set : (ask r as_done (expire k rule.window) s').0 ≡ ok tt =
        ask_up r as_done (expire k rule.window) s' (reliable s') in
      let count'' : value s'' k ≡ str (int 1) =
        value-ask_self r as_done (expire k rule.window) s' (reliable s') ∙ rw count' in
      let life'' : ttl s'' k ≡ some rule.window =
        ttl-ask_self r as_done (expire k rule.window) s' (reliable s') ∙ rw count' in
      rw (reply, allow)
        (rw (set, expiry_set)
          (
            verdict-allowed r rule 1 s'',
            rw verdict-state (record { count = count''; life = life'' }),
          ))

  Counts-elapse : (g c t : ℕ) (s : State) → Counts c t s → g < t → Counts c (t - g) (elapse g s)
  Counts-elapse g c t s h lt =
      let alive : expires_in g (ttl s k) ≡ false = rw h.life (ground arith) in
      record {
        count = r.value-elapse g s k ∙ rw alive h.count;
        life = r.ttl-elapse g s k ∙ rw h.life (ground arith);
      }

  missing-elapse : (g : ℕ) (s : State) → value s k ≡ missing → value (elapse g s) k ≡ missing
  missing-elapse g s h = r.value-elapse g s k ∙ rw h (ground arith)

  expired-elapse : (g c t : ℕ) (s : State) → Counts c t s → t ≤ g → value (elapse g s) k ≡ missing
  expired-elapse g c t s h le =
      let over : expires_in g (ttl s k) ≡ true = rw h.life (ground arith) in
      r.value-elapse g s k ∙ rw over

  -- Requests, each a gap of so many seconds after the one before it, and their verdicts.
  unfoldable pub requests : List ℕ → State → List Bool
  requests [] s = []
  requests (g ∷ gs) s =
      let (v, s') = allow r identifier rule (elapse g s) in v.allowed ∷ requests gs s'

-- The verdicts on `n` requests of which the first is number `i` of its window.
unfoldable pub numbered : ℕ → ℕ → ℕ → List Bool
numbered limit i zero = []
numbered limit i (suc n) = leb i limit ∷ numbered limit (i + 1) n

unfoldable pub sum : List ℕ → ℕ
sum [] = 0
sum (x ∷ l) = x + sum l

module _ (r : Redis) (reliable : (s : r.State) → r.up s ≡ true) (identifier : String)
    (rule : Rule) where
  open r use {State, value, elapse}

  abbrev counter : Key
  counter = limit_key rule identifier

  abbrev asked : List ℕ → State → List Bool
  asked = requests r reliable identifier rule

  abbrev CountsTo : ℕ → ℕ → State → Type 0
  CountsTo = Counts r reliable identifier rule

  -- Requests while the window of a counter lasts, and the state that those after them find.
  requests_within :
      (gs rest : List ℕ) (c t : ℕ) (s : State)
      → CountsTo c t s
      → 0 < c
      → sum gs < t
      → (u : State) × (asked (gs ++ rest) s
          ≡ numbered rule.limit (c + 1) (length gs) ++ asked rest u)
        × CountsTo (c + length gs) (t - sum gs) u
  unfolding requests numbered sum
  requests_within [] rest c t s h pos lt =
      (s, refl, subst₂ (λ a b. CountsTo a b s) (omega arith) (omega arith) h)
  requests_within (g ∷ gs) rest c t s h pos lt =
      let now =
        allow_next r reliable identifier rule c (t - g) (elapse g s)
          (Counts-elapse r reliable identifier rule g c t s h (omega arith)) pos in
      let (u, seen, left) =
        requests_within gs rest (c + 1) (t - g) _ now.1 (omega arith) (omega arith) in
      (u, ap₂ ◌∷◌ now.0 seen, subst₂ (λ a b. CountsTo a b u) (omega arith) (omega arith) left)

  requests_fresh :
      (g : ℕ) (gs rest : List ℕ) (s : State)
      → value (elapse g s) counter ≡ missing
      → sum gs < rule.window
      → (u : State) × (asked (g ∷ gs ++ rest) s
          ≡ numbered rule.limit 1 (suc (length gs)) ++ asked rest u)
        × CountsTo (1 + length gs) (rule.window - sum gs) u
  unfolding requests numbered
  requests_fresh g gs rest s h lt =
      let now = allow_first r reliable identifier rule (elapse g s) h in
      let (u, seen, left) = requests_within gs rest 1 rule.window _ now.1 (omega arith) lt in
      (u, ap₂ ◌∷◌ now.0 seen, left)

  -- With every command answered and no counter at first: of the requests within one window exactly
  -- the first `limit` are allowed. The window is fixed by its first request: with the first request
  -- that comes when it is over the counting begins again, however late in the window the others came.
  pub allow_windows :
      (g g' : ℕ) (gs hs : List ℕ) (s : State)
      → value s counter ≡ missing
      → sum gs < rule.window
      → rule.window ≤ sum gs + g'
      → sum hs < rule.window
      → asked (g ∷ gs ++ g' ∷ hs) s
        ≡ numbered rule.limit 1 (suc (length gs)) ++ numbered rule.limit 1 (suc (length hs))
  unfolding requests
  allow_windows g g' gs hs s none_yet short over short' =
      let (u, seen, left) =
        requests_fresh g gs (g' ∷ hs) s (missing-elapse r reliable identifier rule g s none_yet)
          short in
      let gone = expired-elapse r reliable identifier rule g' _ _ u left (omega arith) in
      let (v, seen', _) = requests_fresh g' hs [] u gone short' in
      seen
      ∙ ap (◌++◌ (numbered rule.limit 1 (suc (length gs))))
          (ap (λ l. asked (g' ∷ l) u) (sym (append-nil hs)) ∙ seen' ∙ append-nil _)

-- ===== src/Redis.antt =====
-- Redis, as github.com/redis/go-redis shows it to the services. The repository uses both and
-- contains neither, so they are an interface: a state, the commands, and the laws that their
-- documentation gives. No law says which commands get through, nor what a command that got no
-- answer has done.
pub mod Batches
pub mod Memory
pub mod Client
pub mod Commands
pub mod Scripts
use Scripts.{Script, run_script, lives_after_all, all_fit}
use Commands.{
  Key, Value, missing, Command, Reply, key_eq, key, after, after_all, ttl_effect, answer,
}
use whisper_chat.Prelude.{
  ℕ, zero, suc, ◌+◌, ◌-◌, ◌*◌, ◌/◌, ◌%◌, ◌^◌, ◌≤◌, ◌<◌, compare, Ordering, String, ◌≡◌, refl, sym,
  ap, ap₂, subst, ◌∙◌, fun_ext, ◌≢◌, ◌↔◌, ◌⊎◌, inl, inr, Bool, true, false, not, ◌&&◌, ◌||◌, Option,
  none, some, List, [], ◌∷◌, ◌++◌, map, arith, ltb, leb, if◌then◌else◌, ltb→lt, lt→ltb, leb→le,
  le→leb, tests, Bool-cases, Option-cases, Eq, ◌==◌, nat_eq, text_eq, list_eq, ==-self, ==-ne,
  length, get_or, set, drop, replicate, length-append, length-set, length-replicate,
  get_or-set_self, get_or-set_ne, All, contains,
}
use whisper_chat.Prelude.Dict.{Dict, lookup}

-- A key whose time is up within `n` seconds.
abbrev pub expires_in : ℕ → Option ℕ → Bool
expires_in n none = false
expires_in n (some t) = leb t n

abbrev pub remaining : ℕ → Option ℕ → Option ℕ
remaining n none = none
remaining n (some t) = if leb t n then none else some (t - n)

abbrev pub score_of : Dict String ℕ → String → ℕ
score_of z m = elim (lookup m z) [ none ↦ 0 | some n ↦ n ]

abbrev pub is_member : String → Dict String ℕ → Bool
is_member m z = elim (lookup m z) [ none ↦ false | some n ↦ true ]

-- Lowest score first.
abbrev pub Ranked : Dict String ℕ → List String → Type 0
Ranked z [] = Unit
Ranked z (m ∷ l) = All (λ k. score_of z m ≤ score_of z k) l × Ranked z l

pub record Redis : Type 1 where
  pub State : Type 0
  -- Will the next command reach the server and its answer come back?
  pub up : State → Bool
  pub value : State → Key → Value
  pub ttl : State → Key → Option ℕ
  -- A number in decimal, as a client that asks for text reads it.
  pub decimal : ℕ → String
  pub arrange : List String → List String
  pub ranked : Dict String ℕ → List String
  -- One command and its answer, `none` for an error of the link.
  pub send : Command → State → Option Reply × State
  -- Pipeline and Exec: `true` where every command was answered without an error.
  pub pipeline : List Command → State → Bool × State
  -- A script and its result, `none` for an error.
  pub eval : {A : Type 0} → Script A → State → Option A × State
  -- Seconds that pass.
  pub elapse : ℕ → State → State
  pub send_up :
      (c : Command) (s : State)
      → up s ≡ true
      → (send c s).0 ≡ some (answer arrange ranked c (value s (key c)) (ttl s (key c)))
  pub send_down : (c : Command) (s : State) → up s ≡ false → (send c s).0 ≡ none
  pub value-send :
      (c : Command) (s : State) (k : Key) → up s ≡ true → value (send c s).1 k ≡ after c (value s) k
  pub ttl-send :
      (c : Command) (s : State) (k : Key)
      → up s ≡ true
      → ttl (send c s).1 k ≡ (if key c == k then ttl_effect c (value s k) (ttl s k) else ttl s k)
  pub ttl-pipeline :
      (cs : List Command) (s : State) (k : Key)
      → up s ≡ true
      → ttl (pipeline cs s).1 k ≡ lives_after_all cs (value s) (ttl s) k
  pub pipeline_up :
      (cs : List Command) (s : State)
      → up s ≡ true
      → (pipeline cs s).0 ≡ all_fit arrange ranked cs (value s) (ttl s)
  pub pipeline_down : (cs : List Command) (s : State) → up s ≡ false → (pipeline cs s).0 ≡ false
  pub value-pipeline :
      (cs : List Command) (s : State) (k : Key)
      → up s ≡ true
      → value (pipeline cs s).1 k ≡ after_all cs (value s) k
  pub eval_down : {A : Type 0} (c : Script A) (s : State) → up s ≡ false → (eval c s).0 ≡ none
  pub eval_up :
      {A : Type 0} (c : Script A) (s : State)
      → up s ≡ true
      → (eval c s).0 ≡ (run_script arrange ranked c (value s) (ttl s)).0
  pub value-eval :
      {A : Type 0} (c : Script A) (s : State) (k : Key)
      → up s ≡ true
      → value (eval c s).1 k ≡ (run_script arrange ranked c (value s) (ttl s)).1 k
  pub ttl-eval :
      {A : Type 0} (c : Script A) (s : State) (k : Key)
      → up s ≡ true
      → ttl (eval c s).1 k ≡ (run_script arrange ranked c (value s) (ttl s)).2 k
  pub value-elapse :
      (n : ℕ) (s : State) (k : Key)
      → value (elapse n s) k ≡ (if expires_in n (ttl s k) then missing else value s k)
  pub ttl-elapse : (n : ℕ) (s : State) (k : Key) → ttl (elapse n s) k ≡ remaining n (ttl s k)
  pub contains-arrange : (m : String) (l : List String) → contains m (arrange l) ≡ contains m l
  pub contains-ranked : (m : String) (z : Dict String ℕ) → contains m (ranked z) ≡ is_member m z
  pub ranked_order : (z : Dict String ℕ) → Ranked z (ranked z)

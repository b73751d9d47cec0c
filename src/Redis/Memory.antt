-- ===== src/Redis/Memory.antt =====
-- A Redis in memory, which shows that the interface can be met and on which the tests run. `faults`
-- says of the next commands which get no answer: `false` for a command that is lost.
use whisper_chat.Prelude.{
  ℕ, ◌≤◌, String, ◌≡◌, refl, inl, inr, Bool, true, false, ◌||◌, Option, none, some, List, [], ◌∷◌,
  arith, leb, if◌then◌else◌, leb→le, Bool-cases, ◌==◌, nat_eq, text_eq, list_eq, All, contains,
}
use whisper_chat.Redis.{Redis, remaining, expires_in, Ranked, score_of, is_member}
use whisper_chat.Prelude.Dict.{Dict, lookup}
use whisper_chat.Redis.Scripts.{Script, run_script, lives_after_all, all_fit}
use whisper_chat.Redis.Commands.{
  Key, Value, missing, Command, Reply, key_eq, key, after, after_all, ttl_effect, answer,
}

pub record Memory : Type 0 where
  pub table : Key → Value
  pub life : Key → Option ℕ
  pub faults : List Bool

abbrev pub next_up : List Bool → Bool
next_up [] = true
next_up (b ∷ l) = b

abbrev pub next_faults : List Bool → List Bool
next_faults [] = []
next_faults (b ∷ l) = l

abbrev pub fresh : List Bool → Memory
fresh faults = record { table = λ k. missing; life = λ k. none; faults = faults }

abbrev pub by_score : (String → ℕ) → String → List String → List String
by_score f m [] = m ∷ []
by_score f m (x ∷ l) = let rest = by_score f m l in if leb (f m) (f x) then m ∷ x ∷ l else x ∷ rest

abbrev pub sort_by : (String → ℕ) → Dict String ℕ → List String
sort_by f [] = []
sort_by f ((m, n) ∷ z) = by_score f m (sort_by f z)

abbrev pub Sorted : (String → ℕ) → List String → Type 0
Sorted f [] = Unit
Sorted f (m ∷ l) = All (λ k. f m ≤ f k) l × Sorted f l

All-le :
    (f : String → ℕ) (a b : ℕ) (l : List String)
    → a ≤ b
    → All (λ k. b ≤ f k) l
    → All (λ k. a ≤ f k) l
All-le f a b [] h all = tt
All-le f a b (x ∷ l) h all = (omega arith, All-le f a b l h all.1)

by_score-All :
    (f : String → ℕ) (a : ℕ) (m : String) (l : List String)
    → a ≤ f m
    → All (λ k. a ≤ f k) l
    → All (λ k. a ≤ f k) (by_score f m l)
by_score-All f a m [] h all = (h, tt)
by_score-All f a m (x ∷ l) h all = ground (arith, by_score-All f a m l h all.1)

by_score-Sorted :
    (f : String → ℕ) (m : String) (l : List String) → Sorted f l → Sorted f (by_score f m l)
by_score-Sorted f m [] h = (tt, tt)
by_score-Sorted f m (x ∷ l) h = elim (Bool-cases (leb (f m) (f x))) [
  | inl le ↦ rw le ((leb→le (f m) (f x) le, All-le f (f m) (f x) l (leb→le (f m) (f x) le) h.0), h)
  | inr gt ↦ rw gt (by_score-All f (f x) m l (ground arith) h.0, by_score-Sorted f m l h.1)
]

pub sort_by-Sorted : (f : String → ℕ) (z : Dict String ℕ) → Sorted f (sort_by f z)
sort_by-Sorted f [] = tt
sort_by-Sorted f ((m, n) ∷ z) = by_score-Sorted f m (sort_by f z) (sort_by-Sorted f z)

pub Sorted-Ranked : (z : Dict String ℕ) (l : List String) → Sorted (score_of z) l → Ranked z l
Sorted-Ranked z [] h = tt
Sorted-Ranked z (m ∷ l) h = (h.0, Sorted-Ranked z l h.1)

contains-by_score :
    (f : String → ℕ) (a m : String) (l : List String)
    → contains a (by_score f m l) ≡ ((m == a) || contains a l)
unfolding contains
contains-by_score f a m [] = refl
contains-by_score f a m (x ∷ l) = ground (arith, contains-by_score f a m l)

pub contains-sort_by :
    (f : String → ℕ) (a : String) (z : Dict String ℕ) → contains a (sort_by f z) ≡ is_member a z
unfolding contains lookup
contains-sort_by f a [] = refl
contains-sort_by f a ((m, n) ∷ z) =
    ground (arith, contains-by_score f a m (sort_by f z), contains-sort_by f a z)

abbrev pub ranked_by : Dict String ℕ → List String
ranked_by z = sort_by (score_of z) z

-- `answers` reads off the faults whether the next command gets through.
module _ (answers : List Bool → Bool) where
  abbrev pub send_one : Command → Memory → Option Reply × Memory
  send_one c s = (
    (if answers s.faults
        then some (answer (λ l. l) ranked_by c (s.table (key c)) (s.life (key c)))
        else none),
    record {
      table = if answers s.faults then after c s.table else s.table;
      life =
          if answers s.faults
          then (λ k. if key c == k then ttl_effect c (s.table k) (s.life k) else s.life k)
          else s.life;
      faults = next_faults s.faults;
    },
  )

  abbrev pub eval_one : {A : Type 0} → Script A → Memory → Option A × Memory
  eval_one c s =
      let (a, db, lives) = run_script (λ l. l) ranked_by c s.table s.life in
      (
        (if answers s.faults then a else none),
        record {
          table = if answers s.faults then db else s.table;
          life = if answers s.faults then lives else s.life;
          faults = next_faults s.faults;
        },
      )

  abbrev pub pipeline_one : List Command → Memory → Bool × Memory
  pipeline_one cs s = (
    (if answers s.faults then all_fit (λ l. l) ranked_by cs s.table s.life else false),
    record {
      table = if answers s.faults then after_all cs s.table else s.table;
      life = if answers s.faults then lives_after_all cs s.table s.life else s.life;
      faults = next_faults s.faults;
    },
  )

  abbrev pub memory_with : Redis
  memory_with = record {
    State = Memory;
    up = λ s. answers s.faults;
    value = λ s. s.table;
    ttl = λ s. s.life;
    arrange = λ l. l;
    ranked = ranked_by;
    send = send_one;
    pipeline = pipeline_one;
    eval = eval_one;
    decimal = λ n. "";
    elapse = λ n s. record s {
      table = λ k. if expires_in n (s.life k) then missing else s.table k;
      life = λ k. remaining n (s.life k);
    };
    send_up = λ c s h. rw h;
    send_down = λ c s h. rw h;
    value-send = λ c s k h. rw h;
    ttl-send = λ c s k h. rw h;
    pipeline_up = λ cs s h. rw h;
    pipeline_down = λ cs s h. rw h;
    ttl-pipeline = λ cs s k h. rw h;
    eval_down = λ c s h. rw h;
    eval_up = λ c s h. rw h;
    value-eval = λ c s k h. rw h;
    ttl-eval = λ c s k h. rw h;
    value-pipeline = λ cs s k h. rw h;
    value-elapse = λ n s k. refl;
    ttl-elapse = λ n s k. refl;
    contains-arrange = λ m l. refl;
    contains-ranked = λ m z. contains-sort_by (score_of z) m z;
    ranked_order = λ z. Sorted-Ranked z (ranked_by z) (sort_by-Sorted (score_of z) z);
  }

abbrev pub memory : Redis
memory = memory_with next_up

-- The Redis whose commands all get through.
abbrev pub sound_memory : Redis
sound_memory = memory_with (λ l. true)

pub sound_memory_up : (s : Memory) → sound_memory.up s ≡ true
sound_memory_up s = refl

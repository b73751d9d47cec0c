-- ===== src/Redis/Scripts.antt =====
-- Lua scripts on the Redis server: calls of Redis commands, each of which sees what those before it
-- have done, with no other command in between. A command that fails ends the script with an error.
use whisper_chat.Prelude.{
  ℕ, String, ◌≡◌, refl, ap, ◌∙◌, Bool, true, false, ◌&&◌, Option, none, some, List, [], ◌∷◌,
  if◌then◌else◌, ◌==◌, nat_eq, text_eq, list_eq,
}
use whisper_chat.Redis.Commands.{Key, Command, Reply, Db, key_eq, key, after, ttl_effect, answer}
use whisper_chat.Prelude.Dict.{Dict}

pub data Script (A : Type 0) : Type 0 where
  ret : A → Script A
  call : Command → (Reply → Script A) → Script A

abbrev pub Lives : Type 0
Lives = Key → Option ℕ

abbrev pub life_after : Command → Db → Lives → Lives
life_after c db lives k = if key c == k then ttl_effect c (db k) (lives k) else lives k

abbrev pub lives_after_all : List Command → Db → Lives → Lives
lives_after_all [] db lives = lives
lives_after_all (c ∷ cs) db lives = lives_after_all cs (after c db) (life_after c db lives)

abbrev pub is_fine : Reply → Bool
is_fine Reply.wrong_type = false
is_fine _ = true

-- An error ends the script with what it has done so far.
abbrev pub proceed {ℓ} : {X : Type ℓ} → Reply → (Reply → X) → X → X
proceed Reply.wrong_type next stop = stop
proceed reply next stop = next reply

proceed_fine {ℓ} :
    {X : Type ℓ} (reply : Reply) (next : Reply → X) (stop : X)
    → is_fine reply ≡ true
    → proceed reply next stop ≡ next reply
proceed_fine Reply.wrong_type next stop h = cc
proceed_fine reply next stop h = refl

module _ (arrange : List String → List String) (ranked : Dict String ℕ → List String) where
  abbrev pub reply_in : Command → Db → Lives → Reply
  reply_in c db lives = answer arrange ranked c (db (key c)) (lives (key c))

  -- Does each command of a pipeline find a key of its type?
  abbrev pub all_fit : List Command → Db → Lives → Bool
  all_fit [] db lives = true
  all_fit (c ∷ cs) db lives =
      let rest = all_fit cs (after c db) (life_after c db lives) in
      is_fine (reply_in c db lives) && rest

  module _ {A : Type 0} where
    abbrev pub run_script : Script A → Db → Lives → Option A × Db × Lives
    run_script (ret a) db lives = (some a, db, lives)
    run_script (call c next) db lives =
        proceed (reply_in c db lives)
          (λ reply. run_script (next reply) (after c db) (life_after c db lives)) (none, db, lives)

    -- A call whose answer is known.
    pub run_script-call :
        (c : Command) (next : Reply → Script A) (db : Db) (lives : Lives) (reply : Reply)
        → reply_in c db lives ≡ reply
        → is_fine reply ≡ true
        → run_script (call c next) db lives
          ≡ run_script (next reply) (after c db) (life_after c db lives)
    run_script-call c next db lives reply e fine =
        ap
          (λ x.
            proceed x (λ y. run_script (next y) (after c db) (life_after c db lives))
              (none, db, lives))
          e
        ∙ proceed_fine reply _ _ fine

-- ===== src/Redis/Batches.antt =====
-- What a batch of commands does to one key.
use whisper_chat.Prelude.{
  ◌≡◌, refl, List, [], ◌∷◌, ◌++◌, if◌then◌else◌, ◌==◌, nat_eq, text_eq, list_eq,
}
use whisper_chat.Redis.Commands.{Key, Value, Command, Db, key, key_eq, effect, after, after_all}

abbrev pub effects_at : Key → List Command → Value → Value
effects_at k [] v = v
effects_at k (c ∷ cs) v = effects_at k cs (if key c == k then effect c v else v)

pub after_all-effects_at :
    (cs : List Command) (db : Db) (k : Key) → after_all cs db k ≡ effects_at k cs (db k)
after_all-effects_at [] db k = refl
after_all-effects_at (c ∷ cs) db k = after_all-effects_at cs (after c db) k

pub effects_at-append :
    (k : Key) (cs ds : List Command) (v : Value)
    → effects_at k (cs ++ ds) v ≡ effects_at k ds (effects_at k cs v)
effects_at-append k [] ds v = refl
effects_at-append k (c ∷ cs) ds v = effects_at-append k cs ds (if key c == k then effect c v else v)

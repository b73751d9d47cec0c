-- ===== src/Tests/FilterTests.antt =====
-- Runs of internal/moderation, with the tables of Unicode cut down to ASCII.
use whisper_chat.Prelude.{
  ℕ, ◌≡◌, refl, ◌↔◌, true, false, List, [], ◌∷◌, ◌++◌, map, nat_eq, text_eq, list_eq, All, contains,
}
use whisper_chat.Moderation.Unicode.{ascii}
use whisper_chat.Moderation.Words.{fields_func, trim_space}
use whisper_chat.Moderation.Patterns.{codes}
use whisper_chat.Moderation.Spam.{lower, has_char_flood, has_word_flood}
use whisper_chat.Moderation.Spam.Floods.{HasRun, has_char_flood-HasRun, has_word_flood-HasRun}
use whisper_chat.Moderation.Filter.{Filter, check, new_filter_with_terms, plain_separator}
use whisper_chat.Moderation.Filter.Terms.{blocked_term}

has_char_flood-HasRun_example :
    (has_char_flood (codes "heeeeey") ≡ true) ↔ HasRun 5 (codes "heeeeey")
has_char_flood-HasRun_example = has_char_flood-HasRun (codes "heeeeey")

has_word_flood-HasRun_example :
    (has_word_flood ascii (codes "Buy buy BUY") ≡ true)
    ↔ HasRun 3 (map (lower ascii) (fields_func ascii.is_space (codes "Buy buy BUY")))
has_word_flood-HasRun_example = has_word_flood-HasRun ascii (codes "Buy buy BUY")

abbrev terms : List (List ℕ)
terms = codes "go away" ∷ codes " Bad " ∷ []

bad_listed : contains (codes " Bad ") terms ≡ true
unfolding contains
bad_listed = refl

bad_normal :
    lower ascii (trim_space ascii.is_space (codes " Bad ")) ≡ lower ascii (b'B' ∷ codes "aD")
unfolding lower trim_space
bad_normal = refl

comma_separates : plain_separator ascii b',' ≡ true
unfolding plain_separator
comma_separates = refl

letters : All (λ x. plain_separator ascii x ≡ false) (b'B' ∷ codes "aD")
unfolding plain_separator
letters = (refl, (refl, (refl, tt)))

blocked_term_example :
    (check ascii
      (new_filter_with_terms ascii terms)
      (codes "so" ++ b',' ∷ b'B' ∷ codes "aD" ++ b',' ∷ codes "ok")).blocked
    ≡ true
blocked_term_example =
    blocked_term ascii terms (codes " Bad ") (codes "so") (codes "aD") (codes "ok") b',' b',' b'B'
      bad_listed bad_normal comma_separates comma_separates letters

abbrev bad_filter : Filter
bad_filter = record { words = codes "bad" ∷ []; phrases = [] }

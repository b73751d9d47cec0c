-- ===== src/Moderation/Filter.antt =====
-- internal/moderation/filter.go: the blocklist and the three passes of a check. Texts are lists of
-- code points, and the terms of the blocklist are an argument.
pub mod Blocks
pub mod Terms
use whisper_chat.Prelude.{
  ℕ, zero, suc, ◌+◌, ◌-◌, ◌*◌, ◌/◌, ◌%◌, ◌^◌, ◌≤◌, ◌<◌, compare, Ordering, String, ◌≡◌, refl, sym,
  ap, ap₂, subst, ◌∙◌, fun_ext, ◌≢◌, ◌↔◌, ◌⊎◌, inl, inr, Bool, true, false, not, ◌&&◌, ◌||◌, Option,
  none, some, List, [], ◌∷◌, ◌++◌, map, arith, ltb, leb, if◌then◌else◌, ltb→lt, lt→ltb, leb→le,
  le→leb, tests, Bool-cases, Option-cases, Eq, ◌==◌, nat_eq, text_eq, list_eq, ==-self, ==-ne,
  length, get_or, set, drop, replicate, length-append, length-set, length-replicate,
  get_or-set_self, get_or-set_ne, All, contains, ==-comm,
}
use whisper_chat.Moderation.Unicode.{Unicode}
use whisper_chat.Moderation.Words.{fields_func, join_blank, contains_text, trim_space}
use whisper_chat.Moderation.Spam.{FilterResult, clean, lower, check_spam_patterns}

pub record Filter : Type 0 where
  pub words : List (List ℕ)
  pub phrases : List (List ℕ)

abbrev pub keyword : List ℕ → FilterResult
keyword term = record { blocked = true; reason = "blocked_keyword"; term = term }

abbrev pub first_word : Filter → List (List ℕ) → FilterResult → FilterResult
first_word f [] other = other
first_word f (w ∷ tokens) other =
    if contains w f.words then keyword w else first_word f tokens other

abbrev pub first_phrase : List (List ℕ) → List ℕ → FilterResult
first_phrase [] joined = clean
first_phrase (phrase ∷ phrases) joined =
    if contains_text joined phrase then keyword phrase else first_phrase phrases joined

unfoldable pub check_tokens : Filter → List (List ℕ) → FilterResult
check_tokens f tokens = first_word f tokens (first_phrase f.phrases (join_blank tokens))

abbrev pub leet_rune : ℕ → ℕ
leet_rune c =
    if c == b'0'
    then b'o'
    else if c == b'1'
    then b'i'
    else if c == b'3'
    then b'e'
    else if c == b'@'
    then b'a'
    else if c == b'$'
    then b's'
    else if c == b'!'
    then b'i'
    else c

unfoldable pub normalize_leet : List ℕ → List ℕ
normalize_leet = map leet_rune

abbrev pub leet_chars : ℕ → Bool
leet_chars c = c == b'@' || (c == b'$' || c == b'!')

module _ (u : Unicode) where
  unfoldable pub plain_separator : ℕ → Bool
  plain_separator c = not (u.is_letter c) && not (u.is_digit c)

  unfoldable pub tokenize_plain : List ℕ → List (List ℕ)
  tokenize_plain = fields_func plain_separator

  unfoldable pub leet_separator : ℕ → Bool
  leet_separator c = not (u.is_letter c) && (not (u.is_digit c) && not (leet_chars c))

  unfoldable pub tokenize_leet : List ℕ → List (List ℕ)
  tokenize_leet = fields_func leet_separator

  -- The next pass runs where this one blocks nothing.
  abbrev pub or_else : FilterResult → FilterResult → FilterResult
  or_else result next = if result.blocked then result else next

  unfoldable pub check : Filter → List ℕ → FilterResult
  check f text = or_else (check_tokens f (tokenize_plain (lower u text))) (
      or_else (check_tokens f (map normalize_leet (tokenize_leet (lower u text))))
        (or_else (check_spam_patterns u text) clean))

  unfoldable pub check_interests : Filter → List (List ℕ) → List (List ℕ)
  check_interests f [] = []
  check_interests f (interest ∷ interests) =
      let rest = check_interests f interests in
      if (check f interest).blocked then rest else interest ∷ rest

  -- One term of the list goes to the words or to the phrases, or is dropped.
  unfoldable pub add_term : List ℕ → Filter → Filter
  add_term term f =
      let normalized = lower u (trim_space u.is_space term) in
      if normalized == []
      then f
      else if contains b' ' normalized
      then record f { phrases = f.phrases ++ normalized ∷ [] }
      else record f { words = normalized ∷ f.words }

  unfoldable pub add_terms : List (List ℕ) → Filter → Filter
  add_terms [] f = f
  add_terms (term ∷ terms) f = add_terms terms (add_term term f)

  unfoldable pub new_filter_with_terms : List (List ℕ) → Filter
  unfolding add_terms
  new_filter_with_terms terms = add_terms terms (record { words = []; phrases = [] })

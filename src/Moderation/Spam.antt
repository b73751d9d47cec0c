-- ===== src/Moderation/Spam.antt =====
-- internal/moderation/spam.go: floods of one character or word, and the ordered list of spam checks.
pub mod Floods
use whisper_chat.Prelude.{
  ℕ, zero, suc, ◌+◌, ◌-◌, ◌*◌, ◌/◌, ◌%◌, ◌^◌, ◌≤◌, ◌<◌, compare, Ordering, String, ◌≡◌, refl, sym,
  ap, ap₂, subst, ◌∙◌, fun_ext, ◌≢◌, ◌↔◌, ◌⊎◌, inl, inr, Bool, true, false, not, ◌&&◌, ◌||◌, Option,
  none, some, List, [], ◌∷◌, ◌++◌, map, arith, ltb, leb, if◌then◌else◌, ltb→lt, lt→ltb, leb→le,
  le→leb, tests, Bool-cases, Option-cases, Eq, ◌==◌, nat_eq, text_eq, list_eq, ==-self, ==-ne,
  length, get_or, set, drop, replicate, length-append, length-set, length-replicate,
  get_or-set_self, get_or-set_ne, All, contains, ==-comm,
}
use whisper_chat.Moderation.Unicode.{Unicode}
use whisper_chat.Moderation.Patterns.{codes, match_url, match_phone}
use whisper_chat.Moderation.Words.{fields_func}

pub record FilterResult : Type 0 where
  pub blocked : Bool
  pub reason : String
  pub term : List ℕ

-- The zero value, which is also FilterResult{Blocked: false}.
abbrev pub clean : FilterResult
clean = record { blocked = false; reason = ""; term = [] }

-- r == prev
abbrev pub is_prev {ℓ} : {A : Type ℓ} ⦃e : Eq A⦄ → A → Option A → Bool
is_prev x none = false
is_prev x (some p) = x == p

-- The loop of hasCharFlood over the rest of the text; `none` is the rune -1.
unfoldable pub char_flood : ℕ → Option ℕ → List ℕ → Bool
char_flood count prev [] = false
char_flood count prev (c ∷ l) = elim (is_prev c prev) [
  | true ↦ if leb 5 (count + 1) then true else char_flood (count + 1) prev l
  | false ↦ char_flood 1 (some c) l
]

unfoldable pub has_char_flood : List ℕ → Bool
unfolding char_flood
has_char_flood = char_flood 1 none

module _ (u : Unicode) where
  unfoldable pub lower : List ℕ → List ℕ
  lower = map u.to_lower

  -- The loop of hasWordFlood over the words that are left.
  unfoldable pub word_flood : ℕ → List ℕ → List (List ℕ) → Bool
  unfolding lower
  word_flood count prev [] = false
  word_flood count prev (w ∷ l) = elim (lower w == prev) [
    | true ↦ if leb 3 (count + 1) then true else word_flood (count + 1) prev l
    | false ↦ word_flood 1 (lower w) l
  ]

  unfoldable pub has_word_flood : List ℕ → Bool
  unfolding word_flood
  has_word_flood text =
      let words = fields_func u.is_space text in
      if ltb (length words) 3 then false else word_flood 1 [] words

  spam_result : List ℕ → FilterResult
  spam_result name = record { blocked = true; reason = "spam_pattern"; term = name }

  -- The checks in their order; the first that matches wins.
  unfoldable pub spam_checks : List (String × (List ℕ → Bool))
  spam_checks =
      ("url", match_url)
      ∷ ("phone", match_phone)
      ∷ ("char_flood", has_char_flood)
      ∷ ("word_flood", has_word_flood)
      ∷ []

  first_match : List (String × (List ℕ → Bool)) → List ℕ → FilterResult
  unfolding spam_result
  first_match [] text = clean
  first_match ((name, match) ∷ checks) text =
      if match text then spam_result (codes name) else first_match checks text

  unfoldable pub check_spam_patterns : List ℕ → FilterResult
  unfolding first_match spam_checks
  check_spam_patterns = first_match spam_checks

-- ===== src/Moderation/Filter/Blocks.antt =====
-- What a check blocks (internal/moderation/filter.go).
use mathlib.Core.List.{append_assoc}
use whisper_chat.Prelude.{
  ℕ, ◌≡◌, refl, ap, ◌∙◌, inl, inr, Bool, true, false, ◌&&◌, List, [], ◌∷◌, ◌++◌, map, Bool-cases,
  nat_eq, text_eq, list_eq, All, contains,
}
use whisper_chat.Moderation.Filter.{
  FilterResult, Filter, first_word, check_tokens, check, tokenize_plain, plain_separator,
}
use whisper_chat.Moderation.Unicode.{Unicode}
use whisper_chat.Moderation.Words.{fields_func, fields_func-append, fields_func_word}
use whisper_chat.Moderation.Spam.{lower}

and_false : (b : Bool) → (b && false) ≡ false
and_false true = refl
and_false false = refl

first_word_found :
    (f : Filter) (before : List (List ℕ)) (w : List ℕ) (after : List (List ℕ))
    (other : FilterResult)
    → contains w f.words ≡ true
    → (first_word f (before ++ w ∷ after) other).blocked ≡ true
first_word_found f [] w after other h = rw h
first_word_found f (v ∷ before) w after other h = elim (Bool-cases (contains v f.words)) [
  | inl now ↦ rw now
  | inr later ↦ rw later (first_word_found f before w after other h)
]

check_tokens_found :
    (f : Filter) (before : List (List ℕ)) (w : List ℕ) (after : List (List ℕ))
    → contains w f.words ≡ true
    → (check_tokens f (before ++ w ∷ after)).blocked ≡ true
unfolding check_tokens
check_tokens_found f before w after h = first_word_found f before w after _ h

map-append {ℓ ℓ'} :
    {A : Type ℓ} {B : Type ℓ'} (g : A → B) (a b : List A) → map g (a ++ b) ≡ map g a ++ map g b
map-append g [] b = refl
map-append g (x ∷ a) b = ap (◌∷◌ (g x)) (map-append g a b)

-- A word between two separators is a field.
fields_func_between :
    (sep : ℕ → Bool) (before w after : List ℕ) (a b c : ℕ)
    → sep a ≡ true
    → sep b ≡ true
    → All (λ x. sep x ≡ false) (c ∷ w)
    → fields_func sep (before ++ a ∷ c ∷ w ++ b ∷ after)
      ≡ fields_func sep before ++ (c ∷ w) ∷ fields_func sep after
fields_func_between sep before w after a b c ha hb hw =
    fields_func-append sep (before ++ a ∷ c ∷ w) after b hb
    ∙ ap (λ l. l ++ fields_func sep after)
        (fields_func-append sep before (c ∷ w) a ha
          ∙ ap (λ l. fields_func sep before ++ l) (fields_func_word sep c w hw))
    ∙ append_assoc (fields_func sep before) _ _

All-map :
    (sep : ℕ → Bool) (g : ℕ → ℕ) (l : List ℕ)
    → All (λ x. sep (g x) ≡ false) l
    → All (λ x. sep x ≡ false) (map g l)
All-map sep g [] h = tt
All-map sep g (x ∷ l) h = (h.0, All-map sep g l h.1)

All-rw :
    (p q : ℕ → Bool) (l : List ℕ)
    → ((x : ℕ) → q x ≡ p x)
    → All (λ x. p x ≡ false) l
    → All (λ x. q x ≡ false) l
All-rw p q [] same h = tt
All-rw p q (x ∷ l) same h = (same x ∙ h.0, All-rw p q l same h.1)

module _ (u : Unicode) where
  -- A separator stays one in lower case.
  plain_separator-lower : (c : ℕ) → plain_separator u (u.to_lower c) ≡ plain_separator u c
  unfolding plain_separator
  plain_separator-lower c = rw (u.letter-lower c, u.digit-lower c)

  -- The fields of the lower-case text around a word.
  fields_lower :
      (sep : ℕ → Bool) (before w after : List ℕ) (a b c : ℕ)
      → sep (u.to_lower a) ≡ true
      → sep (u.to_lower b) ≡ true
      → All (λ x. sep (u.to_lower x) ≡ false) (c ∷ w)
      → fields_func sep (lower u (before ++ a ∷ c ∷ w ++ b ∷ after))
        ≡ fields_func sep (lower u before) ++ lower u (c ∷ w) ∷ fields_func sep (lower u after)
  unfolding lower
  fields_lower sep before w after a b c ha hb hw =
      ap (fields_func sep) (
        map-append u.to_lower (before ++ a ∷ c ∷ w) (b ∷ after)
        ∙ ap (λ l. l ++ map u.to_lower (b ∷ after)) (map-append u.to_lower before (a ∷ c ∷ w)))
      ∙ fields_func_between sep (map u.to_lower before) (map u.to_lower w) (map u.to_lower after)
          (u.to_lower a) (u.to_lower b) (u.to_lower c) ha hb (All-map sep u.to_lower (c ∷ w) hw)

  -- What the first pass blocks, and what the second does.
  check_plain :
      (f : Filter) (text : List ℕ)
      → (check_tokens f (tokenize_plain u (lower u text))).blocked ≡ true
      → (check u f text).blocked ≡ true
  unfolding check
  check_plain f text h = rw h

  -- A word of the list, in any case, between two runes that are neither letters nor digits, is blocked.
  pub check_word :
      (f : Filter) (before w after : List ℕ) (a b c : ℕ)
      → contains (lower u (c ∷ w)) f.words ≡ true
      → plain_separator u a ≡ true
      → plain_separator u b ≡ true
      → All (λ x. plain_separator u x ≡ false) (c ∷ w)
      → (check u f (before ++ a ∷ c ∷ w ++ b ∷ after)).blocked ≡ true
  unfolding tokenize_plain
  check_word f before w after a b c listed ha hb hw = check_plain f _ (
      rw
        (fields_lower (plain_separator u) before w after a b c (plain_separator-lower a ∙ ha)
          (plain_separator-lower b ∙ hb)
          (All-rw (plain_separator u) (λ x. plain_separator u (u.to_lower x)) (c ∷ w)
            plain_separator-lower hw))
        (check_tokens_found f _ _ _ listed))

  -- A word in lower case has no separator either.
  pub word-lower :
      (l : List ℕ)
      → All (λ x. plain_separator u x ≡ false) l
      → All (λ x. plain_separator u x ≡ false) (lower u l)
  unfolding lower
  word-lower l h =
      All-map (plain_separator u) u.to_lower l (
        All-rw (plain_separator u) (λ x. plain_separator u (u.to_lower x)) l plain_separator-lower
          h)

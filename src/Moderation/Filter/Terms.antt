-- ===== src/Moderation/Filter/Terms.antt =====
-- The term list and the check together (internal/moderation/filter.go).
use whisper_chat.Prelude.{
  ℕ, ◌≡◌, refl, inl, inr, true, false, List, [], ◌∷◌, ◌++◌, arith, Bool-cases, ◌==◌, nat_eq,
  text_eq, list_eq, ==-self, All, contains,
}
use whisper_chat.Moderation.Unicode.{Unicode}
use whisper_chat.Moderation.Words.{trim_space}
use whisper_chat.Moderation.Spam.{lower}
use whisper_chat.Moderation.Filter.{
  Filter, add_term, add_terms, new_filter_with_terms, check, plain_separator,
}
use whisper_chat.Moderation.Filter.Blocks.{check_word, word-lower}

module _ (u : Unicode) where
  add_term_keeps :
      (w t : List ℕ) (f : Filter)
      → contains w f.words ≡ true
      → contains w (add_term u t f).words ≡ true
  unfolding add_term contains
  add_term_keeps w t f h =
      let n = lower u (trim_space u.is_space t) in
      elim (Bool-cases (n == [])) [
        | inl empty ↦ rw empty h
        | inr some_rune ↦ elim (Bool-cases (contains b' ' n)) [
          | inl phrase ↦ rw (some_rune, phrase) h
          | inr word ↦ elim (Bool-cases (n == w)) [
            | inl same ↦ rw (some_rune, word, same)
            | inr other ↦ rw (some_rune, word, other) h
          ]
        ]
      ]

  add_terms_keeps :
      (w : List ℕ) (terms : List (List ℕ)) (f : Filter)
      → contains w f.words ≡ true
      → contains w (add_terms u terms f).words ≡ true
  unfolding add_terms
  add_terms_keeps w [] f h = h
  add_terms_keeps w (t ∷ terms) f h =
      add_terms_keeps w terms (add_term u t f) (add_term_keeps w t f h)

  add_term_lists :
      (w t : List ℕ) (f : Filter)
      → lower u (trim_space u.is_space t) ≡ w
      → (w == []) ≡ false
      → contains b' ' w ≡ false
      → contains w (add_term u t f).words ≡ true
  unfolding add_term contains
  add_term_lists w t f same some_rune one_word = rw (same, some_rune, one_word, ==-self w)

  nothing_listed : (t : List ℕ) → ¬ (contains t [] ≡ true)
  unfolding contains
  nothing_listed t h = ground (arith, h)

  later_listed :
      (x : List ℕ) (l : List (List ℕ)) (t : List ℕ)
      → (x == t) ≡ false
      → contains t (x ∷ l) ≡ true
      → contains t l ≡ true
  unfolding contains
  later_listed x l t other h = ground (arith, other, h)

  add_terms_lists :
      (w t : List ℕ) (terms : List (List ℕ)) (f : Filter)
      → contains t terms ≡ true
      → lower u (trim_space u.is_space t) ≡ w
      → (w == []) ≡ false
      → contains b' ' w ≡ false
      → contains w (add_terms u terms f).words ≡ true
  unfolding add_terms
  add_terms_lists w t [] f listed same some_rune one_word = absurd (nothing_listed t listed)
  add_terms_lists w t (x ∷ terms) f listed same some_rune one_word = elim (Bool-cases (x == t)) [
    | inl here ↦
        let e : x ≡ t = (list_eq.beq_iff x t).0 here in
        add_terms_keeps w terms (add_term u x f)
          (add_term_lists w x f (rw e same) some_rune one_word)
    | inr later ↦
        add_terms_lists w t terms (add_term u x f) (later_listed x terms t later listed) same
          some_rune one_word
  ]

  blank_separates : plain_separator u b' ' ≡ true
  unfolding plain_separator
  blank_separates = rw (u.ascii_letters 32 (omega arith), u.ascii_digits 32 (omega arith))

  no_blank : (l : List ℕ) → All (λ x. plain_separator u x ≡ false) l → contains b' ' l ≡ false
  unfolding contains
  no_blank [] h = refl
  no_blank (x ∷ l) h = elim (Bool-cases (x == b' ')) [
    | inl blank ↦
        let e : x ≡ b' ' = (nat_eq.beq_iff x 32).0 blank in absurd (cc (h.0, blank_separates, e))
    | inr other ↦ rw other (no_blank l h.1)
  ]

  not_empty : (c : ℕ) (w : List ℕ) → (lower u (c ∷ w) == []) ≡ false
  unfolding lower
  not_empty c w = refl

  -- A term of the blocklist, in any case and around which the list may have blanks, is blocked wherever
  -- it stands in a message as a word of letters and digits between two runes that are neither.
  pub blocked_term :
      (terms : List (List ℕ)) (term before w after : List ℕ) (a b c : ℕ)
      → contains term terms ≡ true
      → lower u (trim_space u.is_space term) ≡ lower u (c ∷ w)
      → plain_separator u a ≡ true
      → plain_separator u b ≡ true
      → All (λ x. plain_separator u x ≡ false) (c ∷ w)
      → (check u (new_filter_with_terms u terms) (before ++ a ∷ c ∷ w ++ b ∷ after)).blocked ≡ true
  unfolding new_filter_with_terms
  blocked_term terms term before w after a b c listed same ha hb hw =
      check_word u _ before w after a b c
        (add_terms_lists (lower u (c ∷ w)) term terms _ listed same (not_empty c w)
          (no_blank (lower u (c ∷ w)) (word-lower u (c ∷ w) hw)))
        ha hb hw

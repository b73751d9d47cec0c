-- ===== src/Moderation/Spam/Floods.antt =====
-- What the linear scans of internal/moderation/spam.go find.
use whisper_chat.Prelude.{
  ℕ, zero, suc, ◌+◌, ◌≤◌, ◌<◌, ◌≡◌, refl, sym, ap, subst, ◌∙◌, ◌↔◌, inl, inr, Bool, true, false,
  Option, none, some, List, [], ◌∷◌, ◌++◌, map, arith, ltb, leb, if◌then◌else◌, Bool-cases, Eq,
  ◌==◌, nat_eq, text_eq, list_eq, ==-self, length, replicate, length-append, length-replicate,
}
use whisper_chat.Moderation.Spam.{
  fields_func, has_word_flood, is_prev, char_flood, has_char_flood, lower, word_flood,
}
use whisper_chat.Moderation.Words.{fields_func, all_filled, fields_func_filled}
use whisper_chat.Moderation.Unicode.{Unicode}

-- `n` equal elements next to one another.
abbrev pub HasRun {ℓ} : {A : Type ℓ} → ℕ → List A → Type ℓ
HasRun {A = A} n l =
    (before : List A) × (a : A) × (after : List A) × (l ≡ before ++ replicate n a ++ after)

module _ {ℓ} {A : Type ℓ} where
  HasRun-cons : (n : ℕ) (x : A) (l : List A) → HasRun n l → HasRun n (x ∷ l)
  HasRun-cons n x l (before, a, after, e) = (x ∷ before, a, after, ap (◌∷◌ x) e)

  HasRun-append : (n : ℕ) (u l : List A) → HasRun n l → HasRun n (u ++ l)
  HasRun-append n [] l h = h
  HasRun-append n (x ∷ u) l h = HasRun-cons n x (u ++ l) (HasRun-append n u l h)

  replicate-suc : (n : ℕ) (a : A) (l : List A) → replicate n a ++ a ∷ l ≡ a ∷ replicate n a ++ l
  replicate-suc zero a l = refl
  replicate-suc (suc n) a l = ap (◌∷◌ a) (replicate-suc n a l)

module _ {ℓ} {A : Type ℓ} ⦃e : Eq A⦄ where
  -- Both scans, for a threshold `k`.
  scan : ℕ → ℕ → Option A → List A → Bool
  scan k count prev [] = false
  scan k count prev (x ∷ l) = elim (is_prev x prev) [
    | true ↦ if leb k (count + 1) then true else scan k (count + 1) prev l
    | false ↦ scan k 1 (some x) l
  ]

  scan_sound :
      (k count : ℕ) (p : A) (l : List A)
      → 1 < k
      → count < k
      → scan k count (some p) l ≡ true
      → HasRun k (replicate count p ++ l)
  unfolding scan
  scan_sound k count p [] two few h = absurd (cc h)
  scan_sound k count p (x ∷ l) two few h = elim (Bool-cases (x == p)) [
    | inl same ↦
        let eq : x ≡ p = (e.beq_iff x p).0 same in
        elim (Bool-cases (leb k (count + 1))) [
          | inl full ↦
              let n : k ≡ suc count = ground arith in
              ([], p, l, rw (n, eq) (replicate-suc count p l))
          | inr more ↦
              let rest = scan_sound k (count + 1) p l two (ground arith) (ground arith) in
              let next : count + 1 ≡ suc count = omega arith in
              rw (eq, replicate-suc count p l)
                (subst (λ n. HasRun k (replicate n p ++ l)) next rest)
        ]
    | inr new ↦
        HasRun-append k (replicate count p) (x ∷ l) (scan_sound k 1 x l two two (ground arith))
  ]

  scan_run :
      (k count n : ℕ) (a : A) (after : List A)
      → count < k
      → k ≤ count + n
      → scan k count (some a) (replicate n a ++ after) ≡ true
  unfolding scan
  scan_run k count zero a after few enough = absurd (omega arith)
  scan_run k count (suc n) a after few enough = elim (Bool-cases (leb k (count + 1))) [
    | inl full ↦ rw (scan, ==-self a, full)
    | inr more ↦
        rw (scan, ==-self a, more) (scan_run k (count + 1) n a after (ground arith) (omega arith))
  ]

  is_prev-some : (x : A) (prev : Option A) → is_prev x prev ≡ true → prev ≡ some x
  is_prev-some x none h = absurd (cc h)
  is_prev-some x (some p) h = ap some (sym ((e.beq_iff x p).0 h))

  scan_complete :
      (k count : ℕ) (prev : Option A) (before : List A) (a : A) (after : List A)
      → scan (suc (suc k)) count prev (before ++ replicate (suc (suc k)) a ++ after) ≡ true
  unfolding scan
  scan_complete k count prev [] a after = elim (Bool-cases (is_prev a prev)) [
    | inl same ↦ elim (Bool-cases (leb (suc (suc k)) (count + 1))) [
      | inl full ↦ rw (scan, same, full)
      | inr more ↦
          rw (scan, same, more)
            (subst (λ q. scan (suc (suc k)) (count + 1) q (replicate (suc k) a ++ after) ≡ true)
              (sym (is_prev-some a prev same))
              (scan_run (suc (suc k)) (count + 1) (suc k) a after (ground arith) (omega arith)))
    ]
    | inr new ↦
        rw (scan, new) (scan_run (suc (suc k)) 1 (suc k) a after (omega arith) (omega arith))
  ]
  scan_complete k count prev (x ∷ before) a after = elim (Bool-cases (is_prev x prev)) [
    | inl same ↦ elim (Bool-cases (leb (suc (suc k)) (count + 1))) [
      | inl full ↦ rw (scan, same, full)
      | inr more ↦ rw (scan, same, more) (scan_complete k (count + 1) prev before a after)
    ]
    | inr new ↦ rw (scan, new) (scan_complete k 1 (some x) before a after)
  ]

  scan_start : (k : ℕ) (l : List A) → scan (suc (suc k)) 1 none l ≡ true → HasRun (suc (suc k)) l
  unfolding scan
  scan_start k [] h = absurd (cc h)
  scan_start k (x ∷ l) h = scan_sound (suc (suc k)) 1 x l (omega arith) (omega arith) h

  -- A scan finds exactly the runs.
  scan-HasRun : (k : ℕ) (l : List A) → (scan (suc (suc k)) 1 none l ≡ true) ↔ HasRun (suc (suc k)) l
  scan-HasRun k l = (
    scan_start k l,
    λ h.
        let (before, a, after, eq) = h in
        subst (λ m. scan (suc (suc k)) 1 none m ≡ true) (sym eq)
          (scan_complete k 1 none before a after),
  )

char_flood-scan :
    (count : ℕ) (prev : Option ℕ) (l : List ℕ) → char_flood count prev l ≡ scan 5 count prev l
unfolding char_flood scan
char_flood-scan count prev [] = refl
char_flood-scan count prev (c ∷ l) =
    ground (arith, char_flood-scan (count + 1) prev l, char_flood-scan 1 (some c) l)

-- The linear scan finds a flood exactly when some rune stands five times or more in a row.
pub has_char_flood-HasRun : (l : List ℕ) → (has_char_flood l ≡ true) ↔ HasRun 5 l
unfolding has_char_flood
has_char_flood-HasRun l = rw (char_flood-scan 1 none l) (scan-HasRun 3 l)

word_flood-scan :
    (u : Unicode) (count : ℕ) (prev : List ℕ) (l : List (List ℕ))
    → word_flood u count prev l ≡ scan 3 count (some prev) (map (lower u) l)
unfolding word_flood scan
word_flood-scan u count prev [] = refl
word_flood-scan u count prev (w ∷ l) =
    ground (arith, word_flood-scan u (count + 1) prev l, word_flood-scan u 1 (lower u w) l)

-- A word is never the empty text with which the scan starts.
scan_words :
    (u : Unicode) (l : List (List ℕ))
    → all_filled l ≡ true
    → scan 3 1 (some []) (map (lower u) l) ≡ scan 3 1 none (map (lower u) l)
unfolding scan lower
scan_words u [] h = refl
scan_words u ([] ∷ l) h = absurd (cc h)
scan_words u ((c ∷ w) ∷ l) h = refl

length-map_words : (f : List ℕ → List ℕ) (l : List (List ℕ)) → length (map f l) ≡ length l
length-map_words f [] = refl
length-map_words f (w ∷ l) = ap suc (length-map_words f l)

HasRun-length : (k : ℕ) (l : List (List ℕ)) → HasRun k l → k ≤ length l
HasRun-length k l (before, a, after, e) =
    let all : length l ≡ length before + k + length after =
      ap length e
      ∙ (length-append (before ++ replicate k a) after
          ∙ ap (λ n. n + length after)
              (length-append before (replicate k a) ∙ rw (length-replicate k a))) in
    ground (arith, all)

-- The linear scan finds a flood exactly when some word, in lower case, stands three times or more
-- in a row.
pub has_word_flood-HasRun :
    (u : Unicode) (text : List ℕ)
    → (has_word_flood u text ≡ true) ↔ HasRun 3 (map (lower u) (fields_func u.is_space text))
unfolding has_word_flood
has_word_flood-HasRun u text =
    let words = fields_func u.is_space text in
    elim (Bool-cases (ltb (length words) 3)) [
      | inl few ↦ rw few (
        λ wrong. absurd (cc wrong),
        λ run. absurd (
            ground
              (arith, HasRun-length 3 (map (lower u) words) run, length-map_words (lower u) words)),
      )
      | inr many ↦
          rw
            (
              many,
              word_flood-scan u 1 [] words,
              scan_words u words (fields_func_filled u.is_space text),
            )
            (scan-HasRun 1 (map (lower u) words))
    ]

-- ===== src/Moderation/Words.antt =====
-- The functions of Go's package strings by which the filter cuts and joins texts.
use mathlib.Core.List.{append_assoc, append-nil, reverse}
use whisper_chat.Prelude.{
  ℕ, ◌≡◌, refl, sym, ap, ◌∙◌, Bool, true, false, ◌&&◌, ◌||◌, List, [], ◌∷◌, ◌++◌, arith,
  if◌then◌else◌, ◌==◌, nat_eq, text_eq, list_eq, All,
}

abbrev flush : List ℕ → List (List ℕ)
flush [] = []
flush (c ∷ l) = (c ∷ l) ∷ []

-- strings.FieldsFunc, `current` being the field so far.
unfoldable pub fields_from : (ℕ → Bool) → List ℕ → List ℕ → List (List ℕ)
fields_from sep current [] = flush current
fields_from sep current (c ∷ l) =
    (if sep c then flush current else [])
    ++ fields_from sep (if sep c then [] else current ++ c ∷ []) l

unfoldable pub fields_func : (ℕ → Bool) → List ℕ → List (List ℕ)
unfolding fields_from
fields_func sep = fields_from sep []

-- strings.Join with a blank
unfoldable pub join_blank : List (List ℕ) → List ℕ
join_blank [] = []
join_blank (w ∷ []) = w
join_blank (w ∷ v ∷ l) = w ++ b' ' ∷ join_blank (v ∷ l)

unfoldable pub has_prefix : List ℕ → List ℕ → Bool
has_prefix l [] = true
has_prefix [] (c ∷ p) = false
has_prefix (a ∷ l) (c ∷ p) = a == c && has_prefix l p

-- strings.Contains
unfoldable pub contains_text : List ℕ → List ℕ → Bool
unfolding has_prefix
contains_text [] p = has_prefix [] p
contains_text (a ∷ l) p = has_prefix (a ∷ l) p || contains_text l p

unfoldable pub trim_left : (ℕ → Bool) → List ℕ → List ℕ
trim_left sp [] = []
trim_left sp (c ∷ l) = let rest = trim_left sp l in if sp c then rest else c ∷ l

-- strings.TrimSpace
unfoldable pub trim_space : (ℕ → Bool) → List ℕ → List ℕ
unfolding trim_left
trim_space sp l = reverse (trim_left sp (reverse (trim_left sp l)))

-- A separator cuts a text in two.
fields_from-append :
    (sep : ℕ → Bool) (current u l : List ℕ) (c : ℕ)
    → sep c ≡ true
    → fields_from sep current (u ++ c ∷ l) ≡ fields_from sep current u ++ fields_from sep [] l
unfolding fields_from
fields_from-append sep current [] l c h = rw h
fields_from-append sep current (a ∷ u) l c h =
    rw (fields_from-append sep (if sep a then [] else current ++ a ∷ []) u l c h)
      (sym (append_assoc (if sep a then flush current else []) _ _))

pub fields_func-append :
    (sep : ℕ → Bool) (u l : List ℕ) (c : ℕ)
    → sep c ≡ true
    → fields_func sep (u ++ c ∷ l) ≡ fields_func sep u ++ fields_func sep l
unfolding fields_func
fields_func-append sep u l c h = fields_from-append sep [] u l c h

fields_from_word :
    (sep : ℕ → Bool) (current w : List ℕ)
    → All (λ c. sep c ≡ false) w
    → fields_from sep current w ≡ flush (current ++ w)
unfolding fields_from
fields_from_word sep current [] h = rw append-nil
fields_from_word sep current (c ∷ w) h =
    rw h.0
      (fields_from_word sep (current ++ c ∷ []) w h.1 ∙ ap flush (append_assoc current (c ∷ []) w))

-- A word stays whole.
pub fields_func_word :
    (sep : ℕ → Bool) (c : ℕ) (w : List ℕ)
    → All (λ a. sep a ≡ false) (c ∷ w)
    → fields_func sep (c ∷ w) ≡ (c ∷ w) ∷ []
unfolding fields_func
fields_func_word sep c w h = fields_from_word sep [] (c ∷ w) h

-- No field is empty.
abbrev pub is_filled : List ℕ → Bool
is_filled [] = false
is_filled (c ∷ l) = true

abbrev pub all_filled : List (List ℕ) → Bool
all_filled [] = true
all_filled (w ∷ l) = is_filled w && all_filled l

fields_from_filled :
    (sep : ℕ → Bool) (current l : List ℕ) → all_filled (fields_from sep current l) ≡ true
unfolding fields_from
fields_from_filled sep [] [] = refl
fields_from_filled sep (a ∷ current) [] = refl
fields_from_filled sep [] (c ∷ l) =
    ground (arith, fields_from_filled sep [] l, fields_from_filled sep (c ∷ []) l)
fields_from_filled sep (a ∷ current) (c ∷ l) =
    ground (arith, fields_from_filled sep [] l, fields_from_filled sep (a ∷ current ++ c ∷ []) l)

pub fields_func_filled : (sep : ℕ → Bool) (l : List ℕ) → all_filled (fields_func sep l) ≡ true
unfolding fields_func
fields_func_filled sep l = fields_from_filled sep [] l

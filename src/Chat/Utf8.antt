-- ===== src/Chat/Utf8.antt =====
-- Go strings as bytes, and the decoding of UTF-8 by which Go's unicode/utf8 and a `range` loop read
-- them. A byte that starts no character counts as one invalid rune of width 1.
pub mod Encode
use whisper_chat.Prelude.{
  ℕ, zero, suc, ◌+◌, ◌-◌, ◌*◌, ◌/◌, ◌%◌, ◌^◌, ◌≤◌, ◌<◌, compare, Ordering, String, ◌≡◌, refl, sym,
  ap, ap₂, subst, ◌∙◌, fun_ext, ◌≢◌, ◌↔◌, ◌⊎◌, inl, inr, Bool, true, false, not, ◌&&◌, ◌||◌, Option,
  none, some, List, [], ◌∷◌, ◌++◌, map, arith, ltb, leb, if◌then◌else◌, ltb→lt, lt→ltb, leb→le,
  le→leb, tests, Bool-cases, Option-cases, Eq, ◌==◌, nat_eq, text_eq, list_eq, ==-self, ==-ne,
  length, get_or, set, drop, replicate, length-append, length-set, length-replicate,
  get_or-set_self, get_or-set_ne, All, contains,
}

abbrev between : ℕ → ℕ → ℕ → Bool
between lo hi b = leb lo b && leb b hi

-- A continuation byte.
abbrev is_cont : ℕ → Bool
is_cont = between 0x80 0xBF

-- The second byte that may follow a first byte of three or four.
abbrev is_second : ℕ → ℕ → Bool
is_second a b =
    if a == 0xE0
    then between 0xA0 0xBF b
    else if a == 0xED
    then between 0x80 0x9F b
    else if a == 0xF0
    then between 0x90 0xBF b
    else if a == 0xF4
    then between 0x80 0x8F b
    else is_cont b

decode2 : ℕ → List ℕ → Option ℕ × ℕ
decode2 a [] = (none, 1)
decode2 a (b ∷ l) = if is_cont b then (some ((a - 0xC0) * 64 + (b - 0x80)), 2) else (none, 1)

decode3 : ℕ → List ℕ → Option ℕ × ℕ
decode3 a (b ∷ c ∷ l) =
    if is_second a b && is_cont c
    then (some (((a - 0xE0) * 64 + (b - 0x80)) * 64 + (c - 0x80)), 3)
    else (none, 1)
decode3 a _ = (none, 1)

decode4 : ℕ → List ℕ → Option ℕ × ℕ
decode4 a (b ∷ c ∷ d ∷ l) =
    if is_second a b && is_cont c && is_cont d
    then (some ((((a - 0xF0) * 64 + (b - 0x80)) * 64 + (c - 0x80)) * 64 + (d - 0x80)), 4)
    else (none, 1)
decode4 a _ = (none, 1)

-- The rune at the front and its width.
decode_rune : ℕ → List ℕ → Option ℕ × ℕ
unfolding decode2 decode3 decode4
decode_rune a l =
    if ltb a 0x80
    then (some a, 1)
    else if between 0xC2 0xDF a
    then decode2 a l
    else if between 0xE0 0xEF a
    then decode3 a l
    else if between 0xF0 0xF4 a
    then decode4 a l
    else (none, 1)

-- `skip` counts the bytes of the current rune that are still to pass.
decode_from : ℕ → List ℕ → List (Option ℕ)
decode_from skip [] = []
decode_from (suc skip) (a ∷ l) = decode_from skip l
decode_from zero (a ∷ l) = let (r, width) = decode_rune a l in r ∷ decode_from (width - 1) l

unfoldable pub decode : List ℕ → List (Option ℕ)
unfolding decode_from decode_rune
decode = decode_from 0

-- utf8.RuneCountInString
unfoldable pub rune_count : List ℕ → ℕ
unfolding decode
rune_count l = length (decode l)

unfoldable pub all_some : List (Option ℕ) → Bool
all_some [] = true
all_some (none ∷ l) = false
all_some (some r ∷ l) = all_some l

-- utf8.ValidString
unfoldable pub valid_string : List ℕ → Bool
unfolding decode all_some
valid_string l = all_some (decode l)

euro : decode (b'a' ∷ 0xE2 ∷ 0x82 ∷ 0xAC ∷ 0xFF ∷ []) ≡ some b'a' ∷ some 0x20AC ∷ none ∷ []
unfolding decode
euro = refl

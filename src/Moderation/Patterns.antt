-- ===== src/Moderation/Patterns.antt =====
-- The regular expressions of internal/moderation/spam.go, and matching as Go's package regexp
-- documents it (syntax RE2): a text matches if some part of it does.
use Prim.Native.Char.{code}
use whisper_chat.Prelude.{
  ℕ, zero, suc, ◌+◌, String, ◌≡◌, refl, Bool, true, false, not, ◌&&◌, ◌||◌, List, [], ◌∷◌, map, leb,
  if◌then◌else◌, ◌==◌, nat_eq, text_eq, list_eq,
}

pub data Re : Type 0 where
  never empty : Re
  char : (ℕ → Bool) → Re
  seq alt : Re → Re → Re
  star : Re → Re

unfoldable pub nullable : Re → Bool
nullable never = false
nullable empty = true
nullable (char p) = false
nullable (seq a b) = nullable a && nullable b
nullable (alt a b) = nullable a || nullable b
nullable (star a) = true

-- What is left to match behind a first character.
unfoldable pub deriv : ℕ → Re → Re
unfolding nullable
deriv c never = never
deriv c empty = never
deriv c (char p) = if p c then empty else never
deriv c (seq a b) =
    let da = seq (deriv c a) b in let db = deriv c b in if nullable a then alt da db else da
deriv c (alt a b) = alt (deriv c a) (deriv c b)
deriv c (star a) = seq (deriv c a) (star a)

-- Does `re` match a part at the front, behind which `tail_ok` holds?
unfoldable pub match_front : Re → (List ℕ → Bool) → List ℕ → Bool
unfolding nullable deriv
match_front re tail_ok [] = nullable re && tail_ok []
match_front re tail_ok (c ∷ l) =
    (nullable re && tail_ok (c ∷ l)) || match_front (deriv c re) tail_ok l

any_tail : List ℕ → Bool
any_tail l = true

unfoldable pub match_anywhere : Re → List ℕ → Bool
unfolding match_front any_tail
match_anywhere re [] = match_front re any_tail []
match_anywhere re (c ∷ l) = match_front re any_tail (c ∷ l) || match_anywhere re l

opt : Re → Re
opt a = alt empty a

plus : Re → Re
plus a = seq a (star a)

-- a{m,m+n}
repeat : ℕ → ℕ → Re → Re
unfolding opt
repeat zero zero a = empty
repeat zero (suc n) a = opt (seq a (repeat zero n a))
repeat (suc m) n a = seq a (repeat m n a)

one : ℕ → Re
one c = char (λ d. c == d)

-- (?i) of a lower-case letter: its upper case too, and for s and k the signs that Unicode folds to them.
fold : ℕ → Re
fold c = char (λ d.
    c == d
    || c == d + 32 && leb b'A' d && leb d b'Z'
    || c == b's' && d == 0x17F
    || c == b'k' && d == 0x212A)

literal : List ℕ → Re
unfolding one fold
literal [] = empty
literal (c ∷ l) = seq (if leb b'a' c && leb c b'z' then fold c else one c) (literal l)

-- \s of RE2
unfoldable pub is_blank : ℕ → Bool
is_blank c = c == 9 || c == 10 || c == 12 || c == 13 || c == 32

non_blank : Re
unfolding is_blank
non_blank = char (λ c. not (is_blank c))

digit : Re
digit = char (λ c. leb b'0' c && leb c b'9')

any_of : List Re → Re
any_of [] = never
any_of (a ∷ l) = alt a (any_of l)

abbrev tlds : List String
tlds =
    "com" ∷ "net" ∷ "org" ∷ "io" ∷ "co" ∷ "xyz" ∷ "info" ∷ "biz" ∷ "ru" ∷ "cn" ∷ "tk" ∷ "ml" ∷ "ga"
    ∷ "cf" ∷ []

abbrev pub codes : String → List ℕ
codes String.[] = []
codes (String.◌∷◌ c s) = code c ∷ codes s

-- (?i)(https?://\S+|www\.\S+|\S+\.(com|net|…)/\S*)
unfoldable pub url_pattern : Re
unfolding literal opt plus non_blank any_of
url_pattern = any_of (
    seq (literal (codes "http"))
      (seq (opt (fold b's')) (seq (literal (codes "://")) (plus non_blank)))
    ∷ seq (literal (codes "www.")) (plus non_blank)
    ∷ seq (plus non_blank) (
        seq (one b'.')
          (seq (any_of (map (λ t. literal (codes t)) tlds)) (seq (one b'/') (star non_blank))))
    ∷ [])

separator : Re
unfolding is_blank
separator = char (λ c. c == b'-' || c == b'.' || is_blank c)

-- (\+?\d{1,3}[-.\s]?)?\(?\d{2,4}\)?[-.\s]?\d{3,4}[-.\s]?\d{3,4}
unfoldable pub phone_number : Re
unfolding opt one repeat digit separator
phone_number = seq (opt (seq (opt (one b'+')) (seq (repeat 1 2 digit) (opt separator)))) (
    seq (opt (one b'(')) (
      seq (repeat 2 2 digit) (
        seq (opt (one b')'))
          (seq (opt separator) (seq (repeat 3 1 digit) (seq (opt separator) (repeat 3 1 digit)))))))

-- (?:\s|$)
phone_end : List ℕ → Bool
unfolding is_blank
phone_end [] = true
phone_end (c ∷ l) = is_blank c

-- (?:^|\s): the number at the front, or behind a blank.
phone_after_blank : List ℕ → Bool
unfolding is_blank match_front phone_number phone_end
phone_after_blank [] = false
phone_after_blank (c ∷ l) =
    (is_blank c && match_front phone_number phone_end l) || phone_after_blank l

unfoldable pub match_phone : List ℕ → Bool
unfolding phone_after_blank
match_phone l = match_front phone_number phone_end l || phone_after_blank l

unfoldable pub match_url : List ℕ → Bool
unfolding match_anywhere url_pattern
match_url = match_anywhere url_pattern

url_tests :
    (match_url (codes "see HTTPS://x") ≡ true)
    × (match_url (codes "http:// x") ≡ false)
    × (match_url (codes "version v2.0 or a.com") ≡ false)
    × (match_url (codes "go to ex.io/y") ≡ true)
unfolding match_url
url_tests = (refl, refl, refl, refl)

phone_tests :
    (match_phone (codes "call (555) 123-4567 now") ≡ true)
    × (match_phone (codes "+1-555-123-4567") ≡ true)
    × (match_phone (codes "about 100") ≡ false)
    × (match_phone (codes "x555-123-4567") ≡ false)
unfolding match_phone
phone_tests = (refl, refl, refl, refl)

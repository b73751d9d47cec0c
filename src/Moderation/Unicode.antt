-- ===== src/Moderation/Unicode.antt =====
-- The tables of Go's package unicode, which the repository uses and does not contain, with what it
-- documents of them on ASCII.
use whisper_chat.Prelude.{
  ℕ, ◌+◌, ◌<◌, ◌≡◌, refl, Bool, ◌&&◌, ◌||◌, arith, leb, if◌then◌else◌, ◌==◌, nat_eq, text_eq,
  list_eq,
}

abbrev pub ascii_upper : ℕ → Bool
ascii_upper c = leb b'A' c && leb c b'Z'

abbrev pub ascii_lower : ℕ → Bool
ascii_lower c = leb b'a' c && leb c b'z'

abbrev pub ascii_digit : ℕ → Bool
ascii_digit c = leb b'0' c && leb c b'9'

abbrev pub ascii_space : ℕ → Bool
ascii_space c = c == 32 || (leb 9 c && leb c 13)

pub record Unicode : Type 0 where
  pub is_letter : ℕ → Bool
  pub is_digit : ℕ → Bool
  pub is_space : ℕ → Bool
  pub to_lower : ℕ → ℕ
  pub ascii_letters : (c : ℕ) → c < 128 → is_letter c ≡ (ascii_upper c || ascii_lower c)
  pub ascii_digits : (c : ℕ) → c < 128 → is_digit c ≡ ascii_digit c
  pub ascii_spaces : (c : ℕ) → c < 128 → is_space c ≡ ascii_space c
  pub ascii_lowers : (c : ℕ) → c < 128 → to_lower c ≡ (if ascii_upper c then c + 32 else c)
  -- Lower case makes no letter or digit, and loses none.
  pub letter-lower : (c : ℕ) → is_letter (to_lower c) ≡ is_letter c
  pub digit-lower : (c : ℕ) → is_digit (to_lower c) ≡ is_digit c

pub letter_lower_ascii :
    (c : ℕ)
    → let d = if ascii_upper c then c + 32 else c in
      (ascii_upper d || ascii_lower d) ≡ (ascii_upper c || ascii_lower c)
letter_lower_ascii c = ground arith

pub digit_lower_ascii : (c : ℕ) → ascii_digit (if ascii_upper c then c + 32 else c) ≡ ascii_digit c
digit_lower_ascii c = ground arith

-- The tables cut down to ASCII.
abbrev pub ascii : Unicode
ascii = record {
  is_letter = λ c. ascii_upper c || ascii_lower c;
  is_digit = ascii_digit;
  is_space = ascii_space;
  to_lower = λ c. if ascii_upper c then c + 32 else c;
  ascii_letters = λ c h. refl;
  ascii_digits = λ c h. refl;
  ascii_spaces = λ c h. refl;
  ascii_lowers = λ c h. refl;
  letter-lower = letter_lower_ascii;
  digit-lower = digit_lower_ascii;
}

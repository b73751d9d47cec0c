-- ===== src/Chat/Validator/Accepts.antt =====
-- Which texts ValidateMessage of internal/chat/validator.go accepts.
use whisper_chat.Prelude.{
  ℕ, suc, ◌*◌, ◌≤◌, ◌<◌, ◌≡◌, refl, ap, ◌↔◌, true, none, some, List, [], ◌∷◌, map, arith, nat_eq,
  text_eq, list_eq, length, length-append, All,
}
use whisper_chat.Chat.Utf8.{rune_count, all_some, valid_string}
use whisper_chat.Chat.Utf8.Encode.{encode, encode_rune, IsScalar, decode-encode}
use whisper_chat.Chat.Validator.{validate_message}

module _ {ℓ κ} {A : Type ℓ} {B : Type κ} where
  length-map : (l : List A) (f : A → B) → length (map f l) ≡ length l
  length-map [] f = refl
  length-map (x ∷ l) f = ap suc (length-map l f)

all_some-map : (l : List ℕ) → all_some (map some l) ≡ true
unfolding all_some
all_some-map [] = refl
all_some-map (c ∷ l) = all_some-map l

length-encode_rune : (c : ℕ) → length (encode_rune c) ≤ 4
unfolding encode_rune
length-encode_rune c = ground arith

length-encode : (l : List ℕ) → length (encode l) ≤ 4 * length l
unfolding encode
length-encode [] = omega arith
length-encode (c ∷ l) =
    omega (arith, length-encode l, length-encode_rune c, length-append (encode_rune c) (encode l))

rune_count-encode : (l : List ℕ) → All IsScalar l → rune_count (encode l) ≡ length l
unfolding rune_count
rune_count-encode l h = rw (decode-encode l h) (length-map l some)

valid_string-encode : (l : List ℕ) → All IsScalar l → valid_string (encode l) ≡ true
unfolding valid_string
valid_string-encode l h = rw (decode-encode l h) (all_some-map l)

-- A text of Unicode characters in UTF-8 is accepted exactly when it has 1 to 2000 characters and at
-- most 4096 bytes.
pub validate_message-encode :
    (l : List ℕ)
    → All IsScalar l
    → (validate_message (encode l) ≡ none)
      ↔ ((0 < length (encode l)) × (length l ≤ 2000) × (length (encode l) ≤ 4096))
unfolding validate_message
validate_message-encode l h = ground (arith, rune_count-encode l h, valid_string-encode l h)

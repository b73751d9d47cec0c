-- ===== src/Chat/Utf8/Encode.antt =====
-- The UTF-8 encoding of characters, which the decoding inverts.
use whisper_chat.Prelude.{
  ℕ, ◌+◌, ◌-◌, ◌*◌, ◌/◌, ◌%◌, ◌≤◌, ◌<◌, ◌≡◌, refl, ap, ◌∙◌, ◌⊎◌, true, some, List, [], ◌∷◌, ◌++◌,
  map, arith, ltb, if◌then◌else◌, nat_eq, text_eq, list_eq, All,
}
use whisper_chat.Chat.Utf8.{is_cont, is_second, decode_rune, decode}

unfoldable pub encode_rune : ℕ → List ℕ
encode_rune c =
    if ltb c 0x80
    then c ∷ []
    else if ltb c 0x800
    then (0xC0 + c / 64) ∷ (0x80 + c % 64) ∷ []
    else if ltb c 0x10000
    then (0xE0 + c / 4096) ∷ (0x80 + c / 64 % 64) ∷ (0x80 + c % 64) ∷ []
    else (0xF0 + c / 262144) ∷ (0x80 + c / 4096 % 64) ∷ (0x80 + c / 64 % 64) ∷ (0x80 + c % 64) ∷ []

unfoldable pub encode : List ℕ → List ℕ
unfolding encode_rune
encode [] = []
encode (c ∷ l) = encode_rune c ++ encode l

-- A Unicode scalar value: no surrogate, at most 0x10FFFF.
abbrev pub IsScalar : ℕ → Type 0
IsScalar c = (c < 0xD800) ⊎ ((0xE000 ≤ c) × (c < 0x110000))

decode-one : (c : ℕ) (rest : List ℕ) → c < 0x80 → decode (c ∷ rest) ≡ some c ∷ decode rest
unfolding decode
decode-one c rest h = ground arith

decode-two :
    (c : ℕ) (rest : List ℕ)
    → 0x80 ≤ c
    → c < 0x800
    → decode ((0xC0 + c / 64) ∷ (0x80 + c % 64) ∷ rest) ≡ some c ∷ decode rest
unfolding decode
decode-two c rest h k = ground arith

decode-three :
    (c : ℕ) (rest : List ℕ)
    → 0x800 ≤ c
    → c < 0x10000
    → IsScalar c
    → decode ((0xE0 + c / 4096) ∷ (0x80 + c / 64 % 64) ∷ (0x80 + c % 64) ∷ rest)
      ≡ some c ∷ decode rest
unfolding decode
decode-three c rest h k s = ground arith

decode_rune-four :
    (a b c d : ℕ) (rest : List ℕ)
    → 0xF0 ≤ a
    → a ≤ 0xF4
    → is_second a b ≡ true
    → is_cont c ≡ true
    → is_cont d ≡ true
    → decode_rune a (b ∷ c ∷ d ∷ rest)
      ≡ (some ((((a - 0xF0) * 64 + (b - 0x80)) * 64 + (c - 0x80)) * 64 + (d - 0x80)), 4)
unfolding decode_rune
decode_rune-four a b c d rest h k s t u = ground arith

decode-four_bytes :
    (a b c d : ℕ) (rest : List ℕ)
    → 0xF0 ≤ a
    → a ≤ 0xF4
    → is_second a b ≡ true
    → is_cont c ≡ true
    → is_cont d ≡ true
    → decode (a ∷ b ∷ c ∷ d ∷ rest)
      ≡ some ((((a - 0xF0) * 64 + (b - 0x80)) * 64 + (c - 0x80)) * 64 + (d - 0x80)) ∷ decode rest
unfolding decode
decode-four_bytes a b c d rest h k s t u = rw (decode_rune-four a b c d rest h k s t u)

second_of_scalar :
    (c : ℕ)
    → 0x10000 ≤ c
    → c < 0x110000
    → is_second (0xF0 + c / 262144) (0x80 + c / 4096 % 64) ≡ true
second_of_scalar c h k = ground arith

decode-four :
    (c : ℕ) (rest : List ℕ)
    → 0x10000 ≤ c
    → c < 0x110000
    → decode (
        (0xF0 + c / 262144)
        ∷ (0x80 + c / 4096 % 64)
        ∷ (0x80 + c / 64 % 64)
        ∷ (0x80 + c % 64)
        ∷ rest)
      ≡ some c ∷ decode rest
decode-four c rest h k =
    decode-four_bytes (0xF0 + c / 262144) (0x80 + c / 4096 % 64) (0x80 + c / 64 % 64)
      (0x80 + c % 64) rest (omega arith) (omega arith) (second_of_scalar c h k) (ground arith)
      (ground arith)
    ∙ ap (λ r. some r ∷ decode rest) (omega arith)

-- Encoding a character and decoding it gives it back, whatever follows.
pub decode-encode_rune :
    (c : ℕ) (rest : List ℕ) → IsScalar c → decode (encode_rune c ++ rest) ≡ some c ∷ decode rest
unfolding encode_rune
decode-encode_rune c rest s =
    ground (arith, decode-one c rest, decode-two c rest, decode-three c rest, decode-four c rest)

pub decode-encode : (l : List ℕ) → All IsScalar l → decode (encode l) ≡ map some l
unfolding encode
decode-encode [] h = unfold decode in refl
decode-encode (c ∷ l) h =
    decode-encode_rune c (encode l) h.0 ∙ ap (◌∷◌ (some c)) (decode-encode l h.1)

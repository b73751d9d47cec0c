-- ===== src/Chat/Buffer/Recent.antt =====
-- A ring buffer of internal/chat/buffer.go holds the latest messages, oldest first.
use whisper_chat.Prelude.{
  ℕ, zero, suc, ◌+◌, ◌-◌, ◌%◌, ◌≤◌, ◌<◌, ◌≡◌, refl, sym, ap, ap₂, ◌∙◌, inl, inr, List, [], ◌∷◌,
  ◌++◌, arith, ltb, ltb→lt, Bool-cases, nat_eq, text_eq, list_eq, length, get_or, set, drop,
  length-append, length-set, get_or-set_self, get_or-set_ne,
}
use whisper_chat.Chat.Buffer.{
  BufferedMessage, zero_message, RingBuffer, new_ring, add_ring, collect, get_ring,
}

pub record IsValid (rb : RingBuffer) : Type 0 where
  pub five : length rb.items ≡ 5
  pub pos_bound : rb.pos < 5
  pub count_bound : rb.count ≤ 5

pub new_ring-IsValid : IsValid new_ring
unfolding new_ring
new_ring-IsValid = record { five = refl; pos_bound = omega arith; count_bound = omega arith }

pub add_ring-IsValid :
    (rb : RingBuffer) (msg : BufferedMessage) → IsValid rb → IsValid (add_ring rb msg)
unfolding add_ring
add_ring-IsValid rb msg v = record {
  five = length-set rb.items rb.pos msg ∙ v.five;
  pos_bound = omega arith;
  count_bound = ground arith;
}

-- The messages that a buffer of five keeps of a list.
unfoldable pub latest : List BufferedMessage → List BufferedMessage
latest l = drop (length l - 5) l

module _ (items : List BufferedMessage) (start : ℕ) where
  length-collect : (i n : ℕ) → length (collect items start i n) ≡ n
  unfolding collect
  length-collect i zero = refl
  length-collect i (suc n) = ap suc (length-collect (i + 1) n)

  -- A write outside of the positions that are read is not seen.
  collect-set :
      (k : ℕ) (msg : BufferedMessage) (i n : ℕ)
      → i + n ≤ k
      → k < i + 5
      → collect (set items ((start + k) % 5) msg) start i n ≡ collect items start i n
  unfolding collect
  collect-set k msg i zero h g = refl
  collect-set k msg i (suc n) h g =
      ap₂ ◌∷◌
        (get_or-set_ne items ((start + k) % 5) ((start + i) % 5) msg zero_message (omega arith))
        (collect-set k msg (i + 1) n (omega arith) (omega arith))

  -- A write just behind them is the last that is read.
  collect-set_next :
      (msg : BufferedMessage) (i n k : ℕ)
      → length items ≡ 5
      → n < 5
      → i + n ≡ k
      → collect (set items ((start + k) % 5) msg) start i (suc n)
        ≡ collect items start i n ++ msg ∷ []
  unfolding collect
  collect-set_next msg i zero k len h e =
      let same : (start + k) % 5 ≡ (start + i) % 5 = omega arith in
      rw same
        (ap (λ m. m ∷ []) (get_or-set_self items ((start + i) % 5) msg zero_message (omega arith)))
  collect-set_next msg i (suc n) k len h e =
      ap₂ ◌∷◌
        (get_or-set_ne items ((start + k) % 5) ((start + i) % 5) msg zero_message (omega arith))
        (collect-set_next msg (i + 1) n k len (omega arith) (omega arith))

  collect_shift : (i n : ℕ) → collect items ((start + 1) % 5) i n ≡ collect items start (i + 1) n
  unfolding collect
  collect_shift i zero = refl
  collect_shift i (suc n) =
      ap₂ ◌∷◌ (ap (λ j. get_or items j zero_message) (omega arith)) (collect_shift (i + 1) n)

pub latest-short : (l : List BufferedMessage) → length l ≤ 5 → latest l ≡ l
unfolding latest
latest-short l h = let none_lost : length l - 5 ≡ 0 = omega arith in rw none_lost

module _ (items : List BufferedMessage) (pos count : ℕ) (msg : BufferedMessage) where
  collect-room :
      length items ≡ 5
      → pos < 5
      → count < 5
      → collect (set items pos msg) (((pos + 1) % 5 + 5 - (count + 1)) % 5) 0 (count + 1)
        ≡ collect items ((pos + 5 - count) % 5) 0 count ++ msg ∷ []
  collect-room len hp hc =
      let start : ℕ = (pos + 5 - count) % 5 in
      ap (λ s. collect (set items pos msg) s 0 (count + 1)) (omega arith)
      ∙ ap (λ n. collect (set items pos msg) start 0 n) (omega arith)
      ∙ ap (λ p. collect (set items p msg) start 0 (suc count)) (omega arith)
      ∙ collect-set_next items start msg 0 count count len hc (omega arith)

  collect-full :
      length items ≡ 5
      → pos < 5
      → collect (set items pos msg) (((pos + 1) % 5 + 5 - 5) % 5) 0 5
        ≡ latest (collect items ((pos + 5 - 5) % 5) 0 5 ++ msg ∷ [])
  unfolding latest
  collect-full len hp =
      let start : ℕ = (pos + 5 - 5) % 5 in
      ap (λ s. collect (set items pos msg) s 0 5) (omega arith)
      ∙ collect_shift (set items pos msg) start 0 5
      ∙ ap (λ p. collect (set items p msg) start 1 5) (omega arith)
      ∙ collect-set_next items start msg 1 4 5 len (omega arith) refl
      ∙ unfold collect in refl

-- Add on a valid buffer keeps the latest five messages, in the order in which they came.
pub get_ring-add_ring :
    (rb : RingBuffer) (msg : BufferedMessage)
    → IsValid rb
    → get_ring (add_ring rb msg) ≡ latest (get_ring rb ++ msg ∷ [])
unfolding get_ring add_ring
get_ring-add_ring rb msg v = elim (Bool-cases (ltb rb.count 5)) [
  | inl room ↦ rw room (
      collect-room rb.items rb.pos rb.count msg v.five v.pos_bound (ltb→lt rb.count 5 room)
      ∙ sym (
          latest-short _ (
            omega (
              arith,
              length-append (get_ring rb) (msg ∷ []),
              length-collect rb.items ((rb.pos + 5 - rb.count) % 5) 0 rb.count,
              ltb→lt rb.count 5 room,
            ))))
  | inr no_room ↦
      let e : rb.count ≡ 5 = ground (arith, v.count_bound) in
      rw (no_room, e) (collect-full rb.items rb.pos 5 msg v.five v.pos_bound)
]

pub length-get_ring : (rb : RingBuffer) → length (get_ring rb) ≡ rb.count
unfolding get_ring
length-get_ring rb = length-collect rb.items ((rb.pos + 5 - rb.count) % 5) 0 rb.count

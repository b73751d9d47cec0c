-- ===== src/Chat/Buffer/History.antt =====
-- What Get of internal/chat/buffer.go returns after any history of calls.
use whisper_chat.Prelude.{
  ℕ, zero, suc, ◌-◌, ◌≤◌, String, ◌≡◌, refl, sym, ap, ◌∙◌, inl, inr, false, Option, none, some,
  List, [], ◌∷◌, ◌++◌, arith, ltb, if◌then◌else◌, ltb→lt, Bool-cases, ◌==◌, nat_eq, text_eq,
  list_eq, ==-self, length, drop, length-append,
}
use whisper_chat.Prelude.Dict.{lookup-insert, lookup-remove}
use whisper_chat.Chat.Buffer.{
  BufferedMessage, RingBuffer, MessageBuffer, new_message_buffer, new_ring, add_ring, get_ring,
  collect, ring_or_new, messages_of, add, get, remove,
}
use whisper_chat.Chat.Buffer.Recent.{
  IsValid, new_ring-IsValid, add_ring-IsValid, latest, latest-short, get_ring-add_ring,
}
use whisper_chat.Prelude.Dict

pub data Call : Type 0 where
  adds : String → BufferedMessage → Call
  removes : String → Call

unfoldable pub run : List Call → MessageBuffer → MessageBuffer
run [] mb = mb
run (adds id msg ∷ calls) mb = run calls (add id msg mb)
run (removes id ∷ calls) mb = run calls (remove id mb)

-- Every message of a chat since its last removal, behind those of `seen`.
unfoldable pub kept : String → List Call → List BufferedMessage → List BufferedMessage
kept chat [] seen = seen
kept chat (adds id msg ∷ calls) seen =
    kept chat calls (if id == chat then seen ++ msg ∷ [] else seen)
kept chat (removes id ∷ calls) seen = kept chat calls (if id == chat then [] else seen)

drop-append :
    (n : ℕ) (xs ys : List BufferedMessage) → n ≤ length xs → drop n (xs ++ ys) ≡ drop n xs ++ ys
drop-append zero xs ys h = refl
drop-append (suc n) [] ys h = absurd (omega arith)
drop-append (suc n) (x ∷ xs) ys h = drop-append n xs ys (omega arith)

drop-suc : (n : ℕ) (xs : List BufferedMessage) → drop 1 (drop n xs) ≡ drop (suc n) xs
drop-suc zero xs = refl
drop-suc (suc n) [] = refl
drop-suc (suc n) (x ∷ xs) = drop-suc n xs

length-drop : (n : ℕ) (xs : List BufferedMessage) → length (drop n xs) ≡ length xs - n
length-drop zero xs = omega arith
length-drop (suc n) [] = omega arith
length-drop (suc n) (x ∷ xs) = omega (arith, length-drop n xs)

-- Forgetting before or after a message comes makes no difference.
latest-append :
    (seen : List BufferedMessage) (msg : BufferedMessage)
    → latest (latest seen ++ msg ∷ []) ≡ latest (seen ++ msg ∷ [])
unfolding latest
latest-append seen msg = elim (Bool-cases (ltb (length seen) 5)) [
  | inl few ↦
      ap (λ l. latest (l ++ msg ∷ []))
        (latest-short seen (omega (arith, ltb→lt (length seen) 5 few)))
  | inr many ↦
      let n : ℕ = length seen - 5 in
      let enough : 5 ≤ length seen = ground arith in
      let last : List BufferedMessage = msg ∷ [] in
      let one : length (drop n seen ++ last) - 5 ≡ 1 =
        omega (arith, length-append (drop n seen) last, length-drop n seen) in
      let next : suc n ≡ length (seen ++ last) - 5 = omega (arith, length-append seen last) in
      ap (λ k. drop k (drop n seen ++ last)) one
      ∙ ap (drop 1) (sym (drop-append n seen last (omega arith)))
      ∙ drop-suc n (seen ++ last)
      ∙ ap (λ k. drop k (seen ++ last)) next
]

abbrev RingIsValid : Option RingBuffer → Type 0
RingIsValid none = Unit {0}
RingIsValid (some rb) = IsValid rb

-- The ring of the chat is sound, and Get returns the latest of the messages `seen`.
record Holds (chat : String) (mb : MessageBuffer) (seen : List BufferedMessage) : Type 0 where
  ring : RingIsValid (Dict.lookup chat mb.buffers)
  shown : get chat mb ≡ latest seen

add_new :
    (o : Option RingBuffer) (msg : BufferedMessage)
    → RingIsValid o
    → IsValid (ring_or_new o) × (get_ring (ring_or_new o) ≡ messages_of o)
unfolding ring_or_new messages_of collect
add_new none msg v = (new_ring-IsValid, unfold new_ring get_ring in refl)
add_new (some rb) msg v = (v, refl)

module _ (chat : String) (mb : MessageBuffer) (seen : List BufferedMessage)
    (h : Holds chat mb seen) where
  add-Holds_self : (msg : BufferedMessage) → Holds chat (add chat msg mb) (seen ++ msg ∷ [])
  unfolding add get
  add-Holds_self msg =
      let old : Option RingBuffer = Dict.lookup chat mb.buffers in
      let new : RingBuffer = add_ring (ring_or_new old) msg in
      let sound = add_new old msg h.ring in
      let found : Dict.lookup chat (add chat msg mb).buffers ≡ some new =
        simp (lookup-insert, ==-self) in
      record {
        ring = rw found (add_ring-IsValid (ring_or_new old) msg sound.0);
        shown =
            ap messages_of found
            ∙ get_ring-add_ring (ring_or_new old) msg sound.0
            ∙ ap (λ l. latest (l ++ msg ∷ [])) (sound.1 ∙ h.shown)
            ∙ latest-append seen msg;
      }

  add-Holds_ne :
      (id : String) (msg : BufferedMessage) → (id == chat) ≡ false → Holds chat (add id msg mb) seen
  unfolding add get
  add-Holds_ne id msg other =
      let same : Dict.lookup chat (add id msg mb).buffers ≡ Dict.lookup chat mb.buffers =
        simp (lookup-insert, other) in
      record { ring = rw same h.ring; shown = ap messages_of same ∙ h.shown }

  remove-Holds_self : Holds chat (remove chat mb) []
  unfolding remove get
  remove-Holds_self =
      let gone : Dict.lookup chat (remove chat mb).buffers ≡ none = simp (lookup-remove, ==-self) in
      record { ring = rw gone tt; shown = ap messages_of gone ∙ unfold messages_of latest in refl }

  remove-Holds_ne : (id : String) → (id == chat) ≡ false → Holds chat (remove id mb) seen
  unfolding remove get
  remove-Holds_ne id other =
      let same : Dict.lookup chat (remove id mb).buffers ≡ Dict.lookup chat mb.buffers =
        simp (lookup-remove, other) in
      record { ring = rw same h.ring; shown = ap messages_of same ∙ h.shown }

run-Holds :
    (chat : String) (calls : List Call) (mb : MessageBuffer) (seen : List BufferedMessage)
    → Holds chat mb seen
    → get chat (run calls mb) ≡ latest (kept chat calls seen)
unfolding run kept
run-Holds chat [] mb seen h = h.shown
run-Holds chat (adds id msg ∷ calls) mb seen h = elim (Bool-cases (id == chat)) [
  | inl same ↦
      let e : id ≡ chat = (text_eq.beq_iff id chat).0 same in
      rw (same, e) (run-Holds chat calls (add chat msg mb) _ (add-Holds_self chat mb seen h msg))
  | inr other ↦
      rw other
        (run-Holds chat calls (add id msg mb) seen (add-Holds_ne chat mb seen h id msg other))
]
run-Holds chat (removes id ∷ calls) mb seen h = elim (Bool-cases (id == chat)) [
  | inl same ↦
      let e : id ≡ chat = (text_eq.beq_iff id chat).0 same in
      rw (same, e) (run-Holds chat calls (remove chat mb) [] (remove-Holds_self chat mb seen h))
  | inr other ↦
      rw other (run-Holds chat calls (remove id mb) seen (remove-Holds_ne chat mb seen h id other))
]

-- After any calls of Add and Remove, for any chats, Get returns the latest five of the messages that
-- were added to the chat since its last removal, oldest first.
pub get-run :
    (chat : String) (calls : List Call)
    → get chat (run calls new_message_buffer) ≡ latest (kept chat calls [])
get-run chat calls = run-Holds chat calls new_message_buffer [] (
    unfold new_message_buffer get messages_of latest in
    unfold Dict.lookup in record { ring = tt; shown = refl })

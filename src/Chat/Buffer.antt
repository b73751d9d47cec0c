-- ===== src/Chat/Buffer.antt =====
-- internal/chat/buffer.go: the last messages of each chat, in a ring buffer per chat.
pub mod History
pub mod Recent
use whisper_chat.Prelude.Dict
use whisper_chat.Prelude.{
  ℕ, zero, suc, ◌+◌, ◌-◌, ◌%◌, String, Option, none, some, List, [], ◌∷◌, ltb, if◌then◌else◌,
  nat_eq, text_eq, list_eq, get_or, set, replicate,
}
use whisper_chat.Prelude.Dict.{Dict}

abbrev pub max_buffer_messages : ℕ
max_buffer_messages = 5

-- `text` is a Go string: its bytes.
pub record BufferedMessage : Type 0 where
  pub sender : String
  pub text : List ℕ
  pub ts : ℕ

-- The zero value that `make` fills the items with.
abbrev pub zero_message : BufferedMessage
zero_message = record { sender = ""; text = []; ts = 0 }

pub record RingBuffer : Type 0 where
  pub items : List BufferedMessage
  pub pos : ℕ
  pub count : ℕ

unfoldable pub new_ring : RingBuffer
new_ring = record { items = replicate max_buffer_messages zero_message; pos = 0; count = 0 }

-- The body of Add, from the write on.
unfoldable pub add_ring : RingBuffer → BufferedMessage → RingBuffer
add_ring rb msg = record {
  items = set rb.items rb.pos msg;
  pos = (rb.pos + 1) % max_buffer_messages;
  count = if ltb rb.count max_buffer_messages then rb.count + 1 else rb.count;
}

-- The loop of Get: `n` items from `start + i` on, round the ring.
unfoldable pub collect : List BufferedMessage → ℕ → ℕ → ℕ → List BufferedMessage
collect items start i zero = []
collect items start i (suc n) =
    get_or items ((start + i) % max_buffer_messages) zero_message ∷ collect items start (i + 1) n

unfoldable pub get_ring : RingBuffer → List BufferedMessage
get_ring rb =
    let start = (rb.pos + max_buffer_messages - rb.count) % max_buffer_messages in
    collect rb.items start 0 rb.count

pub record MessageBuffer : Type 0 where
  pub buffers : Dict String RingBuffer

unfoldable pub new_message_buffer : MessageBuffer
new_message_buffer = record { buffers = [] }

ring_or_new : Option RingBuffer → RingBuffer
ring_or_new none = new_ring
ring_or_new (some rb) = rb

unfoldable pub add : String → BufferedMessage → MessageBuffer → MessageBuffer
unfolding ring_or_new
add chat_id msg mb = record {
  buffers =
      Dict.insert chat_id (add_ring (ring_or_new (Dict.lookup chat_id mb.buffers)) msg) mb.buffers;
}

messages_of : Option RingBuffer → List BufferedMessage
messages_of none = []
messages_of (some rb) = get_ring rb

unfoldable pub get : String → MessageBuffer → List BufferedMessage
unfolding messages_of
get chat_id mb = messages_of (Dict.lookup chat_id mb.buffers)

unfoldable pub remove : String → MessageBuffer → MessageBuffer
remove chat_id mb = record { buffers = Dict.remove chat_id mb.buffers }

-- ===== src/Chat/Store/Partner.antt =====
-- GetPartner and IsParticipant of internal/chat/store.go.
use whisper_chat.Prelude.{String, ◌≡◌, ◌≢◌, true, false, arith, ◌==◌, nat_eq, text_eq, list_eq}
use whisper_chat.Chat.Store.{ChatSession, get_partner, is_participant}

-- In a chat of two different users, the partner of a participant is another participant, whose partner
-- is the first again.
pub get_partner-get_partner :
    (cs : ChatSession) (session_id : String)
    → cs.user_a ≢ cs.user_b
    → is_participant cs session_id ≡ true
    → (is_participant cs (get_partner cs session_id) ≡ true)
      × ((get_partner cs session_id == session_id) ≡ false)
      × (get_partner cs (get_partner cs session_id) ≡ session_id)
unfolding get_partner is_participant
get_partner-get_partner cs session_id ne h = ground (
  arith,
  text_eq.beq_iff session_id cs.user_a,
  text_eq.beq_iff session_id cs.user_b,
  text_eq.beq_iff cs.user_b cs.user_a,
  text_eq.beq_iff cs.user_a cs.user_b,
  text_eq.beq_iff cs.user_b session_id,
  text_eq.beq_iff cs.user_a session_id,
  text_eq.beq_iff cs.user_b cs.user_b,
  text_eq.beq_iff cs.user_a cs.user_a,
)

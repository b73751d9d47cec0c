-- ===== src/Chat/Store/Contract.antt =====
-- What internal/chat/store.go promises of a chat session: the outcomes that the comment on AcceptMatch
-- documents, and the form in which Redis holds a session.
use whisper_chat.Prelude.{
  String, ◌≡◌, ◌⊎◌, inl, inr, Bool, true, false, not, some, if◌then◌else◌, ◌==◌, nat_eq, text_eq,
  list_eq,
}
use whisper_chat.Prelude.Dict.{Dict, lookup, insert, lookup-insert}
use whisper_chat.Redis.Commands.{Datum, int, text}
use whisper_chat.Chat.Store.{
  ChatSession, Acceptance, both_accepted, waiting, wrong_status, not_participant,
}

-- What AcceptMatch promises of a session that exists.
unfoldable pub accept : ChatSession → String → Acceptance × ChatSession
accept cs sid =
    if not (cs.status == "pending_accept")
    then (wrong_status, cs)
    else if sid == cs.user_a
    then (if cs.accepted_b
        then (both_accepted, record cs { accepted_a = true; status = "active" })
        else (waiting, record cs { accepted_a = true }))
    else if sid == cs.user_b
    then (if cs.accepted_a
        then (both_accepted, record cs { accepted_b = true; status = "active" })
        else (waiting, record cs { accepted_b = true }))
    else (not_participant, cs)

abbrev pub flag : Bool → String
flag true = "true"
flag false = "false"

-- The hash `h` holds the session.
pub record Stores (cs : ChatSession) (h : Dict String Datum) : Type 0 where
  pub user_a : lookup "user_a" h ≡ some (text cs.user_a)
  pub user_b : lookup "user_b" h ≡ some (text cs.user_b)
  pub status : lookup "status" h ≡ some (text cs.status)
  pub created_at : lookup "created_at" h ≡ some (int cs.created_at)
  pub accept_deadline : lookup "accept_deadline" h ≡ some (int cs.accept_deadline)
  pub accepted_a : lookup "accepted_a" h ≡ some (text (flag cs.accepted_a))
  pub accepted_b : lookup "accepted_b" h ≡ some (text (flag cs.accepted_b))

pub Stores-set :
    (cs cs' : ChatSession) (f t : String) (h : Dict String Datum)
    → Stores cs h
    → (f ≡ "status") × (cs' ≡ record cs { status = t })
      ⊎ (f ≡ "accepted_a") × (t ≡ "true") × (cs' ≡ record cs { accepted_a = true })
      ⊎ (f ≡ "accepted_b") × (t ≡ "true") × (cs' ≡ record cs { accepted_b = true })
    → Stores cs' (insert f (text t) h)
Stores-set cs cs' f t h s (inl (e, e')) =
    rw (e, e')
      (record {
        user_a = simp lookup-insert s.user_a;
        user_b = simp lookup-insert s.user_b;
        status = simp lookup-insert;
        created_at = simp lookup-insert s.created_at;
        accept_deadline = simp lookup-insert s.accept_deadline;
        accepted_a = simp lookup-insert s.accepted_a;
        accepted_b = simp lookup-insert s.accepted_b;
      })
Stores-set cs cs' f t h s (inr (inl (e, et, e'))) =
    rw (e, et, e')
      (record {
        user_a = simp lookup-insert s.user_a;
        user_b = simp lookup-insert s.user_b;
        status = simp lookup-insert s.status;
        created_at = simp lookup-insert s.created_at;
        accept_deadline = simp lookup-insert s.accept_deadline;
        accepted_a = simp lookup-insert;
        accepted_b = simp lookup-insert s.accepted_b;
      })
Stores-set cs cs' f t h s (inr (inr (e, et, e'))) =
    rw (e, et, e')
      (record {
        user_a = simp lookup-insert s.user_a;
        user_b = simp lookup-insert s.user_b;
        status = simp lookup-insert s.status;
        created_at = simp lookup-insert s.created_at;
        accept_deadline = simp lookup-insert s.accept_deadline;
        accepted_a = simp lookup-insert s.accepted_a;
        accepted_b = simp lookup-insert;
      })

-- ===== src/Chat/Store/Handshake.antt =====
-- The life of a pending chat in internal/chat/store.go: CreatePending, any calls of AcceptMatch, Get.
use whisper_chat.Prelude.{
  ℕ, ◌+◌, String, ◌≡◌, refl, sym, ap, ap₂, subst, ◌∙◌, ◌≢◌, Bool, true, false, ◌&&◌, ◌||◌, some,
  List, [], ◌∷◌, arith, if◌then◌else◌, ◌==◌, nat_eq, text_eq, list_eq, ==-self, contains,
}
use whisper_chat.Prelude.Dict.{lookup-insert, Dict, lookup}
use whisper_chat.Redis.Commands.{
  hset_fields, after, Key, Datum, hash, missing, Reply, hget, hgetall, key_eq,
}
use whisper_chat.Chat.Store.{
  int, hset, text, Command, create_pending, accept_status, ChatSession, not_found, chat_key,
  accept_match_lua, accept_match, script_result, get, found_session,
}
use whisper_chat.Redis.{Redis}
use whisper_chat.Redis.Client.{ok, as_fields, ask_value}
use whisper_chat.Chat.Store.Contract.{accept, flag, Stores}
use whisper_chat.Chat.Store.Accept.{accept_match_lua-Leaves, read_db, expire_stored}
use whisper_chat.Redis.Scripts.{run_script-call}

same_id : (cs : ChatSession) (sid : String) → (accept cs sid).1.chat_id ≡ cs.chat_id
unfolding accept
same_id cs sid = ground arith

or_false : (x : Bool) → (x || false) ≡ x
or_false x = ground arith

or_assoc : (x y z : Bool) → ((x || y) || z) ≡ (x || (y || z))
or_assoc x y z = ground arith

flag_true : (b : Bool) → (flag b == "true") ≡ b
flag_true true = refl
flag_true false = refl

found_session-Stores :
    (r : Redis) (cs : ChatSession) (h : Dict String Datum)
    → Stores cs h
    → found_session r cs.chat_id (ok h) ≡ ok (some cs)
unfolding found_session
found_session-Stores r cs [] s = absurd (unfold lookup in cc s.user_a)
found_session-Stores r cs (f ∷ h) s = simp (
  s.user_a, s.user_b, s.status, s.created_at, s.accept_deadline, s.accepted_a, s.accepted_b,
  flag_true,
)

module _ (r : Redis) (reliable : (s : r.State) → r.up s ≡ true) where
  open r use {State, value}

  -- Redis holds the session under its identifier.
  pub record Holds (cs : ChatSession) (s : State) : Type 0 where
    pub fields : Dict String Datum
    pub held : value s (chat_key cs.chat_id) ≡ hash fields
    pub stored : Stores cs fields

  -- With every command answered, AcceptMatch on a stored session gives the documented outcome and stores the documented session.
  pub accept_match-accept :
      (cs : ChatSession) (sid : String) (s : State)
      → Holds cs s
      → ((accept_match r cs.chat_id sid s).0 ≡ ok (accept cs sid).0)
        × Holds (accept cs sid).1 (accept_match r cs.chat_id sid s).1
  unfolding accept_match
  accept_match-accept cs sid s h =
      let k : Key = chat_key cs.chat_id in
      let done =
        accept_match_lua-Leaves r.arrange r.ranked k cs sid h.fields (value s) (r.ttl s) h.held
          h.stored in
      (
        ap (script_result r) (r.eval_up (accept_match_lua k sid) s (reliable s) ∙ done.result),
        record {
          fields = done.fields;
          held =
              rw (same_id cs sid)
                (r.value-eval (accept_match_lua k sid) s k (reliable s) ∙ done.held);
          stored = done.stored;
        },
      )

  -- With every command answered, AcceptMatch on a chat of which there is no session reports so and
  -- leaves it without one.
  pub accept_match_missing :
      (chat_id sid : String) (s : State)
      → value s (chat_key chat_id) ≡ missing
      → ((accept_match r chat_id sid s).0 ≡ ok not_found)
        × (value (accept_match r chat_id sid s).1 (chat_key chat_id) ≡ missing)
  unfolding accept_match accept_match_lua
  accept_match_missing chat_id sid s h =
      let k : Key = chat_key chat_id in
      let run =
        run_script-call r.arrange r.ranked (hget k "status") (accept_status k sid) (value s)
          (r.ttl s) Reply.nil (rw h) refl in
      (
        ap (script_result r)
            (r.eval_up (accept_match_lua k sid) s (reliable s) ∙ ap (λ x. x.0) run),
        r.value-eval (accept_match_lua k sid) s k (reliable s)
            ∙ ap (λ x. x.1 k) run
            ∙ ap (λ db. db k) (read_db k "status" (value s))
            ∙ h,
      )

  get-Holds : (cs : ChatSession) (s : State) → Holds cs s → (get r cs.chat_id s).0 ≡ ok (some cs)
  unfolding get
  get-Holds cs s h =
      ap (found_session r cs.chat_id)
        (ask_value r as_fields (hgetall (chat_key cs.chat_id)) s _ (reliable s) h.held)
      ∙ found_session-Stores r cs h.fields h.stored

  -- A pending session of two users.
  abbrev pub pending : ℕ → String → String → String → ChatSession
  pending now chat_id a b = record {
    chat_id = chat_id;
    user_a = a;
    user_b = b;
    status = "pending_accept";
    created_at = now;
    accept_deadline = now + 15;
    accepted_a = false;
    accepted_b = false;
  }

  abbrev pending_fields : ℕ → String → String → Dict String Datum
  pending_fields now a b =
      ("user_a", text a)
      ∷ ("user_b", text b)
      ∷ ("status", text "pending_accept")
      ∷ ("created_at", int now)
      ∷ ("accept_deadline", int (now + 15))
      ∷ ("accepted_a", text "false")
      ∷ ("accepted_b", text "false")
      ∷ []

  pub create_pending-Holds :
      (now : ℕ) (chat_id a b : String) (s : State)
      → value s (chat_key chat_id) ≡ missing
      → Holds (pending now chat_id a b) (create_pending r now chat_id a b s).1
  unfolding create_pending
  create_pending-Holds now chat_id a b s h =
      let k : Key = chat_key chat_id in
      let new : Command = hset k (pending_fields now a b) in
      let made : after new (value s) k ≡ hash (hset_fields (pending_fields now a b) []) =
        rw (==-self k) (rw h) in
      record {
        fields = hset_fields (pending_fields now a b) [];
        held =
            r.value-pipeline _ s k (reliable s) ∙ expire_stored k 60 (after new (value s)) ∙ made;
        stored = record {
          user_a = simp lookup-insert;
          user_b = simp lookup-insert;
          status = simp lookup-insert;
          created_at = simp lookup-insert;
          accept_deadline = simp lookup-insert;
          accepted_a = simp lookup-insert;
          accepted_b = simp lookup-insert;
        };
      }

  unfoldable pub accept_calls : String → List String → State → State
  accept_calls chat_id [] s = s
  accept_calls chat_id (sid ∷ sids) s = accept_calls chat_id sids (accept_match r chat_id sid s).1

  unfoldable pub accept_all : ChatSession → List String → ChatSession
  accept_all cs [] = cs
  accept_all cs (sid ∷ sids) = accept_all (accept cs sid).1 sids

  accept_calls-Holds :
      (cs : ChatSession) (sids : List String) (s : State)
      → Holds cs s
      → Holds (accept_all cs sids) (accept_calls cs.chat_id sids s)
  unfolding accept_calls accept_all
  accept_calls-Holds cs [] s h = h
  accept_calls-Holds cs (sid ∷ sids) s h =
      let next = accept_match-accept cs sid s h in
      subst
        (λ id.
          Holds (accept_all (accept cs sid).1 sids)
            (accept_calls id sids (accept_match r cs.chat_id sid s).1))
        (same_id cs sid) (accept_calls-Holds (accept cs sid).1 sids _ next.1)

  -- The session with the acceptances so far.
  abbrev pub progress : ℕ → String → String → String → Bool → Bool → ChatSession
  progress now chat_id a b x y = record (pending now chat_id a b) {
    status = if x && y then "active" else "pending_accept";
    accepted_a = x;
    accepted_b = y;
  }

  accept-progress :
      (now : ℕ) (chat_id a b sid : String) (x y : Bool)
      → a ≢ b
      → (accept (progress now chat_id a b x y) sid).1
        ≡ progress now chat_id a b (x || sid == a) (y || sid == b)
  unfolding accept
  accept-progress now chat_id a b sid false false h =
      ground (arith, text_eq.beq_iff sid a, text_eq.beq_iff sid b)
  accept-progress now chat_id a b sid false true h =
      ground (arith, text_eq.beq_iff sid a, text_eq.beq_iff sid b)
  accept-progress now chat_id a b sid true false h =
      ground (arith, text_eq.beq_iff sid a, text_eq.beq_iff sid b)
  accept-progress now chat_id a b sid true true h =
      ground (arith, text_eq.beq_iff sid a, text_eq.beq_iff sid b)

  accept_all-progress :
      (now : ℕ) (chat_id a b : String) (sids : List String) (x y : Bool)
      → a ≢ b
      → accept_all (progress now chat_id a b x y) sids
        ≡ progress now chat_id a b (x || contains a sids) (y || contains b sids)
  unfolding accept_all contains
  accept_all-progress now chat_id a b [] x y h =
      ap₂ (progress now chat_id a b) (sym (or_false x)) (sym (or_false y))
  accept_all-progress now chat_id a b (sid ∷ sids) x y h =
      ap (λ cs. accept_all cs sids) (accept-progress now chat_id a b sid x y h)
      ∙ accept_all-progress now chat_id a b sids (x || sid == a) (y || sid == b) h
      ∙ ap₂ (progress now chat_id a b) (or_assoc x _ _) (or_assoc y _ _)

  -- With every command answered: after CreatePending for two different users and any calls of
  -- AcceptMatch on the chat, Get returns the session with the two acceptances that were given, and it
  -- is active exactly if both were.
  pub get-accept_calls :
      (now : ℕ) (chat_id a b : String) (sids : List String) (s : State)
      → a ≢ b
      → value s (chat_key chat_id) ≡ missing
      → (get r chat_id (accept_calls chat_id sids (create_pending r now chat_id a b s).1)).0
        ≡ ok (some (progress now chat_id a b (contains a sids) (contains b sids)))
  get-accept_calls now chat_id a b sids s ne h =
      let start : ChatSession = pending now chat_id a b in
      let s' : State = (create_pending r now chat_id a b s).1 in
      let after_calls =
        accept_calls-Holds start sids s' (create_pending-Holds now chat_id a b s h) in
      let outcome = accept_all-progress now chat_id a b sids false false ne in
      get-Holds (progress now chat_id a b (contains a sids) (contains b sids)) _
        (subst (λ cs. Holds cs (accept_calls chat_id sids s')) outcome after_calls)

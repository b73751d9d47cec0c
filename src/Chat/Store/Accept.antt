-- ===== src/Chat/Store/Accept.antt =====
-- Accepting a match (internal/chat/store.go) against its documented outcomes.
use whisper_chat.Prelude.{
  ℕ, String, ◌≡◌, refl, ap, ap₂, ◌∙◌, fun_ext, inl, inr, Bool, true, false, not, ◌&&◌, Option, some,
  List, [], ◌∷◌, arith, if◌then◌else◌, Bool-cases, ◌==◌, nat_eq, text_eq, list_eq, ==-self, ==-comm,
}
use whisper_chat.Redis.Commands.{
  found, Key, Datum, text, hash, Reply, hget, hset, expire, hset_fields, key_eq, Db, after,
}
use whisper_chat.Redis.Scripts.{run_script-call, life_after, Script, ret, call, run_script, Lives}
use whisper_chat.Chat.Store.Contract.{accept, flag, Stores, Stores-set}
use whisper_chat.Chat.Store.{
  is_text, ChatSession, Acceptance, both_accepted, waiting, wrong_status, not_participant,
  accept_check, accept_mark, accept_match_lua,
}
use whisper_chat.Prelude.Dict.{Dict, lookup, insert}

-- Reads change nothing, and writes to a hash keep its time to live.
pub read_db : (k : Key) (f : String) (db : Db) → after (hget k f) db ≡ db
read_db k f db =
    fun_ext λ j. elim (Bool-cases (k == j)) [ inl same ↦ rw same | inr other ↦ rw other ]

read_lives :
    (k : Key) (f : String) (db : Db) (lives : Lives) → life_after (hget k f) db lives ≡ lives
read_lives k f db lives =
    fun_ext λ j. elim (Bool-cases (k == j)) [ inl same ↦ rw same | inr other ↦ rw other ]

write_lives :
    (k : Key) (fs : Dict String Datum) (db : Db) (lives : Lives)
    → life_after (hset k fs) db lives ≡ lives
write_lives k fs db lives =
    fun_ext λ j. elim (Bool-cases (k == j)) [ inl same ↦ rw same | inr other ↦ rw other ]

hset_stored :
    (k : Key) (fs h : Dict String Datum) (db : Db)
    → db k ≡ hash h
    → after (hset k fs) db k ≡ hash (hset_fields fs h)
hset_stored k fs h db e = rw (==-self k) (rw e)

pub expire_stored : (k : Key) (n : ℕ) (db : Db) → after (expire k n) db k ≡ db k
expire_stored k n db = rw (==-self k)

module _ (arrange : List String → List String) (ranked : Dict String ℕ → List String)
    (k : Key) where
  abbrev runs : {A : Type 0} → Script A → Db → Lives → Option A × Db × Lives
  runs = run_script arrange ranked

  module _ {A : Type 0} (h : Dict String Datum) (db : Db) (lives : Lives) (e : db k ≡ hash h) where
    hget_step :
        (f : String) (d : Datum) (next : Reply → Script A)
        → lookup f h ≡ some d
        → runs (call (hget k f) next) db lives ≡ runs (next (Reply.datum d)) db lives
    hget_step f d next l =
        run_script-call arrange ranked (hget k f) next db lives (Reply.datum d) (rw e (ap found l))
          refl
        ∙ ap₂ (runs (next (Reply.datum d))) (read_db k f db) (read_lives k f db lives)

    hset_step :
        (fs : Dict String Datum) (next : Reply → Script A)
        → runs (call (hset k fs) next) db lives
          ≡ runs (next Reply.done) (after (hset k fs) db) lives
    hset_step fs next =
        run_script-call arrange ranked (hset k fs) next db lives Reply.done (rw e) refl
        ∙ ap (runs (next Reply.done) (after (hset k fs) db)) (write_lives k fs db lives)

  -- The result `a`, and the session `cs` stored under the key.
  pub record Leaves (a : Acceptance) (cs : ChatSession) (out : Option Acceptance × Db × Lives)
      : Type 0 where
    pub result : out.0 ≡ some a
    pub fields : Dict String Datum
    pub held : out.1 k ≡ hash fields
    pub stored : Stores cs fields

  checked : ChatSession → Acceptance × ChatSession
  checked cs =
      if cs.accepted_a && cs.accepted_b
      then (both_accepted, record cs { status = "active" })
      else (waiting, cs)

  is_true : (b : Bool) → is_text "true" (Reply.datum (text (flag b))) ≡ b
  is_true true = refl
  is_true false = refl

  activate-Leaves :
      (cs : ChatSession) (h : Dict String Datum) (db : Db) (lives : Lives)
      → db k ≡ hash h
      → Stores cs h
      → Leaves both_accepted
          (record cs { status = "active" })
          (runs
            (call
              (hset k (("status", text "active") ∷ []))
              (λ _. call (expire k 7200) (λ _. ret both_accepted)))
            db
            lives)
  activate-Leaves cs h db lives e s =
      let db' : Db = after (hset k (("status", text "active") ∷ [])) db in
      rw
        (hset_step h db lives e (("status", text "active") ∷ [])
          (λ _. call (expire k 7200) (λ _. ret both_accepted)))
        (rw
          (run_script-call arrange ranked (expire k 7200) (λ _. ret both_accepted) db' lives
            Reply.done refl refl)
          (record {
            result = refl;
            fields = insert "status" (text "active") h;
            held =
                expire_stored k 7200 db' ∙ (hset_stored k (("status", text "active") ∷ []) h db e);
            stored = Stores-set cs _ "status" "active" h s (inl (refl, refl));
          }))

  accept_check-Leaves :
      (cs : ChatSession) (h : Dict String Datum) (db : Db) (lives : Lives)
      → db k ≡ hash h
      → Stores cs h
      → Leaves (checked cs).0 (checked cs).1 (runs (accept_check k) db lives)
  unfolding accept_check checked
  accept_check-Leaves cs h db lives e s =
      rw (hget_step h db lives e "accepted_a" (text (flag cs.accepted_a)) _ s.accepted_a) (
        rw (hget_step h db lives e "accepted_b" (text (flag cs.accepted_b)) _ s.accepted_b) (
          rw (is_true cs.accepted_a, is_true cs.accepted_b)
            (elim (Bool-cases (cs.accepted_a && cs.accepted_b)) [
              | inl all ↦ rw all (activate-Leaves cs h db lives e s)
              | inr some_left ↦
                  rw some_left (record { result = refl; fields = h; held = e; stored = s })
            ])))

  marked : ChatSession → String → Acceptance × ChatSession
  unfolding checked
  marked cs sid =
      if sid == cs.user_a
      then checked (record cs { accepted_a = true })
      else if sid == cs.user_b
      then checked (record cs { accepted_b = true })
      else (not_participant, cs)

  accept_mark-Leaves :
      (cs : ChatSession) (sid : String) (h : Dict String Datum) (db : Db) (lives : Lives)
      → db k ≡ hash h
      → Stores cs h
      → Leaves (marked cs sid).0 (marked cs sid).1 (runs (accept_mark k sid) db lives)
  unfolding accept_mark marked
  accept_mark-Leaves cs sid h db lives e s =
      rw (hget_step h db lives e "user_a" (text cs.user_a) _ s.user_a) (
        rw (hget_step h db lives e "user_b" (text cs.user_b) _ s.user_b)
          (elim (Bool-cases (sid == cs.user_a)) [
            | inl is_a ↦ rw is_a (
                rw (hset_step h db lives e (("accepted_a", text "true") ∷ []) (λ _. accept_check k))
                  (accept_check-Leaves (record cs { accepted_a = true }) _
                    (after (hset k (("accepted_a", text "true") ∷ [])) db) lives
                    (hset_stored k (("accepted_a", text "true") ∷ []) h db e)
                    (Stores-set cs _ "accepted_a" "true" h s (inr (inl (refl, refl, refl))))))
            | inr not_a ↦ elim (Bool-cases (sid == cs.user_b)) [
              | inl is_b ↦
                  rw (not_a, is_b)
                    (rw
                      (hset_step h db lives e (("accepted_b", text "true") ∷ [])
                        (λ _. accept_check k))
                      (accept_check-Leaves (record cs { accepted_b = true }) _
                        (after (hset k (("accepted_b", text "true") ∷ [])) db) lives
                        (hset_stored k (("accepted_b", text "true") ∷ []) h db e)
                        (Stores-set cs _ "accepted_b" "true" h s (inr (inr (refl, refl, refl))))))
              | inr not_b ↦
                  rw (not_a, not_b) (record { result = refl; fields = h; held = e; stored = s })
            ]
          ]))

  accept-marked :
      (cs : ChatSession) (sid : String)
      → accept cs sid
        ≡ (if not ("pending_accept" == cs.status) then (wrong_status, cs) else marked cs sid)
  unfolding accept marked
  accept-marked cs sid = rw (==-comm "pending_accept" cs.status) (ground arith)

  pub accept_match_lua-Leaves :
      (cs : ChatSession) (sid : String) (h : Dict String Datum) (db : Db) (lives : Lives)
      → db k ≡ hash h
      → Stores cs h
      → Leaves (accept cs sid).0 (accept cs sid).1 (runs (accept_match_lua k sid) db lives)
  unfolding accept_match_lua
  accept_match_lua-Leaves cs sid h db lives e s =
      rw (hget_step h db lives e "status" (text cs.status) _ s.status) (
        rw (accept-marked cs sid) (elim (Bool-cases ("pending_accept" == cs.status)) [
          | inl pending ↦ rw pending (accept_mark-Leaves cs sid h db lives e s)
          | inr settled ↦ rw settled (record { result = refl; fields = h; held = e; stored = s })
        ]))

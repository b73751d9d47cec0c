-- ===== src/Session/Lifetime.antt =====
-- A session of internal/session/store.go over its life: Create, then any calls, then Get.
use whisper_chat.Prelude.{
  ℕ, ◌-◌, ◌<◌, String, ◌≡◌, refl, ap, subst, ◌∙◌, inl, inr, true, false, some, List, [], ◌∷◌, map,
  arith, if◌then◌else◌, Bool-cases, ◌==◌, nat_eq, text_eq, list_eq, ==-self, All,
}
use whisper_chat.Redis.Commands.{
  hset_fields, Key, Datum, int, text, hset, expire, hgetall, hash, missing, key_eq,
}
use whisper_chat.Prelude.Dict.{insert, Dict, lookup, lookup-insert}
use whisper_chat.Redis.{Redis, expires_in}
use whisper_chat.Redis.Client.{
  ok, as_fields, as_done, ask, ask_value, value-ask_value, ttl-ask_value,
}
use whisper_chat.Session.{
  Session, session_key, create, get, scan, update_status, set_interests, set_chat_id, clear_chat_id,
  set_fingerprint, refresh_ttl,
}
use whisper_chat.Session.Calls.{
  updates_status, sets_interests, sets_chat_id, clears_chat_id, sets_fingerprint, refreshes, Call,
  gap, change, change_all, left_after, in_time, new_session, perform, perform_all,
}

-- The hash holds the fields, each with its value.
abbrev Stored : Dict String Datum → Dict String Datum → Type 0
Stored fields h = All (λ p. lookup p.0 h ≡ some p.1) fields

abbrev overwrite : String → Datum → Dict String Datum → Dict String Datum
overwrite f d = map (λ p. (p.0, if f == p.0 then d else p.1))

insert-Stored :
    (f : String) (d : Datum) (fields h : Dict String Datum)
    → Stored fields h
    → Stored (overwrite f d fields) (insert f d h)
insert-Stored f d [] h s = tt
insert-Stored f d ((g, old) ∷ fields) h s = (
  lookup-insert f g d h
      ∙ elim (Bool-cases (f == g)) [ inl same ↦ rw same | inr other ↦ rw other s.0 ],
  insert-Stored f d fields h s.1,
)

abbrev fields_of : Session → Dict String Datum
fields_of session =
    ("id", text session.id)
    ∷ ("status", text session.status)
    ∷ ("chat_id", text session.chat_id)
    ∷ ("server", text session.server)
    ∷ ("interests", text session.interests)
    ∷ ("fingerprint", text session.fingerprint)
    ∷ ("created_at", int session.created_at)
    ∷ ("last_active", int session.last_active)
    ∷ []

-- The fields that a call writes.
abbrev written : Call → Dict String Datum
written (updates_status g now x) = ("status", text x) ∷ ("last_active", int now) ∷ []
written (sets_interests g now x) = ("interests", text x) ∷ ("last_active", int now) ∷ []
written (sets_chat_id g now x) =
    ("chat_id", text x) ∷ ("status", text "chatting") ∷ ("last_active", int now) ∷ []
written (clears_chat_id g now) =
    ("chat_id", text "") ∷ ("status", text "idle") ∷ ("last_active", int now) ∷ []
written (sets_fingerprint g x) = ("fingerprint", text x) ∷ []
written (refreshes g) = []

overwrite_all : Dict String Datum → Dict String Datum → Dict String Datum
overwrite_all [] fields = fields
overwrite_all ((f, d) ∷ new) fields = overwrite_all new (overwrite f d fields)

hset_fields-Stored :
    (new fields h : Dict String Datum)
    → Stored fields h
    → Stored (overwrite_all new fields) (hset_fields new h)
unfolding overwrite_all
hset_fields-Stored [] fields h s = s
hset_fields-Stored ((f, d) ∷ new) fields h s =
    hset_fields-Stored new (overwrite f d fields) (insert f d h) (insert-Stored f d fields h s)

-- Writing these fields makes the change.
overwrite_all-written :
    (c : Call) (session : Session)
    → overwrite_all (written c) (fields_of session) ≡ fields_of (change c session)
unfolding overwrite_all change
overwrite_all-written (updates_status g now x) session = refl
overwrite_all-written (sets_interests g now x) session = refl
overwrite_all-written (sets_chat_id g now x) session = refl
overwrite_all-written (clears_chat_id g now) session = refl
overwrite_all-written (sets_fingerprint g x) session = refl
overwrite_all-written (refreshes g) session = refl

scan-Stored :
    (r : Redis) (session : Session) (h : Dict String Datum)
    → Stored (fields_of session) h
    → (session.id == "") ≡ false
    → scan r (ok h) ≡ ok (some session)
unfolding scan
scan-Stored r session h s named =
    let (id, (status, (chat, (server, (interests, (fingerprint, (created, (active, _)))))))) = s in
    simp (id, status, chat, server, interests, fingerprint, created, active, named)

change_id : (c : Call) (session : Session) → (change c session).id ≡ session.id
unfolding change
change_id c session = ground arith

module _ (r : Redis) (reliable : (s : r.State) → r.up s ≡ true) (session_id : String) where
  open r use {State, value, ttl, elapse}

  abbrev k : Key
  k = session_key session_id

  -- Redis holds the session, and for `t` seconds more.
  record Holds (session : Session) (t : ℕ) (s : State) : Type 0 where
    fields : Dict String Datum
    held : value s k ≡ hash fields
    life : ttl s k ≡ some t
    stored : Stored (fields_of session) fields

  Holds-elapse :
      (session : Session) (g t : ℕ) (s : State)
      → Holds session t s
      → g < t
      → Holds session (t - g) (elapse g s)
  Holds-elapse session g t s h lt =
      let alive : expires_in g (ttl s k) ≡ false = rw h.life (ground arith) in
      record {
        fields = h.fields;
        held = r.value-elapse g s k ∙ rw alive h.held;
        life = r.ttl-elapse g s k ∙ rw h.life (ground arith);
        stored = h.stored;
      }

  -- HSET of the fields of a call, alone and with EXPIRE behind it.
  hset-Holds :
      (c : Call) (session : Session) (t : ℕ) (s : State)
      → Holds session t s
      → Holds (change c session) t (ask r as_done (hset k (written c)) s).1
  hset-Holds c session t s h = record {
    fields = hset_fields (written c) h.fields;
    held = value-ask_value r as_done (hset k (written c)) s _ (reliable s) h.held;
    life = ttl-ask_value r as_done (hset k (written c)) s _ _ (reliable s) h.held h.life;
    stored =
        subst (λ l. Stored l (hset_fields (written c) h.fields)) (overwrite_all-written c session)
          (hset_fields-Stored (written c) (fields_of session) h.fields h.stored);
  }

  pipeline-Holds :
      (c : Call) (session : Session) (t : ℕ) (s : State)
      → Holds session t s
      → Holds (change c session) 3600 (r.pipeline (hset k (written c) ∷ expire k 3600 ∷ []) s).1
  pipeline-Holds c session t s h = record {
    fields = hset_fields (written c) h.fields;
    held = r.value-pipeline _ s k (reliable s) ∙ rw (==-self k) (rw h.held);
    life = r.ttl-pipeline _ s k (reliable s) ∙ rw (==-self k) (rw h.held);
    stored =
        subst (λ l. Stored l (hset_fields (written c) h.fields)) (overwrite_all-written c session)
          (hset_fields-Stored (written c) (fields_of session) h.fields h.stored);
  }

  perform-Holds :
      (c : Call) (session : Session) (t : ℕ) (s : State)
      → Holds session t s
      → gap c < t
      → Holds (change c session) (left_after c t) (perform r session_id c s)
  unfolding change perform left_after update_status set_interests set_chat_id clear_chat_id
      set_fingerprint refresh_ttl
  perform-Holds (updates_status g now x) session t s h lt =
      pipeline-Holds (updates_status g now x) session (t - g) (elapse g s)
        (Holds-elapse session g t s h lt)
  perform-Holds (refreshes g) session t s h lt =
      let now = Holds-elapse session g t s h lt in
      record {
        fields = now.fields;
        held = value-ask_value r as_done (expire k 3600) (elapse g s) _ (reliable _) now.held;
        life =
            ttl-ask_value r as_done (expire k 3600) (elapse g s) _ _ (reliable _) now.held now.life;
        stored = now.stored;
      }
  perform-Holds c session t s h lt =
      hset-Holds c session (t - gap c) (elapse (gap c) s) (Holds-elapse session (gap c) t s h lt)

  perform_all-Holds :
      (calls : List Call) (final : ℕ) (session : Session) (t : ℕ) (s : State)
      → Holds session t s
      → (session.id == "") ≡ false
      → in_time calls final t ≡ true
      → (get r session_id (elapse final (perform_all r session_id calls s))).0
        ≡ ok (some (change_all calls session))
  unfolding get perform_all change_all in_time
  perform_all-Holds [] final session t s h named early =
      let last = Holds-elapse session final t s h (ground arith) in
      ap (scan r) (ask_value r as_fields (hgetall k) (elapse final s) _ (reliable _) last.held)
      ∙ scan-Stored r session last.fields last.stored named
  perform_all-Holds (c ∷ calls) final session t s h named early =
      perform_all-Holds calls final (change c session) (left_after c t) (perform r session_id c s)
        (perform-Holds c session t s h (ground arith))
        (ap (λ i. i == "") (change_id c session) ∙ named) (ground arith)

  create-Holds :
      (server : String) (now : ℕ) (s : State)
      → value s k ≡ missing
      → Holds (new_session server now session_id) 3600 (create r server now session_id s).1
  unfolding create
  create-Holds server now s h =
      let new = fields_of (new_session server now session_id) in
      record {
        fields = hset_fields new [];
        held = r.value-pipeline _ s k (reliable s) ∙ rw (==-self k) (rw h);
        life = r.ttl-pipeline _ s k (reliable s) ∙ rw (==-self k) (rw h);
        stored =
            unfold lookup insert in
            (refl, (refl, (refl, (refl, (refl, (refl, (refl, (refl, tt))))))));
      }

  -- With every command answered: after Create on no session and any calls on it, Get returns the new
  -- session with the changes of all the calls, if no call and not the Get comes when its time to live
  -- is over, which is an hour from Create, UpdateStatus and RefreshTTL and from no other call.
  pub get-perform_all :
      (server : String) (now : ℕ) (calls : List Call) (final : ℕ) (s : State)
      → value s k ≡ missing
      → (session_id == "") ≡ false
      → in_time calls final 3600 ≡ true
      → (get r session_id
          (elapse final (perform_all r session_id calls (create r server now session_id s).1))).0
        ≡ ok (some (change_all calls (new_session server now session_id)))
  get-perform_all server now calls final s none_yet named early =
      perform_all-Holds calls final (new_session server now session_id) 3600 _
        (create-Holds server now s none_yet) named early

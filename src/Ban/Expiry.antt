-- ===== src/Ban/Expiry.antt =====
-- A ban of internal/ban/store.go as IsBanned sees it while time passes.
use whisper_chat.Prelude.{
  ℕ, ◌-◌, String, ◌≡◌, refl, sym, ap, ap₂, ◌∙◌, inl, inr, true, false, Option, none, some, arith,
  ltb, leb, if◌then◌else◌, Bool-cases, ◌==◌, nat_eq, text_eq, list_eq,
}
use whisper_chat.Redis.{Redis}
use whisper_chat.Redis.Commands.{
  Key, Datum, str, missing, Command, key_eq, set_for, get, scored, ttl_of, del, answer,
}
use whisper_chat.Redis.Client.{
  Result, ok, err, as_done, as_datum, as_score, ask, ask_up, ask_value, value-ask_self,
  ttl-ask_self,
}
use whisper_chat.Ban.{not_banned, ban_key, ban_found, is_banned, ban, unban}

module _ (r : Redis) (reliable : (s : r.State) → r.up s ≡ true) (fingerprint : String) where
  open r use {State, value, ttl, elapse}

  abbrev k : Key
  k = ban_key fingerprint

  -- The seconds that IsBanned shows of a time to live.
  abbrev shown : Option ℕ → ℕ
  shown none = 0
  shown (some t) = t

  -- The time to live that the second read of IsBanned gets.
  life_read :
      (t : Option ℕ) (s : State)
      → ttl s k ≡ t
      → (ask r as_score (ttl_of k) (ask r as_datum (get k) s).1).0 ≡ as_score (some (scored t))
  life_read t s l =
      let s' : State = (ask r as_datum (get k) s).1 in
      ask_up r as_score (ttl_of k) s' (reliable s')
      ∙ ap (λ x. as_score (some (scored x))) (ttl-ask_self r as_datum (get k) s (reliable s) ∙ l)

  is_banned_alive :
      (why : Datum) (t : Option ℕ) (s : State)
      → value s k ≡ str why
      → ttl s k ≡ t
      → (is_banned r fingerprint s).0
        ≡ record { banned = true; seconds = shown t; reason = why; failed = false }
  unfolding is_banned
  is_banned_alive why none s v l =
      let found = ask_value r as_datum (get k) s _ (reliable s) v in
      rw (found, is_banned) (rw (life_read none s l, ban_found))
  is_banned_alive why (some t) s v l =
      let found = ask_value r as_datum (get k) s _ (reliable s) v in
      rw (found, is_banned) (rw (life_read (some t) s l, ban_found))

  is_banned_gone :
      (s : State) → value s k ≡ missing → (is_banned r fingerprint s).0 ≡ not_banned false
  unfolding is_banned
  is_banned_gone s v =
      let found = ask_value r as_datum (get k) s _ (reliable s) v in rw (found, is_banned)

  -- A ban that is stored with a time to live.
  ban_of_time :
      (duration n : ℕ) (why : Datum) (s : State)
      → value s k ≡ str why
      → ttl s k ≡ some duration
      → (is_banned r fingerprint (elapse n s)).0 ≡ (
          if ltb n duration
          then record { banned = true; seconds = duration - n; reason = why; failed = false }
          else not_banned false)
  ban_of_time duration n why s stored life = elim (Bool-cases (ltb n duration)) [
    | inl early ↦
        let later : leb duration n ≡ false = ground arith in
        rw early (
          is_banned_alive why (some (duration - n)) (elapse n s)
            (r.value-elapse n s k ∙ rw life (rw later stored))
            (r.ttl-elapse n s k ∙ rw life (rw later)))
    | inr late ↦
        let over : leb duration n ≡ true = ground arith in
        rw late (is_banned_gone (elapse n s) (r.value-elapse n s k ∙ rw life (rw over)))
  ]

  ban_found-same :
      (o : Result (Option Datum)) (s s' : State)
      → ttl s k ≡ ttl s' k
      → (ban_found r k (o, s)).0 ≡ (ban_found r k (o, s')).0
  unfolding ban_found
  ban_found-same err s s' l = refl
  ban_found-same (ok none) s s' l = refl
  ban_found-same (ok (some why)) s s' l =
      let life : (ask r as_score (ttl_of k) s).0 ≡ (ask r as_score (ttl_of k) s').0 =
        ask_up r as_score (ttl_of k) s (reliable s)
        ∙ ap (λ t. as_score (some (scored t))) l
        ∙ sym (ask_up r as_score (ttl_of k) s' (reliable s')) in
      rw life refl

  -- IsBanned looks at the ban's key only.
  pub is_banned-same :
      (s s' : State)
      → value s k ≡ value s' k
      → ttl s k ≡ ttl s' k
      → (is_banned r fingerprint s).0 ≡ (is_banned r fingerprint s').0
  unfolding is_banned
  is_banned-same s s' v l =
      let c : Command = get k in
      let s1 : State = (ask r as_datum c s).1 in
      let s1' : State = (ask r as_datum c s').1 in
      let found : (ask r as_datum c s).0 ≡ (ask r as_datum c s').0 =
        ask_up r as_datum c s (reliable s)
        ∙ ap₂ (λ x t. as_datum (some (answer r.arrange r.ranked c x t))) v l
        ∙ sym (ask_up r as_datum c s' (reliable s')) in
      let life : ttl s1 k ≡ ttl s1' k =
        ttl-ask_self r as_datum c s (reliable s)
        ∙ l
        ∙ sym (ttl-ask_self r as_datum c s' (reliable s')) in
      ap (λ o. (ban_found r k (o, s1)).0) found ∙ ban_found-same (ask r as_datum c s').0 s1 s1' life

  -- With every command answered, a ban of one second or more is in force for exactly its duration:
  -- until then IsBanned reports it with its reason and the seconds left, and from then on it reports
  -- none. A ban of the duration 0 never ends, and is reported with 0 seconds left.
  pub is_banned-ban :
      (duration n : ℕ) (why : Datum) (s : State)
      → (is_banned r fingerprint (elapse n (ban r fingerprint duration why s).1)).0 ≡ (
          if duration == 0
          then record { banned = true; seconds = 0; reason = why; failed = false }
          else if ltb n duration
          then record { banned = true; seconds = duration - n; reason = why; failed = false }
          else not_banned false)
  unfolding ban
  is_banned-ban duration n why s =
      let c : Command = set_for k why duration in
      let s' : State = (ask r as_done c s).1 in
      let stored : value s' k ≡ str why = value-ask_self r as_done c s (reliable s) in
      let life : ttl s' k ≡ (if duration == 0 then none else some duration) =
        ttl-ask_self r as_done c s (reliable s) in
      elim (Bool-cases (duration == 0)) [
        | inl zero_long ↦
            let endless : ttl s' k ≡ none = life ∙ rw zero_long in
            rw zero_long (
              is_banned_alive why none (elapse n s') (r.value-elapse n s' k ∙ rw endless stored)
                (r.ttl-elapse n s' k ∙ rw endless))
        | inr positive ↦
            let timed : ttl s' k ≡ some duration = life ∙ rw positive in
            rw positive (ban_of_time duration n why s' stored timed)
      ]

  -- With every command answered, IsBanned reports no ban right after Unban, whatever was there before.
  pub is_banned-unban :
      (s : State) → (is_banned r fingerprint (unban r fingerprint s).1).0 ≡ not_banned false
  unfolding unban
  is_banned-unban s = is_banned_gone _ (value-ask_self r as_done (del k) s (reliable s))

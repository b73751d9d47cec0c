-- ===== src/Ban/Offenses.antt =====
-- The offense counter of internal/ban/store.go over a history of reports and escalations.
use whisper_chat.Prelude.{
  ℕ, ◌+◌, ◌-◌, ◌<◌, String, ◌≡◌, refl, ap₂, ◌∙◌, inl, inr, Bool, true, false, some, List, [], ◌∷◌,
  arith, ltb, leb, if◌then◌else◌, Bool-cases, ◌==◌, nat_eq, text_eq, list_eq,
}
use whisper_chat.Redis.{Redis, expires_in}
use whisper_chat.Redis.Commands.{
  Key, Datum, text, int, str, missing, Command, key_eq, set_for, incr, expire,
}
use whisper_chat.Redis.Client.{
  Result, ok, err, as_done, as_number, ask, ask_up, ask_value, value-ask_value, ttl-ask_value,
  value-ask_ne, ttl-ask_ne,
}
use whisper_chat.Ban.{
  ban_key, reports_key, escalation_duration, expiring, count_offense, applied, escalate_by,
  reported, report_count, escalate, report_and_check, ban,
}

-- A call of Escalate or of ReportAndCheck, so many seconds after the call before it.
pub data Offense : Type 0 where
  escalates reports : ℕ → Datum → Offense

abbrev pub gap : Offense → ℕ
gap (escalates g why) = g
gap (reports g why) = g

-- What a call gives: whether there is a ban, and its duration; `err` for an error.
abbrev pub Outcome : Type 0
Outcome = Result (Bool × ℕ)

-- The outcome of call number `i` of a window, as the documentation of Escalate and the threshold of
-- ReportAndCheck have it.
unfoldable pub outcome : Offense → ℕ → Outcome
outcome (escalates g why) i = ok (true, if i == 1 then 900 else if i == 2 then 3600 else 86400)
outcome (reports g why) i = if ltb i 3 then ok (false, 0) else ok (true, 86400)

abbrev always_bans : Result ℕ → Outcome
always_bans err = err
always_bans (ok d) = ok (true, d)

-- The durations are those of 24 hours in all.
unfoldable pub total_gap : List Offense → ℕ
total_gap [] = 0
total_gap (o ∷ l) = gap o + total_gap l

unfoldable pub outcomes : List Offense → ℕ → List Outcome
outcomes [] i = []
outcomes (o ∷ l) i = outcome o i ∷ outcomes l (i + 1)

module _ (r : Redis) (fingerprint : String) where
  open r use {State, elapse}

  unfoldable pub commit : Offense → State → Outcome × State
  commit (escalates g why) s =
      let (d, s') = escalate r fingerprint why (elapse g s) in (always_bans d, s')
  commit (reports g why) s = report_and_check r fingerprint why (elapse g s)

  unfoldable pub commit_all : List Offense → State → List Outcome
  commit_all [] s = []
  commit_all (o ∷ l) s = let (out, s') = commit o s in out ∷ commit_all l s'

module _ (r : Redis) (reliable : (s : r.State) → r.up s ≡ true) (fingerprint : String) where
  open r use {State, up, value, ttl, elapse}

  abbrev k : Key
  k = reports_key fingerprint

  -- `c` offenses are counted, and the window lasts `t` seconds more.
  record Counts (c t : ℕ) (s : State) : Type 0 where
    count : value s k ≡ str (int c)
    life : ttl s k ≡ some t

  -- The ban does not touch the counter.
  ban-Counts :
      (c t d : ℕ) (why : Datum) (s : State)
      → Counts c t s
      → ((ban r fingerprint d why s).0 ≡ ok tt) × Counts c t (ban r fingerprint d why s).1
  unfolding ban
  ban-Counts c t d why s h =
      let b : Command = set_for (ban_key fingerprint) why d in
      (
        ask_up r as_done b s (reliable s),
        record {
          count = value-ask_ne r as_done b s k (reliable s) refl ∙ h.count;
          life = ttl-ask_ne r as_done b s k (reliable s) refl ∙ h.life;
        },
      )

  count_offense_next :
      (c t : ℕ) (s : State)
      → Counts c t s
      → 0 < c
      → ((count_offense r fingerprint s).0 ≡ ok (c + 1))
        × Counts (c + 1) t (count_offense r fingerprint s).1
  unfolding count_offense
  count_offense_next c t s h pos =
      let reply = ask_value r as_number (incr k) s _ (reliable s) h.count in
      let more : (c + 1 == 1) ≡ false = ground arith in
      rw (reply, count_offense)
        (rw more (
          refl,
          record {
            count = value-ask_value r as_number (incr k) s _ (reliable s) h.count;
            life = ttl-ask_value r as_number (incr k) s _ _ (reliable s) h.count h.life;
          },
        ))

  count_offense_first :
      (s : State)
      → value s k ≡ missing
      → ((count_offense r fingerprint s).0 ≡ ok 1)
        × Counts 1 86400 (count_offense r fingerprint s).1
  unfolding count_offense
  count_offense_first s h =
      let s' : State = (ask r as_number (incr k) s).1 in
      let reply = ask_value r as_number (incr k) s _ (reliable s) h in
      let one : value s' k ≡ str (int 1) =
        value-ask_value r as_number (incr k) s _ (reliable s) h in
      let set = ask_value r as_done (expire k 86400) s' _ (reliable s') one in
      rw (reply, count_offense)
        (rw (set, expiring)
          (
            refl,
            record {
              count = value-ask_value r as_done (expire k 86400) s' _ (reliable s') one;
              life = ttl-ask_value r as_done (expire k 86400) s' _ _ (reliable s') one refl;
            },
          ))

  -- Once the offense is counted.
  commit_counted :
      (o : Offense) (c t : ℕ) (s : State)
      → (count_offense r fingerprint (elapse (gap o) s)).0 ≡ ok c
      → 0 < c
      → Counts c t (count_offense r fingerprint (elapse (gap o) s)).1
      → ((commit r fingerprint o s).0 ≡ outcome o c) × Counts c t (commit r fingerprint o s).1
  unfolding commit outcome escalate report_and_check
  commit_counted (escalates g why) c t s reply pos h =
      let d : ℕ = escalation_duration c in
      let (fine, kept) = ban-Counts c t d why _ h in
      rw (reply, escalate_by)
        (rw (fine, applied) (unfold escalation_duration in ground arith, kept))
  commit_counted (reports g why) c t s reply pos h = elim (Bool-cases (leb 3 c)) [
    | inl many ↦
        let d : ℕ = escalation_duration c in
        let (fine, kept) = ban-Counts c t d (text "multiple_reports") _ h in
        let few : ltb c 3 ≡ false = ground arith in
        rw (reply, report_count)
          (rw (many, few) (rw (fine, reported) (unfold escalation_duration in ground arith, kept)))
    | inr few ↦
        let few' : ltb c 3 ≡ true = ground arith in
        rw (reply, report_count) (rw (few, few') (refl, h))
  ]

  Counts-elapse : (g c t : ℕ) (s : State) → Counts c t s → g < t → Counts c (t - g) (elapse g s)
  Counts-elapse g c t s h lt =
      let alive : expires_in g (ttl s k) ≡ false = rw h.life (ground arith) in
      record {
        count = r.value-elapse g s k ∙ rw alive h.count;
        life = r.ttl-elapse g s k ∙ rw h.life (ground arith);
      }

  missing-elapse : (g : ℕ) (s : State) → value s k ≡ missing → value (elapse g s) k ≡ missing
  missing-elapse g s h = r.value-elapse g s k ∙ rw h (ground arith)

  commit_all_next :
      (l : List Offense) (c t : ℕ) (s : State)
      → Counts c t s
      → 0 < c
      → total_gap l < t
      → commit_all r fingerprint l s ≡ outcomes l (c + 1)
  unfolding commit_all outcomes total_gap
  commit_all_next [] c t s h pos lt = refl
  commit_all_next (o ∷ l) c t s h pos lt =
      let here = Counts-elapse (gap o) c t s h (omega arith) in
      let (counts, now) = count_offense_next c (t - gap o) (elapse (gap o) s) here pos in
      let (seen, left) = commit_counted o (c + 1) (t - gap o) s counts (omega arith) now in
      ap₂ ◌∷◌ seen (commit_all_next l (c + 1) (t - gap o) _ left (omega arith) (omega arith))

  -- With every command answered and no offense counted before: over reports and escalations, mixed in
  -- any way within 24 hours of the first, the calls share one counter. Escalate always bans, for 15
  -- minutes, 1 hour and 24 hours by the number of the call; ReportAndCheck bans from the third call
  -- on, and always for 24 hours.
  pub commit_all-outcomes :
      (o : Offense) (l : List Offense) (s : State)
      → value s k ≡ missing
      → total_gap l < 86400
      → commit_all r fingerprint (o ∷ l) s ≡ outcomes (o ∷ l) 1
  unfolding commit_all outcomes
  commit_all-outcomes o l s none_yet short =
      let (counts, now) =
        count_offense_first (elapse (gap o) s) (missing-elapse (gap o) s none_yet) in
      let (seen, left) = commit_counted o 1 86400 s counts (omega arith) now in
      ap₂ ◌∷◌ seen (commit_all_next l 1 86400 _ left (omega arith) short)

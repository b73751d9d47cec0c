-- ===== src/Matching/Overlap/Choice.antt =====
-- The choice of internal/matching/overlap.go among the scored users.
use whisper_chat.Prelude.{
  ℕ, ◌≤◌, String, ◌≡◌, refl, sym, ap, subst, ◌∙◌, inl, inr, true, false, some, List, [], ◌∷◌, map,
  arith, Bool-cases, ◌==◌, nat_eq, text_eq, list_eq, ==-self, ==-ne, All,
}
use whisper_chat.Redis.Client.{ok, as_fields, as_members, value-ask_ne}
use whisper_chat.Redis.Commands.{key_eq, zset_of, hgetall, smembers}
use whisper_chat.Matching.Overlap.{
  tags_for, Falling, Orders, Tally, gather, first_valid, best_of, overlap_with, try_overlap_match,
}
use whisper_chat.Prelude.Dict.{Dict, lookup}
use whisper_chat.Redis.{Redis, is_member}
use whisper_chat.Matching.Queue.{
  Hashing, QueueEntry, key_match_queue, match_session_key, interest_key, get_entry,
  get_interest_candidates, is_queued,
}
use whisper_chat.Matching.Queue.Leaving.{is_queued-zset_of}
use whisper_chat.Matching.Tiers.Candidates.{is_queued-same}
use whisper_chat.Matching.Tiers.{MatchCandidate}

-- No later score is above the bound.
lookup-bound :
    (l : List (String × ℕ)) (bound : ℕ) (id : String) (k : ℕ)
    → All (λ q. q.1 ≤ bound) l
    → lookup id l ≡ some k
    → k ≤ bound
unfolding lookup
lookup-bound [] bound id k h found = absurd (ground (arith, found))
lookup-bound ((j, n) ∷ l) bound id k (h, hs) found =
    let rest = lookup-bound l bound id k hs in ground (arith, found, h, rest)

-- The choice among scored users: one who is queued, and no other user of the queue has a higher score.
abbrev pub IsBest : Dict String ℕ → List (String × ℕ) → String → Type 0
IsBest z scores chosen =
    (is_member chosen z ≡ true)
    × ((n : ℕ) × (lookup chosen scores ≡ some n)
        × ((id : String) (k : ℕ) → lookup id scores ≡ some k → is_member id z ≡ true → k ≤ n))

module _ (r : Redis) (go : Hashing) (orders : Orders)
    (reliable : (s : r.State) → r.up s ≡ true) where
  open r use {State, value}

  first_valid-IsBest :
      (session_id : String) (interests : Dict String (List String)) (l : List (String × ℕ))
      (z : Dict String ℕ) (s : State) (m : MatchCandidate)
      → value s key_match_queue ≡ zset_of z
      → Falling l
      → (first_valid r go orders session_id interests (map (λ p. p.0) l) s).0 ≡ some m
      → (m.session_a ≡ session_id) × IsBest z l m.session_b
  unfolding first_valid lookup
  first_valid-IsBest session_id interests [] z s m h falls found = absurd (ground (arith, found))
  first_valid-IsBest session_id interests ((c, n) ∷ l) z s m h (below, falls) found =
      let answer : (is_queued r c s).0 ≡ ok (is_member c z) =
        is_queued-zset_of r reliable c z s h in
      elim (Bool-cases (is_member c z)) [
        | inl there ↦
            let chosen : MatchCandidate = record {
              session_a = session_id;
              session_b = c;
              shared_interests = go.sort_strings (tags_for c interests);
            } in
            let step : (first_valid r go orders session_id interests (c ∷ map (λ p. p.0) l) s).0
                ≡ some chosen =
              rw (first_valid, answer, there) refl in
            let e : chosen ≡ m = ground (arith, step, found) in
            let b : c ≡ m.session_b = ap (λ x. x.session_b) e in
            let best : IsBest z ((c, n) ∷ l) c = (
              there,
              (
                n,
                rw (==-self c) refl,
                λ id k scored member.
                    let rest = lookup-bound l n id k below in ground (arith, scored, rest),
              ),
            ) in
            (sym (ap (λ x. x.session_a) e), subst (IsBest z ((c, n) ∷ l)) b best)
        | inr gone ↦
            let later : (first_valid r go orders session_id interests (map (λ p. p.0) l)
                  (is_queued r c s).1).0
                ≡ some m =
              sym (rw (first_valid, answer, gone) refl) ∙ found in
            let (self, (there, (n', scored, most))) =
              first_valid-IsBest session_id interests l z (is_queued r c s).1 m
                (is_queued-same r reliable c s ∙ h) falls later in
            let apart : (c == m.session_b) ≡ false =
              ==-ne c m.session_b (λ e. absurd (cc (e, gone, there))) in
            (
              self,
              (
                there,
                (
                  n',
                  rw apart scored,
                  λ id k at member. elim (Bool-cases (c == id)) [
                    | inl same ↦
                        let e : c ≡ id = (text_eq.beq_iff c id).0 same in
                        absurd (cc (e, gone, member))
                    | inr other ↦ most id k (sym (rw other refl) ∙ at) member
                  ],
                ),
              ),
            )
      ]

  gather_queue :
      (session_id : String) (tags : List String) (t : Tally) (s : State)
      → value (gather r go orders session_id tags t s).1 key_match_queue ≡ value s key_match_queue
  unfolding gather get_interest_candidates
  gather_queue session_id [] t s = refl
  gather_queue session_id (tag ∷ tags) t s =
      gather_queue session_id tags _ _
      ∙ value-ask_ne r as_members (smembers (interest_key tag)) s key_match_queue (reliable s) refl

  best_of-IsBest :
      (session_id : String) (t : Tally) (z : Dict String ℕ) (s : State) (m : MatchCandidate)
      → value s key_match_queue ≡ zset_of z
      → (best_of r go orders session_id (t, s)).0 ≡ ok (some m)
      → (m.session_a ≡ session_id) × IsBest z t.scores m.session_b
  unfolding best_of
  best_of-IsBest session_id t z s m h found =
      let chosen : (first_valid r go orders session_id t.interests
            (map (λ p. p.0) (orders.rank t.scores)) s).0
          ≡ some m =
        ground (arith, found) in
      let (self, (there, (n, scored, most))) =
        first_valid-IsBest session_id t.interests (orders.rank t.scores) z s m h
          (orders.rank_falls t.scores) chosen in
      (
        self,
        (
          there,
          (
            n,
            sym (orders.lookup-rank m.session_b t.scores) ∙ scored,
            λ id k at. most id k (orders.lookup-rank id t.scores ∙ at),
          ),
        ),
      )

  pub try_overlap_match_scores :
      (session_id : String) (entry : QueueEntry) (z : Dict String ℕ) (s : State)
      (m : MatchCandidate)
      → value s key_match_queue ≡ zset_of z
      → (get_entry r session_id s).0 ≡ ok (some entry)
      → (try_overlap_match r go orders session_id s).0 ≡ ok (some m)
      → let nothing : Tally = record { scores = []; interests = [] } in
        let tally =
          (gather r go orders session_id entry.interests nothing (get_entry r session_id s).1).0 in
        (m.session_a ≡ session_id) × IsBest z tally.scores m.session_b
  unfolding try_overlap_match overlap_with get_entry
  try_overlap_match_scores session_id entry z s m h read found =
      let nothing : Tally = record { scores = []; interests = [] } in
      let s1 : State = (get_entry r session_id s).1 in
      let same : value s1 key_match_queue ≡ value s key_match_queue =
        value-ask_ne r as_fields (hgetall (match_session_key session_id)) s key_match_queue
          (reliable s) refl in
      let opened : (best_of r go orders session_id
            (gather r go orders session_id entry.interests nothing s1)).0
          ≡ ok (some m) =
        sym (rw (read) refl) ∙ found in
      best_of-IsBest session_id (gather r go orders session_id entry.interests nothing s1).0 z
        (gather r go orders session_id entry.interests nothing s1).1 m
        (gather_queue session_id entry.interests nothing s1 ∙ same ∙ h) opened

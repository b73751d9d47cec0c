-- ===== src/Matching/Overlap/Best.antt =====
-- Whom internal/matching/overlap.go finds.
use whisper_chat.Prelude.{
  ℕ, ◌+◌, ◌≤◌, ◌<◌, String, ◌≡◌, refl, sym, ap, subst, ◌∙◌, inl, inr, true, false, none, some, [],
  arith, if◌then◌else◌, Option-cases, ◌==◌, nat_eq, text_eq, list_eq,
}
use whisper_chat.Redis.Client.{value-ask, ok, as_fields}
use whisper_chat.Redis.Commands.{Key, key_eq, zset_of, hgetall}
use whisper_chat.Matching.Overlap.{score, Orders, Tally, gather, try_overlap_match}
use whisper_chat.Matching.Overlap.Scores.{
  if_same, shared_count, shared_count-same, score-gather, gather-IsPositive,
}
use whisper_chat.Prelude.Dict.{Dict, lookup}
use whisper_chat.Redis.{Redis, is_member}
use whisper_chat.Matching.Queue.{Hashing, QueueEntry, key_match_queue, match_session_key, get_entry}
use whisper_chat.Matching.Tiers.{MatchCandidate}
use whisper_chat.Matching.Overlap.Choice.{try_overlap_match_scores}

zero_plus : (n : ℕ) → 0 + n ≡ n
zero_plus n = omega arith

module _ (r : Redis) (go : Hashing) (orders : Orders)
    (reliable : (s : r.State) → r.up s ≡ true) where
  open r use {State, value}

  score-found : (id : String) (l : Dict String ℕ) (n : ℕ) → lookup id l ≡ some n → score id l ≡ n
  score-found id l n found = rw (score, found) refl

  score-absent : (id : String) (l : Dict String ℕ) → lookup id l ≡ none → score id l ≡ 0
  score-absent id l gone = rw (score, gone) refl

  value-get_entry :
      (session_id : String) (s : State) (k : Key) → value (get_entry r session_id s).1 k ≡ value s k
  unfolding get_entry
  value-get_entry session_id s k =
      value-ask r as_fields (hgetall (match_session_key session_id)) s k (reliable s)
      ∙ if_same (match_session_key session_id == k) (value s k)

  -- With every command answered, whom the second tier finds for a user is another user, is queued,
  -- shares an interest with the user, and shares as many of them as any other user who is queued.
  pub try_overlap_match-IsBest :
      (session_id : String) (entry : QueueEntry) (z : Dict String ℕ) (s : State)
      (m : MatchCandidate)
      → value s key_match_queue ≡ zset_of z
      → (get_entry r session_id s).0 ≡ ok (some entry)
      → (try_overlap_match r go orders session_id s).0 ≡ ok (some m)
      → let shared : String → ℕ = λ id. shared_count r id entry.interests s in
        (m.session_a ≡ session_id)
        × ((m.session_b == session_id) ≡ false)
        × (is_member m.session_b z ≡ true)
        × (0 < shared m.session_b)
        × ((other : String)
            → (other == session_id) ≡ false
            → is_member other z ≡ true
            → shared other ≤ shared m.session_b)
  unfolding lookup
  try_overlap_match-IsBest session_id entry z s m h read found =
      let nothing : Tally = record { scores = []; interests = [] } in
      let s1 : State = (get_entry r session_id s).1 in
      let scores : Dict String ℕ =
        (gather r go orders session_id entry.interests nothing s1).0.scores in
      let (self, (there, (n, scored, most))) =
        try_overlap_match_scores r go orders reliable session_id entry z s m h read found in
      let same : (id : String)
          → shared_count r id entry.interests s1 ≡ shared_count r id entry.interests s =
        λ id.
          shared_count-same r go orders reliable id entry.interests s s1
            (value-get_entry session_id s) in
      let counted : (id : String)
          → score id scores
            ≡ (if id == session_id then 0 else shared_count r id entry.interests s) =
        λ id.
          score-gather r go orders reliable session_id id entry.interests nothing s1
          ∙ zero_plus _
          ∙ ap (λ n. if id == session_id then 0 else n) (same id) in
      let positive : 0 < n =
        gather-IsPositive r go orders reliable session_id entry.interests nothing s1
          (λ id n e. absurd (cc e)) m.session_b n scored in
      let chosen : score m.session_b scores ≡ n = score-found m.session_b scores n scored in
      let own : (if m.session_b == session_id
            then 0
            else shared_count r m.session_b entry.interests s)
          ≡ n =
        sym (counted m.session_b) ∙ chosen in
      let apart : (m.session_b == session_id) ≡ false = ground (arith, own, positive) in
      let count : shared_count r m.session_b entry.interests s ≡ n = ground (arith, own, apart) in
      (
        self,
        apart,
        there,
        subst (λ x. 0 < x) (sym count) positive,
        λ other not_self member.
            let of_other : score other scores ≡ shared_count r other entry.interests s =
              counted other ∙ rw not_self refl in
            elim (Option-cases (lookup other scores)) [
              | inl gone ↦
                  let none_shared = score-absent other scores gone in
                  omega (arith, of_other, none_shared)
              | inr (k, kept) ↦
                  let its = score-found other scores k kept in
                  let below = most other k kept member in omega (arith, of_other, its, below, count)
            ],
      )

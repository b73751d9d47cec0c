-- ===== src/Matching/Overlap.antt =====
-- internal/matching/overlap.go and single.go: the tiers of the search that look for a shared interest.
pub mod Choice
pub mod Scores
pub mod Best
use whisper_chat.Prelude.{
  ℕ, zero, suc, ◌+◌, ◌-◌, ◌*◌, ◌/◌, ◌%◌, ◌^◌, ◌≤◌, ◌<◌, compare, Ordering, String, ◌≡◌, refl, sym,
  ap, ap₂, subst, ◌∙◌, fun_ext, ◌≢◌, ◌↔◌, ◌⊎◌, inl, inr, Bool, true, false, not, ◌&&◌, ◌||◌, Option,
  none, some, List, [], ◌∷◌, ◌++◌, map, arith, ltb, leb, if◌then◌else◌, ltb→lt, lt→ltb, leb→le,
  le→leb, tests, Bool-cases, Option-cases, Eq, ◌==◌, nat_eq, text_eq, list_eq, ==-self, ==-ne,
  length, get_or, set, drop, replicate, length-append, length-set, length-replicate,
  get_or-set_self, get_or-set_ne, All, contains, ==-comm,
}
use whisper_chat.Prelude.Dict.{Dict, lookup, insert}
use whisper_chat.Redis.{Redis}
use whisper_chat.Redis.Client.{Result, ok, err}
use whisper_chat.Matching.Queue.{Hashing, QueueEntry, get_entry, get_interest_candidates, is_queued}
use whisper_chat.Matching.Tiers.{MatchCandidate, is_yes}

-- The count that a map of Go holds for a key, 0 for a missing one, and its list.
abbrev pub score : String → Dict String ℕ → ℕ
score id scores = elim (lookup id scores) [ none ↦ 0 | some n ↦ n ]

abbrev pub tags_for : String → Dict String (List String) → List String
tags_for id interests = elim (lookup id interests) [ none ↦ [] | some l ↦ l ]

-- Highest count first.
abbrev pub Falling : List (String × ℕ) → Type 0
Falling [] = Unit
Falling (p ∷ l) = All (λ q. q.1 ≤ p.1) l × Falling l

-- What the tiers use of Go: the order in which a `range` loop meets the keys of a map, which the
-- language leaves open, and sort.Slice by falling counts, which need not be stable.
pub record Orders : Type 0 where
  pub keys : Dict String (List String) → List String
  pub rank : Dict String ℕ → List (String × ℕ)
  pub contains-keys :
      (id : String) (m : Dict String (List String))
      → contains id (keys m) ≡ (elim (lookup id m) [ none ↦ false | some l ↦ true ])
  pub lookup-rank : (id : String) (m : Dict String ℕ) → lookup id (rank m) ≡ lookup id m
  pub rank_falls : (m : Dict String ℕ) → Falling (rank m)

-- The maps of the two functions. A set of tags is a list without repetitions.
pub record Tally : Type 0 where
  pub scores : Dict String ℕ
  pub interests : Dict String (List String)

abbrev pub add_tag : String → List String → List String
add_tag tag tags = if contains tag tags then tags else tags ++ tag ∷ []

-- The loop of TryOverlapMatch over the members of a tag, and its body.
unfoldable pub mark_one : String → String → String → Tally → Tally
mark_one session_id tag m t = if m == session_id then t else record {
  scores = insert m (score m t.scores + 1) t.scores;
  interests = insert m (add_tag tag (tags_for m t.interests)) t.interests;
}

unfoldable pub mark : String → String → List String → Tally → Tally
unfolding mark_one
mark session_id tag [] t = t
mark session_id tag (m ∷ members) t = mark session_id tag members (mark_one session_id tag m t)

-- That of TrySingleInterestMatch.
unfoldable pub note :
    String → String → List String → Dict String (List String) → Dict String (List String)
note session_id tag [] interests = interests
note session_id tag (m ∷ members) interests =
    note session_id tag members
      (if m == session_id then interests else insert m (tags_for m interests ++ tag ∷ []) interests)

module _ (r : Redis) (go : Hashing) (orders : Orders) where
  open r use {State}

  -- The members of a tag; an error is passed over.
  abbrev pub members : Result (List String) → List String
  members err = []
  members (ok l) = l

  unfoldable pub gather : String → List String → Tally → State → Tally × State
  gather session_id [] t s = (t, s)
  gather session_id (tag ∷ tags) t s =
      let (found, s') = get_interest_candidates r tag s in
      gather session_id tags (mark session_id tag (members found) t) s'

  unfoldable pub collect_tags :
      String → List String → Dict String (List String) → State → Dict String (List String) × State
  collect_tags session_id [] interests s = (interests, s)
  collect_tags session_id (tag ∷ tags) interests s =
      let (found, s') = get_interest_candidates r tag s in
      collect_tags session_id tags (note session_id tag (members found) interests) s'

  -- The loop over the candidates: the first who is queued, with the tags that are shared.
  unfoldable pub first_valid :
      String → Dict String (List String) → List String → State → Option MatchCandidate × State
  first_valid session_id interests [] s = (none, s)
  first_valid session_id interests (c ∷ cs) s = elim (is_yes r (is_queued r c s).0) [
    | true ↦ (
      some (record {
        session_a = session_id;
        session_b = c;
        shared_interests = go.sort_strings (tags_for c interests);
      }),
      (is_queued r c s).1,
    )
    | false ↦ first_valid session_id interests cs (is_queued r c s).1
  ]

  best_of : String → Tally × State → Result (Option MatchCandidate) × State
  unfolding first_valid
  best_of session_id (t, s) =
      let (found, s') =
        first_valid session_id t.interests (map (λ p. p.0) (orders.rank t.scores)) s in
      (ok found, s')

  overlap_with :
      String → Result (Option QueueEntry) × State → Result (Option MatchCandidate) × State
  unfolding best_of gather
  overlap_with session_id (err, s) = (err, s)
  overlap_with session_id (ok none, s) = (ok none, s)
  overlap_with session_id (ok (some entry), s) =
      best_of session_id
        (gather session_id entry.interests (record { scores = []; interests = [] }) s)

  unfoldable pub try_overlap_match : String → State → Result (Option MatchCandidate) × State
  unfolding overlap_with
  try_overlap_match session_id s = overlap_with session_id (get_entry r session_id s)

  any_of : String → Dict String (List String) × State → Result (Option MatchCandidate) × State
  unfolding first_valid
  any_of session_id (interests, s) =
      let (found, s') = first_valid session_id interests (orders.keys interests) s in (ok found, s')

  single_with : String → Result (Option QueueEntry) × State → Result (Option MatchCandidate) × State
  unfolding any_of collect_tags
  single_with session_id (err, s) = (err, s)
  single_with session_id (ok none, s) = (ok none, s)
  single_with session_id (ok (some entry), s) =
      any_of session_id (collect_tags session_id entry.interests [] s)

  unfoldable pub try_single_interest_match : String → State → Result (Option MatchCandidate) × State
  unfolding single_with
  try_single_interest_match session_id s = single_with session_id (get_entry r session_id s)

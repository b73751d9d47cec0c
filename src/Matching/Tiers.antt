-- ===== src/Matching/Tiers.antt =====
-- internal/matching/exact.go and random.go: the first and the last tier of the search for a partner.
pub mod Candidates
use whisper_chat.Prelude.{
  ℕ, zero, suc, ◌+◌, ◌-◌, ◌*◌, ◌/◌, ◌%◌, ◌^◌, ◌≤◌, ◌<◌, compare, Ordering, String, ◌≡◌, refl, sym,
  ap, ap₂, subst, ◌∙◌, fun_ext, ◌≢◌, ◌↔◌, ◌⊎◌, inl, inr, Bool, true, false, not, ◌&&◌, ◌||◌, Option,
  none, some, List, [], ◌∷◌, ◌++◌, map, arith, ltb, leb, if◌then◌else◌, ltb→lt, lt→ltb, leb→le,
  le→leb, tests, Bool-cases, Option-cases, Eq, ◌==◌, nat_eq, text_eq, list_eq, ==-self, ==-ne,
  length, get_or, set, drop, replicate, length-append, length-set, length-replicate,
  get_or-set_self, get_or-set_ne, All, contains, ==-comm,
}
use whisper_chat.Redis.{Redis}
use whisper_chat.Redis.Client.{Result, ok, err}
use whisper_chat.Matching.Queue.{
  QueueEntry, get_entry, get_exact_candidates, get_all_queued, is_queued,
}

pub record MatchCandidate : Type 0 where
  pub session_a : String
  pub session_b : String
  pub shared_interests : List String

module _ (r : Redis) where
  open r use {State}

  abbrev pub is_yes : Result Bool → Bool
  is_yes (ok b) = b
  is_yes err = false

  -- The loop over the candidates: the first other user who is queued, a failed request counting as no.
  unfoldable pub first_queued :
      String → List String → List String → State → Option MatchCandidate × State
  first_queued session_id shared [] s = (none, s)
  first_queued session_id shared (c ∷ cs) s = elim (c == session_id) [
    | true ↦ first_queued session_id shared cs s
    | false ↦ elim (is_yes (is_queued r c s).0) [
      | true ↦ (
        some (record { session_a = session_id; session_b = c; shared_interests = shared }),
        (is_queued r c s).1,
      )
      | false ↦ first_queued session_id shared cs (is_queued r c s).1
    ]
  ]

  try_candidates :
      String → List String → Result (List String) × State → Result (Option MatchCandidate) × State
  unfolding first_queued
  try_candidates session_id shared (err, s) = (err, s)
  try_candidates session_id shared (ok candidates, s) =
      let (found, s') = first_queued session_id shared candidates s in (ok found, s')

  with_hash : String → Result (Option QueueEntry) × State → Result (Option MatchCandidate) × State
  unfolding try_candidates
  with_hash session_id (err, s) = (err, s)
  with_hash session_id (ok none, s) = (ok none, s)
  with_hash session_id (ok (some entry), s) =
      try_candidates session_id entry.interests (get_exact_candidates r entry.hash s)

  unfoldable pub try_exact_match : String → State → Result (Option MatchCandidate) × State
  unfolding with_hash
  try_exact_match session_id s = with_hash session_id (get_entry r session_id s)

  unfoldable pub try_random_match : String → State → Result (Option MatchCandidate) × State
  unfolding try_candidates
  try_random_match session_id s = try_candidates session_id [] (get_all_queued r s)

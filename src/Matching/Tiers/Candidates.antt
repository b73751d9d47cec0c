-- ===== src/Matching/Tiers/Candidates.antt =====
-- Whom the tiers of internal/matching/exact.go and random.go choose.
use whisper_chat.Prelude.{
  ℕ, String, ◌≡◌, refl, subst, ◌∙◌, ◌⊎◌, inl, inr, true, false, Option, none, some, List, [], ◌∷◌,
  arith, Bool-cases, ◌==◌, nat_eq, text_eq, list_eq, contains,
}
use whisper_chat.Prelude.Dict.{Dict, lookup}
use whisper_chat.Redis.{Redis, is_member}
use whisper_chat.Redis.Commands.{zset_of, zscore, zrange, smembers, hgetall, key_eq}
use whisper_chat.Redis.Client.{
  Result, ok, err, as_score, as_members, ask, ask_value, value-ask_self, value-ask_ne, as_fields,
}
use whisper_chat.Matching.Queue.{
  QueueEntry, exact_key, match_session_key, get_entry, get_exact_candidates, key_match_queue,
  is_queued, get_all_queued,
}
use whisper_chat.Matching.Queue.Leaving.{is_queued-zset_of}
use whisper_chat.Matching.Tiers.{
  with_hash, try_exact_match, MatchCandidate, first_queued, try_candidates, try_random_match,
}

-- The candidate is another user, and queued.
abbrev pub IsPartner : String → Dict String ℕ → Option MatchCandidate → Type 0
IsPartner session_id z none = Unit {0}
IsPartner session_id z (some m) =
    (m.session_a ≡ session_id)
    × ((m.session_b == session_id) ≡ false)
    × (is_member m.session_b z ≡ true)

module _ (r : Redis) (reliable : (s : r.State) → r.up s ≡ true) where
  open r use {State, value}

  pub is_queued-same :
      (m : String) (s : State) → value (is_queued r m s).1 key_match_queue ≡ value s key_match_queue
  unfolding is_queued
  is_queued-same m s = value-ask_self r as_score (zscore key_match_queue m) s (reliable s)

  first_queued-IsPartner :
      (session_id : String) (shared candidates : List String) (z : Dict String ℕ) (s : State)
      → value s key_match_queue ≡ zset_of z
      → IsPartner session_id z (first_queued r session_id shared candidates s).0
  unfolding first_queued
  first_queued-IsPartner session_id shared [] z s h = tt
  first_queued-IsPartner session_id shared (c ∷ cs) z s h =
      let answer : (is_queued r c s).0 ≡ ok (is_member c z) =
        is_queued-zset_of r reliable c z s h in
      elim (Bool-cases (c == session_id)) [
        | inl self ↦ rw (first_queued, self) (first_queued-IsPartner session_id shared cs z s h)
        | inr other ↦ elim (Bool-cases (is_member c z)) [
          | inl yes_queued ↦ rw (first_queued, other, answer, yes_queued) (refl, other, yes_queued)
          | inr gone ↦
              rw (first_queued, other, answer, gone)
                (first_queued-IsPartner session_id shared cs z (is_queued r c s).1
                  (is_queued-same c s ∙ h))
        ]
      ]

  try_candidates-IsPartner :
      (session_id : String) (shared : List String) (z : Dict String ℕ)
      (found : Result (List String)) (s : State) (m : MatchCandidate)
      → value s key_match_queue ≡ zset_of z
      → (try_candidates r session_id shared (found, s)).0 ≡ ok (some m)
      → IsPartner session_id z (some m)
  unfolding try_candidates
  try_candidates-IsPartner session_id shared z err s m h e = absurd (ground (arith, e))
  try_candidates-IsPartner session_id shared z (ok candidates) s m h e =
      let chosen : (first_queued r session_id shared candidates s).0 ≡ some m = ground (arith, e) in
      subst (IsPartner session_id z) chosen
        (first_queued-IsPartner session_id shared candidates z s h)

  with_hash-IsPartner :
      (session_id : String) (z : Dict String ℕ) (entry : Result (Option QueueEntry)) (s : State)
      (m : MatchCandidate)
      → value s key_match_queue ≡ zset_of z
      → (with_hash r session_id (entry, s)).0 ≡ ok (some m)
      → IsPartner session_id z (some m)
  unfolding with_hash get_exact_candidates
  with_hash-IsPartner session_id z err s m h e = absurd (ground (arith, e))
  with_hash-IsPartner session_id z (ok none) s m h e = absurd (ground (arith, e))
  with_hash-IsPartner session_id z (ok (some entry)) s m h e =
      try_candidates-IsPartner session_id entry.interests z _ _ m
        (value-ask_ne r as_members (smembers (exact_key entry.hash)) s key_match_queue (reliable s)
            refl
          ∙ h)
        e

  -- With every command answered, whom the exact and the random tier find is another user, and is
  -- queued when the search begins.
  pub tiers-IsPartner :
      (session_id : String) (z : Dict String ℕ) (s : State) (m : MatchCandidate)
      → value s key_match_queue ≡ zset_of z
      → ((try_exact_match r session_id s).0 ≡ ok (some m))
        ⊎ ((try_random_match r session_id s).0 ≡ ok (some m))
      → (m.session_a ≡ session_id)
        × ((m.session_b == session_id) ≡ false)
        × (is_member m.session_b z ≡ true)
  unfolding try_exact_match try_random_match get_entry get_all_queued
  tiers-IsPartner session_id z s m h (inl e) =
      with_hash-IsPartner session_id z _ _ m
        (value-ask_ne r as_fields (hgetall (match_session_key session_id)) s key_match_queue
            (reliable s) refl
          ∙ h)
        e
  tiers-IsPartner session_id z s m h (inr e) =
      try_candidates-IsPartner session_id [] z _ _ m
        (value-ask_self r as_members (zrange key_match_queue) s (reliable s) ∙ h) e

  first_queued_finds :
      (session_id m : String) (shared candidates : List String) (z : Dict String ℕ) (s : State)
      → value s key_match_queue ≡ zset_of z
      → (m == session_id) ≡ false
      → is_member m z ≡ true
      → contains m candidates ≡ true
      → (c : MatchCandidate) × ((first_queued r session_id shared candidates s).0 ≡ some c)
  unfolding first_queued contains
  first_queued_finds session_id m shared [] z s h other queued there =
      absurd (ground (arith, there))
  first_queued_finds session_id m shared (c ∷ cs) z s h other queued there =
      let answer : (is_queued r c s).0 ≡ ok (is_member c z) =
        is_queued-zset_of r reliable c z s h in
      elim (Bool-cases (c == m)) [
        | inl same ↦
            let e : c ≡ m = (text_eq.beq_iff c m).0 same in
            let not_self : (c == session_id) ≡ false = rw e other in
            let in_queue : is_member c z ≡ true = rw e queued in
            (
              record { session_a = session_id; session_b = c; shared_interests = shared },
              rw (first_queued, not_self, answer, in_queue),
            )
        | inr further ↦
            let rest : contains m cs ≡ true = ground (arith, there, further) in
            elim (Bool-cases (c == session_id)) [
              | inl self ↦
                  rw (first_queued, self)
                    (first_queued_finds session_id m shared cs z s h other queued rest)
              | inr new ↦ elim (Bool-cases (is_member c z)) [
                | inl in_queue ↦ (
                  record { session_a = session_id; session_b = c; shared_interests = shared },
                  rw (first_queued, new, answer, in_queue),
                )
                | inr gone ↦
                    rw (first_queued, new, answer, gone)
                      (first_queued_finds session_id m shared cs z (is_queued r c s).1
                        (is_queued-same c s ∙ h) other queued rest)
              ]
            ]
      ]

  -- With every command answered, the random tier finds someone whenever another user is queued.
  pub try_random_match_finds :
      (session_id m : String) (z : Dict String ℕ) (s : State)
      → value s key_match_queue ≡ zset_of z
      → (m == session_id) ≡ false
      → is_member m z ≡ true
      → (c : MatchCandidate) × ((try_random_match r session_id s).0 ≡ ok (some c))
  unfolding try_random_match get_all_queued lookup
  try_random_match_finds session_id m [] s h other queued = absurd (ground (arith, queued))
  try_random_match_finds session_id m (p ∷ z) s h other queued =
      let all : List String = r.ranked (p ∷ z) in
      let s' : State = (ask r as_members (zrange key_match_queue) s).1 in
      let listed : (ask r as_members (zrange key_match_queue) s).0 ≡ ok all =
        ask_value r as_members (zrange key_match_queue) s _ (reliable s) h in
      let same : value s' key_match_queue ≡ zset_of (p ∷ z) =
        value-ask_self r as_members (zrange key_match_queue) s (reliable s) ∙ h in
      let (c, found) =
        first_queued_finds session_id m [] all (p ∷ z) s' same other queued
          (r.contains-ranked m (p ∷ z) ∙ queued) in
      (c, rw (listed, try_candidates, found))

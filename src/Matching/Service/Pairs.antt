-- ===== src/Matching/Service/Pairs.antt =====
-- Whom internal/matching/service.go tells of a match.
use mathlib.Core.List.{append_assoc}
use whisper_chat.Prelude.{
  ℕ, String, ◌≡◌, refl, ap, ◌∙◌, inl, inr, true, false, Option, none, some, List, [], ◌∷◌, ◌++◌,
  arith, ltb, leb, if◌then◌else◌, Bool-cases, nat_eq, text_eq, list_eq,
}
use whisper_chat.Messaging.{Subject}
use whisper_chat.Messaging.Client.{Client, publish, subject_match_found}
use whisper_chat.Messaging.Publishing.{sent-publish_taken}
use whisper_chat.Redis.Client.{Result}
use whisper_chat.Matching.Payloads.{MatchResult}
use whisper_chat.Matching.Tiers.{MatchCandidate, try_exact_match, try_random_match}
use whisper_chat.Matching.Overlap.{try_overlap_match, try_single_interest_match}
use whisper_chat.Matching.Service.{
  Parts, Service, result_for, publish_match_found, handle_match, search, found, or_try,
}

module _ {Data : Type 0} (w : Parts Data) where
  module _
      (takes : (subject : Subject) (d : Data) (c : w.nats.Conn)
        → (w.nats.publish subject d c).0 ≡ true) where
    -- Where NATS takes what is published, a match is told to the two users and to nobody else, each on
    -- the own subject of match.found: both hear of the same new chat, of the same shared interests, of
    -- 15 seconds to accept in, and each of the other as the partner.
    pub sent-handle_match :
        (now : ℕ) (m : MatchCandidate) (x : Service w)
        → let told_a : MatchResult = record {
          timeout = false;
          chat_id = w.uuid x.made;
          partner_id = m.session_b;
          shared_interests = m.shared_interests;
          accept_deadline = 15;
        } in
          let told_b : MatchResult = record {
            timeout = false;
            chat_id = w.uuid x.made;
            partner_id = m.session_a;
            shared_interests = m.shared_interests;
            accept_deadline = 15;
          } in
          w.nats.sent (handle_match w now m x).nats.conn
          ≡ w.nats.sent x.nats.conn
            ++ (
              record { prefix = "match.found"; id = m.session_a },
              w.codec.match_results.marshal told_a,
            )
              ∷ (
                record { prefix = "match.found"; id = m.session_b },
                w.codec.match_results.marshal told_b,
              )
              ∷ []
    unfolding handle_match publish_match_found publish
    sent-handle_match now m x =
        let to_a =
          w.codec.match_results.marshal
            (result_for w (w.uuid x.made) m.session_b m.shared_interests) in
        let to_b =
          w.codec.match_results.marshal
            (result_for w (w.uuid x.made) m.session_a m.shared_interests) in
        let a = subject_match_found m.session_a in
        let b = subject_match_found m.session_b in
        let c1 : Client w.nats = (publish w.nats a to_a x.nats).1 in
        let first = sent-publish_taken w.nats a to_a x.nats (takes a to_a x.nats.conn) in
        let second = sent-publish_taken w.nats b to_b c1 (takes b to_b c1.conn) in
        rw (takes a to_a x.nats.conn) (
          second ∙ ap (λ l. l ++ (b, to_b) ∷ []) first ∙ append_assoc (w.nats.sent x.nats.conn) _ _)

  -- A list of searches, one after the other until one finds someone.
  abbrev pub first_found :
      List (w.redis.State → Result (Option MatchCandidate) × w.redis.State)
      → Option MatchCandidate × w.redis.State
      → Option MatchCandidate × w.redis.State
  first_found [] x = x
  first_found (tier ∷ tiers) (some m, s) = (some m, s)
  first_found (tier ∷ tiers) (none, s) = first_found tiers (found w (tier s))

  -- The tiers that are open to a user who has waited so long: in the first 10 seconds those with the
  -- same interests, until 20 seconds also the best overlap, until 25 seconds also any shared interest,
  -- and after that anybody.
  abbrev pub open_tiers :
      String → ℕ → List (w.redis.State → Result (Option MatchCandidate) × w.redis.State)
  open_tiers sid wait =
      let exact = try_exact_match w.redis sid in
      let overlap = try_overlap_match w.redis w.hashing w.orders sid in
      let single = try_single_interest_match w.redis w.hashing w.orders sid in
      let random = try_random_match w.redis sid in
      if ltb wait 10000
      then exact ∷ []
      else if ltb wait 20000
      then exact ∷ overlap ∷ []
      else if ltb wait 25000
      then exact ∷ overlap ∷ single ∷ []
      else exact ∷ overlap ∷ single ∷ random ∷ []

  -- A search, without its name.
  abbrev Tier : Type 0
  Tier = w.redis.State → Result (Option MatchCandidate) × w.redis.State

  or_try-shut : (f : Tier) (x : Option MatchCandidate × w.redis.State) → or_try w false f x ≡ x
  or_try-shut f (none, s) = refl
  or_try-shut f (some m, s) = refl

  or_try-one :
      (f : Tier) (x : Option MatchCandidate × w.redis.State)
      → or_try w true f x ≡ first_found (f ∷ []) x
  or_try-one f (none, s) = refl
  or_try-one f (some m, s) = refl

  or_try-two :
      (f g : Tier) (x : Option MatchCandidate × w.redis.State)
      → or_try w true g (or_try w true f x) ≡ first_found (f ∷ g ∷ []) x
  or_try-two f g (none, s) = or_try-one g (found w (f s))
  or_try-two f g (some m, s) = refl

  or_try-three :
      (f g h : Tier) (x : Option MatchCandidate × w.redis.State)
      → or_try w true h (or_try w true g (or_try w true f x)) ≡ first_found (f ∷ g ∷ h ∷ []) x
  or_try-three f g h (none, s) = or_try-two g h (found w (f s))
  or_try-three f g h (some m, s) = refl

  -- The search for a partner is that through the open tiers in their order, up to the first that finds
  -- someone: a tier that is not yet open is not asked.
  pub search-open_tiers :
      (sid : String) (wait : ℕ) (s : w.redis.State)
      → search w sid wait s ≡ first_found (open_tiers sid wait) (none, s)
  unfolding search
  search-open_tiers sid wait s =
      let exact : Option MatchCandidate × w.redis.State = found w (try_exact_match w.redis sid s) in
      let overlap = try_overlap_match w.redis w.hashing w.orders sid in
      let single = try_single_interest_match w.redis w.hashing w.orders sid in
      let random = try_random_match w.redis sid in
      elim (Bool-cases (ltb wait 10000)) [
        | inl early ↦
            let a : leb 10000 wait ≡ false = ground (arith, early) in
            let b : leb 20000 wait ≡ false = ground (arith, early) in
            let c : leb 25000 wait ≡ false = ground (arith, early) in
            rw (early, a, b, c)
              (or_try-shut random _ ∙ or_try-shut single _ ∙ or_try-shut overlap exact)
        | inr after_10 ↦
            let a : leb 10000 wait ≡ true = ground (arith, after_10) in
            elim (Bool-cases (ltb wait 20000)) [
              | inl before_20 ↦
                  let b : leb 20000 wait ≡ false = ground (arith, before_20) in
                  let c : leb 25000 wait ≡ false = ground (arith, before_20) in
                  rw (after_10, a, b, c, before_20)
                    (or_try-shut random _ ∙ or_try-shut single _ ∙ or_try-one overlap exact)
              | inr after_20 ↦
                  let b : leb 20000 wait ≡ true = ground (arith, after_20) in
                  elim (Bool-cases (ltb wait 25000)) [
                    | inl before_25 ↦
                        let c : leb 25000 wait ≡ false = ground (arith, before_25) in
                        rw (after_10, a, b, c, after_20, before_25)
                          (or_try-shut random _ ∙ or_try-two overlap single exact)
                    | inr after_25 ↦
                        let c : leb 25000 wait ≡ true = ground (arith, after_25) in
                        rw (after_10, a, b, c, after_20, after_25)
                          (or_try-three overlap single random exact)
                  ]
            ]
      ]

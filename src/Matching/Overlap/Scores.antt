-- ===== src/Matching/Overlap/Scores.antt =====
-- What the scores of internal/matching/overlap.go count.
use whisper_chat.Prelude.{
  ℕ, ◌+◌, ◌<◌, String, ◌≡◌, refl, ap, ap₂, subst, ◌∙◌, inl, inr, Bool, true, false, Option, some,
  List, [], ◌∷◌, arith, if◌then◌else◌, Bool-cases, ◌==◌, nat_eq, text_eq, list_eq, ==-comm,
}
use whisper_chat.Prelude.Dict.{Dict, lookup, insert, lookup-insert}
use whisper_chat.Redis.{Redis}
use whisper_chat.Redis.Commands.{
  Key, key_eq, Value, missing, str, hash, set, zset, smembers, answer,
}
use whisper_chat.Redis.Client.{as_members, ask_value, value-ask}
use whisper_chat.Matching.Queue.{Hashing, interest_key, get_interest_candidates}
use whisper_chat.Matching.Overlap.{Orders, Tally, score, mark_one, mark, gather, members}

-- How often a user stands in a list; the list of a set's members has each of them once.
abbrev pub times : String → List String → ℕ
times id [] = 0
times id (m ∷ l) = (if m == id then 1 else 0) + times id l

-- The members of a set, of which a key of another type has none.
abbrev pub members_of : (List String → List String) → Value → List String
members_of arrange (set l) = arrange l
members_of arrange _ = []

-- The number of a list of tags whose sets have the user as a member.
abbrev pub shared_count : (r : Redis) → String → List String → r.State → ℕ
shared_count r id [] s = 0
shared_count r id (tag ∷ tags) s =
    times id (members_of r.arrange (r.value s (interest_key tag))) + shared_count r id tags s

score-insert :
    (put asked : String) (n : ℕ) (m : Dict String ℕ)
    → score asked (insert put n m) ≡ (if put == asked then n else score asked m)
score-insert put asked n m = ground (arith, lookup-insert put asked n m)

score-mark_one :
    (self tag id m : String) (t : Tally)
    → score id (mark_one self tag m t).scores
      ≡ score id t.scores + (if id == self then 0 else if m == id then 1 else 0)
unfolding mark_one
score-mark_one self tag id m t = elim (Bool-cases (m == self)) [
  | inl own ↦
      let e : m ≡ self = (text_eq.beq_iff m self).0 own in
      let back : (self == id) ≡ (id == self) = ==-comm self id in
      rw (mark_one, own, e, back) (ground arith)
  | inr other ↦ elim (Bool-cases (m == id)) [
    | inl same ↦
        let e : m ≡ id = (text_eq.beq_iff m id).0 same in
        let apart : (id == self) ≡ false = subst (λ x. (x == self) ≡ false) e other in
        rw (mark_one, other)
          (score-insert m id (score m t.scores + 1) t.scores ∙ rw (same, apart, e) refl)
    | inr further ↦
        rw (mark_one, other)
          (score-insert m id (score m t.scores + 1) t.scores ∙ rw further (ground arith))
  ]
]

-- Marking the members of a tag adds one to the score of each, but for the user's own.
score-mark :
    (self tag id : String) (l : List String) (t : Tally)
    → score id (mark self tag l t).scores
      ≡ score id t.scores + (if id == self then 0 else times id l)
unfolding mark
score-mark self tag id [] t = ground arith
score-mark self tag id (m ∷ l) t =
    let rest = score-mark self tag id l (mark_one self tag m t) in
    let one = score-mark_one self tag id m t in ground (arith, rest, one)

-- Every score that is kept is above 0.
abbrev pub IsPositive : Dict String ℕ → Type 0
IsPositive scores = (id : String) (n : ℕ) → lookup id scores ≡ some n → 0 < n

IsPositive-insert :
    (put : String) (n : ℕ) (m : Dict String ℕ) → IsPositive m → IsPositive (insert put (n + 1) m)
IsPositive-insert put n m h id k found =
    ground (arith, found, h id k, lookup-insert put id (n + 1) m)

mark_one-IsPositive :
    (self tag m : String) (t : Tally)
    → IsPositive t.scores
    → IsPositive (mark_one self tag m t).scores
unfolding mark_one
mark_one-IsPositive self tag m t h = elim (Bool-cases (m == self)) [
  | inl own ↦ rw (mark_one, own) h
  | inr other ↦ rw (mark_one, other) (IsPositive-insert m (score m t.scores) t.scores h)
]

mark-IsPositive :
    (self tag : String) (l : List String) (t : Tally)
    → IsPositive t.scores
    → IsPositive (mark self tag l t).scores
unfolding mark
mark-IsPositive self tag [] t h = h
mark-IsPositive self tag (m ∷ l) t h =
    mark-IsPositive self tag l (mark_one self tag m t) (mark_one-IsPositive self tag m t h)

pub if_same : (b : Bool) (v : Value) → (if b then v else v) ≡ v
if_same true v = refl
if_same false v = refl

module _ (r : Redis) (go : Hashing) (orders : Orders)
    (reliable : (s : r.State) → r.up s ≡ true) where
  members-answer :
      (k : Key) (v : Value) (t : Option ℕ)
      → members r go orders (as_members (some (answer r.arrange r.ranked (smembers k) v t)))
        ≡ members_of r.arrange v
  members-answer k missing t = refl
  members-answer k (str d) t = refl
  members-answer k (hash h) t = refl
  members-answer k (set l) t = refl
  members-answer k (zset l) t = refl

  members-get_interest_candidates :
      (tag : String) (s : r.State)
      → members r go orders (get_interest_candidates r tag s).0
        ≡ members_of r.arrange (r.value s (interest_key tag))
  unfolding get_interest_candidates
  members-get_interest_candidates tag s =
      ap (members r go orders)
        (ask_value r as_members (smembers (interest_key tag)) s _ (reliable s) refl)
      ∙ members-answer (interest_key tag) (r.value s (interest_key tag)) _

  value-get_interest_candidates :
      (tag : String) (s : r.State) (k : Key)
      → r.value (get_interest_candidates r tag s).1 k ≡ r.value s k
  unfolding get_interest_candidates
  value-get_interest_candidates tag s k =
      value-ask r as_members (smembers (interest_key tag)) s k (reliable s)
      ∙ if_same (interest_key tag == k) (r.value s k)

  pub shared_count-same :
      (id : String) (tags : List String) (s s' : r.State)
      → ((k : Key) → r.value s' k ≡ r.value s k)
      → shared_count r id tags s' ≡ shared_count r id tags s
  shared_count-same id [] s s' h = refl
  shared_count-same id (tag ∷ tags) s s' h =
      ap₂ (◌+◌) (ap (λ v. times id (members_of r.arrange v)) (h (interest_key tag)))
        (shared_count-same id tags s s' h)

  -- The scores that are gathered are those of the start and the numbers of shared tags.
  pub score-gather :
      (self id : String) (tags : List String) (t : Tally) (s : r.State)
      → score id (gather r go orders self tags t s).0.scores
        ≡ score id t.scores + (if id == self then 0 else shared_count r id tags s)
  unfolding gather
  score-gather self id [] t s = ground arith
  score-gather self id (tag ∷ tags) t s =
      let l : List String = members r go orders (get_interest_candidates r tag s).0 in
      let s' : r.State = (get_interest_candidates r tag s).1 in
      let rest = score-gather self id tags (mark self tag l t) s' in
      let one = score-mark self tag id l t in
      let same = shared_count-same id tags s s' (value-get_interest_candidates tag s) in
      let here = ap (times id) (members-get_interest_candidates tag s) in
      ground (arith, rest, one, same, here)

  pub gather-IsPositive :
      (self : String) (tags : List String) (t : Tally) (s : r.State)
      → IsPositive t.scores
      → IsPositive (gather r go orders self tags t s).0.scores
  unfolding gather
  gather-IsPositive self [] t s h = h
  gather-IsPositive self (tag ∷ tags) t s h =
      let l : List String = members r go orders (get_interest_candidates r tag s).0 in
      gather-IsPositive self tags (mark self tag l t) (get_interest_candidates r tag s).1
        (mark-IsPositive self tag l t h)

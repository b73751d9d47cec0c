-- ===== src/Tests/Rankings.antt =====
-- An order of Go's maps that the third and the second tier of the search can meet.
use whisper_chat.Prelude.{
  ℕ, ◌≤◌, String, ◌≡◌, refl, ◌∙◌, inl, inr, true, false, none, some, List, [], ◌∷◌, map, arith, leb,
  if◌then◌else◌, leb→le, Bool-cases, ◌==◌, nat_eq, text_eq, list_eq, ==-self, All, contains,
}
use whisper_chat.Prelude.Dict.{Dict, lookup, remove, lookup-remove}
use whisper_chat.Matching.Overlap.{Orders, Falling}

abbrev pub place : String → ℕ → List (String × ℕ) → List (String × ℕ)
place k n [] = (k, n) ∷ []
place k n ((j, w) ∷ l) =
    let rest = place k n l in if leb w n then (k, n) ∷ (j, w) ∷ l else (j, w) ∷ rest

abbrev pub falling : Dict String ℕ → List (String × ℕ)
falling [] = []
falling ((k, n) ∷ m) = place k n (remove k (falling m))

lookup-place :
    (k j : String) (n : ℕ) (l : List (String × ℕ))
    → lookup k l ≡ none
    → lookup j (place k n l) ≡ (if k == j then some n else lookup j l)
unfolding lookup
lookup-place k j n [] h = refl
lookup-place k j n ((i, w) ∷ l) h =
    let rest = lookup-place k j n l in
    ground (arith, h, rest, text_eq.beq_iff i k, text_eq.beq_iff i j, text_eq.beq_iff k j)

pub lookup-falling : (j : String) (m : Dict String ℕ) → lookup j (falling m) ≡ lookup j m
unfolding lookup
lookup-falling j [] = refl
lookup-falling j ((k, n) ∷ m) =
    let away : lookup k (remove k (falling m)) ≡ none =
      lookup-remove k k (falling m) ∙ rw (==-self k) in
    lookup-place k j n (remove k (falling m)) away
    ∙ ground (arith, lookup-remove k j (falling m), lookup-falling j m)

All-remove :
    (bound : ℕ) (k : String) (l : List (String × ℕ))
    → All (λ q. q.1 ≤ bound) l
    → All (λ q. q.1 ≤ bound) (remove k l)
unfolding remove
All-remove bound k [] h = tt
All-remove bound k ((j, w) ∷ l) (h, hs) =
    let rest = All-remove bound k l hs in ground (arith, rest, h)

Falling-remove : (k : String) (l : List (String × ℕ)) → Falling l → Falling (remove k l)
unfolding remove
Falling-remove k [] h = tt
Falling-remove k ((j, w) ∷ l) (h, hs) =
    let rest = Falling-remove k l hs in
    let below = All-remove w k l h in ground (arith, rest, below)

All-place :
    (bound : ℕ) (k : String) (n : ℕ) (l : List (String × ℕ))
    → n ≤ bound
    → All (λ q. q.1 ≤ bound) l
    → All (λ q. q.1 ≤ bound) (place k n l)
All-place bound k n [] h hs = (h, tt)
All-place bound k n ((j, w) ∷ l) h (h', hs) =
    let rest = All-place bound k n l h hs in ground (arith, rest, h, h', hs)

All-weaken : (a b : ℕ) (l : List (String × ℕ)) → a ≤ b → All (λ q. q.1 ≤ a) l → All (λ q. q.1 ≤ b) l
All-weaken a b [] h hs = tt
All-weaken a b (q ∷ l) h (h', hs) = (omega (arith, h, h'), All-weaken a b l h hs)

Falling-place : (k : String) (n : ℕ) (l : List (String × ℕ)) → Falling l → Falling (place k n l)
Falling-place k n [] h = (tt, tt)
Falling-place k n ((j, w) ∷ l) (h, hs) = elim (Bool-cases (leb w n)) [
  | inl le ↦ rw le ((leb→le w n le, All-weaken w n l (leb→le w n le) h), (h, hs))
  | inr gt ↦ rw gt (All-place w k n l (ground (arith, gt)) h, Falling-place k n l hs)
]

pub Falling-falling : (m : Dict String ℕ) → Falling (falling m)
Falling-falling [] = tt
Falling-falling ((k, n) ∷ m) =
    Falling-place k n (remove k (falling m)) (Falling-remove k (falling m) (Falling-falling m))

pub contains-keys :
    (id : String) (m : Dict String (List String))
    → contains id (map (λ p. p.0) m) ≡ (elim (lookup id m) [ none ↦ false | some l ↦ true ])
unfolding contains lookup
contains-keys id [] = refl
contains-keys id ((k, l) ∷ m) = let rest = contains-keys id m in ground (arith, rest)

abbrev pub orders : Orders
orders = record {
  keys = map (λ p. p.0);
  rank = falling;
  contains-keys = contains-keys;
  lookup-rank = lookup-falling;
  rank_falls = Falling-falling;
}

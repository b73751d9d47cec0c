-- ===== src/Matching/Tags.antt =====
-- The lists of interests that internal/matching/queue.go joins with commas and splits again, as Go's
-- package strings does it.
use Prim.Native.Char.{Char, code}
use whisper_chat.Prelude.{
  String, ◌≡◌, refl, ap, ◌∙◌, ◌≢◌, Bool, true, false, not, ◌&&◌, ◌||◌, List, [], ◌∷◌, arith,
  if◌then◌else◌, ◌==◌, nat_eq, text_eq, list_eq, ==-ne,
}

abbrev pub append_text : String → String → String
append_text String.[] t = t
append_text (String.◌∷◌ c s) t = String.◌∷◌ c (append_text s t)

-- strings.Join(tags, ",")
unfoldable pub join_comma : List String → String
join_comma [] = ""
join_comma (t ∷ []) = t
join_comma (t ∷ u ∷ l) = append_text t (append_text "," (join_comma (u ∷ l)))

abbrev pub put_first : Char → List String → List String
put_first c [] = String.◌∷◌ c "" ∷ []
put_first c (t ∷ l) = String.◌∷◌ c t ∷ l

-- strings.Split(s, ",")
unfoldable pub split_comma : String → List String
split_comma String.[] = "" ∷ []
split_comma (String.◌∷◌ c s) =
    let rest = split_comma s in if code c == b',' then "" ∷ rest else put_first c rest

unfoldable pub has_comma : String → Bool
has_comma String.[] = false
has_comma (String.◌∷◌ c s) = code c == b',' || has_comma s

-- Tags that are not empty and have no comma.
unfoldable pub plain_tags : List String → Bool
plain_tags [] = true
plain_tags (t ∷ l) = not (t == "") && (not (has_comma t) && plain_tags l)

split_comma-word : (t : String) → has_comma t ≡ false → split_comma t ≡ t ∷ []
unfolding split_comma has_comma
split_comma-word String.[] h = refl
split_comma-word (String.◌∷◌ c s) h =
    let other : (code c == b',') ≡ false = ground (arith, h) in
    let none_left : has_comma s ≡ false = ground (arith, h) in
    rw (other, split_comma-word s none_left)

split_comma-append :
    (t s : String)
    → has_comma t ≡ false
    → split_comma (append_text t (append_text "," s)) ≡ t ∷ split_comma s
unfolding split_comma has_comma
split_comma-append String.[] s h = refl
split_comma-append (String.◌∷◌ c t) s h =
    let other : (code c == b',') ≡ false = ground (arith, h) in
    let none_left : has_comma t ≡ false = ground (arith, h) in
    rw (other, split_comma-append t s none_left)

-- Splitting what was joined gives the tags back.
pub split_comma-join_comma :
    (t : String) (l : List String)
    → plain_tags (t ∷ l) ≡ true
    → split_comma (join_comma (t ∷ l)) ≡ t ∷ l
unfolding join_comma plain_tags
split_comma-join_comma t [] h = split_comma-word t (ground (arith, h))
split_comma-join_comma t (u ∷ l) h =
    split_comma-append t (join_comma (u ∷ l)) (ground (arith, h))
    ∙ ap (◌∷◌ t) (split_comma-join_comma u l (ground (arith, h)))

is_empty : String → Bool
is_empty String.[] = true
is_empty (String.◌∷◌ c s) = false

not_empty : (c : Char) (s : String) → String.◌∷◌ c s ≢ ""
unfolding is_empty
not_empty c s h = let e : false ≡ true = ap is_empty h in absurd (cc e)

-- Only the empty list is joined to the empty text.
pub join_comma-empty :
    (t : String) (l : List String) → plain_tags (t ∷ l) ≡ true → (join_comma (t ∷ l) == "") ≡ false
unfolding join_comma plain_tags
join_comma-empty t [] h = ground (arith, h)
join_comma-empty String.[] (u ∷ l) h = ground (arith, h)
join_comma-empty (String.◌∷◌ c s) (u ∷ l) h = ==-ne _ _ (not_empty c _)

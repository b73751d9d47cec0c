-- ===== src/Prelude/Dict.antt =====
-- Go's map as an association list. Clients have the laws in `dict_laws`.
use mathlib.Core.List.{List, [], ◌∷◌}
use mathlib.Core.Path.{◌≡◌, refl}
use mathlib.Core.Option.{Option, none, some}
use native.Mathlib.Omega.{arith}
use whisper_chat.Prelude.Tests.{if◌then◌else◌}
use whisper_chat.Prelude.Equality.{Eq, ◌==◌}

abbrev pub Dict {ℓ κ} : Type ℓ → Type κ → Type (ℓ ⊔ κ)
Dict K V = List (K × V)

module _ {ℓ κ} {K : Type ℓ} {V : Type κ} ⦃e : Eq K⦄ where
  -- v, ok := m[k]
  unfoldable pub lookup : K → Dict K V → Option V
  lookup k [] = none
  lookup k ((j, v) ∷ m) = if j == k then some v else lookup k m

  -- m[k] = v
  unfoldable pub insert : K → V → Dict K V → Dict K V
  insert k v [] = (k, v) ∷ []
  insert k v ((j, w) ∷ m) = if j == k then (k, v) ∷ m else (j, w) ∷ insert k v m

  -- delete(m, k)
  unfoldable pub remove : K → Dict K V → Dict K V
  remove k [] = []
  remove k ((j, w) ∷ m) = let rest = remove k m in if j == k then rest else (j, w) ∷ rest

  pub lookup-insert :
      (put asked : K) (new : V) (m : Dict K V)
      → lookup asked (insert put new m) ≡ (if put == asked then some new else lookup asked m)
  unfolding lookup insert
  lookup-insert put asked new [] = refl
  lookup-insert put asked new ((x, old) ∷ m) =
      let rest = lookup-insert put asked new m in
      ground (arith, rest, e.beq_iff x put, e.beq_iff x asked, e.beq_iff put asked)

  pub lookup-remove :
      (gone asked : K) (m : Dict K V)
      → lookup asked (remove gone m) ≡ (if gone == asked then none else lookup asked m)
  unfolding lookup remove
  lookup-remove gone asked [] = ground arith
  lookup-remove gone asked ((x, old) ∷ m) =
      let rest = lookup-remove gone asked m in
      ground (arith, rest, e.beq_iff x gone, e.beq_iff x asked, e.beq_iff gone asked)

pub ruleset dict_laws = (lookup-insert, lookup-remove)

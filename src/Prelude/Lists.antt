-- ===== src/Prelude/Lists.antt =====
-- Lists measured and indexed by native numbers, under the library's names, and predicates on them.
use Prim.Native.Nat.{ℕ, zero, suc, ◌+◌, ◌<◌}
use mathlib.Core.Path.{◌≡◌, refl, ap}
use mathlib.Core.Logic.{◌≢◌}
use mathlib.Core.Bool.{Bool, false, ◌||◌}
use mathlib.Core.List.{List, [], ◌∷◌, ◌++◌}
use native.Mathlib.Omega.{arith}
use whisper_chat.Prelude.Equality.{Eq, ◌==◌}

module _ {ℓ} {A : Type ℓ} where
  abbrev pub length : List A → ℕ
  length [] = 0
  length (_ ∷ l) = suc (length l)

  abbrev pub get_or : List A → ℕ → A → A
  get_or [] _ d = d
  get_or (x ∷ _) zero d = x
  get_or (_ ∷ l) (suc i) d = get_or l i d

  -- A write out of bounds changes nothing.
  abbrev pub set : List A → ℕ → A → List A
  set [] _ v = []
  set (_ ∷ l) zero v = v ∷ l
  set (x ∷ l) (suc i) v = x ∷ set l i v

  abbrev pub drop : ℕ → List A → List A
  drop zero l = l
  drop (suc n) [] = []
  drop (suc n) (_ ∷ l) = drop n l

  abbrev pub replicate : ℕ → A → List A
  replicate zero a = []
  replicate (suc n) a = a ∷ replicate n a

  pub length-append : (xs ys : List A) → length (xs ++ ys) ≡ length xs + length ys
  length-append [] ys = omega arith
  length-append (_ ∷ xs) ys = omega (arith, length-append xs ys)

  pub length-set : (l : List A) (i : ℕ) (v : A) → length (set l i v) ≡ length l
  length-set [] i v = refl
  length-set (x ∷ l) zero v = refl
  length-set (x ∷ l) (suc i) v = ap suc (length-set l i v)

  pub length-replicate : (n : ℕ) (a : A) → length (replicate n a) ≡ n
  length-replicate zero a = refl
  length-replicate (suc n) a = ap suc (length-replicate n a)

  pub get_or-set_self : (l : List A) (i : ℕ) (v d : A) → i < length l → get_or (set l i v) i d ≡ v
  get_or-set_self [] i v d h = absurd (omega arith)
  get_or-set_self (x ∷ l) zero v d h = refl
  get_or-set_self (x ∷ l) (suc i) v d h = get_or-set_self l i v d (omega arith)

  pub get_or-set_ne :
      (l : List A) (i j : ℕ) (v d : A) → i ≢ j → get_or (set l i v) j d ≡ get_or l j d
  get_or-set_ne [] i j v d h = refl
  get_or-set_ne (x ∷ l) zero zero v d h = absurd (h refl)
  get_or-set_ne (x ∷ l) zero (suc j) v d h = refl
  get_or-set_ne (x ∷ l) (suc i) zero v d h = refl
  get_or-set_ne (x ∷ l) (suc i) (suc j) v d h = get_or-set_ne l i j v d (λ e. h (ap suc e))

module _ {ℓ κ} {A : Type ℓ} where
  abbrev pub All : (A → Type κ) → List A → Type κ
  All P [] = Unit
  All P (x ∷ l) = P x × All P l

module _ {ℓ} {A : Type ℓ} ⦃e : Eq A⦄ where
  unfoldable pub contains : A → List A → Bool
  contains a [] = false
  contains a (x ∷ l) = (x == a) || contains a l

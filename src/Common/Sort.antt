-- ===== src/Common/Sort.antt =====
-- `Array.prototype.sort` with a comparator: the stable sort. The sign of the number that a
-- comparator returns is an `Ordering`.
pub mod Laws
pub mod Any
use Prim.Native.Nat.{Ordering}
use mathlib.Core.Path.{◌≡◌}
use mathlib.Core.Logic.{◌≢◌}
use mathlib.Core.List.{List, [], ◌∷◌}
use adaptive_financial_os.Common.Lists.{All}

abbrev pub reverse_sign : Ordering → Ordering
reverse_sign Ordering.lt = Ordering.gt
reverse_sign Ordering.eq = Ordering.eq
reverse_sign Ordering.gt = Ordering.lt

-- What a consistent comparator satisfies.
pub record IsComparator {ℓ} {A : Type ℓ} (cmp : A → A → Ordering) : Type ℓ where
  pub flips : (a b : A) → cmp b a ≡ reverse_sign (cmp a b)
  pub chains : (a b c : A) → cmp a b ≢ Ordering.gt → cmp b c ≢ Ordering.gt → cmp a c ≢ Ordering.gt

-- `c || d` on the numbers that two comparisons return.
abbrev pub or_else : Ordering → Ordering → Ordering
or_else Ordering.lt d = Ordering.lt
or_else Ordering.eq d = d
or_else Ordering.gt d = Ordering.gt

module _ {ℓ} {A : Type ℓ} (cmp : A → A → Ordering) where
  pub sort_insert : A → List A → List A
  sort_insert x [] = x ∷ []
  sort_insert x (y ∷ ys) = elim (cmp x y) [ Ordering.gt ↦ y ∷ sort_insert x ys | _ ↦ x ∷ y ∷ ys ]

  unfoldable pub sort : List A → List A
  unfolding sort_insert
  sort [] = []
  sort (x ∷ xs) = sort_insert x (sort xs)

  -- Each element is at most every later one.
  abbrev pub IsSorted : List A → Type ℓ
  IsSorted [] = Unit
  IsSorted (x ∷ xs) = All (λ y. cmp x y ≢ Ordering.gt) xs × IsSorted xs

module _ {A : Type 0} (cmp : A → A → Ordering) where
  -- Element by element, the comparator does not tell two lists apart.
  abbrev pub Alike : List A → List A → Type 0
  Alike [] [] = Unit
  Alike [] (y ∷ ys) = ⊥
  Alike (x ∷ xs) [] = ⊥
  Alike (x ∷ xs) (y ∷ ys) = (cmp x y ≡ Ordering.eq) × Alike xs ys

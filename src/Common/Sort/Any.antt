-- ===== src/Common/Sort/Any.antt =====
-- Sorting keeps what holds of some element, and what holds of all, whatever the comparison.
use Prim.Native.Nat.{Ordering}
use mathlib.Core.Logic.{◌⊎◌, inl, inr}
use mathlib.Core.List.{List, [], ◌∷◌, ◌++◌}
use adaptive_financial_os.Common.Lists.{All}
use adaptive_financial_os.Common.Sort.{sort_insert, sort}
use adaptive_financial_os.Common.Sort.Laws.{Ordering-cases, sort_insert-goes, sort_insert-stays}

-- An element of the list has the property.
abbrev pub Any : {A : Type 0} → (A → Type 0) → List A → Type 0
Any P [] = ⊥
Any P (x ∷ xs) = P x ⊎ Any P xs

pub Any-append_left : {A : Type 0} (P : A → Type 0) (xs ys : List A) → Any P xs → Any P (xs ++ ys)
Any-append_left P [] ys h = absurd h
Any-append_left P (x ∷ xs) ys (inl p) = inl p
Any-append_left P (x ∷ xs) ys (inr h) = inr (Any-append_left P xs ys h)

pub Any-append_right : {A : Type 0} (P : A → Type 0) (xs ys : List A) → Any P ys → Any P (xs ++ ys)
Any-append_right P [] ys h = h
Any-append_right P (x ∷ xs) ys h = inr (Any-append_right P xs ys h)

module _ {A : Type 0} (cmp : A → A → Ordering) (P : A → Type 0) where
  sort_insert-goes_Any :
      (x y : A) (ys zs : List A) → (Any P (x ∷ ys) → Any P zs) → Any P (x ∷ y ∷ ys) → Any P (y ∷ zs)
  sort_insert-goes_Any x y ys zs k (inl p) = inr (k (inl p))
  sort_insert-goes_Any x y ys zs k (inr (inl p)) = inl p
  sort_insert-goes_Any x y ys zs k (inr (inr h)) = inr (k (inr h))

  sort_insert-Any : (x : A) (ys : List A) → Any P (x ∷ ys) → Any P (sort_insert cmp x ys)
  unfolding sort_insert
  sort_insert-Any x [] h = h
  sort_insert-Any x (y ∷ ys) h = elim (Ordering-cases (cmp x y)) [
    | inl e ↦
        rw (sort_insert-goes cmp x y ys e) (sort_insert-goes_Any x y ys _ (sort_insert-Any x ys) h)
    | inr e ↦ rw (sort_insert-stays cmp x y ys e) h
  ]

  pub sort-Any : (xs : List A) → Any P xs → Any P (sort cmp xs)
  unfolding sort
  sort-Any [] h = h
  sort-Any (x ∷ xs) (inl p) = sort_insert-Any x (sort cmp xs) (inl p)
  sort-Any (x ∷ xs) (inr h) = sort_insert-Any x (sort cmp xs) (inr (sort-Any xs h))

  insert-All : (x : A) (ys : List A) → P x → All P ys → All P (sort_insert cmp x ys)
  unfolding sort_insert
  insert-All x [] p h = (p, tt)
  insert-All x (y ∷ ys) p h = elim (Ordering-cases (cmp x y)) [
    | inl e ↦ rw (sort_insert-goes cmp x y ys e) (h.0, insert-All x ys p h.1)
    | inr e ↦ rw (sort_insert-stays cmp x y ys e) (p, h)
  ]

  pub sort-All_any : (xs : List A) → All P xs → All P (sort cmp xs)
  unfolding sort
  sort-All_any [] h = tt
  sort-All_any (x ∷ xs) h = insert-All x (sort cmp xs) h.0 (sort-All_any xs h.1)

-- ===== src/Common/Sort/Laws.antt =====
-- The stable sort permutes, sorts, keeps the order of equal elements, and sends permutations of
-- one list to lists that its comparator does not tell apart.
use Prim.Native.Nat.{Ordering}
use mathlib.Core.Path.{◌≡◌, refl, sym, subst, ◌∙◌}
use mathlib.Core.Logic.{◌≢◌, ◌⊎◌, inl, inr, ∥∥₁_elim}
use mathlib.Core.Bool.{Bool, true, false}
use mathlib.Core.List.{List, [], ◌∷◌, Perm, Permᴰ}
use mathlib.Core.List.Perm
use native.Mathlib.Omega.{arith}
use adaptive_financial_os.Common.Lists.{All, keep}
use adaptive_financial_os.Common.Sort.{IsComparator, sort_insert, sort, IsSorted, Alike, or_else}

pub Ordering-cases : (o : Ordering) → (o ≡ Ordering.gt) ⊎ (o ≢ Ordering.gt)
Ordering-cases Ordering.lt = inr (λ e. cc)
Ordering-cases Ordering.eq = inr (λ e. cc)
Ordering-cases Ordering.gt = inl refl

-- The test "the comparator returns 0".
abbrev pub is_eq : Ordering → Bool
is_eq Ordering.lt = false
is_eq Ordering.eq = true
is_eq Ordering.gt = false

module _ {ℓ} {A : Type ℓ} (cmp : A → A → Ordering) where
  pub sort_insert-stays :
      (x y : A) (ys : List A) → cmp x y ≢ Ordering.gt → sort_insert cmp x (y ∷ ys) ≡ x ∷ y ∷ ys
  unfolding sort_insert
  sort_insert-stays x y ys h = ground arith

  pub sort_insert-goes :
      (x y : A) (ys : List A)
      → cmp x y ≡ Ordering.gt
      → sort_insert cmp x (y ∷ ys) ≡ y ∷ sort_insert cmp x ys
  unfolding sort_insert
  sort_insert-goes x y ys h = ground arith

  sort_insert-ne-nil : (x : A) (ys : List A) → sort_insert cmp x ys ≢ []
  unfolding sort_insert
  sort_insert-ne-nil x [] e = cc
  sort_insert-ne-nil x (y ∷ ys) e = ground arith

  pub sort-ne-nil : (xs : List A) → xs ≢ [] → sort cmp xs ≢ []
  unfolding sort
  sort-ne-nil [] h e = h refl
  sort-ne-nil (x ∷ xs) h e = sort_insert-ne-nil x (sort cmp xs) e

  sort_insert-perm : (x : A) (ys : List A) → Perm (sort_insert cmp x ys) (x ∷ ys)
  unfolding sort_insert
  sort_insert-perm x [] = Perm.refl _
  sort_insert-perm x (y ∷ ys) = elim (Ordering-cases (cmp x y)) [
    | inl e ↦
        rw (sort_insert-goes x y ys e)
          (Perm.trans (Perm.cons y (sort_insert-perm x ys)) (Perm.swap x y ys))
    | inr e ↦ rw (sort_insert-stays x y ys e) (Perm.refl _)
  ]

  pub sort-perm : (xs : List A) → Perm (sort cmp xs) xs
  unfolding sort
  sort-perm [] = Perm.refl []
  sort-perm (x ∷ xs) = Perm.trans (sort_insert-perm x (sort cmp xs)) (Perm.cons x (sort-perm xs))

module _ {ℓ} {A : Type ℓ} (cmp : A → A → Ordering) (laws : IsComparator cmp) where
  eq_eq : (a x y : A) → cmp a x ≡ Ordering.eq → cmp a y ≡ Ordering.eq → cmp x y ≡ Ordering.eq
  eq_eq a x y h k =
      ground (
        arith,
        laws.flips a x,
        laws.flips a y,
        laws.flips x y,
        laws.chains x a y,
        laws.chains y a x,
      )

  pub cmp_self : (a : A) → cmp a a ≡ Ordering.eq
  cmp_self a = ground (arith, laws.flips a a)

  -- Elements that are told apart from neither compare alike with a third.
  pub cmp_congr : (a x y : A) → cmp x y ≡ Ordering.eq → cmp a x ≡ cmp a y
  cmp_congr a x y h = ground (
    arith,
    laws.flips a x,
    laws.flips a y,
    laws.flips x y,
    laws.chains a x y,
    laws.chains a y x,
    laws.chains x y a,
    laws.chains y x a,
  )

  below_below :
      (x y : A) (zs : List A)
      → cmp x y ≢ Ordering.gt
      → All (λ z. cmp y z ≢ Ordering.gt) zs
      → All (λ z. cmp x z ≢ Ordering.gt) zs
  below_below x y [] h k = tt
  below_below x y (z ∷ zs) h k = (laws.chains x y z h k.0, below_below x y zs h k.1)

  sort_insert-All {κ} :
      (P : A → Type κ) (x : A) (ys : List A) → P x → All P ys → All P (sort_insert cmp x ys)
  unfolding sort_insert
  sort_insert-All P x [] p h = (p, tt)
  sort_insert-All P x (y ∷ ys) p h = elim (Ordering-cases (cmp x y)) [
    | inl e ↦ rw (sort_insert-goes cmp x y ys e) (h.0, sort_insert-All P x ys p h.1)
    | inr e ↦ rw (sort_insert-stays cmp x y ys e) (p, h)
  ]

  pub sort-All {κ} : (P : A → Type κ) (xs : List A) → All P xs → All P (sort cmp xs)
  unfolding sort
  sort-All P [] h = tt
  sort-All P (x ∷ xs) h = sort_insert-All P x (sort cmp xs) h.0 (sort-All P xs h.1)

  flipped : (x y : A) → cmp x y ≡ Ordering.gt → cmp y x ≢ Ordering.gt
  flipped x y h = ground (arith, laws.flips x y)

  sort_insert-IsSorted :
      (x : A) (ys : List A) → IsSorted cmp ys → IsSorted cmp (sort_insert cmp x ys)
  unfolding sort_insert
  sort_insert-IsSorted x [] h = (tt, tt)
  sort_insert-IsSorted x (y ∷ ys) h = elim (Ordering-cases (cmp x y)) [
    | inl e ↦ rw (sort_insert-goes cmp x y ys e) (
      sort_insert-All (λ z. cmp y z ≢ Ordering.gt) x ys (flipped x y e) h.0,
      sort_insert-IsSorted x ys h.1,
    )
    | inr e ↦ rw (sort_insert-stays cmp x y ys e) ((e, below_below x y ys e h.0), h)
  ]

  pub sort-IsSorted : (xs : List A) → IsSorted cmp (sort cmp xs)
  unfolding sort
  sort-IsSorted [] = tt
  sort-IsSorted (x ∷ xs) = sort_insert-IsSorted x (sort cmp xs) (sort-IsSorted xs)

  -- Among the elements equal to `a` an inserted element comes first.
  sort_insert-stable :
      (a x : A) (ys : List A)
      → keep (λ z. is_eq (cmp a z)) (sort_insert cmp x ys) ≡ keep (λ z. is_eq (cmp a z)) (x ∷ ys)
  unfolding sort_insert
  sort_insert-stable a x [] = refl
  sort_insert-stable a x (y ∷ ys) = elim (Ordering-cases (cmp x y)) [
    | inl e ↦
        rw (sort_insert-goes cmp x y ys e) (ground (arith, sort_insert-stable a x ys, eq_eq a x y))
    | inr e ↦ rw (sort_insert-stays cmp x y ys e)
  ]

  pub sort-stable :
      (a : A) (xs : List A)
      → keep (λ z. is_eq (cmp a z)) (sort cmp xs) ≡ keep (λ z. is_eq (cmp a z)) xs
  unfolding sort
  sort-stable a [] = refl
  sort-stable a (x ∷ xs) = sort_insert-stable a x (sort cmp xs) ∙ ground (arith, sort-stable a xs)

-- `c || d` of two consistent comparators is consistent.
pub or_else-IsComparator {ℓ} :
    {A : Type ℓ} (c d : A → A → Ordering)
    → IsComparator c
    → IsComparator d
    → IsComparator (λ x y. or_else (c x y) (d x y))
or_else-IsComparator c d p q = record {
  flips = λ x y. ground (arith, p.flips x y, q.flips x y);
  chains = λ x y z h k. ground (
    arith,
    h,
    k,
    p.flips x y,
    p.flips y z,
    p.flips x z,
    p.chains x y z,
    p.chains z x y,
    p.chains y z x,
    q.chains x y z,
  );
}

module _ {A : Type 0} (cmp : A → A → Ordering) (laws : IsComparator cmp) where
  pub Alike-refl : (xs : List A) → Alike cmp xs xs
  Alike-refl [] = tt
  Alike-refl (x ∷ xs) = (cmp_self cmp laws x, Alike-refl xs)

  Alike-trans : (xs ys zs : List A) → Alike cmp xs ys → Alike cmp ys zs → Alike cmp xs zs
  Alike-trans [] [] [] h k = tt
  Alike-trans (x ∷ xs) (y ∷ ys) (z ∷ zs) h k =
      (sym (cmp_congr cmp laws x y z k.0) ∙ h.0, Alike-trans xs ys zs h.1 k.1)
  Alike-trans [] [] (z ∷ zs) h k = absurd k
  Alike-trans [] (y ∷ ys) zs h k = absurd h
  Alike-trans (x ∷ xs) [] zs h k = absurd h
  Alike-trans (x ∷ xs) (y ∷ ys) [] h k = absurd k

  Alike-of_eq : {xs ys : List A} → xs ≡ ys → Alike cmp xs ys
  Alike-of_eq {xs} e = subst (Alike cmp xs) e (Alike-refl xs)

  sort_insert-Alike :
      (x : A) (ys zs : List A)
      → Alike cmp ys zs
      → Alike cmp (sort_insert cmp x ys) (sort_insert cmp x zs)
  unfolding sort_insert
  sort_insert-Alike x [] [] h = (cmp_self cmp laws x, tt)
  sort_insert-Alike x [] (z ∷ zs) h = absurd h
  sort_insert-Alike x (y ∷ ys) [] h = absurd h
  sort_insert-Alike x (y ∷ ys) (z ∷ zs) h =
      let same : cmp x y ≡ cmp x z = cmp_congr cmp laws x y z h.0 in
      elim (Ordering-cases (cmp x y)) [
        | inl e ↦
            rw (sort_insert-goes cmp x y ys e, sort_insert-goes cmp x z zs (sym same ∙ e))
              (h.0, sort_insert-Alike x ys zs h.1)
        | inr e ↦
            rw (sort_insert-stays cmp x y ys e, sort_insert-stays cmp x z zs (λ g. e (same ∙ g)))
              (cmp_self cmp laws x, h)
      ]

  -- Two elements that both go to the front of `r` may be inserted in either order.
  front_swap :
      (x y : A) (r : List A)
      → sort_insert cmp x r ≡ x ∷ r
      → sort_insert cmp y r ≡ y ∷ r
      → Alike cmp (sort_insert cmp x (y ∷ r)) (sort_insert cmp y (x ∷ r))
  front_swap x y r hx hy = elim (Ordering-cases (cmp x y)) [
    | inl e ↦
        rw (sort_insert-goes cmp x y r e, sort_insert-stays cmp y x r (flipped cmp laws x y e), hx)
          (Alike-refl (y ∷ x ∷ r))
    | inr e ↦ elim (Ordering-cases (cmp y x)) [
      | inl g ↦
          rw (sort_insert-stays cmp x y r e, sort_insert-goes cmp y x r g, hy)
            (Alike-refl (x ∷ y ∷ r))
      | inr g ↦
          rw (sort_insert-stays cmp x y r e, sort_insert-stays cmp y x r g)
            (ground (arith, laws.flips x y), (ground (arith, laws.flips x y), Alike-refl r))
    ]
  ]

  -- An element beyond `z` goes behind `y`, which does not.
  pass_front :
      (x y z : A) (r : List A)
      → cmp x z ≡ Ordering.gt
      → cmp y z ≢ Ordering.gt
      → sort_insert cmp x (sort_insert cmp y (z ∷ r))
        ≡ sort_insert cmp y (sort_insert cmp x (z ∷ r))
  pass_front x y z r h k =
      let beyond : cmp x y ≡ Ordering.gt = ground (arith, laws.chains x y z, laws.flips x y) in
      rw (
        sort_insert-stays cmp y z r k,
        sort_insert-goes cmp x y (z ∷ r) beyond,
        sort_insert-goes cmp x z r h,
        sort_insert-stays cmp y z (sort_insert cmp x r) k,
      )

  sort_insert-swap :
      (x y : A) (zs : List A)
      → Alike cmp
          (sort_insert cmp x (sort_insert cmp y zs))
          (sort_insert cmp y (sort_insert cmp x zs))
  sort_insert-swap x y [] = unfold sort_insert in front_swap x y [] refl refl
  sort_insert-swap x y (z ∷ zs) = elim (Ordering-cases (cmp x z)) [
    | inl h ↦ elim (Ordering-cases (cmp y z)) [
      | inl k ↦
          rw
            (
              sort_insert-goes cmp x z zs h,
              sort_insert-goes cmp y z zs k,
              sort_insert-goes cmp x z (sort_insert cmp y zs) h,
              sort_insert-goes cmp y z (sort_insert cmp x zs) k,
            )
            (cmp_self cmp laws z, sort_insert-swap x y zs)
      | inr k ↦ Alike-of_eq (pass_front x y z zs h k)
    ]
    | inr h ↦ elim (Ordering-cases (cmp y z)) [
      | inl k ↦ Alike-of_eq (sym (pass_front y x z zs k h))
      | inr k ↦
          rw (sort_insert-stays cmp x z zs h, sort_insert-stays cmp y z zs k)
            (front_swap x y (z ∷ zs) (sort_insert-stays cmp x z zs h)
              (sort_insert-stays cmp y z zs k))
    ]
  ]

  Alike-prop : (xs ys : List A) → IsProp (Alike cmp xs ys)
  Alike-prop [] [] = hlevel
  Alike-prop [] (y ∷ ys) = hlevel
  Alike-prop (x ∷ xs) [] = hlevel
  Alike-prop (x ∷ xs) (y ∷ ys) = hlevel (Alike-prop xs ys)

  sort-Alike : {xs ys : List A} → Permᴰ xs ys → Alike cmp (sort cmp xs) (sort cmp ys)
  unfolding sort
  sort-Alike Permᴰ.nil = tt
  sort-Alike (Permᴰ.cons {a} {b} {l₁ = l} {l₂ = m} e p) =
      rw e (sort_insert-Alike b (sort cmp l) (sort cmp m) (sort-Alike p))
  sort-Alike (Permᴰ.swap {a} {b} {l = l} e f) = rw (← e, ← f) (sort_insert-swap a b (sort cmp l))
  sort-Alike (Permᴰ.trans {l₁ = l} {l₂ = m} {l₃ = n} p q) =
      Alike-trans (sort cmp l) (sort cmp m) (sort cmp n) (sort-Alike p) (sort-Alike q)

  -- The order in which equal lists of elements arrive does not show in the sorted list.
  pub sort-canonical : (xs ys : List A) → Perm xs ys → Alike cmp (sort cmp xs) (sort cmp ys)
  sort-canonical xs ys p = ∥∥₁_elim p (Alike-prop _ _) sort-Alike

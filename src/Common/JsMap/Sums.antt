-- ===== src/Common/JsMap/Sums.antt =====
-- The sum of a number over the entries of a map, and how `set` changes it.
use mathlib.Core.Path.{◌≡◌}
use mathlib.Core.Option.{Option, none, some}
use mathlib.Core.List.{[], ◌∷◌}
use adaptive_financial_os.Common.Equality.{Eq}
use adaptive_financial_os.Common.Int.{ℤ, pos, ◌+ℤ◌, int_laws}
use adaptive_financial_os.Common.JsMap.{JsMap, get, set}

module _ {K V : Type 0} (f : V → ℤ) where
  abbrev pub sum_by : JsMap K V → ℤ
  sum_by [] = pos 0
  sum_by ((k, v) ∷ m) = f v +ℤ sum_by m

module _ {V : Type 0} (f : V → ℤ) where
  -- What a key that may be missing adds to the sum.
  abbrev pub value_of : Option V → ℤ
  value_of none = pos 0
  value_of (some v) = f v

module _ {K V : Type 0} ⦃e : Eq K⦄ (f : V → ℤ) where
  pub sum_by-set :
      (k : K) (v : V) (m : JsMap K V)
      → sum_by f (set k v m) +ℤ value_of f (get k m) ≡ sum_by f m +ℤ f v
  sum_by-set k v [] = omega int_laws
  sum_by-set k v ((j, w) ∷ m) = grind (int_laws, sum_by-set k v m)

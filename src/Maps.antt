-- ===== src/Maps.antt =====
-- The maps of Go, whose keys `==` compares, as association lists.
pub mod Laws
use finance_engine.Prelude.{Option, none, some, List, [], ◌∷◌, Comparable, ◌==◌, if◌then◌else◌}

module _ {K V : Type 0} ⦃c : Comparable K⦄ where
  -- `v, ok := m[key]`
  unfoldable pub lookup : K → List (K × V) → Option V
  lookup key [] = none
  lookup key ((k, v) ∷ m) = let rest = lookup key m in if k == key then some v else rest

  -- `m[key] = f(m[key])`, where a key that is not there has the value `zero`.
  unfoldable pub alter : V → (V → V) → K → List (K × V) → List (K × V)
  alter zero f key [] = (key, f zero) ∷ []
  alter zero f key ((k, v) ∷ m) =
      let rest = alter zero f key m in if k == key then (k, f v) ∷ m else (k, v) ∷ rest

-- The value, or that of a key which is not there.
abbrev pub or_else : {V : Type 0} → V → Option V → V
or_else v none = v
or_else v (some x) = x

-- ===== src/Table.antt =====
-- Tables of the database as lists of rows, and what the statements of internal/db/queries do to one:
-- SELECT, UPDATE, DELETE and count, each under a condition.
pub mod Laws
use finance_engine.Prelude.{
  ℕ, Bool, true, false, Option, none, some, List, [], ◌∷◌, if◌then◌else◌, suc, ◌≡◌, Comparable,
  ◌==◌,
}

module _ {ℓ} {A : Type ℓ} where
  -- The first row that meets the condition.
  unfoldable pub first : (A → Bool) → List A → Option A
  first p [] = none
  first p (x ∷ xs) = if p x then some x else first p xs

  -- `SELECT … WHERE p`
  unfoldable pub select : (A → Bool) → List A → List A
  select p [] = []
  select p (x ∷ xs) = if p x then x ∷ select p xs else select p xs

  -- `UPDATE … SET f WHERE p`
  unfoldable pub update : (A → Bool) → (A → A) → List A → List A
  update p f [] = []
  update p f (x ∷ xs) = (if p x then f x else x) ∷ update p f xs

  -- `DELETE … WHERE p`
  unfoldable pub delete : (A → Bool) → List A → List A
  delete p [] = []
  delete p (x ∷ xs) = if p x then delete p xs else x ∷ delete p xs

  -- `count(*) … WHERE p`
  unfoldable pub count : (A → Bool) → List A → ℕ
  count p [] = 0
  count p (x ∷ xs) = if p x then suc (count p xs) else count p xs

  -- Some row meets the condition.
  unfoldable pub exists : (A → Bool) → List A → Bool
  exists p [] = false
  exists p (x ∷ xs) = if p x then true else exists p xs

module _ {ℓ κ} {A : Type ℓ} {K : Type κ} ⦃e : Comparable K⦄ (key : A → K) where
  -- The condition `key = k`.
  abbrev pub having : K → A → Bool
  having k x = key x == k

  -- A primary key: no two rows share it.
  abbrev pub IsKeyed : List A → Type ℓ
  IsKeyed [] = Unit
  IsKeyed (x ∷ xs) = (first (having (key x)) xs ≡ none) × IsKeyed xs

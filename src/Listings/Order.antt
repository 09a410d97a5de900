-- ===== src/Listings/Order.antt =====
-- What a listing keeps of the rows: their number, and an order.
use finance_engine.Prelude.{suc, Bool, List, [], ◌∷◌, ◌≡◌, refl, ◌≤◌, arith, length}
use finance_engine.Schema.{Time}
use finance_engine.Table.{select, count}
use finance_engine.Listings.{newest, insert_newest}

module _ {A : Type 0} (at : A → Time) where
  -- No row is later than the one before it.
  abbrev pub IsSorted : List A → Type 0
  IsSorted [] = Unit
  IsSorted (x ∷ []) = Unit
  IsSorted (x ∷ y ∷ ys) = (at y ≤ at x) × IsSorted (y ∷ ys)

  IsSorted-insert_newest : (x : A) (ys : List A) → IsSorted ys → IsSorted (insert_newest at x ys)
  unfolding insert_newest
  IsSorted-insert_newest x [] s = tt
  IsSorted-insert_newest x (y ∷ []) s = ground arith
  IsSorted-insert_newest x (y ∷ z ∷ zs) s = ground (arith, IsSorted-insert_newest x (z ∷ zs) s.1)

  pub IsSorted-newest : (xs : List A) → IsSorted (newest at xs)
  unfolding newest
  IsSorted-newest [] = tt
  IsSorted-newest (x ∷ xs) = IsSorted-insert_newest x (newest at xs) (IsSorted-newest xs)

  count-insert_newest :
      (p : A → Bool) (x : A) (ys : List A) → count p (insert_newest at x ys) ≡ count p (x ∷ ys)
  unfolding insert_newest count
  count-insert_newest p x [] = refl
  count-insert_newest p x (y ∷ ys) = ground (arith, count-insert_newest p x ys)

  -- Sorting keeps the number of rows of every kind.
  pub count-newest : (p : A → Bool) (xs : List A) → count p (newest at xs) ≡ count p xs
  unfolding newest count
  count-newest p [] = refl
  count-newest p (x ∷ xs) =
      ground (arith, count-insert_newest p x (newest at xs), count-newest p xs)

  length-insert_newest : (x : A) (ys : List A) → length (insert_newest at x ys) ≡ suc (length ys)
  unfolding insert_newest
  length-insert_newest x [] = refl
  length-insert_newest x (y ∷ ys) = ground (arith, length-insert_newest x ys)

  pub length-newest : (xs : List A) → length (newest at xs) ≡ length xs
  unfolding newest
  length-newest [] = refl
  length-newest (x ∷ xs) = ground (arith, length-insert_newest x (newest at xs), length-newest xs)

pub length-select : {A : Type 0} (p : A → Bool) (xs : List A) → length (select p xs) ≡ count p xs
unfolding select count
length-select p [] = refl
length-select p (x ∷ xs) = ground (arith, length-select p xs)

-- ===== src/Listings/Stable.antt =====
-- A selection from rows in order of time: the order of the selected rows.
use finance_engine.Prelude.{
  Bool, List, [], ◌∷◌, ◌≡◌, refl, ◌∙◌, ◌≤◌, arith, All, if◌then◌else◌, Bool-cases, inl, inr, ltb,
}
use finance_engine.Schema.{Time}
use finance_engine.Table.{select}
use finance_engine.Listings.{newest, insert_newest}
use finance_engine.Listings.Order.{IsSorted, IsSorted-newest}

module _ {A : Type 0} (at : A → Time) where
  -- Every row is at most as late.
  abbrev IsBelow : Time → List A → Type 0
  IsBelow t ys = All (λ y. at y ≤ t) ys

  IsBelow-mono : (t t' : Time) (ys : List A) → t ≤ t' → IsBelow t ys → IsBelow t' ys
  IsBelow-mono t t' [] h below = tt
  IsBelow-mono t t' (y ∷ ys) h below = (omega arith, IsBelow-mono t t' ys h below.1)

  IsSorted-IsBelow : (y : A) (ys : List A) → IsSorted at (y ∷ ys) → IsBelow (at y) ys
  IsSorted-IsBelow y [] s = tt
  IsSorted-IsBelow y (z ∷ zs) s =
      (s.0, IsBelow-mono (at z) (at y) zs s.0 (IsSorted-IsBelow z zs s.1))

  IsSorted-tail : (y : A) (ys : List A) → IsSorted at (y ∷ ys) → IsSorted at ys
  IsSorted-tail y [] s = tt
  IsSorted-tail y (z ∷ zs) s = s.1

  IsBelow-select : (p : A → Bool) (t : Time) (ys : List A) → IsBelow t ys → IsBelow t (select p ys)
  unfolding select
  IsBelow-select p t [] h = tt
  IsBelow-select p t (y ∷ ys) h = elim (Bool-cases (p y)) [
    | inl kept ↦ rw kept (h.0, IsBelow-select p t ys h.1)
    | inr left ↦ rw left (IsBelow-select p t ys h.1)
  ]

  insert_newest-IsBelow : (x : A) (ys : List A) → IsBelow (at x) ys → insert_newest at x ys ≡ x ∷ ys
  unfolding insert_newest
  insert_newest-IsBelow x [] h = refl
  insert_newest-IsBelow x (y ∷ ys) h = ground arith

  select-insert_newest :
      (p : A → Bool) (x : A) (ys : List A)
      → IsSorted at ys
      → select p (insert_newest at x ys)
        ≡ (if p x then insert_newest at x (select p ys) else select p ys)
  unfolding select insert_newest
  select-insert_newest p x [] s = ground arith
  select-insert_newest p x (y ∷ ys) s =
      let ih = select-insert_newest p x ys (IsSorted-tail y ys s) in
      let below = IsSorted-IsBelow y ys s in
      elim (Bool-cases (ltb (at x) (at y))) [
        | inl later ↦ ground (arith, ih)
        | inr sooner ↦ ground (
          arith,
          insert_newest-IsBelow x (select p ys)
              (IsBelow-select p (at x) ys (IsBelow-mono (at y) (at x) ys (ground arith) below)),
        )
      ]

  -- To select among the rows in order is to put the selected rows in order.
  pub select-newest :
      (p : A → Bool) (xs : List A) → select p (newest at xs) ≡ newest at (select p xs)
  unfolding newest select
  select-newest p [] = refl
  select-newest p (x ∷ xs) =
      select-insert_newest p x (newest at xs) (IsSorted-newest at xs)
      ∙ ground (arith, select-newest p xs)

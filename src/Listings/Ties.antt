-- ===== src/Listings/Ties.antt =====
-- The order of a listing whose rows have different times: it does not depend on the order that the rows came in.
use finance_engine.Prelude.{
  suc, Bool, List, [], ◌∷◌, ◌==◌, nat_eq, if◌then◌else◌, ◌≡◌, ◌≢◌, refl, ◌∙◌, ◌≤◌, arith, ==-refl,
}
use mathlib.Core.List.Permᴰ.{Permᴰ, nil, cons, swap, trans}
use mathlib.Core.Path.{subst}
use finance_engine.Schema.{Time}
use finance_engine.Table.{count}
use finance_engine.Listings.{newest, insert_newest}

module _ {A : Type 0} where
  count_swap : (p : A → Bool) (x y : A) (xs : List A) → count p (x ∷ y ∷ xs) ≡ count p (y ∷ x ∷ xs)
  unfolding count
  count_swap p x y xs = ground arith

  pub count-Permᴰ : (p : A → Bool) {xs ys : List A} → Permᴰ xs ys → count p xs ≡ count p ys
  unfolding count
  count-Permᴰ p nil = refl
  count-Permᴰ p (cons e h) = λ i. if p (e i) then suc (count-Permᴰ p h i) else count-Permᴰ p h i
  count-Permᴰ p (swap {a} {b} {l = xs} e e') = count_swap p a b xs ∙ λ i. count p (e' i ∷ e i ∷ xs)
  count-Permᴰ p (trans h h') = count-Permᴰ p h ∙ count-Permᴰ p h'

module _ {A : Type 0} (at : A → Time) where
  insert_newest_comm :
      (x y : A) (xs : List A)
      → at x ≢ at y
      → insert_newest at x (insert_newest at y xs) ≡ insert_newest at y (insert_newest at x xs)
  unfolding insert_newest
  insert_newest_comm x y [] ne = ground arith
  insert_newest_comm x y (z ∷ zs) ne = ground (arith, insert_newest_comm x y zs ne)

  -- No two rows are of one time.
  abbrev pub Apart : List A → Type 0
  Apart xs = (t : Time) → count (λ x. at x == t) xs ≤ 1

  Apart-ne : (x y : A) (xs : List A) → Apart (x ∷ y ∷ xs) → at x ≢ at y
  unfolding count
  Apart-ne x y xs apart same = let two = apart (at y) in absurd (ground (arith, ==-refl (at y)))

  Apart-tail : (x : A) (xs : List A) → Apart (x ∷ xs) → Apart xs
  unfolding count
  Apart-tail x xs apart t = ground (arith, apart t)

  pub newest-Permᴰ : {xs ys : List A} → Permᴰ xs ys → Apart xs → newest at xs ≡ newest at ys
  unfolding newest
  newest-Permᴰ nil apart = refl
  newest-Permᴰ (cons {a} {l₁ = xs} e h) apart =
      λ i. insert_newest at (e i) (newest-Permᴰ h (Apart-tail a xs apart) i)
  newest-Permᴰ (swap {a} {b} {l = xs} e e') apart =
      insert_newest_comm a b (newest at xs) (Apart-ne a b xs apart) ∙ λ i.
      insert_newest at (e' i) (insert_newest at (e i) (newest at xs))
  newest-Permᴰ (trans h h') apart =
      newest-Permᴰ h apart
      ∙ newest-Permᴰ h' (λ t. subst (λ n. n ≤ 1) (count-Permᴰ (λ x. at x == t) h) (apart t))

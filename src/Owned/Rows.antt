-- ===== src/Owned/Rows.antt =====
-- Selections from a table, before and after a statement on other rows.
use finance_engine.Prelude.{Bool, true, false, List, [], ◌∷◌, ◌≡◌, refl, Bool-cases, inl, inr, All}
use finance_engine.Table.{select, update}

module _ {A : Type 0} (keep : A → Bool) where
  pub select_insert : (x : A) (xs : List A) → keep x ≡ false → select keep (x ∷ xs) ≡ select keep xs
  unfolding select
  select_insert x xs other = rw other refl

  pub select-update_other :
      (p : A → Bool) (f : A → A) (xs : List A)
      → ((x : A) → p x ≡ true → (keep x ≡ false) × (keep (f x) ≡ false))
      → select keep (update p f xs) ≡ select keep xs
  unfolding select update
  select-update_other p f [] h = refl
  select-update_other p f (x ∷ xs) h = elim (Bool-cases (p x)) [
    | inl hit ↦ rw (hit, (h x hit).0, (h x hit).1) (select-update_other p f xs h)
    | inr miss ↦ rw (miss, select-update_other p f xs h) refl
  ]

  -- An update that the selection does not show, and that leaves the selected rows as they are.
  pub select-update_fixed :
      (p : A → Bool) (f : A → A) (xs : List A)
      → ((x : A) → keep (f x) ≡ keep x)
      → All (λ x. p x ≡ true → keep x ≡ true → f x ≡ x) xs
      → select keep (update p f xs) ≡ select keep xs
  unfolding select update
  select-update_fixed p f [] same fixed = refl
  select-update_fixed p f (x ∷ xs) same fixed =
      let rest = select-update_fixed p f xs same fixed.1 in
      elim (Bool-cases (p x)) [
        | inr miss ↦ rw (miss, rest) refl
        | inl hit ↦ elim (Bool-cases (keep x)) [
          | inr other ↦ rw (hit, same x, other) rest
          | inl mine ↦ rw (hit, fixed.0 hit mine, mine, rest) refl
        ]
      ]

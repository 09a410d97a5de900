-- ===== src/Table/Laws.antt =====
-- How the statements on a table meet: what is found after an update, an insertion or a deletion.
use finance_engine.Prelude.{
  Bool, true, false, not, Option, none, some, List, [], ◌∷◌, ◌≡◌, refl, Comparable, ◌==◌,
  if◌then◌else◌, arith, Bool-cases, inl, inr, ◌+◌, length, ◌&&◌, ap, ==-refl, if_both, All,
}
use mathlib.Core.Option
use finance_engine.Table.{first, select, update, delete, count, exists, having, IsKeyed}

module _ {ℓ} {A : Type ℓ} where
  -- An update that keeps the condition shows in what the condition finds.
  pub first-update_self :
      (p : A → Bool) (f : A → A) (xs : List A)
      → ((x : A) → p (f x) ≡ p x)
      → first p (update p f xs) ≡ Option.map f (first p xs)
  unfolding first update
  first-update_self p f [] h = refl
  first-update_self p f (x ∷ xs) h = elim (Bool-cases (p x)) [
    | inl hit ↦ rw (hit, h x, hit) refl
    | inr miss ↦ rw (miss, miss) (first-update_self p f xs h)
  ]

  -- An update of rows that another condition never meets, before or after, does not show in it.
  -- An update that the search does not see: the row found is the one found before, updated if it was meant.
  pub first-update :
      (q p : A → Bool) (f : A → A) (xs : List A)
      → ((x : A) → q (f x) ≡ q x)
      → first q (update p f xs) ≡ Option.map (λ x. if p x then f x else x) (first q xs)
  unfolding first update
  first-update q p f [] keep = refl
  first-update q p f (x ∷ xs) keep = ground (arith, first-update q p f xs keep, keep x)

  pub first-update_other :
      (p q : A → Bool) (f : A → A) (xs : List A)
      → ((x : A) → p x ≡ true → (q x ≡ false) × (q (f x) ≡ false))
      → first q (update p f xs) ≡ first q xs
  unfolding first update
  first-update_other p q f [] h = refl
  first-update_other p q f (x ∷ xs) h = elim (Bool-cases (p x)) [
    | inl hit ↦ rw (hit, (h x hit).0, (h x hit).1) (first-update_other p q f xs h)
    | inr miss ↦ rw (miss, first-update_other p q f xs h) refl
  ]

  pub first-holds : (p : A → Bool) (xs : List A) {x : A} → first p xs ≡ some x → p x ≡ true
  unfolding first
  first-holds p [] h = cc
  first-holds p (y ∷ xs) h = elim (Bool-cases (p y)) [
    | inl hit ↦ ground (arith, hit)
    | inr miss ↦ first-holds p xs (rw miss at h)
  ]

  pub first-select :
      (p q : A → Bool) (xs : List A)
      → ((x : A) → q x ≡ true → p x ≡ true)
      → first q (select p xs) ≡ first q xs
  unfolding first select
  first-select p q [] h = refl
  first-select p q (x ∷ xs) h = elim (Bool-cases (q x)) [
    | inl hit ↦ rw (h x hit, hit)
    | inr miss ↦ ground (arith, miss, first-select p q xs h)
  ]

  -- A deletion removes what its condition finds, and keeps the rest.
  pub delete-eq-select : (p : A → Bool) (xs : List A) → delete p xs ≡ select (λ x. not (p x)) xs
  unfolding delete select
  delete-eq-select p [] = refl
  delete-eq-select p (x ∷ xs) = ground (arith, delete-eq-select p xs)

  -- An update that the condition does not see leaves the other rows as they were.
  pub delete-update :
      (p : A → Bool) (f : A → A) (xs : List A)
      → ((x : A) → p (f x) ≡ p x)
      → delete p (update p f xs) ≡ delete p xs
  unfolding delete update
  delete-update p f [] keep = refl
  delete-update p f (x ∷ xs) keep = ground (arith, delete-update p f xs keep, keep x)

  pub length-delete : (p : A → Bool) (xs : List A) → length (delete p xs) + count p xs ≡ length xs
  unfolding delete count
  length-delete p [] = omega arith
  length-delete p (x ∷ xs) = ground (arith, length-delete p xs)

  pub delete-delete :
      (p q : A → Bool) (xs : List A)
      → delete p (delete q xs) ≡ select (λ x. not (p x) && not (q x)) xs
  unfolding delete select
  delete-delete p q [] = refl
  delete-delete p q (x ∷ xs) = ground (arith, delete-delete p q xs)

  pub exists-update :
      (q p : A → Bool) (f : A → A) (xs : List A)
      → ((x : A) → q (f x) ≡ q x)
      → exists q (update p f xs) ≡ exists q xs
  unfolding exists update
  exists-update q p f [] keep = refl
  exists-update q p f (x ∷ xs) keep = ground (arith, exists-update q p f xs keep, keep x)

  pub exists-delete :
      (q p : A → Bool) (xs : List A) → exists q xs ≡ false → exists q (delete p xs) ≡ false
  unfolding exists delete
  exists-delete q p [] h = refl
  exists-delete q p (x ∷ xs) h = ground (arith, exists-delete q p xs)

  pub select_cong :
      (p q : A → Bool) (xs : List A) → ((x : A) → p x ≡ q x) → select p xs ≡ select q xs
  unfolding select
  select_cong p q [] h = refl
  select_cong p q (x ∷ xs) h = ground (arith, select_cong p q xs h, h x)

  -- A deletion of rows that a selection leaves out does not show in it.
  pub select-delete :
      (keep p : A → Bool) (xs : List A)
      → ((x : A) → p x ≡ true → keep x ≡ false)
      → select keep (delete p xs) ≡ select keep xs
  unfolding select delete
  select-delete keep p [] h = refl
  select-delete keep p (x ∷ xs) h = elim (Bool-cases (p x)) [
    | inl gone ↦ rw (gone, h x gone) (select-delete keep p xs h)
    | inr stays ↦ rw (stays, select-delete keep p xs h) refl
  ]

  pub first-none-exists : (p : A → Bool) (xs : List A) → first p xs ≡ none → exists p xs ≡ false
  unfolding first exists
  first-none-exists p [] h = refl
  first-none-exists p (x ∷ xs) h = ground (arith, first-none-exists p xs)

  pub exists_of_first :
      (p : A → Bool) (xs : List A) {x : A} → first p xs ≡ some x → exists p xs ≡ true
  unfolding first exists
  exists_of_first p [] h = cc
  exists_of_first p (y ∷ xs) {x} h = ground (arith, exists_of_first p xs {x = x})

  pub exists-false-first : (p : A → Bool) (xs : List A) → exists p xs ≡ false → first p xs ≡ none
  unfolding first exists
  exists-false-first p [] h = refl
  exists-false-first p (x ∷ xs) h = ground (arith, exists-false-first p xs)

module _ {ℓ κ} {A : Type ℓ} {K : Type κ} ⦃e : Comparable K⦄ (key : A → K) where
  having_sound : (k : K) (x : A) → having key k x ≡ true → key x ≡ k
  having_sound k x h = (e.same_iff (key x) k).0 h

  -- In a table with a primary key, a row that any condition finds is the row with its key.
  pub first-first :
      (p : A → Bool) (xs : List A) {x : A}
      → IsKeyed key xs
      → first p xs ≡ some x
      → first (having key (key x)) xs ≡ some x
  unfolding first
  first-first p [] v h = cc
  first-first p (y ∷ xs) {x} v h = elim (Bool-cases (p y)) [
    | inl hit ↦
        let found : ◌≡◌ {A = Option A} (some y) (some x) = rw hit at h in
        let same : y ≡ x = cc in rw (same, ==-refl (key x))
    | inr miss ↦
        let rest = first-first p xs v.1 (rw miss at h) in
        elim (Bool-cases (key y == key x)) [
          | inl same ↦
              absurd
                (cc (v.0, rest, ap (λ k. first (having key k) xs) (having_sound (key x) y same)))
          | inr other ↦ rw other rest
        ]
  ]

module _ {ℓ} {A : Type ℓ} where
  -- An update that keeps a condition finds no row where there was none.
  pub first-update-none :
      (p q : A → Bool) (f : A → A) (xs : List A)
      → ((x : A) → q (f x) ≡ q x)
      → first q xs ≡ none
      → first q (update p f xs) ≡ none
  unfolding first update
  first-update-none p q f [] keep h = refl
  first-update-none p q f (x ∷ xs) keep h = ground (arith, keep x, first-update-none p q f xs keep)

  pub update-none :
      (p : A → Bool) (f : A → A) (xs : List A) → first p xs ≡ none → update p f xs ≡ xs
  unfolding first update
  update-none p f [] h = refl
  update-none p f (x ∷ xs) h = ground (arith, update-none p f xs)

module _ {ℓ κ} {A : Type ℓ} {K : Type κ} ⦃e : Comparable K⦄ (key : A → K) where
  pub IsKeyed-update :
      (p : A → Bool) (f : A → A) (xs : List A)
      → ((x : A) → key (f x) ≡ key x)
      → IsKeyed key xs
      → IsKeyed key (update p f xs)
  unfolding update
  IsKeyed-update p f [] keep v = tt
  IsKeyed-update p f (x ∷ xs) keep v = (
    rw (if_both (λ y. key y ≡ key x) (p x) (f x) x (keep x) refl)
        (first-update-none p (having key (key x)) f xs (λ y. ap (λ k. k == key x) (keep y)) v.0),
    IsKeyed-update p f xs keep v.1,
  )

  -- A row found by its key is the only one that an update by the key touches.
  pub All-update {μ} :
      (P : A → Type μ) (k : K) (f : A → A) (xs : List A)
      → IsKeyed key xs
      → ((x : A) → first (having key k) xs ≡ some x → P x → P (f x))
      → All P xs
      → All P (update (having key k) f xs)
  unfolding update first
  All-update P k f [] v step all = tt
  All-update P k f (x ∷ xs) v step all = elim (Bool-cases (key x == k)) [
    | inl hit ↦
        let k' = having_sound key k x hit in
        rw hit (step x (rw hit) all.0, rw (update-none (having key k) f xs (rw k' at v.0)) all.1)
    | inr miss ↦ rw miss (all.0, All-update P k f xs v.1 (λ y h. step y (rw miss h)) all.1)
  ]

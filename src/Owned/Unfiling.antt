-- ===== src/Owned/Unfiling.antt =====
-- internal/repository/category.go: the deletion of a category, which takes it from the transactions filed under
-- it, whoever owns them.
use finance_engine.Prelude.{
  Bool, Option, true, not, ◌&&◌, some, List, [], ◌∷◌, ◌==◌, nat_eq, ◌≡◌, ◌≢◌, refl, sym, ap, ◌∙◌,
  Bool-cases, inl, inr, nat_beq_iff, arith,
}
use mathlib.Core.Path.{subst}
use finance_engine.Schema.{Uuid, Category, Transaction}
use finance_engine.Store.{World}
use finance_engine.Table.{first, exists, IsKeyed}
use finance_engine.Table.Laws.{select-delete, first-first, first-holds}
use finance_engine.Categories.{
  is_category, is_deletable, unfile, delete_owned_category, delete_category,
}
use finance_engine.Filing.Rows.{IsFiled, IsUsable}
use finance_engine.Filing.Queries.{Filed, All-map}
use finance_engine.Owned.{view}
use finance_engine.Owned.Rows.{select-update_fixed}
use finance_engine.Owned.Writes.{other}
use finance_engine.Owned.Queries.{next-Spares, refuse_if-Spares}

first_of_exists :
    {A : Type 0} (p : A → Bool) (xs : List A) → exists p xs ≡ true → (x : A) × (first p xs ≡ some x)
unfolding first exists
first_of_exists p [] h = absurd (cc h)
first_of_exists p (x ∷ xs) h = elim (Bool-cases (p x)) [
  | inl hit ↦ (x, rw hit refl)
  | inr miss ↦ let (y, e) = first_of_exists p xs (rw miss at h) in (y, rw miss e)
]

three : (a b c : Bool) → (a && (b && c)) ≡ true → (a ≡ true) × (b ≡ true)
three a b c h = ground (arith, h)

module _ (i j k : Uuid) (cs : List Category) (real : i ≢ 0) (ne : i ≢ j)
    (keyed : IsKeyed (λ (c : Category). c.id) cs) where
  -- A category that `i` may delete is not one that `j` may use.
  deletable-IsUsable : exists (is_deletable k i) cs ≡ true → ¬ IsUsable k j cs
  deletable-IsUsable there u =
      let (d, found) = first_of_exists (is_deletable k i) cs there in
      let holds = first-holds (is_deletable k i) cs found in
      let (at, mine) = three (d.id == k) (d.user_id == i) (not d.is_default) holds in
      let same_id = (nat_beq_iff d.id k).0 at in
      let owner = (nat_beq_iff d.user_id i).0 mine in
      let by_id = first-first (λ (c : Category). c.id) (is_deletable k i) cs keyed found in
      let by_k : first (is_category k) cs ≡ some d =
        ap (λ n. first (is_category n) cs) (sym same_id) ∙ by_id in
      let same : ◌≡◌ {A = Option Category} (some u.category) (some d) = sym u.there ∙ by_k in
      elim u.shared_or_own [
        | inl shared ↦ real (cc (same, owner, shared))
        | inr own ↦ ne (cc (same, owner, own))
      ]

  unfile_fixed :
      (t : Transaction)
      → exists (is_deletable k i) cs ≡ true
      → IsFiled cs t
      → (t.category_id == k) ≡ true
      → (t.user_id == j) ≡ true
      → unfile t ≡ t
  unfile_fixed t there (inl bare) at mine = sym (ap (λ c. record t { category_id = c }) bare)
  unfile_fixed t there (inr u) at mine =
      let same_id = (nat_beq_iff t.category_id k).0 at in
      let owner = (nat_beq_iff t.user_id j).0 mine in
      absurd (
        deletable-IsUsable there
          (subst (λ o. IsUsable k o cs) owner (subst (λ c. IsUsable c t.user_id cs) same_id u)))

-- Where each transaction stands in a category of its user, a user's deletion of a category does not show to
-- another user.
pub delete_owned_category-view :
    (i j k : Uuid) (w : World)
    → i ≢ 0
    → i ≢ j
    → IsKeyed (λ (c : Category). c.id) w.db.categories
    → Filed w
    → view j (delete_owned_category k i w).1.db ≡ view j w.db
unfolding delete_owned_category view
delete_owned_category-view i j k w real ne keyed v = elim (Bool-cases (w.down w.queries)) [
  | inl failed ↦ rw failed refl
  | inr up ↦ elim (Bool-cases (exists (is_deletable k i) w.db.categories)) [
    | inr missing ↦ rw (up, missing) refl
    | inl there ↦
        rw
          (
            up,
            there,
            select-delete (λ (c : Category). c.user_id == j) (is_deletable k i) w.db.categories
                (λ c hit.
                  other c.user_id i j ne
                    (three (c.id == k) (c.user_id == i) (not c.is_default) hit).1),
            select-update_fixed (λ (t : Transaction). t.user_id == j) (λ t. t.category_id == k)
                unfile w.db.transactions (λ t. refl)
                (All-map (IsFiled w.db.categories) _ w.db.transactions
                  (λ t filed. unfile_fixed i j k w.db.categories real ne keyed t there filed)
                  v.filed),
          )
          refl
  ]
]

-- The same of the service's call.
pub delete_category-view :
    (i j k : Uuid) (w : World)
    → i ≢ 0
    → i ≢ j
    → IsKeyed (λ (c : Category). c.id) w.db.categories
    → Filed w
    → view j (delete_category i k w).1.db ≡ view j w.db
unfolding delete_category
delete_category-view i j k w real ne keyed v =
    next-Spares j _ (delete_owned_category k i w) (view j w.db)
      (delete_owned_category-view i j k w real ne keyed v) (λ found. refuse_if-Spares j _ _)

-- ===== src/Filing/Rows.antt =====
-- internal/repository/category.go: the categories that a transaction may stand in, row by row.
use finance_engine.Prelude.{
  Bool, true, false, not, some, List, ◌∷◌, ◌==◌, string_eq, nat_eq, if◌then◌else◌, ◌≡◌, refl, ap,
  ◌∙◌, Bool-cases, inl, inr, ◌⊎◌, nat_beq_iff,
}
use mathlib.Core.Option
use finance_engine.Schema.{Uuid, Category, Transaction}
use finance_engine.Table.{first, exists, update, delete}
use finance_engine.Table.Laws.{first-update, first-select, delete-eq-select, exists_of_first}
use finance_engine.Categories.{is_category, is_deletable, unfile}

-- A category that a user may use: a shared one, or the user's own.
pub record IsUsable (i user_id : Uuid) (cs : List Category) : Type 0 where
  pub category : Category
  pub there : first (is_category i) cs ≡ some category
  pub shared_or_own : (category.user_id ≡ 0) ⊎ (category.user_id ≡ user_id)

abbrev pub IsFiled : List Category → Transaction → Type 0
IsFiled cs t = (t.category_id ≡ 0) ⊎ IsUsable t.category_id t.user_id cs

-- A new category hides no other, since its id is new.
pub insert-IsFiled :
    (c : Category) (cs : List Category) (t : Transaction)
    → exists (is_category c.id) cs ≡ false
    → IsFiled cs t
    → IsFiled (c ∷ cs) t
unfolding first
insert-IsFiled c cs t fresh (inl bare) = inl bare
insert-IsFiled c cs t fresh (inr u) = elim (Bool-cases (c.id == t.category_id)) [
  | inl taken ↦
      let e = (nat_beq_iff c.id t.category_id).0 taken in
      absurd (cc (exists_of_first (is_category t.category_id) cs u.there, rw e at fresh))
  | inr other ↦
      inr (record {
        category = u.category;
        there = rw other u.there;
        shared_or_own = u.shared_or_own;
      })
]

-- A change of a category that keeps its id and its user.
pub update-IsFiled :
    (p : Category → Bool) (g : Category → Category) (cs : List Category) (t : Transaction)
    → ((c : Category) → (g c).id ≡ c.id)
    → ((c : Category) → (g c).user_id ≡ c.user_id)
    → IsFiled cs t
    → IsFiled (update p g cs) t
update-IsFiled p g cs t id user (inl bare) = inl bare
update-IsFiled p g cs t id user (inr u) =
    let found =
      first-update (is_category t.category_id) p g cs (λ x. ap (λ i. i == t.category_id) (id x))
      ∙ ap (Option.map (λ x. if p x then g x else x)) u.there in
    elim (Bool-cases (p u.category)) [
      | inl hit ↦ inr (record {
        category = g u.category;
        there = rw found (rw hit);
        shared_or_own = rw (user u.category) u.shared_or_own;
      })
      | inr miss ↦ inr (record {
        category = u.category;
        there = rw found (rw miss);
        shared_or_own = u.shared_or_own;
      })
    ]

-- A deletion of one category leaves the transactions in other ones as they were.
pub delete-IsFiled :
    (i u : Uuid) (cs : List Category) (t : Transaction)
    → IsFiled cs t
    → IsFiled (delete (is_deletable i u) cs) (if t.category_id == i then unfile t else t)
delete-IsFiled i u cs t f = elim (Bool-cases (t.category_id == i)) [
  | inl gone ↦ rw gone (inl refl)
  | inr other ↦ rw other (kept other f)
]
  where
    kept : (t.category_id == i) ≡ false → IsFiled cs t → IsFiled (delete (is_deletable i u) cs) t
    kept other (inl bare) = inl bare
    kept other (inr v) =
        let stays : (c : Category)
            → is_category t.category_id c ≡ true
            → not (is_deletable i u c) ≡ true =
          λ c mine. let e = (nat_beq_iff c.id t.category_id).0 mine in rw (e, other) in
        inr (record {
          category = v.category;
          there = rw (delete-eq-select (is_deletable i u) cs) (
              first-select (λ c. not (is_deletable i u c)) (is_category t.category_id) cs stays
              ∙ v.there);
          shared_or_own = v.shared_or_own;
        })

-- ===== src/Filing/Queries.antt =====
-- internal/repository/category.go and transaction.go: the categories of transactions, query by query.
use finance_engine.Prelude.{
  String, Bool, false, not, ◌&&◌, ◌||◌, Option, List, [], ◌∷◌, ◌==◌, string_eq, nat_eq,
  if◌then◌else◌, ◌≡◌, refl, arith, Bool-cases, Option-cases, inl, inr, ◌⊎◌, nat_beq_iff, All,
}
use finance_engine.Schema.{Uuid, Time, Category, Transaction}
use finance_engine.Store.{World, ok, refuse_if}
use finance_engine.Table.{first, exists, update, delete}
use finance_engine.Users.{has_id}
use finance_engine.Categories.{
  is_category, get_category, insert_category, update_translations, delete_owned_category,
  is_deletable, unfile, heal_translations,
}
use finance_engine.Transactions.{
  is_owned, is_transaction, refers, edited, insert, update_for_user, check_category,
  delete_for_user, delete_expired_for_plan,
}
use finance_engine.Retention.{sweep_plans}
use finance_engine.Plan.{retention_days}
use finance_engine.Filing.Rows.{IsUsable, IsFiled, insert-IsFiled, update-IsFiled, delete-IsFiled}

module _ {A : Type 0} where
  All-update :
      (P Q : A → Type 0) (p : A → Bool) (f : A → A) (xs : List A)
      → ((x : A) → P x → Q (if p x then f x else x))
      → All P xs
      → All Q (update p f xs)
  unfolding update
  All-update P Q p f [] step all = tt
  All-update P Q p f (x ∷ xs) step all = (step x all.0, All-update P Q p f xs step all.1)

  All-delete : (P : A → Type 0) (p : A → Bool) (xs : List A) → All P xs → All P (delete p xs)
  unfolding delete
  All-delete P p [] all = tt
  All-delete P p (x ∷ xs) all = elim (Bool-cases (p x)) [
    | inl gone ↦ rw gone (All-delete P p xs all.1)
    | inr stays ↦ rw stays (all.0, All-delete P p xs all.1)
  ]

  pub All-map : (P Q : A → Type 0) (xs : List A) → ((x : A) → P x → Q x) → All P xs → All Q xs
  All-map P Q [] step all = tt
  All-map P Q (x ∷ xs) step all = (step x all.0, All-map P Q xs step all.1)

-- Every transaction stands in no category, a shared one, or one of its own user.
pub record Filed (w : World) : Type 0 where
  pub filed : All (IsFiled w.db.categories) w.db.transactions

pub get_category-Filed : (i : Uuid) (w : World) → Filed w → Filed (get_category i w).1
unfolding get_category
get_category-Filed i w v = elim (Bool-cases (w.down w.queries)) [
  | inl failed ↦ rw failed (record { filed = v.filed })
  | inr up ↦ rw up (record { filed = v.filed })
]

pub insert_category-Filed : (c : Category) (w : World) → Filed w → Filed (insert_category c w).1
unfolding insert_category
insert_category-Filed c w v = elim (Bool-cases (w.down w.queries)) [
  | inl failed ↦ rw failed (record { filed = v.filed })
  | inr up ↦
      elim (Bool-cases
        (exists (is_category c.id) w.db.categories || not (exists (has_id c.user_id) w.db.users))) [
          | inl clash ↦ rw (up, clash) (record { filed = v.filed })
          | inr free ↦
              let fresh : exists (is_category c.id) w.db.categories ≡ false = ground arith in
              rw (up, free)
                (record {
                  filed =
                      All-map (IsFiled w.db.categories) _ w.db.transactions
                        (λ t. insert-IsFiled c w.db.categories t fresh) v.filed;
                })
        ]
]

pub update_translations-Filed :
    (i : Uuid) (uk en : String) (w : World) → Filed w → Filed (update_translations i uk en w).1
unfolding update_translations
update_translations-Filed i uk en w v = elim (Bool-cases (w.down w.queries)) [
  | inl failed ↦ rw failed (record { filed = v.filed })
  | inr up ↦ rw up (record {
    filed =
        All-map (IsFiled w.db.categories) _ w.db.transactions
          (λ t. update-IsFiled (is_category i) _ w.db.categories t (λ _. refl) (λ _. refl)) v.filed;
  })
]

pub delete_owned_category-Filed :
    (i u : Uuid) (w : World) → Filed w → Filed (delete_owned_category i u w).1
unfolding delete_owned_category
delete_owned_category-Filed i u w v = elim (Bool-cases (w.down w.queries)) [
  | inl failed ↦ rw failed (record { filed = v.filed })
  | inr up ↦ elim (Bool-cases (exists (is_deletable i u) w.db.categories)) [
    | inl there ↦
        rw (up, there)
          (record {
            filed =
                All-update (IsFiled w.db.categories) _ (λ t. t.category_id == i) unfile
                  w.db.transactions (λ t. delete-IsFiled i u w.db.categories t) v.filed;
          })
    | inr missing ↦ rw (up, missing) (record { filed = v.filed })
  ]
]

pub heal_translations-Filed :
    (cs : List (Category × (String × String))) (w : World)
    → Filed w
    → Filed (heal_translations cs w).1
unfolding heal_translations
heal_translations-Filed [] w v = v
heal_translations-Filed ((c, (uk, en)) ∷ cs) w v =
    elim (Bool-cases (not (c.name_uk == "") && not (c.name_en == ""))) [
      | inl whole ↦ rw (whole, heal_translations) (heal_translations-Filed cs w v)
      | inr partial ↦ elim (Bool-cases (uk == "" && en == "")) [
        | inl nothing ↦ rw (partial, nothing, heal_translations) v
        | inr some_text ↦
            rw (partial, some_text, heal_translations)
              (heal_translations-Filed cs _ (update_translations-Filed c.id uk en w v))
      ]
    ]

pub delete_for_user-Filed : (i u : Uuid) (w : World) → Filed w → Filed (delete_for_user i u w).1
unfolding delete_for_user
delete_for_user-Filed i u w v = elim (Bool-cases (w.down w.queries)) [
  | inl failed ↦ rw failed (record { filed = v.filed })
  | inr up ↦ rw up (record {
    filed = All-delete (IsFiled w.db.categories) (is_owned i u) w.db.transactions v.filed;
  })
]

pub delete_expired_for_plan-Filed :
    (p : String) (t : Time) (w : World) → Filed w → Filed (delete_expired_for_plan p t w).1
unfolding delete_expired_for_plan
delete_expired_for_plan-Filed p t w v = elim (Bool-cases (w.down w.queries)) [
  | inl failed ↦ rw failed (record { filed = v.filed })
  | inr up ↦
      rw up (record { filed = All-delete (IsFiled w.db.categories) _ w.db.transactions v.filed })
]

pub sweep_plans-Filed :
    (clock : String → Time) (ps : List String) (w : World)
    → Filed w
    → Filed (sweep_plans clock ps w).1
unfolding sweep_plans
sweep_plans-Filed clock [] w v = v
sweep_plans-Filed clock (p ∷ ps) w v = elim (Option-cases (retention_days p)) [
  | inl unlimited ↦ rw (unlimited, sweep_plans) (sweep_plans-Filed clock ps w v)
  | inr (days, limited) ↦
      rw (limited, sweep_plans)
        (sweep_plans-Filed clock ps _ (delete_expired_for_plan-Filed p _ w v))
]

pub refused-Filed :
    (bad : Bool) (message : String) (w : World) → Filed w → Filed (refuse_if bad message w).1
unfolding refuse_if
refused-Filed bad message w v = v

-- An edit moves a row of the user to a category that this user may use.
edited-IsFiled :
    (p : Transaction) (now : Time) (cs : List Category)
    → IsFiled cs p
    → (t : Transaction) → IsFiled cs t
    → IsFiled cs (if is_owned p.id p.user_id t then edited p now t else t)
edited-IsFiled p now cs f t g = elim (Bool-cases (is_owned p.id p.user_id t)) [
  | inl hit ↦
      let e : t.user_id ≡ p.user_id = ground (arith, nat_beq_iff t.user_id p.user_id) in
      rw (hit, e) f
  | inr miss ↦ rw miss g
]

module _ (numeric : String → Option String) where
  pub check_category-db : (i u : Uuid) (w : World) → (check_category numeric i u w).1.db ≡ w.db
  unfolding check_category get_category refuse_if
  check_category-db i u w = ground arith

  pub check_category-IsUsable :
      (i u : Uuid) (w : World) (a : Unit {0})
      → (check_category numeric i u w).0 ≡ ok a
      → (i ≡ 0) ⊎ IsUsable i u w.db.categories
  unfolding check_category get_category refuse_if
  check_category-IsUsable i u w a h = elim (Bool-cases (i == 0)) [
    | inl zero ↦ inl ((nat_beq_iff i 0).0 zero)
    | inr real ↦ elim (Bool-cases (w.down w.queries)) [
      | inl failed ↦ absurd (cc (rw (real, check_category, get_category, failed) at h))
      | inr up ↦ elim (Option-cases (first (is_category i) w.db.categories)) [
        | inl missing ↦ absurd (cc (rw (real, check_category, get_category, up, missing) at h))
        | inr (c, found) ↦ elim (Bool-cases (not (c.user_id == 0) && not (c.user_id == u))) [
          | inl bad ↦
              absurd (cc (rw (real, check_category, get_category, up, found, refuse_if, bad) at h))
          | inr good ↦ inr (record {
            category = c;
            there = found;
            shared_or_own = ground (arith, nat_beq_iff c.user_id 0, nat_beq_iff c.user_id u);
          })
        ]
      ]
    ]
  ]

  pub insert-Filed :
      (row : Transaction) (w : World)
      → IsFiled w.db.categories row
      → Filed w
      → Filed (insert numeric row w).1
  unfolding insert
  insert-Filed row w f v = elim (Option-cases (numeric row.amount)) [
    | inl bad ↦ rw (bad, insert) v
    | inr (amount, number) ↦ elim (Bool-cases (w.down w.queries)) [
      | inl failed ↦ rw (number, insert, failed) (record { filed = v.filed })
      | inr up ↦
          elim (Bool-cases
            (exists (is_transaction row.id) w.db.transactions || not (refers w.db row))) [
              | inl clash ↦ rw (number, insert, up, clash) (record { filed = v.filed })
              | inr free ↦ rw (number, insert, up, free) (record { filed = (f, v.filed) })
            ]
    ]
  ]

  pub update_for_user-Filed :
      (p : Transaction) (now : Time) (w : World)
      → IsFiled w.db.categories p
      → Filed w
      → Filed (update_for_user numeric p now w).1
  unfolding update_for_user
  update_for_user-Filed p now w f v = elim (Option-cases (numeric p.amount)) [
    | inl bad ↦ rw (bad, update_for_user) v
    | inr (amount, number) ↦ elim (Bool-cases (w.down w.queries)) [
      | inl failed ↦ rw (number, update_for_user, failed) (record { filed = v.filed })
      | inr up ↦ elim (Bool-cases (exists (is_owned p.id p.user_id) w.db.transactions)) [
        | inl there ↦
            elim (Bool-cases
              (p.category_id == 0 || exists (is_category p.category_id) w.db.categories)) [
                | inl known ↦
                    rw (number, update_for_user, up, there, known)
                      (record {
                        filed =
                            All-update (IsFiled w.db.categories) (IsFiled w.db.categories)
                              (is_owned p.id p.user_id) _ w.db.transactions
                              (edited-IsFiled (record p { amount = amount }) now w.db.categories f)
                              v.filed;
                      })
                | inr unknown ↦
                    rw (number, update_for_user, up, there, unknown) (record { filed = v.filed })
              ]
        | inr missing ↦ rw (number, update_for_user, up, missing) (record { filed = v.filed })
      ]
    ]
  ]

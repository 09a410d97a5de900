-- ===== src/Imports/Rows.antt =====
-- internal/repository/transaction.go: the ids of Monobank among the rows, query by query.
use finance_engine.Prelude.{
  String, Bool, false, not, ◌||◌, Option, List, [], ◌∷◌, ◌==◌, string_eq, nat_eq, ◌≡◌, refl,
  Bool-cases, Option-cases, inl, inr,
}
use finance_engine.Schema.{Uuid, Time, Transaction}
use finance_engine.Store.{World}
use finance_engine.Table.{exists, update, delete}
use finance_engine.Table.Laws.{exists-update, exists-delete}
use finance_engine.Transactions.{
  is_imported, is_owned, is_transaction, refers, insert, create_with_external_id, update_for_user,
  delete_for_user, delete_expired_for_plan,
}
use finance_engine.Categories.{is_category, delete_owned_category, is_deletable, unfile}

-- No two transactions of one user have the same id of Monobank; those made by hand have none.
abbrev pub IsUnique : List Transaction → Type 0
IsUnique [] = Unit
IsUnique (x ∷ xs) = (exists (is_imported x) xs ≡ false) × IsUnique xs

pub update-IsUnique :
    (p : Transaction → Bool) (f : Transaction → Transaction) (xs : List Transaction)
    → ((t : Transaction) → (f t).user_id ≡ t.user_id)
    → ((t : Transaction) → (f t).external_id ≡ t.external_id)
    → IsUnique xs
    → IsUnique (update p f xs)
unfolding update
update-IsUnique p f [] user ext v = tt
update-IsUnique p f (x ∷ xs) user ext v =
    let rest = exists-update (is_imported x) p f xs (λ t. rw (user t, ext t)) in
    (
      elim (Bool-cases (p x)) [
        | inl hit ↦ rw (hit, user x, ext x, rest) v.0
        | inr miss ↦ rw (miss, rest) v.0
      ],
      update-IsUnique p f xs user ext v.1,
    )

pub delete-IsUnique :
    (p : Transaction → Bool) (xs : List Transaction) → IsUnique xs → IsUnique (delete p xs)
unfolding delete
delete-IsUnique p [] v = tt
delete-IsUnique p (x ∷ xs) v = elim (Bool-cases (p x)) [
  | inl gone ↦ rw gone (delete-IsUnique p xs v.1)
  | inr stays ↦ rw stays (exists-delete (is_imported x) p xs v.0, delete-IsUnique p xs v.1)
]

pub record Unique (w : World) : Type 0 where
  pub unique : IsUnique w.db.transactions

-- A row without an id of Monobank is no import of any other.
manual_new :
    (row : Transaction) (xs : List Transaction)
    → row.external_id ≡ ""
    → exists (is_imported row) xs ≡ false
unfolding exists
manual_new row [] manual = refl
manual_new row (x ∷ xs) manual = rw manual (manual_new row xs manual)

-- What leaves the transactions alone.
pub untouched-Unique :
    (w w' : World) → w'.db.transactions ≡ w.db.transactions → Unique w → Unique w'
untouched-Unique w w' same v = record { unique = rw same v.unique }

pub delete_for_user-Unique : (i u : Uuid) (w : World) → Unique w → Unique (delete_for_user i u w).1
unfolding delete_for_user
delete_for_user-Unique i u w v = elim (Bool-cases (w.down w.queries)) [
  | inl failed ↦ rw failed (record { unique = v.unique })
  | inr up ↦ rw up (record { unique = delete-IsUnique (is_owned i u) w.db.transactions v.unique })
]

pub delete_expired_for_plan-Unique :
    (p : String) (t : Time) (w : World) → Unique w → Unique (delete_expired_for_plan p t w).1
unfolding delete_expired_for_plan
delete_expired_for_plan-Unique p t w v = elim (Bool-cases (w.down w.queries)) [
  | inl failed ↦ rw failed (record { unique = v.unique })
  | inr up ↦ rw up (record { unique = delete-IsUnique _ w.db.transactions v.unique })
]

pub delete_owned_category-Unique :
    (i u : Uuid) (w : World) → Unique w → Unique (delete_owned_category i u w).1
unfolding delete_owned_category
delete_owned_category-Unique i u w v = elim (Bool-cases (w.down w.queries)) [
  | inl failed ↦ rw failed (record { unique = v.unique })
  | inr up ↦ elim (Bool-cases (exists (is_deletable i u) w.db.categories)) [
    | inl there ↦
        rw (up, there)
          (record {
            unique =
                update-IsUnique (λ t. t.category_id == i) unfile w.db.transactions (λ _. refl)
                  (λ _. refl) v.unique;
          })
    | inr missing ↦ rw (up, missing) (record { unique = v.unique })
  ]
]

module _ (numeric : String → Option String) where
  pub create_with_external_id-Unique :
      (row : Transaction) (w : World) → Unique w → Unique (create_with_external_id numeric row w).1
  unfolding create_with_external_id
  create_with_external_id-Unique row w v = elim (Option-cases (numeric row.amount)) [
    | inl bad ↦ rw (bad, create_with_external_id) v
    | inr (amount, number) ↦ elim (Bool-cases (w.down w.queries)) [
      | inl failed ↦ rw (number, create_with_external_id, failed) (record { unique = v.unique })
      | inr up ↦ elim (Bool-cases (exists (is_imported row) w.db.transactions)) [
        | inl old ↦ rw (number, create_with_external_id, up, old) (record { unique = v.unique })
        | inr new ↦
            elim (Bool-cases
              (exists (is_transaction row.id) w.db.transactions || not (refers w.db row))) [
                | inl clash ↦
                    rw (number, create_with_external_id, up, new, clash)
                      (record { unique = v.unique })
                | inr free ↦
                    rw (number, create_with_external_id, up, new, free)
                      (record { unique = (new, v.unique) })
              ]
      ]
    ]
  ]

  pub insert-Unique :
      (row : Transaction) (w : World)
      → row.external_id ≡ ""
      → Unique w
      → Unique (insert numeric row w).1
  unfolding insert
  insert-Unique row w manual v = elim (Option-cases (numeric row.amount)) [
    | inl bad ↦ rw (bad, insert) v
    | inr (amount, number) ↦ elim (Bool-cases (w.down w.queries)) [
      | inl failed ↦ rw (number, insert, failed) (record { unique = v.unique })
      | inr up ↦
          elim (Bool-cases
            (exists (is_transaction row.id) w.db.transactions || not (refers w.db row))) [
              | inl clash ↦ rw (number, insert, up, clash) (record { unique = v.unique })
              | inr free ↦
                  rw (number, insert, up, free)
                    (record { unique = (manual_new row w.db.transactions manual, v.unique) })
            ]
    ]
  ]

  pub update_for_user-Unique :
      (p : Transaction) (now : Time) (w : World)
      → Unique w
      → Unique (update_for_user numeric p now w).1
  unfolding update_for_user
  update_for_user-Unique p now w v = elim (Option-cases (numeric p.amount)) [
    | inl bad ↦ rw (bad, update_for_user) v
    | inr (amount, number) ↦ elim (Bool-cases (w.down w.queries)) [
      | inl failed ↦ rw (number, update_for_user, failed) (record { unique = v.unique })
      | inr up ↦ elim (Bool-cases (exists (is_owned p.id p.user_id) w.db.transactions)) [
        | inl there ↦
            elim (Bool-cases
              (p.category_id == 0 || exists (is_category p.category_id) w.db.categories)) [
                | inl known ↦
                    rw (number, update_for_user, up, there, known)
                      (record {
                        unique =
                            update-IsUnique (is_owned p.id p.user_id) _ w.db.transactions
                              (λ _. refl) (λ _. refl) v.unique;
                      })
                | inr unknown ↦
                    rw (number, update_for_user, up, there, unknown) (record { unique = v.unique })
              ]
        | inr missing ↦ rw (number, update_for_user, up, missing) (record { unique = v.unique })
      ]
    ]
  ]

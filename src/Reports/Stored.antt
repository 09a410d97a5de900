-- ===== src/Reports/Stored.antt =====
-- internal/service/reports/reports.go: which transactions the calls of the import store.
use finance_engine.Prelude.{
  String, Bool, some, List, ◌∷◌, pos, true, false, not, ◌||◌, Option, string_eq, nat_eq, ◌≡◌, refl,
  ap, arith, Bool-cases, Option-cases, inl, inr,
}
use mathlib.Core.Path.{subst}
use finance_engine.Schema.{Category, Transaction}
use finance_engine.Store.{World, M, Result, ok, err, refuse_if, next, ◌>>◌}
use finance_engine.Table.{exists}
use finance_engine.Categories.{create_category, insert_category, is_category}
use finance_engine.Users.{has_id}
use finance_engine.Transactions.{create_transaction, check_category, insert, is_transaction, refers}
use finance_engine.Filing.Queries.{check_category-db}

abbrev pub rows_of : World → List Transaction
rows_of w = w.db.transactions

-- The row that the service asks the repository to insert.
abbrev pub plain : Transaction → Transaction
plain p = record p {
  is_internal_transfer = false;
  external_id = "";
  operation_amount = pos 0;
  operation_currency_code = 0;
  updated_at = 0;
}

module _ (numeric : String → Option String) where
  -- A call that puts the row, with the amount that PostgreSQL keeps, before the others when it succeeds, and
  -- stores nothing when it fails.
  abbrev pub Stores : Transaction → List Transaction → Result Transaction × World → Type 0
  Stores row old (ok t, w) =
      (amount : String) × (numeric row.amount ≡ some amount)
      × (rows_of w ≡ record row { amount = amount } ∷ old)
  Stores row old (err e, w) = rows_of w ≡ old

  next-Stores :
      {A : Type 0} (row : Transaction) (old : List Transaction) (f : A → M Transaction)
      (r : Result A × World)
      → rows_of r.1 ≡ old
      → ((a : A) (w : World) → rows_of w ≡ old → Stores row old (f a w))
      → Stores row old (next f r)
  next-Stores row old f (ok a, w) h k = k a w h
  next-Stores row old f (err e, w) h k = h

  refuse_if-Stores :
      (row : Transaction) (old : List Transaction) (bad : Bool) (message : String)
      (m : M Transaction) (w : World)
      → rows_of w ≡ old
      → Stores row old (m w)
      → Stores row old ((refuse_if bad message >> m) w)
  unfolding refuse_if
  refuse_if-Stores row old true message m w h k = h
  refuse_if-Stores row old false message m w h k = k

  insert-Stores : (row : Transaction) (w : World) → Stores row (rows_of w) (insert numeric row w)
  unfolding insert
  insert-Stores row w = elim (Option-cases (numeric row.amount)) [
    | inl bare ↦ rw (bare, insert) refl
    | inr (amount, kept) ↦ elim (Bool-cases (w.down w.queries)) [
      | inl failed ↦ rw (kept, failed, insert) refl
      | inr up ↦
          elim (Bool-cases
            (exists (is_transaction row.id) w.db.transactions || not (refers w.db row))) [
              | inl bad ↦ rw (kept, up, bad, insert) refl
              | inr fine ↦ rw (kept, up, fine, insert) (amount, kept, refl)
            ]
    ]
  ]

  pub create_transaction-Stores :
      (p : Transaction) (w : World) → Stores (plain p) (rows_of w) (create_transaction numeric p w)
  unfolding create_transaction
  create_transaction-Stores p w =
      let row = plain p in
      let old = rows_of w in
      refuse_if-Stores row old _ _ _ w refl (
        refuse_if-Stores row old _ _ _ w refl (
          next-Stores row old _ (check_category numeric p.category_id p.user_id w)
            (ap (λ db. db.transactions) (check_category-db numeric p.category_id p.user_id w))
            (λ _ w' same.
              subst (λ l. Stores row l (insert numeric row w')) same (insert-Stores row w'))))

insert_category-rows : (c : Category) (w : World) → rows_of (insert_category c w).1 ≡ rows_of w
unfolding insert_category
insert_category-rows c w = elim (Bool-cases (w.down w.queries)) [
  | inl failed ↦ rw failed refl
  | inr up ↦
      elim (Bool-cases
        (exists (is_category c.id) w.db.categories || not (exists (has_id c.user_id) w.db.users))) [
          | inl bad ↦ rw (up, bad) refl
          | inr fine ↦ rw (up, fine) refl
        ]
]

pub create_category-rows : (c : Category) (w : World) → rows_of (create_category c w).1 ≡ rows_of w
unfolding create_category refuse_if
create_category-rows c w = ground (arith, insert_category-rows (record c { is_default = false }) w)

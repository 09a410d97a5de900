-- ===== src/Transactions.antt =====
-- internal/service/transaction/transaction.go over internal/repository/transaction.go and
-- internal/db/queries/transactions.sql. `numeric` is what PostgreSQL keeps of a decimal text, if it is one
-- that the amount's column can hold.
use finance_engine.Prelude.{
  ℕ, String, Bool, false, not, ◌&&◌, ◌||◌, Option, none, some, List, ◌∷◌, ◌==◌, if◌then◌else◌,
  string_eq, nat_eq, ltb, pos,
}
use finance_engine.Schema.{Uuid, Time, User, Transaction, Db}
use finance_engine.Store.{
  M, ok, err, refused, constraint, one, query, pure, fail, refuse_if, ◌>>=◌, ◌>>◌,
}
use finance_engine.Table.{first, exists, update, delete, count}
use finance_engine.Users.{has_id}
use finance_engine.Categories.{is_category, get_category, is_no_type}

abbrev pub is_transaction : Uuid → Transaction → Bool
is_transaction i t = t.id == i

-- The condition `id = $1 AND user_id = $2`.
abbrev pub is_owned : Uuid → Uuid → Transaction → Bool
is_owned i user_id t = t.id == i && t.user_id == user_id

-- The rows that the unique index on (user_id, external_id) tells apart from a new one.
abbrev pub is_imported : Transaction → Transaction → Bool
is_imported row t =
    not (row.external_id == "") && (t.user_id == row.user_id && t.external_id == row.external_id)

-- What a row refers to must exist.
abbrev pub refers : Db → Transaction → Bool
refers db row =
    exists (has_id row.user_id) db.users
    && (row.category_id == 0 || exists (is_category row.category_id) db.categories)

-- What an edit sets, with the database's clock.
abbrev pub edited : Transaction → Time → Transaction → Transaction
edited p now t = record t {
  category_id = p.category_id;
  amount = p.amount;
  currency = p.currency;
  type = p.type;
  date = p.date;
  note = p.note;
  is_internal_transfer = p.is_internal_transfer;
  updated_at = now;
}

module _ (numeric : String → Option String) where
  -- TransactionRepository.Create, of a row whose remaining columns have their defaults.
  unfoldable pub insert : Transaction → M Transaction
  insert row = elim (numeric row.amount) [
    | none ↦ fail (refused "numeric")
    | some amount ↦ query λ db.
        if exists (is_transaction row.id) db.transactions || not (refers db row)
        then (err constraint, db)
        else let new = record row { amount = amount } in
          (ok new, record db { transactions = new ∷ db.transactions })
  ]

  -- TransactionRepository.CreateWithExternalID: `none` where the row was imported before.
  unfoldable pub create_with_external_id : Transaction → M (Option Transaction)
  create_with_external_id row = elim (numeric row.amount) [
    | none ↦ fail (refused "numeric")
    | some amount ↦ query λ db.
        if exists (is_imported row) db.transactions
        then (ok none, db)
        else if exists (is_transaction row.id) db.transactions || not (refers db row)
        then (err constraint, db)
        else let new = record row { amount = amount } in
          (ok (some new), record db { transactions = new ∷ db.transactions })
  ]

  -- TransactionRepository.UpdateForUser; a category that does not exist breaks the foreign key.
  unfoldable pub update_for_user : Transaction → Time → M Transaction
  update_for_user p now = elim (numeric p.amount) [
    | none ↦ fail (refused "numeric")
    | some amount ↦ query λ db.
        let rows =
          update (is_owned p.id p.user_id) (edited (record p { amount = amount }) now)
            db.transactions in
        if exists (is_owned p.id p.user_id) db.transactions
        then if p.category_id == 0 || exists (is_category p.category_id) db.categories
          then (one (first (is_owned p.id p.user_id) rows), record db { transactions = rows })
          else (err constraint, db)
        else (one none, db)
  ]

  -- The check of the category that Create and Update share.
  unfoldable pub check_category : Uuid → Uuid → M (Unit {0})
  check_category category_id user_id = if category_id == 0 then pure tt else do
    category ← get_category category_id
    refuse_if (not (category.user_id == 0) && not (category.user_id == user_id))
        "category does not belong to user"

  -- Service.Create
  unfoldable pub create_transaction : Transaction → M Transaction
  create_transaction p = do
    refuse_if (is_no_type p.type) "invalid transaction type"
    refuse_if (p.amount == "") "amount is required"
    check_category p.category_id p.user_id
    insert (record p {
      is_internal_transfer = false;
      external_id = "";
      operation_amount = pos 0;
      operation_currency_code = 0;
      updated_at = 0;
    })

  -- Service.Update
  unfoldable pub update_transaction : Transaction → Time → M Transaction
  update_transaction p now = do
    refuse_if (is_no_type p.type) "invalid transaction type"
    refuse_if (p.amount == "") "amount is required"
    check_category p.category_id p.user_id
    update_for_user p now

-- TransactionRepository.DeleteForUser: whether a row was there to delete.
unfoldable pub delete_for_user : Uuid → Uuid → M Bool
delete_for_user i user_id = query λ db. (
  ok (exists (is_owned i user_id) db.transactions),
  record db { transactions = delete (is_owned i user_id) db.transactions },
)

-- Service.Delete
unfoldable pub delete_transaction : Uuid → Uuid → M (Unit {0})
delete_transaction user_id i = do
  deleted ← delete_for_user i user_id
  refuse_if (not deleted) "transaction not found"

-- `user_id IN (SELECT id FROM users WHERE plan = $2)`
abbrev pub is_on_plan : List User → String → Transaction → Bool
is_on_plan users plan t = exists (λ u. u.id == t.user_id && u.plan == plan) users

-- TransactionRepository.DeleteExpiredForPlan
unfoldable pub delete_expired_for_plan : String → Time → M ℕ
delete_expired_for_plan plan cutoff = query λ db.
    let old = λ (t : Transaction). ltb t.date cutoff && is_on_plan db.users plan t in
    (ok (count old db.transactions), record db { transactions = delete old db.transactions })

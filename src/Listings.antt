-- ===== src/Listings.antt =====
-- The queries that list rows: TransactionListForUser and TransactionCountForUser
-- (internal/repository/transaction.go), PaymentEventListForUser (payment.go) with billing.Receipts, and
-- UserListForAdmin (user.go) with ListUsers and GetUser of internal/service/admin/admin.go. Rows of one
-- time, whose order PostgreSQL leaves open, come in the order of the table, but for the operator's list of
-- users, which is read page by page.
pub mod Order
pub mod Stable
pub mod Ties
pub mod Pages
mod Tests
use finance_engine.Prelude.{
  ℕ, zero, suc, String, Bool, not, ◌&&◌, ◌||◌, List, [], ◌∷◌, ◌==◌, string_eq, nat_eq,
  if◌then◌else◌, ltb, leb, ◌^◌, ◌%◌,
}
use finance_engine.Schema.{Uuid, Time, User, Transaction, PaymentEvent, Db}
use finance_engine.Store.{M, ok, err, refused, query, pure, ◌>>=◌}
use finance_engine.Table.{select, count}
use finance_engine.Users.{get_by_id}

module _ {A : Type 0} (at : A → Time) where
  unfoldable pub insert_newest : A → List A → List A
  insert_newest x [] = x ∷ []
  insert_newest x (y ∷ ys) =
      let rest = insert_newest x ys in if ltb (at x) (at y) then y ∷ rest else x ∷ y ∷ ys

  -- `ORDER BY at DESC`
  unfoldable pub newest : List A → List A
  newest [] = []
  newest (x ∷ xs) = insert_newest x (newest xs)

module _ {A : Type 0} where
  -- `LIMIT n` and `OFFSET n`
  unfoldable pub limit : ℕ → List A → List A
  limit zero xs = []
  limit (suc n) [] = []
  limit (suc n) (x ∷ xs) = x ∷ limit n xs

  unfoldable pub offset : ℕ → List A → List A
  offset zero xs = xs
  offset (suc n) [] = []
  offset (suc n) (x ∷ xs) = offset n xs

-- The condition of TransactionListForUser; a time of 0 is NULL.
abbrev pub is_in : Uuid → Time → Time → Transaction → Bool
is_in user_id from to t =
    t.user_id == user_id && ((from == 0 || leb from t.date) && (to == 0 || leb t.date to))

unfoldable pub list_transactions : Uuid → Time → Time → M (List Transaction)
list_transactions user_id from to = query λ db.
    (ok (newest (λ (t : Transaction). t.date) (select (is_in user_id from to) db.transactions)), db)

unfoldable pub count_transactions : Uuid → M ℕ
count_transactions user_id =
    query λ db. (ok (count (λ (t : Transaction). t.user_id == user_id) db.transactions), db)

unfoldable pub list_events : Uuid → ℕ → M (List PaymentEvent)
list_events user_id n = query λ db. (
  ok (
      limit n (
        newest (λ (e : PaymentEvent). e.created_at)
          (select (λ (e : PaymentEvent). e.user_id == user_id) db.payment_events))),
  db,
)

-- billing.Receipts
unfoldable pub receipts : Uuid → M (List PaymentEvent)
receipts user_id = list_events user_id 50

pub record UserDetail : Type 0 where
  pub user : User
  pub transaction_count : ℕ

unfoldable pub get_user : Uuid → M UserDetail
get_user id = do
  user ← get_by_id id
  n ← count_transactions id
  pure (record { user = user; transaction_count = n })

pub record UserList : Type 0 where
  pub users : List User
  pub total : ℕ

-- What each row of UserListForAdmin carries: the user, and `count(*) OVER()`.
abbrev pub rows_of : ℕ → List User → List (User × ℕ)
rows_of total [] = []
rows_of total (u ∷ us) = (u, total) ∷ rows_of total us

-- The loop of ListForAdmin: the users, and the total of the last row, which is 0 before the first.
unfoldable pub collect : ℕ → List (User × ℕ) → UserList
collect total [] = record { users = []; total = total }
collect total ((u, n) ∷ rows) =
    let rest = collect n rows in record { users = u ∷ rest.users; total = rest.total }

-- `int32(n)` of a number that is not negative is negative.
abbrev pub wraps_negative : ℕ → Bool
wraps_negative n = leb (2 ^ 31) (n % 2 ^ 32)

-- `email ILIKE '%' || q || '%'`, which PostgreSQL decides, is a parameter.
module _ (is_like : String → String → Bool) where
  abbrev pub is_listed : String → String → User → Bool
  is_listed search plan u =
      (search == "" || is_like search u.email) && (plan == "" || u.plan == plan)

  -- All the users that a search and a plan select, newest first. `ORDER BY created_at DESC` leaves the order of
  -- users of one time open: they come as PostgreSQL arranges the users for this query.
  unfoldable pub listed : (List User → List User) → String → String → List User → List User
  listed arrange search plan users =
      newest (λ (u : User). u.created_at) (arrange (select (is_listed search plan) users))

  -- UserRepository.ListForAdmin, which Service.ListUsers passes on: both numbers are cut to an int32, and
  -- PostgreSQL refuses a negative one.
  unfoldable pub list_users : (List User → List User) → String → String → ℕ → ℕ → M UserList
  list_users arrange search plan n from = query λ db.
      if wraps_negative n || wraps_negative from
      then (err (refused "LIMIT and OFFSET must not be negative"), db)
      else (
        ok (
            collect 0 (
              rows_of (count (is_listed search plan) db.users) (
                limit (n % 2 ^ 32)
                  (offset (from % 2 ^ 32) (listed arrange search plan db.users))))),
        db,
      )

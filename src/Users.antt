-- ===== src/Users.antt =====
-- internal/repository/user.go over internal/db/queries/users.sql: the queries on the users table that
-- billing and administration use.
pub mod Laws
use finance_engine.Prelude.{ℕ, String, Bool, Option, List, ◌≡◌, ◌==◌, nat_eq, string_eq}
use finance_engine.Schema.{Uuid, Time, User, Db}
use finance_engine.Store.{M, Result, one, query}
use finance_engine.Table.{first, update, having}

-- The condition `id = $1`.
abbrev pub has_id : Uuid → User → Bool
has_id i u = u.id == i

-- `SELECT … FROM users WHERE id = $1`
unfoldable pub get_by_id : Uuid → M User
get_by_id i = query λ db. (one (first (has_id i) db.users), db)

-- The condition `liqpay_order_id = $1`.
abbrev pub has_order : String → User → Bool
has_order o u = u.liqpay_order_id == o

-- `SELECT … FROM users WHERE liqpay_order_id = $1`
unfoldable pub get_by_liqpay_order_id : String → M User
get_by_liqpay_order_id o = query λ db. (one (first (has_order o) db.users), db)

-- `UPDATE users SET … WHERE id = $1 RETURNING …`, with the table as it is afterwards.
abbrev pub set_user : Uuid → (User → User) → List User → List User
set_user i f = update (has_id i) f

abbrev pub update_user : Uuid → (User → User) → M User
update_user i f = query λ db.
    let users = set_user i f db.users in (one (first (has_id i) users), record db { users = users })

abbrev pub checkout_begun : String → Time → User → User
checkout_begun o t u = record u {
  liqpay_order_id = o;
  subscription_status = "pending";
  trial_ends_at = t;
}

-- UserStartTrial
unfoldable pub begin_checkout : Uuid → String → Time → M User
begin_checkout i o t = update_user i (checkout_begun o t)

abbrev pub subscribed : String → String → Time → User → User
subscribed plan status t u = record u {
  plan = plan;
  subscription_status = status;
  trial_ends_at = t;
}

-- UserUpdateSubscription
unfoldable pub update_subscription : Uuid → String → String → Time → M User
update_subscription i plan status t = update_user i (subscribed plan status t)

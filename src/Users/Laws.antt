-- ===== src/Users/Laws.antt =====
-- What each query on the users table returns, and what it does to the database.
use finance_engine.Prelude.{
  String, false, some, ◌≡◌, arith, inl, inr, ◌⊎◌, ap, sym, suc, ◌≢◌, ◌==◌, ==-ne, nat_eq,
  nat_beq_iff, List, Option-cases,
}
use mathlib.Core.Option
use finance_engine.Schema.{Uuid, Time, User}
use finance_engine.Store.{World, ok}
use finance_engine.Table.{first}
use finance_engine.Table.Laws.{first-update_self, first-update_other}
use finance_engine.Users.{
  has_id, has_order, set_user, get_by_id, get_by_liqpay_order_id, begin_checkout,
  update_subscription, checkout_begun, subscribed,
}

module _ (w : World) where
  pub get_by_id-db : (i : Uuid) → (get_by_id i w).1.db ≡ w.db
  unfolding get_by_id
  get_by_id-db i = ground arith

  pub get_by_id-first :
      (i : Uuid) (u : User) → (get_by_id i w).0 ≡ ok u → first (has_id i) w.db.users ≡ some u
  unfolding get_by_id
  get_by_id-first i u h = ground arith

  pub get_by_liqpay_order_id-db : (o : String) → (get_by_liqpay_order_id o w).1.db ≡ w.db
  unfolding get_by_liqpay_order_id
  get_by_liqpay_order_id-db o = ground arith

  pub get_by_liqpay_order_id-first :
      (o : String) (u : User)
      → (get_by_liqpay_order_id o w).0 ≡ ok u
      → first (has_order o) w.db.users ≡ some u
  unfolding get_by_liqpay_order_id
  get_by_liqpay_order_id-first o u h = ground arith

  -- A lookup that finds its row, when the database answers.
  pub get_by_liqpay_order_id-found :
      (o : String) (u : User)
      → w.down w.queries ≡ false
      → first (has_order o) w.db.users ≡ some u
      → get_by_liqpay_order_id o w ≡ (ok u, record w { queries = suc w.queries })
  unfolding get_by_liqpay_order_id
  get_by_liqpay_order_id-found o u up found = rw (up, found)

  pub get_by_id-found :
      (i : Uuid) (u : User)
      → w.down w.queries ≡ false
      → first (has_id i) w.db.users ≡ some u
      → get_by_id i w ≡ (ok u, record w { queries = suc w.queries })
  unfolding get_by_id
  get_by_id-found i u up found = rw (up, found)

  -- A failed update writes nothing.
  pub begin_checkout-db :
      (i : Uuid) (o : String) (t : Time)
      → ((begin_checkout i o t w).1.db ≡ w.db)
        ⊎ ((begin_checkout i o t w).1.db
            ≡ record (w.db) { users = set_user i (checkout_begun o t) w.db.users })
  unfolding begin_checkout
  begin_checkout-db i o t = ground arith

  pub update_subscription-db :
      (i : Uuid) (plan status : String) (t : Time)
      → ((update_subscription i plan status t w).1.db ≡ w.db)
        ⊎ ((update_subscription i plan status t w).1.db
            ≡ record (w.db) { users = set_user i (subscribed plan status t) w.db.users })
  unfolding update_subscription
  update_subscription-db i plan status t = ground arith

module _ (f : User → User) (users : List User) (keep : (u : User) → (f u).id ≡ u.id) where
  -- The user of the id sees the update.
  pub first-set_user_self :
      (i : Uuid) → first (has_id i) (set_user i f users) ≡ Option.map f (first (has_id i) users)
  first-set_user_self i =
      first-update_self (has_id i) f users (λ u. ap (λ (k : Uuid). k == i) (keep u))

  -- No other user does.
  pub first-set_user_other :
      (i j : Uuid) → i ≢ j → first (has_id i) (set_user j f users) ≡ first (has_id i) users
  first-set_user_other i j h = first-update_other (has_id j) (has_id i) f users λ u hit.
      let e : u.id ≡ j = (nat_beq_iff u.id j).0 hit in
      let other : (j == i) ≡ false = ==-ne j i (λ s. h (sym s)) in
      (rw e other, rw (keep u, e) other)

  -- What the update makes of a user who is found by the id.
  pub first-set_user-some :
      (i : Uuid) (u : User)
      → first (has_id i) (set_user i f users) ≡ some u
      → (x : User) × (first (has_id i) users ≡ some x) × (u ≡ f x)
  first-set_user-some i u h = elim (Option-cases (first (has_id i) users)) [
    | inl missing ↦ absurd (cc (first-set_user_self i, ap (Option.map f) missing))
    | inr (x, found) ↦ (x, found, cc (first-set_user_self i, ap (Option.map f) found))
  ]

-- ===== src/Billing/Begin.antt =====
-- What StartTrial and Subscribe have done when they give a checkout.
use finance_engine.Prelude.{
  String, not, none, some, ◌==◌, string_eq, nat_eq, ◌≡◌, ◌≢◌, arith, Option-cases, inl, inr, eq_iff,
  ◌+◌,
}
use finance_engine.Schema.{Uuid, Time, User}
use finance_engine.Store.{World, Result, ok, refuse_if, from, ◌>>=◌, ◌>>◌}
use finance_engine.Table.{first}
use finance_engine.Plan
use finance_engine.LiqPay.{Params, sign, checkout_fields}
use finance_engine.Users.{has_id, set_user, checkout_begun, get_by_id, begin_checkout}
use finance_engine.Billing.{
  Service, Checkout, start_trial, subscribe, plan_price, trial_duration, checkout_of,
}
use finance_engine.Billing.Orders.{order_id}

module _ (s : Service) (w : World) where
  -- The user is there and has no subscription; the order is recorded with the status "pending"; the rest
  -- of the database is as it was; and LiqPay's own check accepts the form.
  pub record Begun (i : Uuid) (o : String) (t : Time) (c : Checkout) (w' : World) : Type 0 where
    pub user : User
    pub found : first (has_id i) w.db.users ≡ some user
    pub fresh : user.subscription_status ≡ ""
    pub recorded : w'.db ≡ record (w.db) { users = set_user i (checkout_begun o t) w.db.users }
    pub signed : c.signature ≡ sign s.codec s.client c.data_field

  checkout_of-signed :
      (params : Params) (c : Checkout)
      → checkout_of s (checkout_fields s.codec s.client params) ≡ ok c
      → c.signature ≡ sign s.codec s.client c.data_field
  unfolding checkout_fields
  checkout_of-signed params c h = ground arith

  begin-Begun :
      (i : Uuid) (message o : String) (t : Time) (r : Result Checkout) (c : Checkout)
      → (r ≡ ok c → c.signature ≡ sign s.codec s.client c.data_field)
      → let out =
          (do
            user ← get_by_id i
            refuse_if (not (user.subscription_status == "")) message
            begin_checkout i o t
            from r)
            w in
        out.0 ≡ ok c → Begun i o t c out.1
  unfolding get_by_id refuse_if begin_checkout from
  begin-Begun i message o t r c signs h = elim (Option-cases (first (has_id i) w.db.users)) [
    | inl missing ↦ absurd (ground arith)
    | inr (u, there) ↦ record {
      user = u;
      found = there;
      fresh = ground (arith, eq_iff u.subscription_status "");
      recorded = ground arith;
      signed = signs (ground arith);
    }
  ]

  -- StartTrial that gives a checkout has begun a trial of Max that ends seven days after the clock's second
  -- reading: the user was there, without a subscription; the order id is the trial's, the status "pending",
  -- and nothing else in the database has changed; and the form is signed as LiqPay wants.
  pub start_trial-Begun :
      (i : Uuid) (now later : Time) (c : Checkout)
      → (start_trial s i now later w).0 ≡ ok c
      → Begun i
          (order_id "trial" Plan.max (s.codec.uuid_text i) now)
          (later + trial_duration)
          c
          (start_trial s i now later w).1
  unfolding start_trial
  start_trial-Begun i now later c h = begin-Begun i _ _ _ _ c (checkout_of-signed _ c) h

  -- Subscribe that gives a checkout has begun a purchase of a plan that has a price, without a trial: the
  -- user was there, without a subscription; the order id is the purchase's, the status "pending", and
  -- nothing else in the database has changed; and the form is signed as LiqPay wants.
  pub subscribe-Begun :
      (i : Uuid) (plan : String) (now later : Time) (c : Checkout)
      → (subscribe s i plan now later w).0 ≡ ok c
      → (plan_price plan ≢ none)
        × Begun i
            (order_id "direct" plan (s.codec.uuid_text i) now)
            0
            c
            (subscribe s i plan now later w).1
  unfolding subscribe
  subscribe-Begun i plan now later c h = elim (Option-cases (plan_price plan)) [
    | inl unknown ↦ absurd (cc (rw (unknown, subscribe) at h))
    | inr (price, known) ↦ (
      λ e. cc,
      rw (known, subscribe)
          (begin-Begun i _ _ _ _ c (checkout_of-signed _ c) (rw (known, subscribe) at h)),
    )
  ]

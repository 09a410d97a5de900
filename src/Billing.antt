-- ===== src/Billing.antt =====
-- internal/service/billing/billing.go: the trial and subscription flow, over the users and the payment
-- events (internal/repository/user.go, payment.go). Each reading of the clock, each id that the database
-- makes and each answer of LiqPay is an argument.
pub mod Orders
pub mod Change
pub mod Begin
pub mod Cancel
use finance_engine.Prelude.{
  ℕ, String, Bool, true, false, not, ◌||◌, Option, none, some, List, [], ◌∷◌, ◌==◌, if◌then◌else◌,
  string_eq, nat_eq, ◌+++◌, ◌+◌, ◌*◌, ◌≡◌, arith,
}
use finance_engine.Schema.{Uuid, Time, User, PaymentEvent, Db, second, day}
use finance_engine.Store.{
  M, Result, ok, err, refused, constraint, one, query, pure, fail, from, refuse_if, ◌>>=◌, ◌>>◌,
}
use finance_engine.Table.{first, exists, select}
use finance_engine.Users.{
  has_id, get_by_id, get_by_liqpay_order_id, begin_checkout, update_subscription,
}
use finance_engine.LiqPay.{
  Codec, Client, Callback, Params, Reply, text, number, checkout_url, checkout_fields,
  verify_and_decode, request, status_subscribed, status_success, status_failure, status_error,
  status_unsubscribed,
}
use finance_engine.Plan
use Orders.{order_id, parse_order_id}

abbrev pub trial_duration : ℕ
trial_duration = 7 * day

-- `planPrice`, in whole dollars.
unfoldable pub plan_price : String → Option ℕ
plan_price p = if p == Plan.pro then some 15 else if p == Plan.max then some 99 else none

pub record Checkout : Type 0 where
  pub url : String
  pub data_field : String
  pub signature : String

-- A payment event before the database has given it an id and a time.
abbrev pub event_of : User → String → Callback → Uuid → Time → PaymentEvent
event_of user plan cb id now = record {
  id = id;
  user_id = user.id;
  order_id = cb.order_id;
  plan = plan;
  action = cb.action;
  status = cb.status;
  amount = cb.amount;
  currency = cb.currency;
  error_description = cb.err_description;
  created_at = now;
}

module _ (numeric : String → Option String) where
  -- PaymentRepository.Create: the amount must be a number that its column holds, the id new, and the
  -- user known.
  unfoldable pub create_event : PaymentEvent → M PaymentEvent
  create_event e = elim (numeric e.amount) [
    | none ↦ fail (refused "numeric")
    | some amount ↦ query λ db.
        let row = record e { amount = amount } in
        if exists (λ x. x.id == e.id) db.payment_events || not (exists (has_id e.user_id) db.users)
        then (err constraint, db)
        else (ok row, record db { payment_events = row ∷ db.payment_events })
  ]

-- What each status of a callback makes of the plan, the subscription status and the end of the trial.
unfoldable pub callback_update : String → String → String → Time → Option (String × String × Time)
callback_update flow plan_name status trial_ends_at =
    if status == status_subscribed
    then some (plan_name, if flow == "direct" then "active" else "trialing", trial_ends_at)
    else if status == status_success
    then some (plan_name, "active", 0)
    else if status == status_failure || (status == status_unsubscribed || status == status_error)
    then some (Plan.free, "canceled", 0)
    else none

pub record Service : Type 0 where
  pub codec : Codec
  pub client : Client
  pub frontend_url : String
  pub backend_url : String
  -- What PostgreSQL keeps of a decimal text, if it is one that the amount's column can hold.
  pub numeric : String → Option String

module _ (s : Service) where
  -- The form that the browser posts to LiqPay.
  abbrev pub checkout_of : Result (String × String) → Result Checkout
  checkout_of (ok (d, sig)) = ok (record { url = checkout_url; data_field = d; signature = sig })
  checkout_of (err e) = err e

  abbrev pub checkout_params : ℕ → String → String → Time → Params
  checkout_params price description id start =
      ("action", text "subscribe")
      ∷ ("amount", number price)
      ∷ ("currency", text "USD")
      ∷ ("description", text description)
      ∷ ("order_id", text id)
      ∷ ("subscribe", number 1)
      ∷ ("subscribe_date_start", text (s.codec.format_subscribe_date start))
      ∷ ("subscribe_periodicity", text "month")
      ∷ ("server_url", text (s.backend_url +++ "/webhooks/liqpay"))
      ∷ ("result_url", text (s.frontend_url +++ "/app/profile/plan?checkout=done"))
      ∷ []

  abbrev pub build_checkout : ℕ → String → String → Time → Result Checkout
  build_checkout price description id start =
      checkout_of (checkout_fields s.codec s.client (checkout_params price description id start))

  -- StartTrial, with the two readings of the clock.
  unfoldable pub start_trial : Uuid → Time → Time → M Checkout
  start_trial user_id now later = do
    user ← get_by_id user_id
    refuse_if (not (user.subscription_status == ""))
        "a trial or subscription already exists for this account"
    let id = order_id "trial" Plan.max (s.codec.uuid_text user_id) now
    let trial_ends_at = later + trial_duration
    begin_checkout user_id id trial_ends_at
    from (build_checkout 99 "Vaultly Max — monthly subscription" id trial_ends_at)

  -- Subscribe, with the two readings of the clock.
  unfoldable pub subscribe : Uuid → String → Time → Time → M Checkout
  unfolding plan_price
  subscribe user_id plan_name now later = elim (plan_price plan_name) [
    | none ↦ fail (refused "plan is not purchasable")
    | some price ↦ do
      user ← get_by_id user_id
      refuse_if (not (user.subscription_status == ""))
          "a trial or subscription already exists for this account"
      let id = order_id "direct" plan_name (s.codec.uuid_text user_id) now
      let start_at = later + 5 * 60 * second
      begin_checkout user_id id 0
      from (
          build_checkout price ("Vaultly " +++ (plan_name +++ " — monthly subscription")) id
            start_at)
  ]

  -- The `switch` at the end of HandleCallback.
  unfoldable pub apply_status : User → String → String → String → M (Unit {0})
  apply_status user flow plan_name status =
      elim (callback_update flow plan_name status user.trial_ends_at) [
        | none ↦ pure tt
        | some (plan, new_status, t) ↦ do update_subscription user.id plan new_status t; pure tt
      ]

  -- HandleCallback, with the id and the time of the payment event that it records.
  unfoldable pub handle_callback : String → String → Uuid → Time → M (Unit {0})
  handle_callback raw_data raw_signature event_id now = do
    cb ← from (verify_and_decode s.codec s.client raw_data raw_signature)
    user ← get_by_liqpay_order_id cb.order_id
    elim (parse_order_id cb.order_id) [
      | none ↦ fail (refused "malformed order_id")
      | some (flow, plan_name) ↦ do
        create_event s.numeric (event_of user plan_name cb event_id now)
        apply_status user flow plan_name cb.status
    ]

  -- Cancel, with LiqPay's answer to the request.
  unfoldable pub cancel : Uuid → Reply → M (Unit {0})
  cancel user_id reply = do
    user ← get_by_id user_id
    refuse_if (user.liqpay_order_id == "") "no active subscription to cancel"
    from (
        request s.codec s.client
          (("action", text "unsubscribe") ∷ ("order_id", text user.liqpay_order_id) ∷ []) reply)
    update_subscription user_id Plan.free "canceled" 0
    pure tt

-- ===== src/Subscriptions/Tests.antt =====
-- The subscription calls on a small database, and the theorems at it.
use finance_engine.Prelude.{
  String, false, some, List, [], ◌∷◌, string_eq, nat_eq, ◌≡◌, ◌≢◌, refl, inl, ◌+++◌, ◌+◌,
  ne_of_test, map, ◌*◌, ◌≤◌, ◌^◌, ltb, none, if◌then◌else◌, pos, negsuc, arith,
}
use finance_engine.Prelude.Text.{dot_free, show, split_dot}
use finance_engine.Schema.{Time, User, PaymentEvent}
use finance_engine.Store.{World, ok, err, refused, no_rows, from, refuse_if}
use finance_engine.Table.{first, count, delete, update, exists}
use finance_engine.Users.{has_id, get_by_id, begin_checkout}
use finance_engine.LiqPay.{
  answered, Codec, Callback, sign, encode, checkout_fields, verify_and_decode,
}
use finance_engine.Billing.{Service, Checkout, start_trial, subscribe, handle_callback, plan_price}
use finance_engine.Admin.Stats.{stats, value_at}
use finance_engine.Admin.Stats.Laws.{stats_counts}
use finance_engine.Schema.{day}
use finance_engine.Plan
use finance_engine.LiqPay
use finance_engine.LiqPay.{request}
use finance_engine.Users.{set_user, subscribed}
use finance_engine.Billing.{cancel}
use finance_engine.Billing.Cancel.{cancel_branches}
use finance_engine.Admin.{AddDays, extend_trial, cancel_subscription}
use finance_engine.Admin.Trials.{IsCalendar, extend_trial_bounds, cancel_subscription_unaccepted}
use finance_engine.Subscriptions.Replay.{replay_revives}
use finance_engine.Billing.Orders.{order_id, parse_order_id, parse_order_id-order_id}
use finance_engine.Subscriptions.{starts_trial, cancels, by_user, by_admin, sets_plan, run}
use finance_engine.Subscriptions.Entitlement.{IsSound, run-IsSound}
use finance_engine.Subscriptions.Trials.{trial_once, purchase_once}
use finance_engine.Subscriptions.Callbacks.{
  Outcome, handle_callback_forged, handle_callback_superseded, handle_callback_effect, receipt,
}

-- A hash that shows its input, and a JSON in which the order id is the whole text.
abbrev codec : Codec
codec = record {
  sha1_base64 = λ t. "#" +++ t;
  marshal_base64 = λ m. some "form";
  base64_decode = λ d. some d;
  unmarshal = λ raw. some (record {
    action = "subscribe";
    status = "subscribed";
    order_id = raw;
    amount = "99";
    currency = "USD";
    err_description = "";
  });
  uuid_text = λ i. "id";
  format_subscribe_date = λ t. "then";
}

abbrev service : Service
service = record {
  codec = codec;
  client = record { public_key = "pub"; private_key = "key"; sandbox = false };
  frontend_url = "https://app";
  backend_url = "https://api";
  numeric = λ t. some t;
}

abbrev ann : User
ann = record {
  id = 7;
  apple_sub = "";
  email = "ann@example.org";
  base_currency = "UAH";
  password_hash = "";
  google_sub = "";
  theme = "system";
  gradient_color = "#34C759";
  plan = "free";
  goals = "";
  subscription_status = "";
  trial_ends_at = 0;
  liqpay_order_id = "";
  created_at = 5;
  name = "";
  avatar = "";
}

-- 2026-01-01 and some seconds.
abbrev clock : Time
clock = 63902822400 * 1000000

abbrev anns_order : String
anns_order = "sub.trial.max.id.1767225600"

abbrev bob : User
bob = record ann {
  id = 8;
  subscription_status = "pending";
  liqpay_order_id = anns_order;
  trial_ends_at = clock;
}

abbrev world : World
world = record {
  db = record {
    users = ann ∷ bob ∷ [];
    payment_events = [];
    sessions = [];
    categories = [];
    transactions = [];
    monobank_connections = [];
  };
  down = λ n. false;
  queries = 0;
  collation = λ s t. false;
}

abbrev form : Checkout
form = record {
  url = "https://www.liqpay.ua/api/3/checkout";
  data_field = "form";
  signature = "#keyformkey";
}

world-IsSound : IsSound world.db.users
unfolding first
world-IsSound = record { keyed = (refl, (refl, tt)); entitled = (inl refl, (inl refl, tt)) }

anns_order_id : order_id "trial" "max" "id" clock ≡ anns_order
unfolding order_id show
anns_order_id = refl

-- What each call finds and gives.
trial_begins : (start_trial service 7 clock clock world).0 ≡ ok form
unfolding start_trial get_by_id begin_checkout refuse_if from checkout_fields encode sign first
    update
trial_begins = refl

purchase_begins : (subscribe service 7 "pro" clock clock world).0 ≡ ok form
unfolding subscribe plan_price get_by_id begin_checkout refuse_if from checkout_fields encode sign
    first update
purchase_begins = refl

abbrev bobs_callback : Callback
bobs_callback = record {
  action = "subscribe";
  status = "subscribed";
  order_id = anns_order;
  amount = "99";
  currency = "USD";
  err_description = "";
}

abbrev signature : String
signature = "#key" +++ (anns_order +++ "key")

bobs_callback_verified :
    verify_and_decode service.codec service.client anns_order signature ≡ ok bobs_callback
unfolding verify_and_decode sign
bobs_callback_verified = refl

parse_order_id-order_id_example :
    parse_order_id (order_id "trial" "max" "id" clock) ≡ some ("trial", "max")
unfolding dot_free
parse_order_id-order_id_example = parse_order_id-order_id "trial" "max" "id" clock refl refl refl

run-IsSound_example :
    IsSound
      (run service world
        (by_user (starts_trial 7 clock clock) ∷ by_admin (sets_plan 8 "pro") ∷ [])).db.users
run-IsSound_example =
    run-IsSound service world
      (by_user (starts_trial 7 clock clock) ∷ by_admin (sets_plan 8 "pro") ∷ []) world-IsSound

trial_once_example :
    let w' =
      run service
        (start_trial service 7 clock clock world).1
        (map by_user (cancels 7 (answered 200) ∷ [])) in
    ((start_trial service 7 clock clock w').0 ≢ ok form)
    × ((subscribe service 7 "pro" clock clock w').0 ≢ ok form)
trial_once_example =
    trial_once service 7 clock clock world form (cancels 7 (answered 200) ∷ []) "pro" clock clock
      form world-IsSound trial_begins

purchase_once_example :
    let w' =
      run service
        (subscribe service 7 "pro" clock clock world).1
        (map by_user (cancels 7 (answered 200) ∷ [])) in
    ((start_trial service 7 clock clock w').0 ≢ ok form)
    × ((subscribe service 7 "max" clock clock w').0 ≢ ok form)
purchase_once_example =
    purchase_once service 7 "pro" clock clock world form (cancels 7 (answered 200) ∷ []) "max" clock
      clock form world-IsSound purchase_begins

handle_callback_forged_example :
    handle_callback service anns_order "forged" 3 clock world
    ≡ (err (refused "invalid liqpay callback signature"), world)
unfolding sign
handle_callback_forged_example =
    handle_callback_forged service anns_order "forged" 3 clock world
      (ne_of_test "forged" (sign codec service.client anns_order) refl)

abbrev nobody : World
nobody = record world { db = record (world.db) { users = ann ∷ [] } }

handle_callback_superseded_example :
    let out = handle_callback service anns_order signature 3 clock nobody in
    (out.1.db ≡ nobody.db) × (out.0 ≡ err no_rows)
unfolding first
handle_callback_superseded_example =
    handle_callback_superseded service anns_order signature 3 clock nobody bobs_callback
      bobs_callback_verified refl

abbrev bobs_receipt : PaymentEvent
bobs_receipt =
    receipt service anns_order signature 3 clock world bobs_callback bob "trial" "max" "99"

handle_callback_effect_example :
    let out = handle_callback service anns_order signature 3 clock world in
    (out.0 ≡ ok tt)
    × (out.1.db.payment_events ≡ bobs_receipt ∷ [])
    × ((u' : User) × (first (has_id 8) out.1.db.users ≡ some u')
        × Outcome "trial" "max" "subscribed" bob u')
    × (delete (has_id 8) out.1.db.users ≡ delete (has_id 8) world.db.users)
unfolding first exists dot_free order_id show
handle_callback_effect_example =
    handle_callback_effect service anns_order signature 3 clock world bobs_callback bob "trial"
      "max" "99" world-IsSound.keyed (λ n. refl) bobs_callback_verified refl
      (parse_order_id-order_id "trial" "max" "id" clock refl refl refl) refl refl

abbrev two_users : List User
two_users = ann ∷ bob ∷ []

stats_counts_example :
    ((stats two_users).total_users ≡ 2)
    × (value_at "free" (stats two_users).by_plan ≡ 2)
    × ((stats two_users).active_mrr ≡ 0)
    × ((stats two_users).trial_count ≡ 0)
unfolding count
stats_counts_example = stats_counts two_users "free"

cancel_branches_example :
    let out = cancel service 8 (answered 200) world in
    (out.0 ≡ ok tt)
    × (out.1.db.users ≡ set_user 8 (subscribed Plan.free "canceled" 0) world.db.users)
unfolding first request encode sign LiqPay.put
cancel_branches_example = cancel_branches service 8 (answered 200) world bob (λ n. refl) refl

-- Days of 24 hours, and a column of 63 bits.
abbrev adds : AddDays
adds t (pos days) = if ltb (t + days * day) (2 ^ 63) then some (t + days * day) else none
adds t (negsuc days) = none

adds-IsCalendar : IsCalendar adds
adds-IsCalendar = record { adds = λ t days small. ground arith }

extend_trial_bounds_example :
    let out = extend_trial adds 7 (pos 3) clock clock world in
    (u' : User) × (out.0 ≡ ok u')
    × (first (has_id 7) out.1.db.users ≡ some u')
    × (u'.plan ≡ Plan.max)
    × (u'.subscription_status ≡ "trialing")
    × (3 * day ≤ u'.trial_ends_at)
    × (clock + 3 * day ≤ u'.trial_ends_at)
unfolding first
extend_trial_bounds_example =
    extend_trial_bounds adds 7 3 clock clock world ann adds-IsCalendar (λ n. refl) refl
      (omega arith) (omega arith) (omega arith) (omega arith)

cancel_subscription_unaccepted_example :
    let out = cancel_subscription service 8 (answered 500) world in
    (out.0 ≡ ok tt) × (out.1.db.users ≡ world.db.users)
unfolding first request encode sign LiqPay.put
cancel_subscription_unaccepted_example =
    cancel_subscription_unaccepted service 8 (answered 500) world bob _ (λ n. refl) refl
      (ne_of_test anns_order "" refl) refl

-- The same with callbacks that say that money has come in.
abbrev paid : Callback
paid = record {
  action = "subscribe";
  status = "success";
  order_id = anns_order;
  amount = "99";
  currency = "USD";
  err_description = "";
}

abbrev paid_service : Service
paid_service = record service {
  codec = record codec { unmarshal = λ raw. some (record paid { order_id = raw }) };
}

replay_revives_example :
    let out =
      handle_callback paid_service anns_order
        ("#key" +++ (anns_order +++ "key"))
        1
        clock
        (cancel paid_service 8 (answered 200) world).1 in
    (out.0 ≡ ok tt)
    × ((u' : User) × (first (has_id 8) out.1.db.users ≡ some u')
        × (u'.plan ≡ "max")
        × (u'.subscription_status ≡ "active"))
unfolding first exists request encode sign LiqPay.put verify_and_decode parse_order_id split_dot
replay_revives_example =
    replay_revives paid_service 8 (answered 200) anns_order ("#key" +++ (anns_order +++ "key")) 1
      clock world bob paid "trial" "max" "99" world-IsSound.keyed (λ n. refl) refl refl
      (ne_of_test anns_order "" refl) refl refl refl refl refl refl refl

-- ===== src/Billing/Cancel.antt =====
-- internal/service/billing/billing.go: Cancel on every branch, and internal/service/admin/admin.go:
-- CancelSubscription where LiqPay does not accept the request.
use finance_engine.Prelude.{
  String, Bool, true, false, some, [], ◌∷◌, ◌==◌, string_eq, nat_eq, if◌then◌else◌, ◌≡◌, ◌≢◌, refl,
  ap, ◌∙◌, Bool-cases, inl, inr, suc, ==-ne,
}
use mathlib.Core.Option
use finance_engine.Schema.{Uuid, User}
use finance_engine.Store.{World, Result, ok, err, refused, IsUp, from, refuse_if}
use finance_engine.Store.Rules.{Result-cases}
use finance_engine.Table.{first}
use finance_engine.Users.{has_id, set_user, subscribed, update_subscription}
use finance_engine.Users.Laws.{get_by_id-found, first-set_user_self}
use finance_engine.Plan
use finance_engine.LiqPay.{Reply, Params, text, request}
use finance_engine.Billing.{Service, cancel}

-- The request that asks LiqPay to end a subscription.
abbrev pub unsubscribe_request : String → Params
unsubscribe_request order = ("action", text "unsubscribe") ∷ ("order_id", text order) ∷ []

-- What LiqPay makes of it.
abbrev pub accepted : Service → String → Reply → Result (Unit {0})
accepted s order reply = request s.codec s.client (unsubscribe_request order) reply

-- The answer to a cancellation.
abbrev pub cancel_answer : Service → User → Reply → Result (Unit {0})
cancel_answer s u reply =
    if u.liqpay_order_id == ""
    then err (refused "no active subscription to cancel")
    else accepted s u.liqpay_order_id reply

abbrev is_ok : {A : Type 0} → Result A → Bool
is_ok (ok a) = true
is_ok (err e) = false

-- Cancel, for a user who is there while the database answers: it fails where the user has no order, with
-- LiqPay's error where LiqPay does not accept the request, and in both cases leaves the users as they
-- were; else it succeeds, and the user has the plan Free with the status "canceled" and no trial.
pub cancel_branches :
    (s : Service) (i : Uuid) (reply : Reply) (w : World) (u : User)
    → IsUp w
    → first (has_id i) w.db.users ≡ some u
    → let out = cancel s i reply w in
      (out.0 ≡ cancel_answer s u reply)
      × (out.1.db.users ≡ (
          if is_ok (cancel_answer s u reply)
          then set_user i (subscribed Plan.free "canceled" 0) w.db.users
          else w.db.users))
unfolding cancel refuse_if from update_subscription
cancel_branches s i reply w u up found =
    let looked = get_by_id-found w i u (up w.queries) found in
    let there : first (has_id i) (set_user i (subscribed Plan.free "canceled" 0) w.db.users)
        ≡ some (subscribed Plan.free "canceled" 0 u) =
      first-set_user_self (subscribed Plan.free "canceled" 0) w.db.users (λ _. refl) i
      ∙ ap (Option.map (subscribed Plan.free "canceled" 0)) found in
    elim (Bool-cases (u.liqpay_order_id == "")) [
      | inl bare ↦ rw (looked, bare) (refl, refl)
      | inr ordered ↦ elim (Result-cases (accepted s u.liqpay_order_id reply)) [
        | inl (a, yes_ok) ↦ rw (looked, ordered, yes_ok, up (suc w.queries), there) (refl, refl)
        | inr (e, refusal) ↦ rw (looked, ordered, refusal) (refl, refl)
      ]
    ]

-- The world after a cancellation that LiqPay has accepted.
abbrev pub cancelled : Uuid → World → World
cancelled i w = record w {
  db = record (w.db) { users = set_user i (subscribed Plan.free "canceled" 0) w.db.users };
  queries = suc (suc w.queries);
}

pub cancel-cancelled :
    (s : Service) (i : Uuid) (reply : Reply) (w : World) (u : User)
    → IsUp w
    → first (has_id i) w.db.users ≡ some u
    → u.liqpay_order_id ≢ ""
    → accepted s u.liqpay_order_id reply ≡ ok tt
    → cancel s i reply w ≡ (ok tt, cancelled i w)
unfolding cancel refuse_if from update_subscription
cancel-cancelled s i reply w u up found ordered done =
    let looked = get_by_id-found w i u (up w.queries) found in
    let there : first (has_id i) (set_user i (subscribed Plan.free "canceled" 0) w.db.users)
        ≡ some (subscribed Plan.free "canceled" 0 u) =
      first-set_user_self (subscribed Plan.free "canceled" 0) w.db.users (λ _. refl) i
      ∙ ap (Option.map (subscribed Plan.free "canceled" 0)) found in
    rw (looked, ==-ne u.liqpay_order_id "" ordered, done, up (suc w.queries), there) refl

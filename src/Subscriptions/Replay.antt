-- ===== src/Subscriptions/Replay.antt =====
-- internal/service/billing/billing.go: a callback of LiqPay that arrives after the subscription was cancelled.
use finance_engine.Prelude.{
  String, false, some, List, ◌==◌, string_eq, nat_eq, ◌≡◌, ◌≢◌, refl, sym, ap, ◌∙◌, inl, inr,
  ne_of_test, nat_beq_iff,
}
use finance_engine.Schema.{Uuid, Time, User}
use finance_engine.Store.{World, ok, IsUp}
use finance_engine.Table.{first, exists, IsKeyed}
use finance_engine.Table.Laws.{first-update, first-holds, IsKeyed-update}
use finance_engine.Users.{has_id, has_order, set_user, subscribed}
use finance_engine.Plan
use finance_engine.LiqPay.{Reply, Callback, verify_and_decode}
use finance_engine.Billing.{Service, cancel, handle_callback}
use finance_engine.Billing.Orders.{parse_order_id}
use finance_engine.Billing.Cancel.{accepted, cancelled, cancel-cancelled}
use finance_engine.Subscriptions.Callbacks.{
  Outcome, trial_starts, purchase_starts, charged, ended, ignored, handle_callback_effect,
}

-- Of the outcomes of a callback, "success" leaves one.
success-Outcome :
    (flow plan status : String) (u u' : User)
    → status ≡ "success"
    → Outcome flow plan status u u'
    → (u'.plan ≡ plan) × (u'.subscription_status ≡ "active")
success-Outcome flow plan status u u' s (trial_starts e _) =
    absurd (ne_of_test "subscribed" "success" refl (sym e ∙ s))
success-Outcome flow plan status u u' s (purchase_starts e _) =
    absurd (ne_of_test "subscribed" "success" refl (sym e ∙ s))
success-Outcome flow plan status u u' s (charged _) = (refl, refl)
success-Outcome flow plan status u u' s (ended (inl e)) =
    absurd (ne_of_test "failure" "success" refl (sym e ∙ s))
success-Outcome flow plan status u u' s (ended (inr (inl e))) =
    absurd (ne_of_test "unsubscribed" "success" refl (sym e ∙ s))
success-Outcome flow plan status u u' s (ended (inr (inr e))) =
    absurd (ne_of_test "error" "success" refl (sym e ∙ s))
success-Outcome flow plan status u u' s (ignored _ e _ _ _) = absurd (e s)

-- The row of a user whose id is known, looked up by that id.
by_id :
    (i : Uuid) (users : List User) (u u' : User)
    → u.id ≡ i
    → first (has_id u.id) users ≡ some u'
    → first (has_id i) users ≡ some u'
by_id i users u u' same at = ap (λ j. first (has_id j) users) (sym same) ∙ at

-- After Cancel has succeeded for a user, a signed callback "success" for the order that was cancelled, while
-- the database answers, user ids are unique, the order is this user's, its id has a flow and a plan, the
-- amount is a number and the event's id is new: the user is on the paid plan again, with the status
-- "active".
pub replay_revives :
    (s : Service) (i : Uuid) (reply : Reply) (raw signature : String) (e : Uuid) (now : Time)
    (w : World) (u : User) (cb : Callback) (flow plan amount : String)
    → IsKeyed (λ (x : User). x.id) w.db.users
    → IsUp w
    → first (has_id i) w.db.users ≡ some u
    → first (has_order u.liqpay_order_id) w.db.users ≡ some u
    → u.liqpay_order_id ≢ ""
    → accepted s u.liqpay_order_id reply ≡ ok tt
    → verify_and_decode s.codec s.client raw signature ≡ ok cb
    → cb.order_id ≡ u.liqpay_order_id
    → cb.status ≡ "success"
    → parse_order_id cb.order_id ≡ some (flow, plan)
    → s.numeric cb.amount ≡ some amount
    → exists (λ x. x.id == e) w.db.payment_events ≡ false
    → let out = handle_callback s raw signature e now (cancel s i reply w).1 in
      (out.0 ≡ ok tt)
      × ((u' : User) × (first (has_id i) out.1.db.users ≡ some u')
          × (u'.plan ≡ plan)
          × (u'.subscription_status ≡ "active"))
replay_revives s i reply raw signature e now w u cb flow plan amount keyed up found mine ordered
      done verified order paid parsed number fresh =
    let c = subscribed Plan.free "canceled" 0 in
    let here = first-holds (has_id i) w.db.users found in
    let same = (nat_beq_iff u.id i).0 here in
    let found' : first (has_order cb.order_id) (set_user i c w.db.users) ≡ some (c u) = rw (
      order,
      first-update (has_order u.liqpay_order_id) (has_id i) c w.db.users (λ _. refl),
      mine,
      here,
    ) in
    let (answer, events, (u', becomes, outcome), others) =
      handle_callback_effect s raw signature e now (cancelled i w) cb (c u) flow plan amount
        (IsKeyed-update (λ (x : User). x.id) (has_id i) c w.db.users (λ _. refl) keyed) up verified
        found' parsed number fresh in
    let (on_plan, active) = success-Outcome flow plan cb.status (c u) u' paid outcome in
    rw (cancel-cancelled s i reply w u up found ordered done)
      (answer, (u', by_id i _ u u' same becomes, on_plan, active))

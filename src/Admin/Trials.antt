-- ===== src/Admin/Trials.antt =====
-- internal/service/admin/admin.go: how far ExtendTrial moves the end of a trial, and CancelSubscription where
-- LiqPay does not accept the request.
use finance_engine.Prelude.{
  ℕ, false, some, ◌==◌, string_eq, nat_eq, ◌+◌, ◌*◌, ◌≤◌, ◌<◌, ◌^◌, ltb, if◌then◌else◌, pos, ◌≡◌,
  ◌≢◌, refl, ap, ◌∙◌, arith, suc, ==-ne,
}
use mathlib.Core.Option
use finance_engine.Schema.{Uuid, Time, User, day}
use finance_engine.Store.{World, ok, err, Error, IsUp, refuse_if}
use finance_engine.Table.{first}
use finance_engine.Users.{has_id, set_user, subscribed, update_subscription}
use finance_engine.Users.Laws.{get_by_id-found, first-set_user_self}
use finance_engine.Plan
use finance_engine.LiqPay.{Reply}
use finance_engine.Billing.{Service}
use finance_engine.Billing.Cancel.{accepted, cancel_branches}
use finance_engine.Admin.{AddDays, new_end, extend_trial, cancel_subscription}

-- What the documents say of `AddDate` and of the column: a day has 24 hours, as it has in UTC, and a time of 63 bits of
-- microseconds, which ends after the year 292000, is held as it is.
pub record IsCalendar (add_days : AddDays) : Type 0 where
  pub adds :
      (t : Time) (days : ℕ)
      → t + days * day < 2 ^ 63
      → add_days t (pos days) ≡ some (t + days * day)

abbrev pub base : Time → Time → Time → Time
base t now later = if ltb t now then later else t

-- ExtendTrial by a positive number of days, for a user who is there while the database answers: the user is
-- on trial of Max until at least so many days after the end of the trial so far, and after now, provided
-- the clock does not run backwards between its two readings, and both ends are times that the column can
-- hold, which are those before 2 ^ 63 microseconds.
pub extend_trial_bounds :
    (add_days : AddDays) (i : Uuid) (days : ℕ) (now later : Time) (w : World) (u : User)
    → IsCalendar add_days
    → IsUp w
    → first (has_id i) w.db.users ≡ some u
    → 0 < days
    → now ≤ later
    → u.trial_ends_at + days * day < 2 ^ 63
    → later + days * day < 2 ^ 63
    → let out = extend_trial add_days i (pos days) now later w in
      (u' : User) × (out.0 ≡ ok u')
      × (first (has_id i) out.1.db.users ≡ some u')
      × (u'.plan ≡ Plan.max)
      × (u'.subscription_status ≡ "trialing")
      × (u.trial_ends_at + days * day ≤ u'.trial_ends_at)
      × (now + days * day ≤ u'.trial_ends_at)
unfolding extend_trial refuse_if update_subscription new_end
extend_trial_bounds add_days i days now later w u calendar up found positive clock small small' =
    let start = base u.trial_ends_at now later in
    let e = start + days * day in
    let looked = get_by_id-found w i u (up w.queries) found in
    let there : first (has_id i) (set_user i (subscribed Plan.max "trialing" e) w.db.users)
        ≡ some (subscribed Plan.max "trialing" e u) =
      first-set_user_self (subscribed Plan.max "trialing" e) w.db.users (λ _. refl) i
      ∙ ap (Option.map (subscribed Plan.max "trialing" e)) found in
    let some_days : (days == 0) ≡ false = ground arith in
    let held : add_days start (pos days) ≡ some e = calendar.adds start days (ground arith) in
    rw (some_days, looked, held, up (suc w.queries), there)
      (subscribed Plan.max "trialing" e u, refl, refl, refl, refl, ground arith, ground arith)

-- CancelSubscription, for a user with an order while the database answers, where LiqPay does not accept the
-- request: it reports success, and the users are as they were.
pub cancel_subscription_unaccepted :
    (s : Service) (i : Uuid) (reply : Reply) (w : World) (u : User) (e : Error)
    → IsUp w
    → first (has_id i) w.db.users ≡ some u
    → u.liqpay_order_id ≢ ""
    → accepted s u.liqpay_order_id reply ≡ err e
    → let out = cancel_subscription s i reply w in (out.0 ≡ ok tt) × (out.1.db.users ≡ w.db.users)
unfolding cancel_subscription
cancel_subscription_unaccepted s i reply w u e up found ordered refusal =
    let looked = get_by_id-found w i u (up w.queries) found in
    let v = record w { queries = suc w.queries } in
    let named = ==-ne u.liqpay_order_id "" ordered in
    let same = (cancel_branches s i reply v u up found).1 in
    rw (looked, named) (refl, rw (named, refusal) at same)

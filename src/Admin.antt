-- ===== src/Admin.antt =====
-- internal/service/admin/admin.go: what the operator does to a subscription by hand, and the statistics.
pub mod Stats
pub mod Trend
pub mod Trials
use finance_engine.Prelude.{
  String, Bool, not, ◌||◌, Option, none, some, ◌==◌, if◌then◌else◌, string_eq, nat_eq, ltb, ℤ,
  is_negative, is_zero,
}
use finance_engine.Schema.{Uuid, Time, User}
use finance_engine.Store.{M, Result, fail, refused, pure, try, refuse_if, ◌>>=◌, ◌>>◌}
use finance_engine.Users.{get_by_id, update_subscription}
use finance_engine.LiqPay.{Reply}
use finance_engine.Billing.{Service, cancel}
use finance_engine.Plan

-- `case plan.Free, plan.Pro, plan.Max, plan.Enterprise:`
unfoldable pub is_plan : String → Bool
is_plan p = p == Plan.free || (p == Plan.pro || (p == Plan.max || p == Plan.enterprise))

unfoldable pub set_plan : Uuid → String → M User
set_plan id plan_name = do
  refuse_if (not (is_plan plan_name)) "invalid plan"
  update_subscription id plan_name (if plan_name == Plan.free then "" else "manual") 0

-- `base.AddDate(0, 0, days)` as the column of a timestamp then holds it, or none where PostgreSQL refuses the
-- time. Both Go's arithmetic and the column have 64 bits.
abbrev pub AddDays : Type 0
AddDays = Time → ℤ → Option Time

-- The end of the extended trial, with the two readings of the clock.
unfoldable pub new_end : AddDays → Time → ℤ → Time → Time → Option Time
new_end add_days trial_ends_at days now later =
    add_days (if ltb trial_ends_at now then later else trial_ends_at) days

-- The end is stored if the column can hold it.
abbrev pub grant : Uuid → Option Time → M User
grant id none = fail (refused "timestamp out of range")
grant id (some end) = update_subscription id Plan.max "trialing" end

unfoldable pub extend_trial : AddDays → Uuid → ℤ → Time → Time → M User
extend_trial add_days id days now later = do
  refuse_if (is_negative days || is_zero days) "days must be positive"
  user ← get_by_id id
  grant id (new_end add_days user.trial_ends_at days now later)

-- CancelSubscription, with LiqPay's answer if it is asked.
unfoldable pub cancel_subscription : Service → Uuid → Reply → M (Unit {0})
cancel_subscription s id reply = do
  user ← get_by_id id
  if not (user.liqpay_order_id == "")
      then (do try (cancel s id reply); pure tt)
      else (do update_subscription id Plan.free "" 0; pure tt)

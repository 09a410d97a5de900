-- ===== src/Subscriptions.antt =====
-- Every call that can change a subscription, of users and of the operator, as one step on the database:
-- internal/service/billing and internal/service/admin, as their handlers in internal/rest call them.
pub mod Entitlement
pub mod Trials
pub mod Callbacks
pub mod Replay
mod Tests
use finance_engine.Prelude.{ℕ, String, List, [], ◌∷◌, ℤ}
use finance_engine.Schema.{Uuid, Time}
use finance_engine.Store.{World}
use finance_engine.LiqPay.{Reply}
use finance_engine.Billing.{Service, start_trial, subscribe, handle_callback, cancel}
use finance_engine.Admin.{AddDays, set_plan, extend_trial, cancel_subscription}

-- A call of the billing service, with what it reads from the clock and from LiqPay.
pub data Call : Type 0 where
  starts_trial : Uuid → Time → Time → Call
  subscribes : Uuid → String → Time → Time → Call
  gets_callback : String → String → Uuid → Time → Call
  cancels : Uuid → Reply → Call

-- A call of the operator's service.
pub data AdminCall : Type 0 where
  sets_plan : Uuid → String → AdminCall
  extends_trial : AddDays → Uuid → ℤ → Time → Time → AdminCall
  cancels_subscription : Uuid → Reply → AdminCall

pub data Event : Type 0 where
  by_user : Call → Event
  by_admin : AdminCall → Event

module _ (s : Service) where
  unfoldable pub step : World → Call → World
  step w (starts_trial i now later) = (start_trial s i now later w).1
  step w (subscribes i plan now later) = (subscribe s i plan now later w).1
  step w (gets_callback raw signature e now) = (handle_callback s raw signature e now w).1
  step w (cancels i reply) = (cancel s i reply w).1

  unfoldable pub admin_step : World → AdminCall → World
  admin_step w (sets_plan i plan) = (set_plan i plan w).1
  admin_step w (extends_trial add_days i days now later) =
      (extend_trial add_days i days now later w).1
  admin_step w (cancels_subscription i reply) = (cancel_subscription s i reply w).1

  unfoldable pub happens : World → Event → World
  unfolding step admin_step
  happens w (by_user c) = step w c
  happens w (by_admin c) = admin_step w c

  -- A history of calls, one after the other.
  unfoldable pub run : World → List Event → World
  unfolding happens
  run w [] = w
  run w (e ∷ es) = run (happens w e) es

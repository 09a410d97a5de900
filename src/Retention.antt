-- ===== src/Retention.antt =====
-- internal/retention/retention.go: the sweep that deletes the transactions older than the plan keeps.
-- `clock` is the reading of the clock when a plan's turn comes; a day of `AddDate` has 24 hours, as it
-- has in UTC.
pub mod Sweep
mod Tests
use finance_engine.Prelude.{ℕ, String, Option, none, some, List, [], ◌∷◌, ◌-◌, ◌*◌}
use finance_engine.Schema.{Time, day}
use finance_engine.Store.{M, try, pure, ◌>>=◌, ◌>>◌}
use finance_engine.Transactions.{delete_expired_for_plan}
use finance_engine.Plan.{retention_days}
use finance_engine.Plan

abbrev pub plans_with_limited_retention : List String
plans_with_limited_retention = Plan.free ∷ Plan.pro ∷ []

-- The body of the loop in sweepOnce, whose errors are only logged.
unfoldable pub sweep_plans : (String → Time) → List String → M (Unit {0})
unfolding retention_days
sweep_plans clock [] = pure tt
sweep_plans clock (p ∷ ps) =
    let rest = sweep_plans clock ps in
    elim (retention_days p) [
      | none ↦ rest
      | some days ↦ do try (delete_expired_for_plan p (clock p - days * day)); rest
    ]

unfoldable pub sweep_once : (String → Time) → M (Unit {0})
unfolding sweep_plans
sweep_once clock = sweep_plans clock plans_with_limited_retention

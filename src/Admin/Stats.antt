-- ===== src/Admin/Stats.antt =====
-- The statistics of admin.go: the query UserCountByPlan and the sums over its rows. A float64 of whole
-- dollars is a number here. The signup trend is in Admin/Trend.
pub mod Laws
use finance_engine.Prelude.{
  ℕ, String, Bool, true, false, ◌&&◌, List, [], ◌∷◌, ◌==◌, if◌then◌else◌, string_eq, ◌+◌, ◌*◌, ◌≡◌,
  refl, arith, length, eq_iff, sym, ◌∙◌, Bool-cases, inl, inr, suc,
}
use finance_engine.Schema.{User}
use finance_engine.Table.{count}
use finance_engine.Plan

-- repository.PlanCount
pub record PlanCount : Type 0 where
  pub plan : String
  pub subscription_status : String
  pub user_count : ℕ

-- One more user in a group.
unfoldable pub bump : String → String → List PlanCount → List PlanCount
bump p s [] = record { plan = p; subscription_status = s; user_count = 1 } ∷ []
bump p s (c ∷ cs) =
    if c.plan == p && c.subscription_status == s
    then record c { user_count = c.user_count + 1 } ∷ cs
    else c ∷ bump p s cs

-- `SELECT plan, subscription_status, count(*) FROM users GROUP BY plan, subscription_status`
unfoldable pub count_by_plan : List User → List PlanCount
unfolding bump
count_by_plan [] = []
count_by_plan (u ∷ us) = bump u.plan u.subscription_status (count_by_plan us)

pub record Stats : Type 0 where
  pub total_users : ℕ
  pub by_plan : List (String × ℕ)
  pub active_mrr : ℕ
  pub trial_count : ℕ

-- `m[k] += n`
unfoldable pub add_at : String → ℕ → List (String × ℕ) → List (String × ℕ)
add_at k n [] = (k, n) ∷ []
add_at k n ((j, m) ∷ r) = if j == k then (j, m + n) ∷ r else (j, m) ∷ add_at k n r

-- `m[k]`, zero where the key is missing.
unfoldable pub value_at : String → List (String × ℕ) → ℕ
value_at k [] = 0
value_at k ((j, m) ∷ r) = if j == k then m else value_at k r

-- The monthly price of a plan in the statistics.
unfoldable pub stats_price : String → ℕ
stats_price p = if p == Plan.pro then 15 else if p == Plan.max then 99 else 0

-- The body of the loop in Stats.
unfoldable pub tally : Stats → PlanCount → Stats
unfolding add_at stats_price
tally s c = record {
  total_users = s.total_users + c.user_count;
  by_plan = add_at c.plan c.user_count s.by_plan;
  active_mrr =
      if c.subscription_status == "active"
      then s.active_mrr + c.user_count * stats_price c.plan
      else s.active_mrr;
  trial_count =
      if c.subscription_status == "trialing" then s.trial_count + c.user_count else s.trial_count;
}

unfoldable pub tally_all : Stats → List PlanCount → Stats
unfolding tally
tally_all s [] = s
tally_all s (c ∷ cs) = tally_all (tally s c) cs

abbrev pub no_stats : Stats
no_stats = record { total_users = 0; by_plan = []; active_mrr = 0; trial_count = 0 }

unfoldable pub stats : List User → Stats
unfolding tally_all count_by_plan
stats users = tally_all no_stats (count_by_plan users)

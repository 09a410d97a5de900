-- ===== src/Advisor/Tests.antt =====
-- The advisor on the transactions of two users, and on three charges a month apart.
use finance_engine.Prelude.{
  sort_by, insert_sorted, ℕ, String, true, List, [], ◌∷◌, string_eq, ◌≡◌, refl, ◌↔◌, ◌≤◌, ◌*◌,
  arith, length, All, pos,
}
use finance_engine.Schema.{Transaction, day}
use finance_engine.Store.{World, ok}
use finance_engine.Maps.{lookup, alter}
use finance_engine.Maps.Laws.{In}
use finance_engine.Rest.Fixtures.{world, spent}
use finance_engine.Advisor.Score.{
  financial_score, Breakdown, score_of, add_transactions, add_transaction, breakdown, savings_rate,
  top_category_share, clamp_score, weighted, largest_share,
}
use finance_engine.Store.{from}
use finance_engine.Table.{select}
use finance_engine.Listings.{list_transactions, newest, insert_newest}
use finance_engine.Advisor.{convert, rate_table}
use finance_engine.Advisor.Recurring.{
  Subscription, detect_subscriptions, recurring_in, is_recurring, by_date, subscription_of, group,
  charge_of, collect_recurring, average_amount, average_interval, interval_sum, amount_sum,
  max_deviation, deviation,
}
use finance_engine.Advisor.Summary.{build_summary}
use finance_engine.Categories.{list_categories}
use finance_engine.Advisor.Runway.{runway}
use finance_engine.Advisor.Pace.{budget_pace}
use finance_engine.Advisor.Felix.{chat, ask_insights, insights, get_cached, kept_lines}
use finance_engine.Advisor.Bounds.{IsBounded, score_bounds}
use finance_engine.Advisor.Blind.{without_transfers, transfers_count_nowhere}
use finance_engine.Advisor.Cached.{IsShown, insights_last_an_hour}
use finance_engine.Advisor.Charges.{charges}
use finance_engine.Advisor.Regular.{Recurs}
use finance_engine.Advisor.Detected.{recurring_in_exact}
use finance_engine.Advisor.Fixtures.{
  service, tenths-IsRounding, tenths-IsOrdering, lines, draw, cache,
}

abbrev moved : Transaction
moved = record (spent 23 7 0) { is_internal_transfer = true }

abbrev moving_world : World
moving_world = record world {
  db = record world.db { transactions = moved ∷ world.db.transactions };
}

transfers_count_nowhere_example :
    let w' = without_transfers moving_world in
    ((financial_score service 7 "UAH" (ok []) 5 w').0
      ≡ (financial_score service 7 "UAH" (ok []) 5 moving_world).0)
    × ((detect_subscriptions service 7 5 6 w').0
        ≡ (detect_subscriptions service 7 5 6 moving_world).0)
    × ((runway service 7 "UAH" (ok []) 5 6 7 8 w').0
        ≡ (runway service 7 "UAH" (ok []) 5 6 7 8 moving_world).0)
    × ((budget_pace service 7 "UAH" (ok []) 5 w').0
        ≡ (budget_pace service 7 "UAH" (ok []) 5 moving_world).0)
    × ((chat service 7 "UAH" [] "Hi" draw w').0
        ≡ (chat service 7 "UAH" [] "Hi" draw moving_world).0)
    × ((ask_insights service lines 7 "UAH" draw w').0
        ≡ (ask_insights service lines 7 "UAH" draw moving_world).0)
transfers_count_nowhere_example =
    transfers_count_nowhere service 7 "UAH" (ok []) lines [] "Hi" draw 5 6 7 8 moving_world

abbrev insight_lines : List String
insight_lines = "Eat less out" ∷ "Eat less out" ∷ []

insights_last_an_hour_example :
    let c' = (insights service lines "advisor" 20 21 7 "UAH" draw cache world).0.1 in
    let again = insights service lines "advisor" 30 31 7 "UAH" draw c' moving_world in
    (length insight_lines ≤ 3)
    × All (IsShown lines) insight_lines
    × (again.0.0 ≡ ok insight_lines)
    × (again.1 ≡ moving_world)
unfolding insights get_cached lookup ask_insights build_summary list_transactions list_categories
    from kept_lines
insights_last_an_hour_example =
    insights_last_an_hour service lines "advisor" 7 "UAH" 20 21 30 31 draw draw cache world
      moving_world insight_lines (λ n. refl) refl refl (omega arith)

-- Three charges of the same amount, 30 days apart.
abbrev charged : ℕ → Transaction
charged n = record (spent n 7 2) { date = n * (30 * day); note = "netflix" }

abbrev three_charges : List Transaction
three_charges = charged 3 ∷ charged 2 ∷ charged 1 ∷ []

abbrev found : Subscription
found = record {
  description = "netflix";
  average_amount = 100;
  currency = "UAH";
  occurrences = 3;
  last_date = 90 * day;
  average_interval_days = 300;
}

recurring_in_exact_example : In found (recurring_in service three_charges) ↔ (
    (note : String) × Recurs service (by_date service (charges service note three_charges))
    × (found ≡ subscription_of service note (by_date service (charges service note three_charges))))
recurring_in_exact_example =
    recurring_in_exact service tenths-IsOrdering
      (record { groups = λ g gs. (λ h. h, λ h. h); entries = λ es. refl }) three_charges found

-- The detection at work.
found_alone : recurring_in service three_charges ≡ found ∷ []
unfolding recurring_in group charge_of collect_recurring is_recurring by_date sort_by insert_sorted
    alter average_amount average_interval interval_sum amount_sum max_deviation deviation
    subscription_of
found_alone = refl

abbrev score : Breakdown
score = record {
  total = pos 0;
  savings_rate = 0;
  savings_score = pos 0;
  top_category_share = 10;
  balance_score = pos 0;
  active_days = 1;
  consistency_score = pos 0;
}

score_bounds_example : IsBounded score
unfolding financial_score score_of add_transactions add_transaction breakdown savings_rate
    top_category_share clamp_score weighted largest_share convert rate_table list_transactions
    select newest insert_newest from alter lookup
score_bounds_example =
    score_bounds service tenths-IsRounding 7 "UAH" (ok []) 5 world score refl refl refl

-- ===== src/Json/Advice.antt =====
-- internal/rest/models.go, advisor.go and admin.go: the rates, the advisor's answers and the signups, as the browser
-- reads them. A float64 stands as it is.
use finance_engine.Prelude.{ℕ, String, Bool}
use finance_engine.Rates.{Rate}
use finance_engine.Advisor.{Float}
use finance_engine.Advisor.Recurring.{Subscription}
use finance_engine.Advisor.Runway.{Forecast}
use finance_engine.Advisor.Pace.{CategoryPace}
use finance_engine.Formats.{Formats}
use finance_engine.Json.{format_optional_time}

pub record RateJson : Type 0 where
  pub currency : String
  pub rate_to_uah : Float
  pub updated_at : String

pub record SubscriptionJson : Type 0 where
  pub description : String
  pub average_amount : Float
  pub currency : String
  pub occurrences : ℕ
  pub last_date : String
  pub average_interval_days : Float

pub record RunwayJson : Type 0 where
  pub current_balance : Float
  pub daily_burn_rate : Float
  pub projected_zero_date : String
  pub next_payday_estimate : String
  pub will_make_it : Bool

pub record CategoryPaceJson : Type 0 where
  pub category_id : String
  pub category_name : String
  pub typical_monthly : Float
  pub spent_so_far : Float
  pub pace_ratio : Float

pub record DaySignupsJson : Type 0 where
  pub day : String
  pub signups : ℕ

module _ (f : Formats) where
  unfoldable pub rate_to_json : Rate Float → RateJson
  rate_to_json r = record {
    currency = r.currency;
    rate_to_uah = r.rate_to_uah;
    updated_at = f.time_text r.updated_at;
  }

  unfoldable pub subscription_to_json : Subscription → SubscriptionJson
  subscription_to_json s = record {
    description = s.description;
    average_amount = s.average_amount;
    currency = s.currency;
    occurrences = s.occurrences;
    last_date = f.time_text s.last_date;
    average_interval_days = s.average_interval_days;
  }

  unfoldable pub runway_to_json : Forecast → RunwayJson
  runway_to_json r = record {
    current_balance = r.current_balance;
    daily_burn_rate = r.daily_burn_rate;
    projected_zero_date = format_optional_time f r.projected_zero_date;
    next_payday_estimate = format_optional_time f r.next_payday_estimate;
    will_make_it = r.will_make_it;
  }

  unfoldable pub pace_to_json : CategoryPace → CategoryPaceJson
  pace_to_json p = record {
    category_id = f.uuid_text p.category_id;
    category_name = p.category_name;
    typical_monthly = p.typical_monthly;
    spent_so_far = p.spent_so_far;
    pace_ratio = p.pace_ratio;
  }

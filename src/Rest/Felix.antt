-- ===== src/Rest/Felix.antt =====
-- internal/rest/advisor.go and internal/rest/rate.go: the advisor's answers, two of them behind the plan's gate, and
-- the rates. What Insights writes to its cache is no table.
use finance_engine.Prelude.{String, not, Option, List, [], ◌==◌, string_eq, map, ◌+++◌}
use finance_engine.Schema.{Uuid, Time, User}
use finance_engine.Store.{Result, M, from}
use finance_engine.Users.{get_by_id}
use finance_engine.Plan
use finance_engine.Rates.{Rate}
use finance_engine.Advisor.{Float, Service}
use finance_engine.Advisor.Score.{financial_score}
use finance_engine.Advisor.Recurring.{detect_subscriptions}
use finance_engine.Advisor.Runway
use finance_engine.Advisor.Pace.{budget_pace}
use finance_engine.Advisor.Felix
use finance_engine.Advisor.Felix.{Message, Draw, Lines, Cache, chat}
use finance_engine.Json.Advice.{rate_to_json, subscription_to_json, runway_to_json, pace_to_json}
use finance_engine.Rest.{
  Handler, Config, write_json, write_error, reply, required, allowed, call, ◌>>=◌, ◌>>◌, said,
  insights, score, subscriptions, runway, paces, rates, rates_at,
}
use finance_engine.Rest.Auth.{invalid_body}

-- chatRequest
pub record ChatRequest : Type 0 where
  pub message : String
  pub history : List Message

-- The lookup of the user with which the handlers begin.
unfoldable pub with_account : Uuid → (User → Handler) → Handler
with_account user_id next = do
  user ← call (get_by_id user_id) (λ _. write_error 401 "not signed in")
  next user

-- The same, and the test of the plan.
unfoldable pub on_felix_plan : Uuid → (User → Handler) → Handler
on_felix_plan user_id next = with_account user_id λ user. do
  allowed (Plan.allows_felix user.plan) (write_error 403 "Felix is available from the Pro plan")
  next user

-- The answer of Insights, without the cache that it leaves.
abbrev pub insights_call :
    Service → Lines → String → Time → Time → Uuid → String → Draw → Cache → M (List String)
insights_call s l key asked stored user_id base d c w =
    let out = Felix.insights s l key asked stored user_id base d c w in (out.0.0, out.1)

module _ (cfg : Config) where
  -- The key of the insights in Redis.
  abbrev pub insights_key : Uuid → String → String
  insights_key user_id base =
      "advisor:insights:" +++ (cfg.formats.uuid_text user_id +++ (":" +++ base))

  module _ (s : Service) where
    unfoldable pub chat_handler : Uuid → Option ChatRequest → Draw → Handler
    chat_handler user_id body d = do
      req ← required body invalid_body
      allowed (not (req.message == "")) (write_error 400 "message is required")
      on_felix_plan user_id λ user.
          call (chat s user_id user.base_currency req.history req.message d)
            (λ _. write_error 503 "advisor unavailable — make sure `ollama serve` is running")
            λ text. reply (write_json [] 200 (said text))

    unfoldable pub insights_handler : Lines → Uuid → Time → Time → Draw → Cache → Handler
    insights_handler l user_id asked stored d c = on_felix_plan user_id λ user.
        call
          (insights_call s l (insights_key user_id user.base_currency) asked stored user_id
            user.base_currency d c)
          (λ _. write_error 503 "advisor unavailable — make sure `ollama serve` is running")
          λ lines. reply (write_json [] 200 (insights lines))

    unfoldable pub score_handler : Uuid → Result (List (Rate Float)) → Time → Handler
    score_handler user_id known now = with_account user_id λ user.
        call (financial_score s user_id user.base_currency known now)
          (λ _. write_error 500 "failed to compute financial score")
          λ b. reply (write_json [] 200 (score b))

    unfoldable pub subscriptions_handler : Uuid → Time → Time → Handler
    subscriptions_handler user_id now later =
        call (detect_subscriptions s user_id now later)
          (λ _. write_error 500 "failed to detect subscriptions")
          λ subs.
            reply (write_json [] 200 (subscriptions (map (subscription_to_json cfg.formats) subs)))

    unfoldable pub runway_handler :
        Uuid → Result (List (Rate Float)) → Time → Time → Time → Time → Handler
    runway_handler user_id known listed now now' later = with_account user_id λ user.
        call (Runway.runway s user_id user.base_currency known listed now now' later)
          (λ _. write_error 500 "failed to compute runway")
          λ forecast. reply (write_json [] 200 (runway (runway_to_json cfg.formats forecast)))

    unfoldable pub pace_handler : Uuid → Result (List (Rate Float)) → Time → Handler
    pace_handler user_id known now = with_account user_id λ user.
        call (budget_pace s user_id user.base_currency known now)
          (λ _. write_error 500 "failed to compute budget pace")
          λ found. reply (write_json [] 200 (paces (map (pace_to_json cfg.formats) found)))

  -- list of rate.go, with what the repository of the rates answers.
  unfoldable pub list_rates_handler : Result (List (Rate Float)) → Handler
  list_rates_handler known =
      call (from known) (λ _. write_error 500 "failed to list rates")
        λ found. reply (write_json [] 200 (rates (map (rate_to_json cfg.formats) found)))

  -- history of rate.go, with the reading of the date and the repository's answer for one.
  unfoldable pub history_handler :
      (String → Option Time) → String → (Time → Result (List (String × Float))) → Handler
  history_handler parse_day text answers =
      required (parse_day text) (write_error 400 "invalid date (expected YYYY-MM-DD)") λ date.
        call (from (answers date)) (λ _. write_error 500 "failed to fetch historical rates")
          λ found. reply (write_json [] 200 (rates_at found))

-- ===== src/Rest/Panel.antt =====
-- internal/rest/admin.go: the operator's panel.
use finance_engine.Prelude.{
  ℕ, String, Bool, not, ◌&&◌, Option, none, some, [], map, ◌==◌, string_eq, leb, if◌then◌else◌, ℤ,
  List, pos, negsuc, ◌*◌, ◌^◌, ◌-◌,
}
use finance_engine.Schema.{Time, User, second}
use finance_engine.Store.{from}
use finance_engine.LiqPay.{Reply}
use finance_engine.Billing.{Service}
use finance_engine.Admin.{AddDays, set_plan, extend_trial, cancel_subscription}
use finance_engine.Admin.Trend.{DaySignups, load_stats}
use finance_engine.Json.Advice.{DaySignupsJson}
use finance_engine.Listings.{list_users, get_user}
use finance_engine.Json.{user_to_admin_json}
use finance_engine.Tokens.{generate_admin}
use finance_engine.Rest.{
  Handler, Config, write_json, write_error, reply, required, allowed, call, ◌>>=◌, ◌>>◌, token,
  admin_user, admin_users, admin_detail, status_ok, admin_stats,
}
use finance_engine.Rest.Auth.{invalid_body, says}

-- `12 * time.Hour`
abbrev pub admin_token_duration : ℕ
admin_token_duration = 12 * 3600 * second

-- `strconv.Atoi` of a query parameter, with a bound on what it accepts, or a default.
unfoldable pub parameter : ℕ → ℕ → Option ℤ → Option ℕ
parameter low high none = none
parameter low high (some (negsuc n)) = none
parameter low high (some (pos n)) = if leb low n && leb n high then some n else none

abbrev pub or_default : ℕ → Option ℕ → ℕ
or_default d none = d
or_default d (some n) = n

-- The greatest int.
abbrev pub max_int : ℕ
max_int = 2 ^ 63 - 1

-- parsePagination, with what `strconv.Atoi` reads of "limit" and "offset".
unfoldable pub parse_pagination : Option ℤ → Option ℤ → ℕ × ℕ
parse_pagination limit offset =
    (or_default 50 (parameter 1 200 limit), or_default 0 (parameter 0 max_int offset))

-- daySignupsJSON of a row, with `Format`.
abbrev pub day_signups_to_json : (String → Time → String) → DaySignups → DaySignupsJson
day_signups_to_json format_in d = record { day = format_in "2006-01-02" d.day; signups = d.signups }

module _ (cfg : Config) where
  -- login; the comparison takes the same time for every password.
  unfoldable pub admin_login : Option String → Time → Time → Handler
  admin_login body now later = do
    allowed (not (cfg.admin_password == "")) (write_error 503 "admin login is not configured")
    password ← required body invalid_body
    allowed (password == cfg.admin_password) (write_error 401 "incorrect password")
    made ←
        call (from (generate_admin cfg.library cfg.jwt.secret admin_token_duration now later))
          (λ _. write_error 500 "failed to issue admin token")
    reply (write_json [] 200 (token made))

  unfoldable pub list_users_handler :
      (String → String → Bool)
      → (List User → List User)
      → String
      → String
      → Option ℤ
      → Option ℤ
      → Handler
  list_users_handler is_like arrange search plan limit_text offset_text = do
    result ←
        call
          (list_users is_like arrange search plan (parse_pagination limit_text offset_text).0
            (parse_pagination limit_text offset_text).1)
          (λ _. write_error 500 "failed to list users")
    reply (
        write_json [] 200
          (admin_users (map (user_to_admin_json cfg.formats) result.users) result.total))

  unfoldable pub get_user_handler : String → Handler
  get_user_handler path_id = do
    id ← required (cfg.formats.parse_uuid path_id) (write_error 400 "invalid user id")
    detail ← call (get_user id) (λ _. write_error 404 "user not found")
    reply (
        write_json [] 200
          (admin_detail (user_to_admin_json cfg.formats detail.user) detail.transaction_count))

  unfoldable pub set_plan_handler : String → Option String → Handler
  set_plan_handler path_id body = do
    id ← required (cfg.formats.parse_uuid path_id) (write_error 400 "invalid user id")
    plan ← required body invalid_body
    u ← call (set_plan id plan) (says cfg 400)
    reply (write_json [] 200 (admin_user (user_to_admin_json cfg.formats u)))

  unfoldable pub extend_trial_handler : AddDays → String → Option ℤ → Time → Time → Handler
  extend_trial_handler add_days path_id body now later = do
    id ← required (cfg.formats.parse_uuid path_id) (write_error 400 "invalid user id")
    days ← required body invalid_body
    u ← call (extend_trial add_days id days now later) (says cfg 400)
    reply (write_json [] 200 (admin_user (user_to_admin_json cfg.formats u)))

  unfoldable pub cancel_subscription_handler : Service → String → Reply → Handler
  cancel_subscription_handler s path_id answer = do
    id ← required (cfg.formats.parse_uuid path_id) (write_error 400 "invalid user id")
    done ← call (cancel_subscription s id answer) (says cfg 400)
    reply (write_json [] 200 status_ok)

  -- stats, at PostgreSQL's now().
  unfoldable pub stats_handler : (String → Time → String) → Time → Handler
  stats_handler format_in now =
      call (load_stats now) (λ _. write_error 500 "failed to load stats")
        λ (stats, trend).
          reply (write_json [] 200 (admin_stats stats (map (day_signups_to_json format_in) trend)))

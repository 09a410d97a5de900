-- ===== src/Rest/Mux.antt =====
-- internal/rest/server.go: which handler answers which route, and behind which check. Go's ServeMux picks the
-- route, so a route is a constructor here, with what its handler reads of the path, of the query and of the
-- decoded body, and what its service draws from outside. The healing of translations that a listing of
-- categories starts runs on its own and is not part of the request.
use finance_engine.Prelude.{String, Bool, Option, List, [], ◌∷◌, ℤ}
use finance_engine.Schema.{Uuid, Time, User}
use finance_engine.Admin.{AddDays}
use finance_engine.Store.{Result}
use finance_engine.LiqPay.{Reply}
use finance_engine.Billing
use finance_engine.Accounts
use finance_engine.Accounts.{Texts}
use finance_engine.Sessions
use finance_engine.Imports.{StatementItem}
use finance_engine.Connections.Accounts.{Account}
use finance_engine.Rest.{Request, Handler, Config, with_auth, with_admin_auth, with_cors}
use finance_engine.Rest.Auth.{
  EmailPasswordRequest, PreferencesRequest, ProfileRequest, me, update_preferences_handler,
  update_profile_handler, update_goals_handler, update_currency_handler, signup, login, google,
  refresh_handler, list_sessions, revoke_session, logout_handler,
}
use finance_engine.Rest.Book.{
  CreateCategoryRequest, CreateTransactionRequest, Row, list_categories_handler,
  create_category_handler, delete_category_handler, list_transactions_handler,
  create_transaction_handler, update_transaction_handler, delete_transaction_handler,
}
use finance_engine.Rest.Bank.{
  AccountsRequest, ConnectRequest, accounts_handler, connect_handler, my_accounts_handler,
  update_accounts_handler, sync_handler, status_handler, disconnect_handler,
}
use finance_engine.Rest.Paying.{
  start_trial_handler, subscribe_handler, cancel_handler, receipts_handler,
}
use finance_engine.Rest.Papers.{Papers, Upload, export_handler, import_handler}
use finance_engine.Rest.Panel.{
  admin_login, list_users_handler, get_user_handler, set_plan_handler, extend_trial_handler,
  cancel_subscription_handler, stats_handler,
}
use finance_engine.Rates.{Rate}
use finance_engine.Advisor
use finance_engine.Advisor.{Float}
use finance_engine.Advisor.Felix.{Lines, Draw, Cache}
use finance_engine.Rest.Felix.{
  ChatRequest, list_rates_handler, history_handler, chat_handler, insights_handler, score_handler,
  pace_handler, subscriptions_handler, runway_handler,
}

-- The routes that anybody may call.
pub data PublicRoute : Type 0 where
  post_signup post_login : Option EmailPasswordRequest → Accounts.Draw → Sessions.Draw → PublicRoute
  post_google :
      Option String
      → (String → Result (String × String))
      → Accounts.Draw
      → Sessions.Draw
      → PublicRoute
  post_refresh : Time → Time → Sessions.Draw → PublicRoute
  post_logout : Time → PublicRoute
  post_admin_login : Option String → Time → Time → PublicRoute

-- The routes behind withAuth.
pub data UserRoute : Type 0 where
  get_me get_categories get_my_accounts get_bank_status post_bank_disconnect get_receipts :
      UserRoute
  patch_preferences : Option PreferencesRequest → UserRoute
  patch_profile : Option ProfileRequest → UserRoute
  patch_goals patch_currency : Option String → UserRoute
  get_sessions : Time → UserRoute
  delete_session : String → Time → UserRoute
  post_category : Option CreateCategoryRequest → Row → UserRoute
  delete_category_at delete_transaction_at : String → UserRoute
  get_transactions : String → String → UserRoute
  post_transaction : Option CreateTransactionRequest → Row → UserRoute
  put_transaction : String → Option CreateTransactionRequest → Time → UserRoute
  post_bank_accounts : Option String → UserRoute
  post_bank_connect :
      Option ConnectRequest → Result String → Result String → Result (Unit {0}) → Time → UserRoute
  put_bank_accounts : Option AccountsRequest → UserRoute
  post_bank_sync : Result String → Result (List (StatementItem × (Uuid × Time))) → Time → UserRoute
  post_start_trial : Time → Time → UserRoute
  post_subscribe : Option String → Time → Time → UserRoute
  post_cancel : Reply → UserRoute
  get_export : String → String → Time → UserRoute
  post_import : Upload → UserRoute
  get_rates : Result (List (Rate Float)) → UserRoute
  get_rate_history : String → (Time → Result (List (String × Float))) → UserRoute
  post_chat : Option ChatRequest → Draw → UserRoute
  get_insights : Time → Time → Draw → Cache → UserRoute
  get_score get_pace : Result (List (Rate Float)) → Time → UserRoute
  get_subscriptions : Time → Time → UserRoute
  get_runway : Result (List (Rate Float)) → Time → Time → Time → Time → UserRoute

-- The routes behind withAdminAuth.
pub data AdminRoute : Type 0 where
  get_users : (List User → List User) → String → String → Option ℤ → Option ℤ → AdminRoute
  get_user_at : String → AdminRoute
  patch_plan : String → Option String → AdminRoute
  post_extend_trial : AddDays → String → Option ℤ → Time → Time → AdminRoute
  post_admin_cancel : String → Reply → AdminRoute
  get_stats : Time → AdminRoute

pub data Route : Type 0 where
  public : PublicRoute → Route
  user : UserRoute → Route
  admin : AdminRoute → Route

-- `rest.Options`: the services behind the routes, with what they ask of other packages.
pub record App : Type 0 where
  pub config : Config
  pub texts : Texts
  pub sessions : Sessions.Service
  pub billing : Billing.Service
  pub same_name : String → String → Bool
  pub numeric : String → Option String
  pub is_like : String → String → Bool
  pub webhook_base_url : String
  pub client_info : String → Result (List Account)
  pub decrypt : String → Result String
  pub papers : Papers
  pub advisor : Advisor.Service
  pub lines : Lines

module _ (app : App) where
  unfoldable pub serve_public : Request → PublicRoute → Handler
  serve_public r (post_signup body account d) =
      signup app.config app.sessions app.texts r body account d
  serve_public r (post_login body account d) =
      login app.config app.sessions app.texts r body account d
  serve_public r (post_google body verified account d) =
      google app.config app.sessions r body verified account d
  serve_public r (post_refresh now revoked d) =
      refresh_handler app.config app.sessions r now revoked d
  serve_public r (post_logout revoked) = logout_handler app.config app.sessions r revoked
  serve_public r (post_admin_login body now later) = admin_login app.config body now later

  unfoldable pub serve_user : Request → UserRoute → Uuid → Handler
  serve_user r get_me i = me app.config i
  serve_user r get_categories i = list_categories_handler app.config i
  serve_user r get_my_accounts i = my_accounts_handler app.config app.client_info app.decrypt i
  serve_user r get_bank_status i = status_handler app.config i
  serve_user r post_bank_disconnect i = disconnect_handler app.config i
  serve_user r get_receipts i = receipts_handler app.config i
  serve_user r (patch_preferences body) i = update_preferences_handler app.config app.texts i body
  serve_user r (patch_profile body) i = update_profile_handler app.config app.texts i body
  serve_user r (patch_goals body) i = update_goals_handler app.config app.texts i body
  serve_user r (patch_currency body) i = update_currency_handler app.config i body
  serve_user r (get_sessions now) i = list_sessions app.config app.sessions r i now
  serve_user r (delete_session path_id revoked) i =
      revoke_session app.config app.sessions i path_id revoked
  serve_user r (post_category body row) i = create_category_handler app.config i body row
  serve_user r (delete_category_at path_id) i = delete_category_handler app.config i path_id
  serve_user r (delete_transaction_at path_id) i = delete_transaction_handler app.config i path_id
  serve_user r (get_transactions from to) i = list_transactions_handler app.config i from to
  serve_user r (post_transaction body row) i =
      create_transaction_handler app.config app.numeric i body row
  serve_user r (put_transaction path_id body now) i =
      update_transaction_handler app.config app.numeric i path_id body now
  serve_user r (post_bank_accounts body) i = accounts_handler app.config app.client_info i body
  serve_user r (post_bank_connect body secret encrypted registered now) i =
      connect_handler app.config app.webhook_base_url i body secret encrypted registered now
  serve_user r (put_bank_accounts body) i = update_accounts_handler app.config i body
  serve_user r (post_bank_sync decrypted statement now) i =
      sync_handler app.config app.same_name app.numeric i decrypted statement now
  serve_user r (post_start_trial now later) i =
      start_trial_handler app.config app.billing i now later
  serve_user r (post_subscribe body now later) i =
      subscribe_handler app.config app.billing i body now later
  serve_user r (post_cancel answer) i = cancel_handler app.config app.billing i answer
  serve_user r (get_export first last now) i = export_handler app.papers i first last now
  serve_user r (post_import upload) i = import_handler app.papers app.config app.numeric i upload
  serve_user r (get_rates known) i = list_rates_handler app.config known
  serve_user r (get_rate_history text answers) i =
      history_handler app.config (app.papers.texts.parse_in "2006-01-02") text answers
  serve_user r (post_chat body d) i = chat_handler app.config app.advisor i body d
  serve_user r (get_insights asked stored d cache) i =
      insights_handler app.config app.advisor app.lines i asked stored d cache
  serve_user r (get_score known now) i = score_handler app.config app.advisor i known now
  serve_user r (get_pace known now) i = pace_handler app.config app.advisor i known now
  serve_user r (get_subscriptions now later) i =
      subscriptions_handler app.config app.advisor i now later
  serve_user r (get_runway known listed now now' later) i =
      runway_handler app.config app.advisor i known listed now now' later

  unfoldable pub serve_admin : AdminRoute → Handler
  serve_admin (get_users arrange search plan limit offset) =
      list_users_handler app.config app.is_like arrange search plan limit offset
  serve_admin (get_user_at path_id) = get_user_handler app.config path_id
  serve_admin (patch_plan path_id body) = set_plan_handler app.config path_id body
  serve_admin (post_extend_trial add_days path_id body now later) =
      extend_trial_handler app.config add_days path_id body now later
  serve_admin (post_admin_cancel path_id answer) =
      cancel_subscription_handler app.config app.billing path_id answer
  serve_admin (get_stats now) = stats_handler app.config app.papers.texts.format_in now

  -- The mux, at a reading of the clock by the check of the token.
  unfoldable pub serve_route : Time → Request → Route → Handler
  serve_route now r (public route) = serve_public r route
  serve_route now r (user route) = with_auth app.config now r (serve_user r route)
  serve_route now r (admin route) = with_admin_auth app.config now r (serve_admin route)

  -- NewMux
  unfoldable pub serve : Time → Request → Route → Handler
  serve now r route =
      with_cors (app.config.cors_origin ∷ app.config.admin_origin ∷ []) r (serve_route now r route)

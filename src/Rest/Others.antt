-- ===== src/Rest/Others.antt =====
-- internal/rest: each route behind withAuth but the deletion of a category leaves the rows of other users.
use finance_engine.Prelude.{String, Bool, true, false, Option, ◌≡◌, ◌≢◌, refl, string_eq, nat_eq}
use finance_engine.Schema.{Uuid, Time}
use finance_engine.Owned.Services.{
  get_by_id-Spares, update_preferences-Spares, update_goals-Spares, update_profile-Spares,
  update_base_currency-Spares, revoke_for_user-Spares, create_category-Spares,
  create_transaction-Spares, update_transaction-Spares, delete_transaction-Spares,
  start_trial-Spares, subscribe-Spares, cancel-Spares, update_accounts-Spares, connect-Spares,
}
use finance_engine.Owned.Writes.{disconnect-Spares}
use finance_engine.Owned.Bank.{
  list_active-Spares, list_transactions-Spares, receipts-Spares, list_categories-Spares,
  status-Spares, list_accounts-Spares, list_my_accounts-Spares, sync_now-Spares,
}
use finance_engine.Rest.{Request}
use finance_engine.Rest.Auth.{
  me, update_preferences_handler, update_profile_handler, update_goals_handler,
  update_currency_handler, list_sessions, revoke_session,
}
use finance_engine.Rest.Book.{
  CreateTransactionRequest, Row, list_categories_handler, create_category_handler,
  list_transactions_handler, create_transaction_handler, update_transaction_handler,
  delete_transaction_handler, parse_category,
}
use finance_engine.Rest.Bank.{
  accounts_handler, connect_handler, my_accounts_handler, update_accounts_handler, sync_handler,
  status_handler, disconnect_handler,
}
use finance_engine.Rest.Papers.{
  Upload, invalid_form, no_file, unreadable, file, export_handler, import_handler,
}
use finance_engine.Owned.Papers.{export_rows-Spares, import_rows-Spares}
use finance_engine.Rest.Paying.{
  start_trial_handler, subscribe_handler, cancel_handler, receipts_handler,
}
use finance_engine.Rest.Mux.{
  App, UserRoute, serve_user, get_me, get_categories, get_my_accounts, get_bank_status,
  post_bank_disconnect, get_receipts, patch_preferences, patch_profile, patch_goals, patch_currency,
  get_sessions, delete_session, post_category, delete_category_at, delete_transaction_at,
  get_transactions, post_transaction, put_transaction, post_bank_accounts, post_bank_connect,
  put_bank_accounts, post_bank_sync, post_start_trial, post_subscribe, post_cancel, get_export,
  post_import,
}
use finance_engine.Owned.Queries.{from-Spares}
use finance_engine.Owned.Advice.{
  financial_score-Spares, detect_subscriptions-Spares, runway-Spares, budget_pace-Spares,
  chat-Spares, insights-Spares,
}
use finance_engine.Rest.Felix.{
  list_rates_handler, history_handler, chat_handler, insights_handler, score_handler, pace_handler,
  subscriptions_handler, runway_handler,
}
use finance_engine.Rest.Mux.{
  get_rates, get_rate_history, post_chat, get_insights, get_score, get_pace, get_subscriptions,
  get_runway,
}
use finance_engine.Rest.Keeping.{
  with_account-Keeps, on_felix_plan-Keeps, allowed-Keeps, Keeps, reply-Keeps, call-Keeps,
  required-Keeps, on_max_plan-Keeps,
}

-- The route that a predicate leaves out is treated apart.
abbrev pub deletes_category : UserRoute → Bool
deletes_category (delete_category_at path_id) = true
deletes_category _ = false

module _ (app : App) (i j : Uuid) (ne : i ≢ j) where
  create_transaction-Keeps :
      (body : Option CreateTransactionRequest) (row : Row)
      → Keeps j (create_transaction_handler app.config app.numeric i body row)
  unfolding create_transaction_handler
  create_transaction-Keeps body row = required-Keeps j body _ _ (λ req.
      required-Keeps j (app.config.formats.parse_time req.date) _ _ (λ date.
        required-Keeps j (parse_category app.config req.category_id) _ _ (λ c.
          call-Keeps j _ _ _ (create_transaction-Spares i j ne app.numeric _ refl)
            (λ t. reply-Keeps j _))))

  update_transaction-Keeps :
      (path_id : String) (body : Option CreateTransactionRequest) (now : Time)
      → Keeps j (update_transaction_handler app.config app.numeric i path_id body now)
  unfolding update_transaction_handler
  update_transaction-Keeps path_id body now =
      required-Keeps j (app.config.formats.parse_uuid path_id) _ _ (λ id.
        required-Keeps j body _ _ (λ req.
          required-Keeps j (app.config.formats.parse_time req.date) _ _ (λ date.
            required-Keeps j (parse_category app.config req.category_id) _ _ (λ c.
              call-Keeps j _ _ _ (update_transaction-Spares i j ne app.numeric _ now refl)
                (λ t. reply-Keeps j _)))))

  list_transactions-Keeps :
      (first last : String) → Keeps j (list_transactions_handler app.config i first last)
  unfolding list_transactions_handler
  list_transactions-Keeps first last = required-Keeps j _ _ _ (λ a.
      required-Keeps j _ _ _
        (λ b. call-Keeps j _ _ _ (list_transactions-Spares j i a b) (λ l. reply-Keeps j _)))

  export-Keeps :
      (first last : String) (now : Time) → Keeps j (export_handler app.papers i first last now)
  unfolding export_handler
  export-Keeps first last now =
      call-Keeps j _ _ _ (export_rows-Spares app.papers.texts i j _ _) (λ rows. reply-Keeps j _)

  import-Keeps :
      (upload : Upload) → Keeps j (import_handler app.papers app.config app.numeric i upload)
  unfolding import_handler
  import-Keeps invalid_form = reply-Keeps j _
  import-Keeps no_file = reply-Keeps j _
  import-Keeps unreadable = reply-Keeps j _
  import-Keeps (file rows) = call-Keeps j _ _ _ (get_by_id-Spares j i) (λ u.
      call-Keeps j _ _ _
        (import_rows-Spares app.papers.texts app.numeric i j ne u.base_currency rows)
        (λ p. reply-Keeps j _))

  pub others-Keeps :
      (r : Request) (route : UserRoute)
      → deletes_category route ≡ false
      → Keeps j (serve_user app r route i)
  unfolding serve_user me list_categories_handler my_accounts_handler status_handler
      disconnect_handler receipts_handler update_preferences_handler update_profile_handler
      update_goals_handler update_currency_handler list_sessions revoke_session
      create_category_handler delete_transaction_handler accounts_handler connect_handler
      update_accounts_handler sync_handler start_trial_handler subscribe_handler cancel_handler
      list_rates_handler history_handler chat_handler insights_handler score_handler pace_handler
      subscriptions_handler runway_handler
  others-Keeps r get_me _ = call-Keeps j _ _ _ (get_by_id-Spares j i) (λ u. reply-Keeps j _)
  others-Keeps r get_categories _ =
      call-Keeps j _ _ _ (list_categories-Spares j i) (λ l. reply-Keeps j _)
  others-Keeps r get_my_accounts _ = on_max_plan-Keeps j i _ (
      call-Keeps j _ _ _ (list_my_accounts-Spares j app.client_info app.decrypt i)
        (λ l. reply-Keeps j _))
  others-Keeps r get_bank_status _ = call-Keeps j _ _ _ (status-Spares j i) (λ s. reply-Keeps j _)
  others-Keeps r post_bank_disconnect _ =
      call-Keeps j _ _ _ (disconnect-Spares i j ne) (λ s. reply-Keeps j _)
  others-Keeps r get_receipts _ = call-Keeps j _ _ _ (receipts-Spares j i) (λ s. reply-Keeps j _)
  others-Keeps r (patch_preferences body) _ = required-Keeps j body _ _ (λ req.
      call-Keeps j _ _ _ (update_preferences-Spares i j ne app.texts _ _) (λ u. reply-Keeps j _))
  others-Keeps r (patch_profile body) _ = required-Keeps j body _ _ (λ req.
      call-Keeps j _ _ _ (update_profile-Spares i j ne app.texts _ _) (λ u. reply-Keeps j _))
  others-Keeps r (patch_goals body) _ =
      required-Keeps j body _ _
        (λ req. call-Keeps j _ _ _ (update_goals-Spares i j ne app.texts _) (λ u. reply-Keeps j _))
  others-Keeps r (patch_currency body) _ =
      required-Keeps j body _ _
        (λ req. call-Keeps j _ _ _ (update_base_currency-Spares i j ne _) (λ u. reply-Keeps j _))
  others-Keeps r (get_sessions now) _ =
      call-Keeps j _ _ _ (list_active-Spares j app.sessions i _ now) (λ l. reply-Keeps j _)
  others-Keeps r (delete_session path_id revoked) _ = required-Keeps j _ _ _ (λ id.
      call-Keeps j _ _ _ (revoke_for_user-Spares i j ne app.sessions id revoked)
        (λ d. reply-Keeps j _))
  others-Keeps r (post_category body row) _ =
      required-Keeps j body _ _
        (λ req. call-Keeps j _ _ _ (create_category-Spares i j ne _ refl) (λ c. reply-Keeps j _))
  others-Keeps r (delete_category_at path_id) other = absurd (cc other)
  others-Keeps r (delete_transaction_at path_id) _ =
      required-Keeps j _ _ _
        (λ id. call-Keeps j _ _ _ (delete_transaction-Spares i j ne id) (λ d. reply-Keeps j _))
  others-Keeps r (get_transactions first last) _ = list_transactions-Keeps first last
  others-Keeps r (post_transaction body row) _ = create_transaction-Keeps body row
  others-Keeps r (put_transaction path_id body now) _ = update_transaction-Keeps path_id body now
  others-Keeps r (post_bank_accounts body) _ = on_max_plan-Keeps j i _ (
      required-Keeps j body _ _ (λ token.
        call-Keeps j _ _ _ (list_accounts-Spares j app.client_info token) (λ l. reply-Keeps j _)))
  others-Keeps r (post_bank_connect body secret encrypted registered now) _ =
      on_max_plan-Keeps j i _ (
        required-Keeps j body _ _ (λ req.
          call-Keeps j _ _ _ (connect-Spares i j ne _ _ _ _ _ _ secret encrypted registered now)
            (λ s. reply-Keeps j _)))
  others-Keeps r (put_bank_accounts body) _ = on_max_plan-Keeps j i _ (
      required-Keeps j body _ _
        (λ req. call-Keeps j _ _ _ (update_accounts-Spares i j ne _ _ _ _) (λ s. reply-Keeps j _)))
  others-Keeps r (post_bank_sync decrypted statement now) _ = on_max_plan-Keeps j i _ (
      call-Keeps j _ _ _ (sync_now-Spares j app.same_name app.numeric i ne decrypted statement now)
        (λ n. reply-Keeps j _))
  others-Keeps r (post_start_trial now later) _ =
      call-Keeps j _ _ _ (start_trial-Spares i j ne app.billing now later) (λ c. reply-Keeps j _)
  others-Keeps r (post_subscribe body now later) _ = required-Keeps j body _ _ (λ plan.
      call-Keeps j _ _ _ (subscribe-Spares i j ne app.billing plan now later)
        (λ c. reply-Keeps j _))
  others-Keeps r (post_cancel reply_of) _ =
      call-Keeps j _ _ _ (cancel-Spares i j ne app.billing reply_of) (λ c. reply-Keeps j _)
  others-Keeps r (get_export first last now) _ = export-Keeps first last now
  others-Keeps r (post_import upload) _ = import-Keeps upload
  others-Keeps r (get_rates known) _ = call-Keeps j _ _ _ (from-Spares j _) (λ l. reply-Keeps j _)
  others-Keeps r (get_rate_history text answers) _ =
      required-Keeps j _ _ _ (λ date. call-Keeps j _ _ _ (from-Spares j _) (λ l. reply-Keeps j _))
  others-Keeps r (post_chat body d) _ = required-Keeps j body _ _ (λ req. allowed-Keeps j _ _ _ (
      on_felix_plan-Keeps j i _
        (λ u. call-Keeps j _ _ _ (chat-Spares j i app.advisor _ _ _ d) (λ text. reply-Keeps j _))))
  others-Keeps r (get_insights asked stored d c) _ = on_felix_plan-Keeps j i _ (λ u.
      call-Keeps j _ _ _ (insights-Spares j i app.advisor app.lines _ asked stored _ d c)
        (λ lines. reply-Keeps j _))
  others-Keeps r (get_score known now) _ = with_account-Keeps j i _ (λ u.
      call-Keeps j _ _ _ (financial_score-Spares j i app.advisor _ known now)
        (λ b. reply-Keeps j _))
  others-Keeps r (get_pace known now) _ = with_account-Keeps j i _ (λ u.
      call-Keeps j _ _ _ (budget_pace-Spares j i app.advisor _ known now) (λ b. reply-Keeps j _))
  others-Keeps r (get_subscriptions now later) _ =
      call-Keeps j _ _ _ (detect_subscriptions-Spares j i app.advisor now later)
        (λ l. reply-Keeps j _)
  others-Keeps r (get_runway known listed now now' later) _ = with_account-Keeps j i _ (λ u.
      call-Keeps j _ _ _ (runway-Spares j i app.advisor _ known listed now now' later)
        (λ b. reply-Keeps j _))

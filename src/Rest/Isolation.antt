-- ===== src/Rest/Isolation.antt =====
-- internal/rest: what the routes behind withAuth leave of the rows of other users.
use finance_engine.Prelude.{
  String, false, some, List, ◌≡◌, ◌≢◌, refl, Bool-cases, Option-cases, inl, inr, ◌==◌, string_eq,
  nat_eq, ne_of_test, ◌⊎◌,
}
use finance_engine.Schema.{Uuid, Time, Category}
use finance_engine.Store.{World}
use finance_engine.Table.{IsKeyed}
use finance_engine.Categories.{delete_category}
use finance_engine.Filing.Queries.{Filed}
use finance_engine.Tokens.{verify}
use finance_engine.Owned.{view}
use finance_engine.Owned.Unfiling.{delete_category-view}
use finance_engine.Rest.{Request, Handler, required, call, with_cors, access_token}
use finance_engine.Rest.Book.{delete_category_handler}
use finance_engine.Rest.Mux.{
  App, UserRoute, serve, serve_route, serve_user, user, get_me, get_categories, get_my_accounts,
  get_bank_status, post_bank_disconnect, get_receipts, patch_preferences, patch_profile,
  patch_goals, patch_currency, get_sessions, delete_session, post_category, delete_category_at,
  delete_transaction_at, get_transactions, post_transaction, put_transaction, post_bank_accounts,
  post_bank_connect, put_bank_accounts, post_bank_sync, post_start_trial, post_subscribe,
  post_cancel, get_export, post_import,
}
use finance_engine.Rest.Keeping.{reply-Keeps, answer-view}
use finance_engine.Rest.Guards.{with_auth-verified, with_auth-blank}
use finance_engine.Rest.Mux.{
  get_rates, get_rate_history, post_chat, get_insights, get_score, get_pace, get_subscriptions,
  get_runway,
}
use finance_engine.Rest.Others.{deletes_category, others-Keeps}

module _ (app : App) (i j : Uuid) (ne : i ≢ j) where
  -- The deletion of a category, whose rows the invariant keeps apart.
  delete_category_handler-view :
      (path_id : String) (w : World)
      → i ≢ 0
      → IsKeyed (λ (c : Category). c.id) w.db.categories
      → Filed w
      → view j (delete_category_handler app.config i path_id w).1.db ≡ view j w.db
  unfolding delete_category_handler required call
  delete_category_handler-view path_id w real keyed v =
      elim (Option-cases (app.config.formats.parse_uuid path_id)) [
        | inl unread ↦ rw unread refl
        | inr (k, read) ↦ rw read (
            answer-view j _ _ (delete_category i k w) w
              (delete_category-view i j k w real ne keyed v) (λ d. reply-Keeps j _))
      ]

  -- A route deletes a category, or is one of the others.
  split_deletion :
      (route : UserRoute)
      → (deletes_category route ≡ false)
        ⊎ ((path_id : String) × (route ≡ delete_category_at path_id))
  split_deletion (delete_category_at a) = inr (a, refl)
  split_deletion get_me = inl refl
  split_deletion get_categories = inl refl
  split_deletion get_my_accounts = inl refl
  split_deletion get_bank_status = inl refl
  split_deletion post_bank_disconnect = inl refl
  split_deletion get_receipts = inl refl
  split_deletion (patch_preferences a) = inl refl
  split_deletion (patch_profile a) = inl refl
  split_deletion (patch_goals a) = inl refl
  split_deletion (patch_currency a) = inl refl
  split_deletion (get_sessions a) = inl refl
  split_deletion (delete_session a b) = inl refl
  split_deletion (post_category a b) = inl refl
  split_deletion (delete_transaction_at a) = inl refl
  split_deletion (get_transactions a b) = inl refl
  split_deletion (post_transaction a b) = inl refl
  split_deletion (put_transaction a b c) = inl refl
  split_deletion (post_bank_accounts a) = inl refl
  split_deletion (post_bank_connect a b c d e) = inl refl
  split_deletion (put_bank_accounts a) = inl refl
  split_deletion (post_bank_sync a b c) = inl refl
  split_deletion (post_start_trial a b) = inl refl
  split_deletion (post_subscribe a b c) = inl refl
  split_deletion (post_cancel a) = inl refl
  split_deletion (get_export a b c) = inl refl
  split_deletion (post_import a) = inl refl
  split_deletion (get_rates a) = inl refl
  split_deletion (get_rate_history a b) = inl refl
  split_deletion (post_chat a b) = inl refl
  split_deletion (get_insights a b c d) = inl refl
  split_deletion (get_score a b) = inl refl
  split_deletion (get_pace a b) = inl refl
  split_deletion (get_subscriptions a b) = inl refl
  split_deletion (get_runway a b c d e) = inl refl

  serve_user-view :
      (r : Request) (route : UserRoute) (w : World)
      → i ≢ 0
      → IsKeyed (λ (c : Category). c.id) w.db.categories
      → Filed w
      → view j (serve_user app r route i w).1.db ≡ view j w.db
  unfolding serve_user
  serve_user-view r route w real keyed v = elim (split_deletion route) [
    | inl other ↦ (others-Keeps app i j ne r route other).same w
    | inr (path_id, e) ↦ rw e (delete_category_handler-view path_id w real keyed v)
  ]

cors-view :
    (origins : List String) (r : Request) (next : Handler) (j : Uuid) (w : World)
    → view j (next w).1.db ≡ view j w.db
    → view j (with_cors origins r next w).1.db ≡ view j w.db
unfolding with_cors
cors-view origins r next j w h = elim (Bool-cases r.is_options) [
  | inl asks ↦ rw asks refl
  | inr calls ↦ rw calls h
]

-- A request to any route behind withAuth, whatever it answers, leaves every row of every other user as it is:
-- if the token of the request is verified as a user's, whose id is not uuid.Nil, the ids of the categories are
-- unique, and each transaction stands in no category, in a shared one, or in one of its own user's.
pub serve-isolated :
    (app : App) (now : Time) (r : Request) (route : UserRoute) (i j : Uuid) (w : World)
    → verify app.config.library app.config.formats app.config.jwt now (access_token r) ≡ some i
    → i ≢ 0
    → i ≢ j
    → IsKeyed (λ (c : Category). c.id) w.db.categories
    → Filed w
    → view j (serve app now r (user route) w).1.db ≡ view j w.db
unfolding serve serve_route
serve-isolated app now r route i j w valid real ne keyed v =
    cors-view _ r _ j w (elim (Bool-cases (access_token r == "")) [
      | inl blank ↦ with_auth-blank app.config now r j (serve_user app r route) w blank
      | inr given ↦
          rw
            (with_auth-verified app.config now r i (serve_user app r route) w
              (ne_of_test (access_token r) "" given) valid)
            (serve_user-view app i j ne r route w real keyed v)
    ])

-- ===== src/Rest/Gates.antt =====
-- internal/rest/monobank.go and internal/rest/advisor.go: the routes of the Max plan, and those of the plans
-- that have Felix.
use finance_engine.Prelude.{String, Bool, false, some, ◌==◌, string_eq, ◌≡◌, refl}
use finance_engine.Schema.{Uuid, User}
use finance_engine.Store.{World, IsUp}
use finance_engine.Table.{first}
use finance_engine.Users.{has_id, get_by_id}
use finance_engine.Plan
use finance_engine.Rest.{Request, Handler, required, call, allowed, write_error, write_json}
use finance_engine.Rest.Bank.{
  on_max_plan, accounts_handler, connect_handler, my_accounts_handler, update_accounts_handler,
  sync_handler,
}
use finance_engine.Rest.Mux.{
  App, UserRoute, serve_user, get_my_accounts, post_bank_accounts, post_bank_connect,
  put_bank_accounts, post_bank_sync, post_chat, get_insights,
}
use finance_engine.Rest.Felix.{
  ChatRequest, with_account, on_felix_plan, chat_handler, insights_handler,
}

-- The routes that a plan must allow: to Monobank, and to Felix; each with the test that it makes of the plan.
pub data IsGated : UserRoute → (String → Bool) → Type 0 where
  lists_accounts : (body : _) → IsGated (post_bank_accounts body) Plan.allows_monobank
  connects :
      (body secret encrypted registered now : _)
      → IsGated (post_bank_connect body secret encrypted registered now) Plan.allows_monobank
  lists_mine : IsGated get_my_accounts Plan.allows_monobank
  updates_accounts : (body : _) → IsGated (put_bank_accounts body) Plan.allows_monobank
  syncs :
      (decrypted statement now : _)
      → IsGated (post_bank_sync decrypted statement now) Plan.allows_monobank
  chats :
      (req : ChatRequest) (d : _)
      → (req.message == "") ≡ false
      → IsGated (post_chat (some req) d) Plan.allows_felix
  asks_insights : (asked stored d c : _) → IsGated (get_insights asked stored d c) Plan.allows_felix

module _ (i : Uuid) (u : User) (w : World) (up : IsUp w)
    (found : first (has_id i) w.db.users ≡ some u) where
  on_max_plan-refused :
      (next : Handler)
      → Plan.allows_monobank u.plan ≡ false
      → ((on_max_plan i next w).0.status ≡ 403) × ((on_max_plan i next w).1.db ≡ w.db)
  unfolding on_max_plan call allowed get_by_id write_error write_json
  on_max_plan-refused next refused = rw (up w.queries, found, refused) (refl, refl)

  on_felix_plan-refused :
      (next : User → Handler)
      → Plan.allows_felix u.plan ≡ false
      → ((on_felix_plan i next w).0.status ≡ 403) × ((on_felix_plan i next w).1.db ≡ w.db)
  unfolding on_felix_plan with_account call allowed get_by_id write_error write_json
  on_felix_plan-refused next refused = rw (up w.queries, found, refused) (refl, refl)

-- Every route that lists Monobank's accounts, connects to Monobank, changes the tracked accounts or pulls a
-- statement answers 403 to a user whose plan does not allow Monobank, and so does every chat with Felix (a
-- message that is not empty) and every question for insights to a user whose plan does not allow Felix; it
-- changes no table, whatever the request carries and whatever Monobank, the model or its cache would
-- answer, while the database answers and the user is known.
pub gated_routes :
    (app : App) (r : Request) (route : UserRoute) (plan_allows : String → Bool) (i : Uuid)
    (u : User) (w : World)
    → IsGated route plan_allows
    → IsUp w
    → first (has_id i) w.db.users ≡ some u
    → plan_allows u.plan ≡ false
    → ((serve_user app r route i w).0.status ≡ 403) × ((serve_user app r route i w).1.db ≡ w.db)
unfolding serve_user accounts_handler connect_handler my_accounts_handler update_accounts_handler
    sync_handler chat_handler insights_handler required allowed
gated_routes app r _ _ i u w (lists_accounts body) up found refused =
    on_max_plan-refused i u w up found _ refused
gated_routes app r _ _ i u w (connects body secret encrypted registered now) up found refused =
    on_max_plan-refused i u w up found _ refused
gated_routes app r _ _ i u w lists_mine up found refused =
    on_max_plan-refused i u w up found _ refused
gated_routes app r _ _ i u w (updates_accounts body) up found refused =
    on_max_plan-refused i u w up found _ refused
gated_routes app r _ _ i u w (syncs decrypted statement now) up found refused =
    on_max_plan-refused i u w up found _ refused
gated_routes app r _ _ i u w (chats req d given) up found refused =
    rw given (on_felix_plan-refused i u w up found _ refused)
gated_routes app r _ _ i u w (asks_insights asked stored d c) up found refused =
    on_felix_plan-refused i u w up found _ refused

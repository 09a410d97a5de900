-- ===== src/Rest/Bank.antt =====
-- internal/rest/monobank.go: the connection to Monobank, behind the plan's gate. What is logged is not kept.
use finance_engine.Prelude.{String, Bool, Option, List, [], map}
use finance_engine.Schema.{Uuid, Time}
use finance_engine.Store.{Result}
use finance_engine.Users.{get_by_id}
use finance_engine.Plan
use finance_engine.Imports.{StatementItem}
use finance_engine.Connections.{connect, update_accounts, sync_now, status, disconnect}
use finance_engine.Connections.Accounts.{Account, AccountOption, list_accounts, list_my_accounts}
use finance_engine.Json.{status_to_json}
use finance_engine.Rest.{
  Handler, Config, AccountJson, write_json, write_error, write_header, reply, required, allowed,
  call, ◌>>=◌, ◌>>◌, connection, accounts, imported,
}
use finance_engine.Rest.Auth.{invalid_body, says}

pub record AccountsRequest : Type 0 where
  pub account_ids : List String
  pub masked_pans : List String
  pub account_types : List String
  pub account_currencies : List String

pub record ConnectRequest : Type 0 where
  pub personal_token : String
  pub chosen : AccountsRequest

-- The fields of the reply that `accounts` sets, and `myAccounts` with the marks.
abbrev pub account_to_json : AccountOption → AccountJson
account_to_json o = record {
  id = o.id;
  masked_pan = o.masked_pan;
  currency = o.currency;
  type = o.type;
  selected = o.selected;
}

-- The lookup of the user and the test of the plan, with which five handlers begin.
unfoldable pub on_max_plan : Uuid → Handler → Handler
on_max_plan user_id next = do
  user ← call (get_by_id user_id) (λ _. write_error 401 "not signed in")
  allowed (Plan.allows_monobank user.plan)
      (write_error 403 "Monobank sync is available on the Max plan")
  next

module _ (cfg : Config) where
  unfoldable pub accounts_handler :
      (String → Result (List Account)) → Uuid → Option String → Handler
  accounts_handler client_info user_id body = on_max_plan user_id do
    personal_token ← required body invalid_body
    options ← call (list_accounts client_info personal_token) (says cfg 400)
    reply (write_json [] 200 (accounts (map account_to_json options)))

  -- connect, with what Connect draws from outside.
  unfoldable pub connect_handler :
      String
      → Uuid
      → Option ConnectRequest
      → Result String
      → Result String
      → Result (Unit {0})
      → Time
      → Handler
  connect_handler webhook_base_url user_id body secret encrypted registered now =
      on_max_plan user_id do
        req ← required body invalid_body
        s ←
            call
              (connect webhook_base_url user_id req.personal_token req.chosen.account_ids
                req.chosen.masked_pans req.chosen.account_types req.chosen.account_currencies secret
                encrypted registered now)
              (says cfg 400)
        reply (write_json [] 200 (connection (status_to_json cfg.formats s)))

  unfoldable pub my_accounts_handler :
      (String → Result (List Account)) → (String → Result String) → Uuid → Handler
  my_accounts_handler client_info decrypt user_id = on_max_plan user_id do
    options ← call (list_my_accounts client_info decrypt user_id) (says cfg 400)
    reply (write_json [] 200 (accounts (map account_to_json options)))

  unfoldable pub update_accounts_handler : Uuid → Option AccountsRequest → Handler
  update_accounts_handler user_id body = on_max_plan user_id do
    req ← required body invalid_body
    s ←
        call
          (update_accounts user_id req.account_ids req.masked_pans req.account_types
            req.account_currencies)
          (says cfg 400)
    reply (write_json [] 200 (connection (status_to_json cfg.formats s)))

  module _ (same_name : String → String → Bool) (numeric : String → Option String) where
    unfoldable pub sync_handler :
        Uuid → Result String → Result (List (StatementItem × (Uuid × Time))) → Time → Handler
    sync_handler user_id decrypted statement now = on_max_plan user_id do
      n ← call (sync_now same_name numeric user_id decrypted statement now) (says cfg 400)
      reply (write_json [] 200 (imported n))

  unfoldable pub status_handler : Uuid → Handler
  status_handler user_id = do
    s ← call (status user_id) (λ _. write_error 500 "failed to get monobank status")
    reply (write_json [] 200 (connection (status_to_json cfg.formats s)))

  unfoldable pub disconnect_handler : Uuid → Handler
  disconnect_handler user_id = do
    done ← call (disconnect user_id) (λ _. write_error 500 "failed to disconnect")
    reply (write_header 204)

-- ===== src/Grpc/Bank.antt =====
-- internal/grpc/controllers/monobank.go. No method here tests the user's plan.
use finance_engine.Prelude.{String, Bool, Option, List, [], map}
use finance_engine.Schema.{Uuid, Time}
use finance_engine.Store.{Result}
use finance_engine.Connections.{Status, connect, status, disconnect}
use finance_engine.Connections.Accounts.{Account, AccountOption, list_accounts}
use finance_engine.Json.{format_optional_time}
use finance_engine.Grpc.{
  Settings, Handler, call, reply, failed, with_user, invalid_argument, internal,
}

-- MonobankConnectionModel.Connection and MonobankConnectionModel.Account
pub record ConnectionModel : Type 0 where
  pub is_connected : Bool
  pub masked_pans : List String
  pub connected_at : String
  pub last_synced_at : String

pub record AccountModel : Type 0 where
  pub id : String
  pub masked_pan : String
  pub currency : String
  pub type : String

pub record ConnectMonobankRequest : Type 0 where
  pub personal_token : String
  pub account_ids : List String
  pub masked_pans : List String

abbrev pub account_to_proto : AccountOption → AccountModel
account_to_proto o = record {
  id = o.id;
  masked_pan = o.masked_pan;
  currency = o.currency;
  type = o.type;
}

module _ (cfg : Settings) where
  unfoldable pub monobank_status_to_proto : Status → ConnectionModel
  monobank_status_to_proto s = record {
    is_connected = s.is_connected;
    masked_pans = s.masked_pans;
    connected_at = format_optional_time cfg.formats s.connected_at;
    last_synced_at = format_optional_time cfg.formats s.last_synced_at;
  }

  -- ConnectMonobank, with what Connect draws from outside.
  unfoldable pub connect_monobank :
      String
      → Option Uuid
      → ConnectMonobankRequest
      → Result String
      → Result String
      → Result (Unit {0})
      → Time
      → Handler ConnectionModel
  connect_monobank webhook_base_url context req secret encrypted registered now =
      with_user context λ user_id.
        call
          (connect webhook_base_url user_id req.personal_token req.account_ids req.masked_pans [] []
            secret encrypted registered now)
          (λ e. failed invalid_argument (cfg.message e)) λ s. reply (monobank_status_to_proto s)

  unfoldable pub monobank_accounts :
      (String → Result (List Account)) → Option Uuid → String → Handler (List AccountModel)
  monobank_accounts client_info context personal_token = with_user context λ user_id.
      call (list_accounts client_info personal_token) (λ e. failed invalid_argument (cfg.message e))
        λ options. reply (map account_to_proto options)

  unfoldable pub monobank_status : Option Uuid → Handler ConnectionModel
  monobank_status context = with_user context λ user_id.
      call (status user_id) (λ _. failed internal "failed to get monobank status")
        λ s. reply (monobank_status_to_proto s)

  unfoldable pub disconnect_monobank : Option Uuid → Handler (Unit {0})
  disconnect_monobank context = with_user context λ user_id.
      call (disconnect user_id) (λ _. failed internal "failed to disconnect") λ done. reply tt

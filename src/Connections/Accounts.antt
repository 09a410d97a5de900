-- ===== src/Connections/Accounts.antt =====
-- internal/service/monobank/monobank.go: the accounts that a user can choose from. What Monobank answers
-- for a token is an argument.
use finance_engine.Prelude.{ℕ, String, Bool, false, List, [], ◌∷◌, ◌==◌, string_eq, map}
use finance_engine.Schema.{Uuid, MonobankConnection}
use finance_engine.Store.{
  M, Result, ok, err, refused, no_rows, unavailable, constraint, pure, fail, from, refuse_if, try,
  ◌>>=◌, ◌>>◌,
}
use finance_engine.Table.{exists}
use finance_engine.Connections.{get_by_user_id}
use finance_engine.Mcc.{currency_code}

-- monobank.Account
pub record Account : Type 0 where
  pub id : String
  pub masked_pan : List String
  pub currency_code : ℕ
  pub type : String

pub record AccountOption : Type 0 where
  pub id : String
  pub masked_pan : String
  pub currency : String
  pub type : String
  pub selected : Bool

abbrev first_pan : List String → String
first_pan [] = ""
first_pan (p ∷ ps) = p

abbrev pub option_of : Account → AccountOption
option_of a = record {
  id = a.id;
  masked_pan = first_pan a.masked_pan;
  currency = currency_code a.currency_code;
  type = a.type;
  selected = false;
}

-- ListAccounts
unfoldable pub list_accounts : (String → Result (List Account)) → String → M (List AccountOption)
list_accounts client_info token = do
  refuse_if (token == "") "personal_token is required"
  accounts ← from (client_info token)
  pure (map option_of accounts)

abbrev pub marked : List String → AccountOption → AccountOption
marked tracked o = record o { selected = exists (λ i. i == o.id) tracked }

-- ListMyAccounts once the lookup has answered.
unfoldable pub list_tracked :
    (String → Result (List Account))
    → (String → Result String)
    → Result MonobankConnection
    → M (List AccountOption)
list_tracked client_info decrypt (ok conn) = do
  token ← from (decrypt conn.encrypted_token)
  options ← list_accounts client_info token
  pure (map (marked conn.account_ids) options)
list_tracked client_info decrypt (err no_rows) = fail (refused "monobank is not connected")
list_tracked client_info decrypt (err unavailable) = fail unavailable
list_tracked client_info decrypt (err constraint) = fail constraint
list_tracked client_info decrypt (err (refused message)) = fail (refused message)

unfoldable pub list_my_accounts :
    (String → Result (List Account)) → (String → Result String) → Uuid → M (List AccountOption)
list_my_accounts client_info decrypt user_id = do
  found ← try (get_by_user_id user_id)
  list_tracked client_info decrypt found

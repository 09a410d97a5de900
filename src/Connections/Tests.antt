-- ===== src/Connections/Tests.antt =====
-- A user disconnects, and the theorem at it.
use finance_engine.Prelude.{false, some, [], ◌∷◌, ◌≡◌, ◌==◌, string_eq, refl, pos, negsuc}
use finance_engine.Schema.{MonobankConnection}
use finance_engine.Store.{World, err, refused}
use finance_engine.Table.{first}
use finance_engine.Imports.{StatementItem, process}
use finance_engine.Connections.{disconnect}
use finance_engine.Connections.Silence.{disconnect_silences}

abbrev coffee : StatementItem
coffee = record {
  id = "bank-1";
  time = pos 1767225600;
  description = "Coffee";
  mcc = 5814;
  amount = negsuc 12303;
  currency_code = 980;
  operation_amount = negsuc 12303;
  operation_currency_code = 980;
}

abbrev connection : MonobankConnection
connection = record {
  user_id = 7;
  encrypted_token = "sealed";
  webhook_secret = "secret";
  masked_pans = "1234" ∷ [];
  account_ids = "black" ∷ [];
  connected_at = 5;
  last_synced_at = 0;
  account_types = "black" ∷ [];
  account_currencies = "UAH" ∷ [];
}

abbrev world : World
world = record {
  db = record {
    users = [];
    payment_events = [];
    sessions = [];
    categories = [];
    transactions = [];
    monobank_connections = connection ∷ [];
  };
  down = λ n. false;
  queries = 0;
  collation = λ s t. false;
}

disconnect_silences_example :
    let w' = (disconnect 7 world).1 in
    let out = process (λ a b. a == b) (λ t. some t) "secret" "black" coffee 1 30 w' in
    (out.1.db ≡ w'.db) × (out.0 ≡ err (refused "unknown webhook secret"))
unfolding first disconnect
disconnect_silences_example =
    disconnect_silences (λ a b. a == b) (λ t. some t) 7 "secret" "black" coffee 1 30 world
      connection (refl, tt) refl refl refl

-- ===== src/Imports/Tests.antt =====
-- One item of Monobank delivered twice, with a manual sync in between, and the theorem at it.
use finance_engine.Prelude.{false, some, List, [], ◌∷◌, ◌≡◌, refl, pos, negsuc, ◌==◌, string_eq}
use finance_engine.Schema.{User, MonobankConnection}
use finance_engine.Store.{World, ok}
use finance_engine.Imports.{StatementItem, amount_text}
use finance_engine.Imports.Rows.{Unique}
use finance_engine.Imports.Once.{Event, delivers, syncs_now, run_events, run_events-Unique}
use finance_engine.Prelude.Text.{show, show_two}

-- 123 hryvnias and 4 kopecks.
abbrev coffee : StatementItem
coffee = record {
  id = "bank-1";
  time = pos 1767225600;
  description = "Coffee";
  mcc = 5814;
  amount = negsuc 12303;
  currency_code = 980;
  operation_amount = negsuc 12303;
  operation_currency_code = 980;
}

coffee_text : amount_text (pos 12304) ≡ "123.04"
unfolding amount_text show show_two
coffee_text = refl

-- The least int64 has no opposite, so its text has two signs.
least_text : amount_text (negsuc 9223372036854775807) ≡ "-92233720368547758.-8"
unfolding amount_text show
least_text = refl

abbrev ann : User
ann = record {
  id = 7;
  apple_sub = "";
  email = "ann@example.org";
  base_currency = "UAH";
  password_hash = "";
  google_sub = "";
  theme = "system";
  gradient_color = "#34C759";
  plan = "max";
  goals = "";
  subscription_status = "active";
  trial_ends_at = 0;
  liqpay_order_id = "";
  created_at = 5;
  name = "";
  avatar = "";
}

abbrev connection : MonobankConnection
connection = record {
  user_id = 7;
  encrypted_token = "sealed";
  webhook_secret = "secret";
  masked_pans = "1234" ∷ [];
  account_ids = "black" ∷ [];
  connected_at = 5;
  last_synced_at = 0;
  account_types = "black" ∷ [];
  account_currencies = "UAH" ∷ [];
}

abbrev world : World
world = record {
  db = record {
    users = ann ∷ [];
    payment_events = [];
    sessions = [];
    categories = [];
    transactions = [];
    monobank_connections = connection ∷ [];
  };
  down = λ n. false;
  queries = 0;
  collation = λ s t. false;
}

abbrev twice : List Event
twice =
    delivers "secret" "black" coffee 1 30
    ∷ syncs_now 7 (ok "token") (ok ((coffee, (2, 40)) ∷ [])) 40
    ∷ delivers "secret" "black" coffee 3 50
    ∷ []

run_events-Unique_example : Unique (run_events (λ a b. a == b) (λ t. some t) world twice)
run_events-Unique_example =
    run_events-Unique (λ a b. a == b) (λ t. some t) world twice (record { unique = tt })

-- ===== src/Retention/Tests.antt =====
-- A sweep over an old and a new transaction of one user on Free.
use finance_engine.Prelude.{false, [], ◌∷◌, ◌≡◌, refl, pos, ◌*◌, not, ◌==◌, nat_eq}
use finance_engine.Schema.{Uuid, Time, User, Transaction, day}
use finance_engine.Store.{World}
use finance_engine.Table.{first, select}
use finance_engine.Plan.{retention_days}
use finance_engine.Retention.{sweep_once}
use finance_engine.Retention.Sweep.{is_expired, sweep_keeps, sweep_exact}

abbrev ann : User
ann = record {
  id = 7;
  apple_sub = "";
  email = "ann@example.org";
  base_currency = "UAH";
  password_hash = "";
  google_sub = "";
  theme = "system";
  gradient_color = "#34C759";
  plan = "free";
  goals = "";
  subscription_status = "";
  trial_ends_at = 0;
  liqpay_order_id = "";
  created_at = 5;
  name = "";
  avatar = "";
}

abbrev purchase : Uuid → Time → Transaction
purchase i date = record {
  id = i;
  user_id = 7;
  category_id = 0;
  amount = "10.00";
  currency = "UAH";
  type = "expense";
  date = date;
  note = "";
  created_at = date;
  is_internal_transfer = false;
  external_id = "";
  operation_amount = pos 0;
  operation_currency_code = 0;
  updated_at = 0;
}

abbrev world : World
world = record {
  db = record {
    users = ann ∷ [];
    payment_events = [];
    sessions = [];
    categories = [];
    transactions = purchase 1 (95 * day) ∷ purchase 2 (69 * day) ∷ [];
    monobank_connections = [];
  };
  down = λ n. false;
  queries = 0;
  collation = λ s t. false;
}

sweep_exact_example :
    (sweep_once (λ p. 100 * day) world).1.db.transactions ≡ purchase 1 (95 * day) ∷ []
unfolding first select retention_days
sweep_exact_example = sweep_exact (λ p. 100 * day) world (refl, tt) (λ n. refl)

abbrev outage : World
outage = record world { down = λ n. n == 0 }

sweep_keeps_example :
    select
      (λ t. not (is_expired (λ p. 100 * day) (ann ∷ []) t))
      (sweep_once (λ p. 100 * day) outage).1.db.transactions
    ≡ purchase 1 (95 * day) ∷ []
unfolding first select retention_days
sweep_keeps_example = sweep_keeps (λ p. 100 * day) outage (refl, tt)

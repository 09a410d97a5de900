-- ===== src/Filing/Tests.antt =====
-- A user, a category of the user's, and transactions in it, and the theorems at them.
use finance_engine.Prelude.{false, some, List, [], ◌∷◌, refl, pos, inr, nat_eq, string_eq}
use finance_engine.Schema.{Uuid, Category, Transaction}
use finance_engine.Store.{World}
use finance_engine.Table.{first}
use finance_engine.Filing.{Call, creates, updates, deletes_category, run}
use finance_engine.Filing.Queries.{Filed}
use finance_engine.Filing.Steps.{run-Filed}

abbrev books : Category
books = record {
  id = 3;
  user_id = 7;
  name = "Books";
  icon_name = "book.fill";
  color_hex = "5AC8FA";
  type = "expense";
  is_default = false;
  name_uk = "";
  name_en = "";
  created_at = 6;
}

abbrev purchase : Uuid → Transaction
purchase i = record {
  id = i;
  user_id = 7;
  category_id = 3;
  amount = "10.00";
  currency = "UAH";
  type = "expense";
  date = 50;
  note = "";
  created_at = 50;
  is_internal_transfer = false;
  external_id = "";
  operation_amount = pos 0;
  operation_currency_code = 0;
  updated_at = 0;
}

abbrev world : World
world = record {
  db = record {
    users = [];
    payment_events = [];
    sessions = [];
    categories = books ∷ [];
    transactions = purchase 1 ∷ [];
    monobank_connections = [];
  };
  down = λ n. false;
  queries = 0;
  collation = λ s t. false;
}

world-Filed : Filed world
unfolding first
world-Filed = record {
  filed = (inr (record { category = books; there = refl; shared_or_own = inr refl }), tt);
}

abbrev calls : List Call
calls = creates (purchase 2) ∷ updates (purchase 1) 60 ∷ deletes_category 7 3 ∷ []

run-Filed_example : Filed (run (λ t. some t) world calls)
run-Filed_example = run-Filed (λ t. some t) world calls world-Filed

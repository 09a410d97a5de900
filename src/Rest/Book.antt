-- ===== src/Rest/Book.antt =====
-- internal/rest/category.go and internal/rest/transaction.go: the categories and the transactions of a user.
use finance_engine.Prelude.{
  String, Bool, false, Option, some, [], ◌==◌, string_eq, map, if◌then◌else◌, pos,
}
use finance_engine.Schema.{Uuid, Time, Category, Transaction}
use finance_engine.Json.{category_to_json, transaction_to_json}
use finance_engine.Categories.{list_categories, create_category, delete_category}
use finance_engine.Transactions.{create_transaction, update_transaction, delete_transaction}
use finance_engine.Listings.{list_transactions}
use finance_engine.Rest.{
  Handler, Config, write_json, write_error, write_header, reply, required, call, ◌>>=◌, category,
  categories, transaction, transactions,
}
use finance_engine.Rest.Auth.{invalid_body, says}

pub record CreateCategoryRequest : Type 0 where
  pub name : String
  pub icon_name : String
  pub color_hex : String
  pub type : String

pub record CreateTransactionRequest : Type 0 where
  pub category_id : String
  pub amount : String
  pub currency : String
  pub type : String
  pub date : String
  pub note : String
  pub is_internal_transfer : Bool

-- What the database gives a new row, and what the translation service answers for a name.
pub record Row : Type 0 where
  pub id : Uuid
  pub created_at : Time
  pub name_uk : String
  pub name_en : String

abbrev pub category_of : Uuid → CreateCategoryRequest → Row → Category
category_of user_id req row = record {
  id = row.id;
  user_id = user_id;
  name = req.name;
  icon_name = req.icon_name;
  color_hex = req.color_hex;
  type = req.type;
  is_default = false;
  name_uk = row.name_uk;
  name_en = row.name_en;
  created_at = row.created_at;
}

-- CreateParams and UpdateParams; what they lack has the column's default.
abbrev pub transaction_of :
    Uuid → Uuid → Uuid → Time → Time → Bool → CreateTransactionRequest → Transaction
transaction_of id user_id category_id date created_at is_transfer req = record {
  id = id;
  user_id = user_id;
  category_id = category_id;
  amount = req.amount;
  currency = req.currency;
  type = req.type;
  date = date;
  note = req.note;
  created_at = created_at;
  is_internal_transfer = is_transfer;
  external_id = "";
  operation_amount = pos 0;
  operation_currency_code = 0;
  updated_at = 0;
}

module _ (cfg : Config) where
  unfoldable pub list_categories_handler : Uuid → Handler
  list_categories_handler user_id = do
    cs ← call (list_categories user_id) (λ _. write_error 500 "failed to list categories")
    reply (write_json [] 200 (categories (map (category_to_json cfg.formats) cs)))

  unfoldable pub create_category_handler : Uuid → Option CreateCategoryRequest → Row → Handler
  create_category_handler user_id body row = do
    req ← required body invalid_body
    created ← call (create_category (category_of user_id req row)) (says cfg 400)
    reply (write_json [] 201 (category (category_to_json cfg.formats created)))

  unfoldable pub delete_category_handler : Uuid → String → Handler
  delete_category_handler user_id path_id = do
    category_id ← required (cfg.formats.parse_uuid path_id) (write_error 400 "invalid category id")
    done ← call (delete_category user_id category_id) (says cfg 404)
    reply (write_header 204)

  unfoldable pub parse_optional_time : String → Option Time
  parse_optional_time s = if s == "" then some 0 else cfg.formats.parse_time s

  -- The category of a request: none is uuid.Nil.
  unfoldable pub parse_category : String → Option Uuid
  parse_category s = if s == "" then some 0 else cfg.formats.parse_uuid s

  -- list, with the query's "from" and "to".
  unfoldable pub list_transactions_handler : Uuid → String → String → Handler
  list_transactions_handler user_id from_text to_text = do
    from ← required (parse_optional_time from_text) (write_error 400 "invalid from")
    to ← required (parse_optional_time to_text) (write_error 400 "invalid to")
    ts ←
        call (list_transactions user_id from to)
          (λ _. write_error 500 "failed to list transactions")
    reply (write_json [] 200 (transactions (map (transaction_to_json cfg.formats) ts)))

  -- What PostgreSQL keeps of a decimal text.
  module _ (numeric : String → Option String) where
    unfoldable pub create_transaction_handler :
        Uuid → Option CreateTransactionRequest → Row → Handler
    create_transaction_handler user_id body row = do
      req ← required body invalid_body
      date ← required (cfg.formats.parse_time req.date) (write_error 400 "invalid date")
      category_id ← required (parse_category req.category_id) (write_error 400 "invalid categoryId")
      created ←
          call
            (create_transaction numeric
              (transaction_of row.id user_id category_id date row.created_at false req))
            (says cfg 400)
      reply (write_json [] 201 (transaction (transaction_to_json cfg.formats created)))

    unfoldable pub update_transaction_handler :
        Uuid → String → Option CreateTransactionRequest → Time → Handler
    update_transaction_handler user_id path_id body now = do
      id ← required (cfg.formats.parse_uuid path_id) (write_error 400 "invalid transaction id")
      req ← required body invalid_body
      date ← required (cfg.formats.parse_time req.date) (write_error 400 "invalid date")
      category_id ← required (parse_category req.category_id) (write_error 400 "invalid categoryId")
      updated ←
          call
            (update_transaction numeric
              (transaction_of id user_id category_id date 0 req.is_internal_transfer req) now)
            (says cfg 404)
      reply (write_json [] 200 (transaction (transaction_to_json cfg.formats updated)))

  unfoldable pub delete_transaction_handler : Uuid → String → Handler
  delete_transaction_handler user_id path_id = do
    id ← required (cfg.formats.parse_uuid path_id) (write_error 400 "invalid transaction id")
    done ← call (delete_transaction user_id id) (says cfg 404)
    reply (write_header 204)

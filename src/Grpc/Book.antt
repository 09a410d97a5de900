-- ===== src/Grpc/Book.antt =====
-- internal/grpc/controllers/category.go and transaction.go.
use finance_engine.Prelude.{
  String, false, Option, some, List, ◌==◌, string_eq, map, if◌then◌else◌, pos,
}
use finance_engine.Schema.{Uuid, Time, Category, Transaction}
use finance_engine.Categories.{list_categories, create_category, delete_category}
use finance_engine.Transactions.{create_transaction, delete_transaction}
use finance_engine.Listings.{list_transactions}
use finance_engine.Rest.Book.{Row}
use finance_engine.Grpc.{
  Settings, Handler, Currency, TransactionType, CategoryModel, TransactionModel, required, call,
  reply, failed, with_user, category_to_proto, transaction_to_proto, currency_from_proto,
  transaction_type_from_proto, invalid_argument, not_found, internal,
}

pub record CategoryCreateRequest : Type 0 where
  pub name : String
  pub icon_name : String
  pub color_hex : String
  pub type : TransactionType

pub record TransactionCreateRequest : Type 0 where
  pub amount : String
  pub currency : Currency
  pub type : TransactionType
  pub date : String
  pub note : String
  pub category_id : String

-- The row that a creation asks for; what the parameters lack has the column's default.
abbrev pub category_row : Uuid → CategoryCreateRequest → Row → Category
category_row user_id req row = record {
  id = row.id;
  user_id = user_id;
  name = req.name;
  icon_name = req.icon_name;
  color_hex = req.color_hex;
  type = transaction_type_from_proto req.type;
  is_default = false;
  name_uk = row.name_uk;
  name_en = row.name_en;
  created_at = row.created_at;
}

abbrev pub transaction_row : Uuid → Uuid → Time → TransactionCreateRequest → Row → Transaction
transaction_row user_id category_id date req row = record {
  id = row.id;
  user_id = user_id;
  category_id = category_id;
  amount = req.amount;
  currency = currency_from_proto req.currency;
  type = transaction_type_from_proto req.type;
  date = date;
  note = req.note;
  created_at = row.created_at;
  is_internal_transfer = false;
  external_id = "";
  operation_amount = pos 0;
  operation_currency_code = 0;
  updated_at = 0;
}

module _ (cfg : Settings) where
  unfoldable pub category_list : Option Uuid → Handler (List CategoryModel)
  category_list context = with_user context λ user_id.
      call (list_categories user_id) (λ _. failed internal "failed to list categories")
        λ cs. reply (map (category_to_proto cfg.formats) cs)

  unfoldable pub category_create : Option Uuid → CategoryCreateRequest → Row → Handler CategoryModel
  category_create context req row = with_user context λ user_id.
      call (create_category (category_row user_id req row))
        (λ e. failed invalid_argument (cfg.message e))
        λ created. reply (category_to_proto cfg.formats created)

  unfoldable pub category_delete : Option Uuid → String → Handler (Unit {0})
  category_delete context text = with_user context λ user_id.
      required (cfg.formats.parse_uuid text) invalid_argument "invalid category_id" λ id.
        call (delete_category user_id id) (λ e. failed not_found (cfg.message e)) λ done. reply tt

  unfoldable pub optional_time : String → Option Time
  optional_time s = if s == "" then some 0 else cfg.formats.parse_time s

  -- The category of a request: none is uuid.Nil.
  unfoldable pub category_id_of : String → Option Uuid
  category_id_of s = if s == "" then some 0 else cfg.formats.parse_uuid s

  unfoldable pub transaction_list : Option Uuid → String → String → Handler (List TransactionModel)
  transaction_list context from_text to_text = with_user context λ user_id.
      required (optional_time from_text) invalid_argument "invalid from_date" λ from.
        required (optional_time to_text) invalid_argument "invalid to_date" λ to.
          call (list_transactions user_id from to)
            (λ _. failed internal "failed to list transactions")
            λ ts. reply (map (transaction_to_proto cfg.formats) ts)

  -- What PostgreSQL keeps of a decimal text.
  unfoldable pub transaction_create :
      (String → Option String)
      → Option Uuid
      → TransactionCreateRequest
      → Row
      → Handler TransactionModel
  transaction_create numeric context req row = with_user context λ user_id.
      required (cfg.formats.parse_time req.date) invalid_argument "invalid date" λ date.
        required (category_id_of req.category_id) invalid_argument "invalid category_id" λ c.
          call (create_transaction numeric (transaction_row user_id c date req row))
            (λ e. failed invalid_argument (cfg.message e))
            λ created. reply (transaction_to_proto cfg.formats created)

  unfoldable pub transaction_delete : Option Uuid → String → Handler (Unit {0})
  transaction_delete context text = with_user context λ user_id.
      required (cfg.formats.parse_uuid text) invalid_argument "invalid transaction_id" λ id.
        call (delete_transaction user_id id) (λ e. failed not_found (cfg.message e))
          λ done. reply tt

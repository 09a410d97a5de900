-- ===== src/Schema.antt =====
-- The rows of the database: pkg/dbq/models.go and the structs of internal/repository, with the columns
-- that the migrations give them. An id is a number, and uuid.Nil is 0. A time is the number of
-- microseconds since the year 1, the precision that PostgreSQL keeps, so that 0 is Go's zero time and
-- stands for NULL. An empty text stands for NULL where the column may be NULL (pgutil.TextFromString).
-- An amount is its decimal text.
use finance_engine.Prelude.{ℕ, String, Bool, List, ℤ, ◌*◌, ◌-◌, ◌/◌}

abbrev pub Uuid : Type 0
Uuid = ℕ

abbrev pub Time : Type 0
Time = ℕ

-- `time.Second`
abbrev pub second : ℕ
second = 1000000

-- `24 * time.Hour`
abbrev pub day : ℕ
day = 24 * 3600 * second

-- `t.Unix()`, for a time after 1970: the whole seconds since then.
abbrev pub unix : Time → ℕ
unix t = t / second - 62135596800

-- repository.User
pub record User : Type 0 where
  pub id : Uuid
  pub apple_sub : String
  pub email : String
  pub base_currency : String
  pub password_hash : String
  pub google_sub : String
  pub theme : String
  pub gradient_color : String
  pub plan : String
  pub goals : String
  pub subscription_status : String
  pub trial_ends_at : Time
  pub liqpay_order_id : String
  pub created_at : Time
  pub name : String
  pub avatar : String

-- repository.PaymentEvent
pub record PaymentEvent : Type 0 where
  pub id : Uuid
  pub user_id : Uuid
  pub order_id : String
  pub plan : String
  pub action : String
  pub status : String
  pub amount : String
  pub currency : String
  pub error_description : String
  pub created_at : Time

-- repository.Session
pub record Session : Type 0 where
  pub id : Uuid
  pub user_id : Uuid
  pub refresh_hash : String
  pub created_at : Time
  pub expires_at : Time
  pub revoked_at : Time
  pub user_agent : String

-- repository.Category
pub record Category : Type 0 where
  pub id : Uuid
  pub user_id : Uuid
  pub name : String
  pub icon_name : String
  pub color_hex : String
  pub type : String
  pub is_default : Bool
  pub name_uk : String
  pub name_en : String
  pub created_at : Time

-- repository.Transaction
pub record Transaction : Type 0 where
  pub id : Uuid
  pub user_id : Uuid
  pub category_id : Uuid
  pub amount : String
  pub currency : String
  pub type : String
  pub date : Time
  pub note : String
  pub created_at : Time
  pub is_internal_transfer : Bool
  pub external_id : String
  pub operation_amount : ℤ
  pub operation_currency_code : ℕ
  pub updated_at : Time

-- repository.MonobankConnection
pub record MonobankConnection : Type 0 where
  pub user_id : Uuid
  pub encrypted_token : String
  pub webhook_secret : String
  pub masked_pans : List String
  pub account_ids : List String
  pub connected_at : Time
  pub last_synced_at : Time
  pub account_types : List String
  pub account_currencies : List String

-- The tables.
pub record Db : Type 0 where
  pub users : List User
  pub payment_events : List PaymentEvent
  pub sessions : List Session
  pub categories : List Category
  pub transactions : List Transaction
  pub monobank_connections : List MonobankConnection

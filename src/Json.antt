-- ===== src/Json.antt =====
-- internal/rest/models.go and the replies of internal/rest/admin.go: the rows as the browser reads them.
pub mod Advice
use finance_engine.Prelude.{String, Bool, List, ◌==◌, string_eq, nat_eq, if◌then◌else◌}
use finance_engine.Schema.{Time, User, Category, Transaction}
use finance_engine.Sessions.{Active}
use finance_engine.Connections.{Status}
use finance_engine.Formats.{Formats}

pub record UserJson : Type 0 where
  pub id : String
  pub email : String
  pub name : String
  pub avatar : String
  pub base_currency : String
  pub theme : String
  pub gradient_color : String
  pub plan : String
  pub goals : String
  pub subscription_status : String
  pub trial_ends_at : String
  pub created_at : String

pub record CategoryJson : Type 0 where
  pub id : String
  pub name : String
  pub name_uk : String
  pub name_en : String
  pub icon_name : String
  pub color_hex : String
  pub type : String
  pub is_default : Bool

pub record TransactionJson : Type 0 where
  pub id : String
  pub amount : String
  pub currency : String
  pub type : String
  pub date : String
  pub note : String
  pub category_id : String
  pub is_internal_transfer : Bool

pub record ConnectionJson : Type 0 where
  pub is_connected : Bool
  pub masked_pans : List String
  pub connected_at : String
  pub last_synced_at : String

pub record SessionJson : Type 0 where
  pub id : String
  pub user_agent : String
  pub created_at : String
  pub expires_at : String
  pub current : Bool

-- userJSONAdmin
pub record AdminUserJson : Type 0 where
  pub id : String
  pub email : String
  pub plan : String
  pub subscription_status : String
  pub trial_ends_at : String
  pub base_currency : String
  pub created_at : String

abbrev pub nil_text : String
nil_text = "00000000-0000-0000-0000-000000000000"

module _ (f : Formats) where
  unfoldable pub format_optional_time : Time → String
  format_optional_time t = if t == 0 then "" else f.time_text t

  unfoldable pub user_to_json : User → UserJson
  user_to_json u = record {
    id = f.uuid_text u.id;
    email = u.email;
    name = u.name;
    avatar = u.avatar;
    base_currency = u.base_currency;
    theme = u.theme;
    gradient_color = u.gradient_color;
    plan = u.plan;
    goals = u.goals;
    subscription_status = u.subscription_status;
    trial_ends_at = format_optional_time u.trial_ends_at;
    created_at = f.time_text u.created_at;
  }

  unfoldable pub category_to_json : Category → CategoryJson
  category_to_json c = record {
    id = f.uuid_text c.id;
    name = c.name;
    name_uk = c.name_uk;
    name_en = c.name_en;
    icon_name = c.icon_name;
    color_hex = c.color_hex;
    type = c.type;
    is_default = c.is_default;
  }

  unfoldable pub transaction_to_json : Transaction → TransactionJson
  transaction_to_json t = record {
    id = f.uuid_text t.id;
    amount = t.amount;
    currency = t.currency;
    type = t.type;
    date = f.time_text t.date;
    note = t.note;
    category_id = if f.uuid_text t.category_id == nil_text then "" else f.uuid_text t.category_id;
    is_internal_transfer = t.is_internal_transfer;
  }

  unfoldable pub status_to_json : Status → ConnectionJson
  status_to_json s = record {
    is_connected = s.is_connected;
    masked_pans = s.masked_pans;
    connected_at = format_optional_time s.connected_at;
    last_synced_at = format_optional_time s.last_synced_at;
  }

  unfoldable pub session_to_json : Active → SessionJson
  session_to_json s = record {
    id = f.uuid_text s.id;
    user_agent = s.user_agent;
    created_at = f.time_text s.created_at;
    expires_at = f.time_text s.expires_at;
    current = s.current;
  }

  unfoldable pub user_to_admin_json : User → AdminUserJson
  user_to_admin_json u = record {
    id = f.uuid_text u.id;
    email = u.email;
    plan = u.plan;
    subscription_status = u.subscription_status;
    trial_ends_at = format_optional_time u.trial_ends_at;
    base_currency = u.base_currency;
    created_at = f.time_text u.created_at;
  }

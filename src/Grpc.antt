-- ===== src/Grpc.antt =====
-- internal/grpc: the API of the iOS app. This file has the interceptors that server.go chains and the
-- conversions of controllers/convert.go; the controllers are in the children. google.golang.org/grpc and the
-- generated package api/v1/pb are outside: a call comes with its full method name and the values of its
-- "authorization" metadata, and a message is a record of its fields.
pub mod Book
pub mod Bank
pub mod SignIn
pub mod Agreement
pub mod Calls
mod Tests
use finance_engine.Prelude.{
  String, Bool, true, false, Option, none, some, List, [], ◌∷◌, ◌==◌, string_eq, if◌then◌else◌,
  nat_beq,
}
use Prim.Native.Char.{code}
use finance_engine.Schema.{Uuid, Time, Category, Transaction}
use finance_engine.Store.{World, M, Result, ok, err, Error}
use finance_engine.Formats.{Formats}
use finance_engine.Json.{nil_text}
use finance_engine.Table.{exists}
use mathlib.Core.Option
use finance_engine.Tokens.{Library, Manager, verify}

-- The codes of `google.golang.org/grpc/codes` that the server uses.
pub data Code : Type 0 where
  unauthenticated permission_denied invalid_argument not_found internal : Code

-- What a handler returns: a message, or `status.Error(code, message)`.
pub data Reply (A : Type 0) : Type 0 where
  replied : A → Reply A
  failed : Code → String → Reply A

abbrev pub Handler : Type 0 → Type 0
Handler A = World → Reply A × World

-- `v, err := …; if err != nil { return nil, status.Error(…) }` for what touches no database.
unfoldable pub required : {A B : Type 0} → Option A → Code → String → (A → Handler B) → Handler B
required none c message k w = (failed c message, w)
required (some a) c message k w = k a w

abbrev pub answer :
    {A B : Type 0} → (Error → Reply B) → (A → Handler B) → Result A × World → Reply B × World
answer on_error k (ok a, w) = k a w
answer on_error k (err e, w) = (on_error e, w)

-- The same for a call of a service.
unfoldable pub call : {A B : Type 0} → M A → (Error → Reply B) → (A → Handler B) → Handler B
call m on_error k w = answer on_error k (m w)

abbrev pub reply_failed : {A : Type 0} → String → Handler A
reply_failed message w = (failed unauthenticated message, w)

abbrev pub reply : {A : Type 0} → A → Handler A
reply a w = (replied a, w)

-- CurrencyModel.Currency and TransactionTypeModel.TransactionType
pub data Currency : Type 0 where
  currency_unspecified currency_uah currency_usd currency_eur currency_gbp currency_pln : Currency

pub data TransactionType : Type 0 where
  type_unspecified type_expense type_income : TransactionType

unfoldable pub currency_to_proto : String → Currency
currency_to_proto s =
    if s == "UAH"
    then currency_uah
    else if s == "USD"
    then currency_usd
    else if s == "EUR"
    then currency_eur
    else if s == "GBP"
    then currency_gbp
    else if s == "PLN"
    then currency_pln
    else currency_unspecified

unfoldable pub currency_from_proto : Currency → String
currency_from_proto currency_uah = "UAH"
currency_from_proto currency_usd = "USD"
currency_from_proto currency_eur = "EUR"
currency_from_proto currency_gbp = "GBP"
currency_from_proto currency_pln = "PLN"
currency_from_proto currency_unspecified = "UAH"

unfoldable pub transaction_type_to_proto : String → TransactionType
transaction_type_to_proto s = if s == "income" then type_income else type_expense

unfoldable pub transaction_type_from_proto : TransactionType → String
transaction_type_from_proto type_income = "income"
transaction_type_from_proto type_expense = "expense"
transaction_type_from_proto type_unspecified = "expense"

-- CategoryModel.Category and TransactionModel.Transaction
pub record CategoryModel : Type 0 where
  pub id : String
  pub name : String
  pub icon_name : String
  pub color_hex : String
  pub type : TransactionType
  pub is_default : Bool

pub record TransactionModel : Type 0 where
  pub id : String
  pub amount : String
  pub currency : Currency
  pub type : TransactionType
  pub date : String
  pub note : String
  pub category_id : String

module _ (f : Formats) where
  unfoldable pub category_to_proto : Category → CategoryModel
  category_to_proto c = record {
    id = f.uuid_text c.id;
    name = c.name;
    icon_name = c.icon_name;
    color_hex = c.color_hex;
    type = transaction_type_to_proto c.type;
    is_default = c.is_default;
  }

  unfoldable pub transaction_to_proto : Transaction → TransactionModel
  transaction_to_proto t = record {
    id = f.uuid_text t.id;
    amount = t.amount;
    currency = currency_to_proto t.currency;
    type = transaction_type_to_proto t.type;
    date = f.time_text t.date;
    note = t.note;
    category_id = if f.uuid_text t.category_id == nil_text then "" else f.uuid_text t.category_id;
  }

-- `strings.SplitN(s, " ", 2)`, where it has two parts.
unfoldable pub split_space : String → Option (String × String)
split_space String.[] = none
split_space (String.◌∷◌ c s) =
    let rest = split_space s in
    elim (nat_beq (code c) b' ') [
      | true ↦ some ("", s)
      | false ↦ Option.map (λ (a, b). (String.◌∷◌ c a, b)) rest
    ]

-- What the interceptors are given: the access tokens, the printing of ids and times, `strings.EqualFold`, and
-- `err.Error()`.
pub record Settings : Type 0 where
  pub library : Library
  pub formats : Formats
  pub jwt : Manager
  pub equal_fold : String → String → Bool
  pub message : Error → String

module _ (cfg : Settings) {A : Type 0} where
  -- AuthInterceptor.authorize for the two parts of the header, and for the values of the metadata, before what
  -- follows with the id that it puts into the context.
  unfoldable pub authorize_parts : Time → Option (String × String) → (Uuid → Handler A) → Handler A
  authorize_parts now none next = reply_failed "expected 'Bearer <token>' authorization header"
  authorize_parts now (some (scheme, token)) next = elim (cfg.equal_fold scheme "bearer") [
    | true ↦
        required (verify cfg.library cfg.formats cfg.jwt now token) unauthenticated
          "invalid or expired token" next
    | false ↦ reply_failed "expected 'Bearer <token>' authorization header"
  ]

  unfoldable pub authorize : Time → List String → (Uuid → Handler A) → Handler A
  authorize now [] next = reply_failed "authorization header is not provided"
  authorize now (value ∷ values) next = authorize_parts now (split_space value) next

-- The methods that NewServer lets through without a token.
abbrev pub methods_do_not_require_auth : List String
methods_do_not_require_auth = "/AuthService/SignInWithApple" ∷ "/AuthService/DevSignIn" ∷ []

-- UserIDFromContext at the start of a controller's method.
unfoldable pub with_user : {A : Type 0} → Option Uuid → (Uuid → Handler A) → Handler A
with_user none next = reply_failed "missing user"
with_user (some user_id) next = next user_id

-- AuthInterceptor.Unary, before a handler that reads the user of its context. The two interceptors around it
-- pass on what it returns: the one logs, and the other answers a panic, which no handler here raises.
unfoldable pub unary :
    {A : Type 0} → Settings → Time → String → List String → (Option Uuid → Handler A) → Handler A
unary cfg now method values next =
    if exists (λ m. m == method) methods_do_not_require_auth
    then next none
    else authorize cfg now values (λ i. next (some i))

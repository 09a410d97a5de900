-- ===== src/Rest.antt =====
-- internal/rest: the JSON API of the browser. This file has the parts that all of its handlers use
-- (middleware.go, json.go, and the setting of cookies in auth.go); the handlers, which server.go mounts,
-- are in the children. Go's net/http and encoding/json are outside: a request comes with its headers and
-- cookies, and each handler takes what the decoder answered for the body.
pub mod Guards
pub mod Auth
pub mod Book
pub mod Bank
pub mod Paying
pub mod Papers
pub mod Panel
pub mod Felix
pub mod Mux
pub mod Keeping
pub mod Others
pub mod Isolation
pub mod Entry
pub mod Roles
pub mod Cors
pub mod Gates
pub mod Pagination
pub mod Echo
pub mod Fixtures
mod Tests
use finance_engine.Prelude.{
  ℕ, String, Bool, true, false, not, ◌&&◌, ◌||◌, Option, none, some, List, [], ◌∷◌, ◌++◌, ◌==◌,
  string_eq, if◌then◌else◌, ltb, ℤ, nat_beq,
}
use Prim.Native.Char.{code}
use finance_engine.Schema.{Uuid, Time, User}
use finance_engine.Store.{
  World, M, Result, ok, err, Error, refused, no_rows, unavailable, constraint,
}
use finance_engine.Formats.{Formats}
use finance_engine.Json.{
  UserJson, CategoryJson, TransactionJson, ConnectionJson, SessionJson, AdminUserJson,
}
use finance_engine.Json.Advice.{
  RateJson, SubscriptionJson, RunwayJson, CategoryPaceJson, DaySignupsJson,
}
use finance_engine.Advisor.{Float}
use finance_engine.Advisor.Score.{Breakdown}
use finance_engine.Admin.Stats.{Stats}
use finance_engine.Billing.{Checkout}
use finance_engine.Tokens.{Library, Manager, verify, verify_admin}

-- What the handlers read of a request beside its body. An absent header is the empty text.
pub record Request : Type 0 where
  pub is_options : Bool
  pub origin : String
  pub authorization : String
  pub user_agent : String
  pub cookies : List (String × String)

-- receiptJSON, with the decimal text of the amount.
pub record ReceiptJson : Type 0 where
  pub order_id : String
  pub plan : String
  pub status : String
  pub amount : String
  pub currency : String
  pub error_description : String
  pub created_at : String

-- monobankAccountJSON
pub record AccountJson : Type 0 where
  pub id : String
  pub masked_pan : String
  pub currency : String
  pub type : String
  pub selected : Bool

-- The reply's body: nothing, {"error": …}, {"status": "ok"}, and one form for each kind of value.
pub data Body : Type 0 where
  no_body status_ok : Body
  failed token csv : String → Body
  user : UserJson → Body
  admin_user : AdminUserJson → Body
  sessions : List SessionJson → Body
  category : CategoryJson → Body
  categories : List CategoryJson → Body
  transaction : TransactionJson → Body
  transactions : List TransactionJson → Body
  connection : ConnectionJson → Body
  imported : ℕ → Body
  import_result : ℕ → ℕ → List String → Body
  checkout : Checkout → Body
  receipts : List ReceiptJson → Body
  accounts : List AccountJson → Body
  said : String → Body
  insights : List String → Body
  score : Breakdown → Body
  subscriptions : List SubscriptionJson → Body
  runway : RunwayJson → Body
  paces : List CategoryPaceJson → Body
  rates : List RateJson → Body
  rates_at : List (String × Float) → Body
  admin_stats : Stats → List DaySignupsJson → Body
  admin_users : List AdminUserJson → ℕ → Body
  admin_detail : AdminUserJson → ℕ → Body

-- `http.Cookie` with SameSite=Lax or none, and `MaxAge`, which is -1 to delete a cookie.
pub record Cookie : Type 0 where
  pub name : String
  pub value : String
  pub path : String
  pub http_only : Bool
  pub secure : Bool
  pub is_lax : Bool
  pub max_age : ℤ

pub record Response : Type 0 where
  pub status : ℕ
  pub headers : List (String × String)
  pub cookies : List Cookie
  pub body : Body

abbrev pub Handler : Type 0
Handler = World → Response × World

-- A part of a handler that goes on with a value or has answered.
abbrev pub Part : Type 0 → Type 0
Part A = (A → Handler) → Handler

infixl 5 ◌>>=◌ ◌>>◌
abbrev pub ◌>>=◌ : {A : Type 0} → Part A → (A → Handler) → Handler
part >>= k = part k

abbrev pub ◌>>◌ : Part (Unit {0}) → Handler → Handler
part >> k = part >>= λ _. k

-- writeJSON, after the cookies that the handler has set.
unfoldable pub write_json : List Cookie → ℕ → Body → Response
write_json cookies status body = record {
  status = status;
  headers = ("Content-Type", "application/json") ∷ [];
  cookies = cookies;
  body = body;
}

-- writeError; what it logs is not kept.
unfoldable pub write_error : ℕ → String → Response
write_error status message = write_json [] status (failed message)

-- `w.WriteHeader(status)` alone.
unfoldable pub write_header : ℕ → Response
write_header status = record { status = status; headers = []; cookies = []; body = no_body }

abbrev pub reply : Response → Handler
reply r w = (r, w)

-- `v, err := …; if err != nil { writeError(…); return }` for what touches no database.
unfoldable pub required : {A : Type 0} → Option A → Response → Part A
required none refusal k w = (refusal, w)
required (some a) refusal k w = k a w

abbrev pub answer :
    {A : Type 0} → (Error → Response) → (A → Handler) → Result A × World → Response × World
answer on_error k (ok a, w) = k a w
answer on_error k (err e, w) = (on_error e, w)

-- The same for a call of a service.
unfoldable pub call : {A : Type 0} → M A → (Error → Response) → Part A
call m on_error k w = answer on_error k (m w)

-- `if !allowed { writeError(…); return }`
unfoldable pub allowed : Bool → Response → Part (Unit {0})
allowed b refusal k w = elim b [ true ↦ k tt w | false ↦ (refusal, w) ]

-- The text after a prefix, where it is one.
unfoldable pub strip_prefix : String → String → Option String
strip_prefix String.[] s = some s
strip_prefix (String.◌∷◌ p prefix) String.[] = none
strip_prefix (String.◌∷◌ p prefix) (String.◌∷◌ c s) = elim (nat_beq (code p) (code c)) [
  | true ↦ strip_prefix prefix s
  | false ↦ none
]

abbrev pub bearer_prefix : String
bearer_prefix = "Bearer "

-- bearerToken. A header that is the prefix alone gives the empty text in either case of the code's test.
unfoldable pub bearer_token : Request → String
bearer_token r = elim (strip_prefix bearer_prefix r.authorization) [ some rest ↦ rest | none ↦ "" ]

-- `r.Cookie(name)`: the first cookie of that name.
unfoldable pub cookie_named : String → List (String × String) → Option String
cookie_named name [] = none
cookie_named name ((n, v) ∷ cookies) =
    let rest = cookie_named name cookies in if n == name then some v else rest

abbrev pub access_cookie_name : String
access_cookie_name = "access_token"

abbrev pub refresh_cookie_name : String
refresh_cookie_name = "refresh_token"

-- What the requests are served with: the parts of `rest.Options` that the middleware and the handlers
-- share, the printing and reading of texts, and `err.Error()`.
pub record Config : Type 0 where
  pub library : Library
  pub formats : Formats
  pub jwt : Manager
  pub cors_origin : String
  pub admin_origin : String
  pub admin_password : String
  pub access_max_age : ℕ
  pub refresh_max_age : ℕ
  pub message : Error → String

abbrev pub or_empty : Option String → String
or_empty none = ""
or_empty (some s) = s

-- The access token of a request: of its header, else of its cookie.
unfoldable pub access_token : Request → String
access_token r =
    let bearer = bearer_token r in
    if bearer == "" then or_empty (cookie_named access_cookie_name r.cookies) else bearer

-- withAuth, at a reading of the clock.
unfoldable pub with_auth : Config → Time → Request → (Uuid → Handler) → Handler
with_auth cfg now r next = do
  allowed (not (access_token r == "")) (write_error 401 "missing access token")
  user_id ←
      required (verify cfg.library cfg.formats cfg.jwt now (access_token r))
        (write_error 401 "invalid or expired token")
  next user_id

-- withAdminAuth; the secret of the operator's tokens is that of the users'.
unfoldable pub with_admin_auth : Config → Time → Request → Handler → Handler
with_admin_auth cfg now r next = do
  allowed
      (not (bearer_token r == "") && verify_admin cfg.library cfg.jwt.secret now (bearer_token r))
      (write_error 401 "invalid or missing admin token")
  next

-- The origin that withCORS echoes.
unfoldable pub echoed_origin : List String → String → Option String
echoed_origin [] origin = none
echoed_origin (a ∷ origins) origin =
    let rest = echoed_origin origins origin in
    if not (origin == "") && origin == a then some origin else rest

abbrev pub cors_headers : Option String → List (String × String)
cors_headers none = []
cors_headers (some origin) =
    ("Access-Control-Allow-Origin", origin) ∷ ("Access-Control-Allow-Credentials", "true") ∷ []

abbrev pub fixed_headers : List (String × String)
fixed_headers =
    ("Access-Control-Allow-Methods", "GET, POST, PUT, PATCH, DELETE, OPTIONS")
    ∷ ("Access-Control-Allow-Headers", "Content-Type, Authorization")
    ∷ []

abbrev with_headers : List (String × String) → Response × World → Response × World
with_headers headers (response, w) = (record response { headers = headers ++ response.headers }, w)

unfoldable pub with_cors : List String → Request → Handler → Handler
with_cors origins r next w =
    with_headers (cors_headers (echoed_origin origins r.origin) ++ fixed_headers)
      (elim r.is_options [ true ↦ (write_header 204, w) | false ↦ next w ])

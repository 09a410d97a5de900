-- ===== src/Rest/Fixtures.antt =====
-- A library of tokens, a printing of ids, and an application, on which the theorems on the API are run.
use finance_engine.Prelude.{
  zero, suc, String, Bool, true, false, ◌&&◌, Option, none, some, List, [], ◌∷◌, ◌==◌, string_eq,
  nat_eq, nat_beq, leb, if◌then◌else◌, pos, ◌*◌, ◌≡◌, ◌≢◌, refl, sym, ap, ◌∙◌, Bool-cases, inl, inr,
  eq_iff, nat_beq_iff, ◌+++◌, arith,
}
use Prim.Native.Char.{code}
use mathlib.Core.Option
use finance_engine.Schema.{Uuid, User, Category, Transaction, second}
use finance_engine.Store.{World, Result, ok, err, refused}
use finance_engine.Formats.{Formats, IsReadable}
use finance_engine.Advisor.Fixtures
use finance_engine.Rest.{Request}
use finance_engine.Rest.Mux.{App}
use finance_engine.Tokens.{Claims, Library}
use finance_engine.Tokens.Laws.{IsFaithful}

-- Ids in a unary notation that ends in the nil id.
unfoldable pub uuid_text : Uuid → String
uuid_text zero = "00000000-0000-0000-0000-000000000000"
uuid_text (suc n) = String.◌∷◌ "x" (uuid_text n)

unfoldable pub parse_uuid : String → Option Uuid
parse_uuid String.[] = none
parse_uuid (String.◌∷◌ c s) =
    let rest = parse_uuid s in
    elim (nat_beq (code c) b'x') [ true ↦ Option.map suc rest | false ↦ some 0 ]

parse_uuid-uuid_text : (n : Uuid) → parse_uuid (uuid_text n) ≡ some n
unfolding parse_uuid uuid_text
parse_uuid-uuid_text zero = refl
parse_uuid-uuid_text (suc n) = ap (Option.map suc) (parse_uuid-uuid_text n)

uuid_text_not_empty : (n : Uuid) → uuid_text n ≢ ""
unfolding uuid_text
uuid_text_not_empty zero = λ h. absurd (cc h)
uuid_text_not_empty (suc n) = λ h. absurd (cc h)

abbrev pub formats : Formats
formats = record {
  uuid_text = uuid_text;
  parse_uuid = parse_uuid;
  time_text = uuid_text;
  parse_time = parse_uuid;
}

pub formats-IsReadable : IsReadable formats
formats-IsReadable = record { reads = parse_uuid-uuid_text; not_empty = uuid_text_not_empty }

abbrev pub user_claims : String → Claims
user_claims i = record { user_id = i; subject = ""; expires_at = 100; issued_at = 10 }

abbrev pub admin_claims : Claims
admin_claims = record { user_id = ""; subject = "admin"; expires_at = 100; issued_at = 10 }

-- Tokens that show their claims, for the time 10 until the time 100, the latest that this library knows.
abbrev sign : Claims → Result String
sign c =
    if c.expires_at == 100 && c.issued_at == 10
    then (if c.subject == ""
        then ok (String.◌∷◌ "u" c.user_id)
        else if c.subject == "admin" && c.user_id == ""
        then ok "admin"
        else err (refused "sign"))
    else err (refused "sign")

abbrev parse : String → Option Claims
parse String.[] = none
parse (String.◌∷◌ c s) = elim (nat_beq (code c) b'u') [
  | true ↦ some (user_claims s)
  | false ↦ some admin_claims
]

abbrev pub library : Library
library = record {
  numeric_date = λ t. if leb t 100 then t else 100;
  sign = λ secret c. sign c;
  parse = λ secret now token. parse token;
}

both : (a b : Bool) → (a && b) ≡ true → (a ≡ true) × (b ≡ true)
both a b h = ground (arith, h)

-- Claims are known by their four parts.
claims_of :
    (c c' : Claims)
    → c.user_id ≡ c'.user_id
    → c.subject ≡ c'.subject
    → c.expires_at ≡ c'.expires_at
    → c.issued_at ≡ c'.issued_at
    → c ≡ c'
claims_of c c' a b d e =
    λ i. record { user_id = a i; subject = b i; expires_at = d i; issued_at = e i }

parse-sign : (c : Claims) (token : String) → sign c ≡ ok token → parse token ≡ some c
parse-sign c token made = elim (Bool-cases (c.expires_at == 100 && c.issued_at == 10)) [
  | inr untimely ↦ absurd (cc (rw untimely at made))
  | inl timely ↦
      let (expires, issued) = both (c.expires_at == 100) (c.issued_at == 10) timely in
      let e = (nat_beq_iff c.expires_at 100).0 expires in
      let i = (nat_beq_iff c.issued_at 10).0 issued in
      elim (Bool-cases (c.subject == "")) [
        | inl user ↦
            let same : String.◌∷◌ "u" c.user_id ≡ token = cc (rw (timely, user) at made) in
            ap parse (sym same)
            ∙ ap some (
                claims_of (user_claims c.user_id) c refl (sym ((eq_iff c.subject "").0 user))
                  (sym e) (sym i))
        | inr other ↦ elim (Bool-cases (c.subject == "admin" && c.user_id == "")) [
          | inr neither ↦ absurd (cc (rw (timely, other, neither) at made))
          | inl admin ↦
              let (subject, user_id) = both (c.subject == "admin") (c.user_id == "") admin in
              let same : "admin" ≡ token = cc (rw (timely, other, admin) at made) in
              ap parse (sym same)
              ∙ ap some (
                  claims_of admin_claims c (sym ((eq_iff c.user_id "").0 user_id))
                    (sym ((eq_iff c.subject "admin").0 subject)) (sym e) (sym i))
        ]
      ]
]

pub library-IsFaithful : IsFaithful library
library-IsFaithful = record {
  reads = λ secret c token now made alive. parse-sign c token made;
  reads_only = λ secret c c' token now made read.
      let same : ◌≡◌ {A = Option Claims} (some c') (some c) = sym read ∙ parse-sign c token made in
      cc same;
}

abbrev pub ann : User
ann = record {
  id = 7;
  apple_sub = "";
  email = "ann@example.org";
  base_currency = "UAH";
  password_hash = "pass";
  google_sub = "";
  theme = "system";
  gradient_color = "#34C759";
  plan = "free";
  goals = "";
  subscription_status = "";
  trial_ends_at = 0;
  liqpay_order_id = "";
  created_at = 5;
  name = "";
  avatar = "";
}

abbrev pub category : Uuid → Uuid → Bool → Category
category id user_id shared = record {
  id = id;
  user_id = user_id;
  name = "Food";
  icon_name = "cart";
  color_hex = "FF0000";
  type = "expense";
  is_default = shared;
  name_uk = "";
  name_en = "";
  created_at = 5;
}

abbrev pub spent : Uuid → Uuid → Uuid → Transaction
spent id user_id category_id = record {
  id = id;
  user_id = user_id;
  category_id = category_id;
  amount = "10";
  currency = "UAH";
  type = "expense";
  date = 4;
  note = "lunch";
  created_at = 5;
  is_internal_transfer = false;
  external_id = "";
  operation_amount = pos 0;
  operation_currency_code = 0;
  updated_at = 0;
}

-- Ann and Bob with a category each and a shared one, and a transaction of each.
abbrev pub world : World
world = record {
  db = record {
    users = ann ∷ record ann { id = 8; email = "bob@example.org" } ∷ [];
    payment_events = [];
    sessions = [];
    categories = category 1 0 true ∷ category 2 7 false ∷ category 3 8 false ∷ [];
    transactions = spent 21 7 2 ∷ spent 22 8 1 ∷ [];
    monobank_connections = [];
  };
  down = λ n. false;
  queries = 0;
  collation = λ s t. false;
}

abbrev pub app : App
app = record {
  config = record {
    library = library;
    formats = formats;
    jwt = record { secret = "secret"; duration = 90 };
    cors_origin = "https://app";
    admin_origin = "https://admin";
    admin_password = "open";
    access_max_age = 90 * second;
    refresh_max_age = 900;
    message = λ e. "error";
  };
  texts = record {
    normalize_email = λ t. t;
    trim = λ t. t;
    size = λ t. 1;
    is_color = λ t. true;
    is_image = λ t. true;
    verifies = λ hash password. hash == password;
  };
  sessions = record {
    hash = λ t. "#" +++ t;
    library = library;
    formats = formats;
    access_jwt = record { secret = "secret"; duration = 90 };
    refresh_duration = 900;
  };
  billing = record {
    codec = record {
      sha1_base64 = λ t. "#" +++ t;
      marshal_base64 = λ m. some "form";
      base64_decode = λ d. some d;
      unmarshal = λ raw. none;
      uuid_text = uuid_text;
      format_subscribe_date = λ t. "then";
    };
    client = record { public_key = "pub"; private_key = "key"; sandbox = false };
    frontend_url = "https://app";
    backend_url = "https://api";
    numeric = λ t. some t;
  };
  same_name = λ a b. a == b;
  numeric = λ t. some t;
  is_like = λ q email. true;
  webhook_base_url = "https://api";
  client_info = λ token. ok [];
  decrypt = λ t. ok t;
  papers = record {
    texts = record {
      lower = λ t. t;
      upper = λ t. t;
      trim = λ t. t;
      parse_in = λ layout t. parse_uuid t;
      format_in = λ layout t. uuid_text t;
      two_decimals = λ t. if t == "" then none else some t;
    };
    month_start = λ t. 1;
    write_csv = λ rows. "csv";
    explain = λ e. "error";
  };
  advisor = Fixtures.service;
  lines = Fixtures.lines;
}

-- The request of a browser, with a header or with cookies.
abbrev pub request : String → String → List (String × String) → Request
request origin authorization cookies = record {
  is_options = false;
  origin = origin;
  authorization = authorization;
  user_agent = "Firefox";
  cookies = cookies;
}

-- ===== src/Tokens.antt =====
-- pkg/jwt/jwt.go and pkg/adminauth/adminauth.go: the access tokens of the users and of the operator. The
-- library github.com/golang-jwt/jwt is a parameter.
pub mod Laws
use finance_engine.Prelude.{
  ℕ, String, Bool, not, Option, none, some, ◌==◌, string_eq, if◌then◌else◌, ◌+◌,
}
use finance_engine.Schema.{Uuid, Time}
use finance_engine.Store.{Result, ok, err, refused}
use finance_engine.Formats.{Formats}

-- The claims of a token. A claim that the token does not carry is read as the empty text.
pub record Claims : Type 0 where
  pub user_id : String
  pub subject : String
  pub expires_at : Time
  pub issued_at : Time

-- The library: `NewNumericDate`, `SignedString` with HS256 under a secret, and `ParseWithClaims` with a
-- key function that accepts the HMAC methods only, at a reading of the clock.
pub record Library : Type 0 where
  pub numeric_date : Time → Time
  pub sign : String → Claims → Result String
  pub parse : String → Time → String → Option Claims

-- jwtManager
pub record Manager : Type 0 where
  pub secret : String
  pub duration : ℕ

-- The claims that each package signs, at the two readings of the clock.
abbrev pub user_claims : Library → Formats → ℕ → Uuid → Time → Time → Claims
user_claims lib f duration user_id now later = record {
  user_id = f.uuid_text user_id;
  subject = "";
  expires_at = lib.numeric_date (now + duration);
  issued_at = lib.numeric_date later;
}

abbrev pub subject : String
subject = "admin"

abbrev pub admin_claims : Library → ℕ → Time → Time → Claims
admin_claims lib duration now later = record {
  user_id = "";
  subject = subject;
  expires_at = lib.numeric_date (now + duration);
  issued_at = lib.numeric_date later;
}

module _ (lib : Library) where
  unfoldable pub generate : Formats → Manager → Uuid → Time → Time → Result String
  generate f m user_id now later =
      lib.sign m.secret (user_claims lib f m.duration user_id now later)

  abbrev pub user_of : Formats → Option Claims → Option Uuid
  user_of f none = none
  user_of f (some c) = f.parse_uuid c.user_id

  -- jwtManager.Verify, whose errors the callers do not tell apart.
  unfoldable pub verify : Formats → Manager → Time → String → Option Uuid
  verify f m now token = user_of f (lib.parse m.secret now token)

  unfoldable pub generate_admin : String → ℕ → Time → Time → Result String
  generate_admin secret duration now later = lib.sign secret (admin_claims lib duration now later)

  abbrev pub is_admin : Option Claims → Bool
  is_admin none = Bool.false
  is_admin (some c) = c.subject == subject

  -- `adminauth.Verify(secret, token) == nil`
  unfoldable pub verify_admin : String → Time → String → Bool
  verify_admin secret now token = is_admin (lib.parse secret now token)

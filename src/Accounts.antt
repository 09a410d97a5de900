-- ===== src/Accounts.antt =====
-- internal/service/auth/auth.go over internal/repository/user.go: signing up, signing in, and the settings
-- of an account. What other packages decide about a text is a parameter, and so are tokens, hashes, and
-- the id and the time of a new row.
pub mod SignIn
mod Tests
use finance_engine.Prelude.{
  ℕ, String, Bool, true, false, not, ◌&&◌, ◌||◌, Option, none, some, List, [], ◌∷◌, ◌==◌,
  if◌then◌else◌, string_eq, nat_eq, ltb, ◌+++◌,
}
use finance_engine.Schema.{Uuid, Time, User, Db}
use finance_engine.Store.{
  M, World, Result, ok, err, Error, refused, no_rows, unavailable, constraint, one, query, pure,
  fail, from, refuse_if, try, ◌>>=◌, ◌>>◌,
}
use finance_engine.Table.{first, exists}
use finance_engine.Users.{get_by_id, has_id, update_user}
use finance_engine.Plan

-- A condition `column = $1` on a column where the empty text stands for NULL.
abbrev pub matches : String → String → Bool
matches text column = not (text == "") && column == text

unfoldable pub get_by_apple_sub : String → M User
get_by_apple_sub sub = query λ db. (one (first (λ u. matches sub u.apple_sub) db.users), db)

unfoldable pub get_by_google_sub : String → M User
get_by_google_sub sub = query λ db. (one (first (λ u. matches sub u.google_sub) db.users), db)

unfoldable pub get_by_email : String → M User
get_by_email email = query λ db. (one (first (λ u. matches email u.email) db.users), db)

-- A new row, with the defaults of its columns.
abbrev pub new_user : Uuid → Time → String → String → String → String → String → User
new_user id now apple_sub google_sub email password_hash base_currency = record {
  id = id;
  apple_sub = apple_sub;
  email = email;
  base_currency = base_currency;
  password_hash = password_hash;
  google_sub = google_sub;
  theme = "system";
  gradient_color = "#34C759";
  plan = Plan.free;
  goals = "";
  subscription_status = "";
  trial_ends_at = 0;
  liqpay_order_id = "";
  created_at = now;
  name = "";
  avatar = "";
}

-- The unique indexes of the users table.
abbrev pub collides : User → User → Bool
collides row u =
    u.id == row.id
    || (matches row.apple_sub u.apple_sub
        || (matches row.google_sub u.google_sub || matches row.email u.email))

unfoldable pub insert_user : User → M User
insert_user row = query λ db.
    if exists (collides row) db.users
    then (err constraint, db)
    else (ok row, record db { users = row ∷ db.users })

abbrev pub default_base_currency : String
default_base_currency = "UAH"

-- Create, CreateWithEmail and CreateWithGoogle of the repository.
abbrev pub create_user : Uuid → Time → String → String → String → M User
create_user id now apple_sub email base_currency =
    insert_user (new_user id now apple_sub "" email "" base_currency)

abbrev pub create_with_email : Uuid → Time → String → String → String → M User
create_with_email id now email password_hash base_currency =
    insert_user (new_user id now "" "" email password_hash base_currency)

abbrev pub create_with_google : Uuid → Time → String → String → String → M User
create_with_google id now google_sub email base_currency =
    insert_user (new_user id now "" google_sub email "" base_currency)

-- UserUpdatePreferences, UserUpdateBaseCurrency, UserUpdateGoals and UserUpdateProfile.
unfoldable pub set_preferences : Uuid → String → String → M User
set_preferences id theme color =
    update_user id (λ u. record u { theme = theme; gradient_color = color })

unfoldable pub set_base_currency : Uuid → String → M User
set_base_currency id currency = update_user id (λ u. record u { base_currency = currency })

unfoldable pub set_goals : Uuid → String → M User
set_goals id goals = update_user id (λ u. record u { goals = goals })

unfoldable pub set_profile : Uuid → String → String → M User
set_profile id name avatar = update_user id (λ u. record u { name = name; avatar = avatar })

-- What Go's library and the packages around the service say of a text.
pub record Texts : Type 0 where
  -- `strings.ToLower(strings.TrimSpace(email))` and `strings.TrimSpace(name)`.
  pub normalize_email : String → String
  pub trim : String → String
  -- `len`, in bytes.
  pub size : String → ℕ
  -- `^#[0-9A-Fa-f]{6}$`, and the prefix "data:image/".
  pub is_color : String → Bool
  pub is_image : String → Bool
  -- `passwordhash.Verify(hash, password) == nil`
  pub verifies : String → String → Bool

pub record SignInResult : Type 0 where
  pub access_token : String
  pub user : User

-- What a call draws from outside: the id and the time of a new row, a token for the user's id, and a
-- hash of the password.
pub record Draw : Type 0 where
  pub id : Uuid
  pub now : Time
  pub token : Uuid → Result String
  pub hashed : Result String

-- `s.jwt.Generate(user.ID)` and the result.
unfoldable pub give_token : Draw → User → M SignInResult
give_token d user = do
  token ← from (d.token user.id)
  pure (record { access_token = token; user = user })

-- `if errors.Is(err, pgx.ErrNoRows)` after a lookup: the other branch, or the user.
unfoldable pub or_create : M User → Result User → M User
or_create create (ok user) = pure user
or_create create (err no_rows) = create
or_create create (err unavailable) = fail unavailable
or_create create (err constraint) = fail constraint
or_create create (err (refused message)) = fail (refused message)

-- findOrCreateAndIssueToken
unfoldable pub find_or_create : Draw → String → String → M SignInResult
find_or_create d sub email = do
  found ← try (get_by_apple_sub sub)
  user ← or_create (create_user d.id d.now sub email default_base_currency) found
  give_token d user

-- SignInWithApple and SignInWithGoogle, with what the verifier answers: the subject and the email.
unfoldable pub sign_in_with_apple : Draw → Result (String × String) → M SignInResult
sign_in_with_apple d verified = do (sub, email) ← from verified; find_or_create d sub email

unfoldable pub sign_in_with_google : Draw → Result (String × String) → M SignInResult
sign_in_with_google d verified = do
  (sub, email) ← from verified
  found ← try (get_by_google_sub sub)
  user ← or_create (create_with_google d.id d.now sub email default_base_currency) found
  give_token d user

unfoldable pub dev_sign_in : Bool → Draw → String → M SignInResult
dev_sign_in dev_mode d device_id = do
  refuse_if (not dev_mode) "dev sign-in is disabled"
  refuse_if (device_id == "") "device_id is required"
  find_or_create d ("dev:" +++ device_id) ""

-- The lookup of SignUpWithEmail: the email must be free.
unfoldable pub must_be_free : Result User → M (Unit {0})
must_be_free (ok user) = fail (refused "an account with this email already exists")
must_be_free (err no_rows) = pure tt
must_be_free (err unavailable) = fail unavailable
must_be_free (err constraint) = fail constraint
must_be_free (err (refused message)) = fail (refused message)

module _ (t : Texts) where
  unfoldable pub sign_up_with_email : Draw → String → String → M SignInResult
  sign_up_with_email d given_email password = do
    let email = t.normalize_email given_email
    refuse_if (email == "" || password == "") "email and password are required"
    found ← try (get_by_email email)
    must_be_free found
    hash ← from d.hashed
    user ← create_with_email d.id d.now email hash default_base_currency
    give_token d user

  -- SignInWithEmail once the lookup has answered.
  unfoldable pub check_password : Draw → String → Result User → M SignInResult
  check_password d password (ok user) = do
    refuse_if (user.password_hash == "") "invalid email or password"
    refuse_if (not (t.verifies user.password_hash password)) "invalid email or password"
    give_token d user
  check_password d password (err no_rows) = fail (refused "invalid email or password")
  check_password d password (err unavailable) = fail unavailable
  check_password d password (err constraint) = fail constraint
  check_password d password (err (refused message)) = fail (refused message)

  unfoldable pub sign_in_with_email : Draw → String → String → M SignInResult
  sign_in_with_email d email password = do
    found ← try (get_by_email (t.normalize_email email))
    check_password d password found

  unfoldable pub update_preferences : Uuid → String → String → M User
  update_preferences id theme color = do
    refuse_if (not (theme == "system" || (theme == "light" || theme == "dark"))) "invalid theme"
    refuse_if (not (t.is_color color)) "gradientColor must be a #RRGGBB hex value"
    set_preferences id theme color

  unfoldable pub update_goals : Uuid → String → M User
  update_goals id goals = do
    refuse_if (ltb 4000 (t.size goals)) "goals text is too long"
    set_goals id goals

  unfoldable pub update_profile : Uuid → String → String → M User
  update_profile id name avatar = do
    refuse_if (ltb 80 (t.size name)) "name is too long"
    refuse_if (ltb 300000 (t.size avatar)) "avatar image is too large"
    refuse_if (not (avatar == "") && not (t.is_image avatar)) "avatar must be an image data URI"
    set_profile id (t.trim name) avatar

unfoldable pub update_base_currency : Uuid → String → M User
update_base_currency id currency = do
  refuse_if
      (not (
        currency == "UAH"
        || (currency == "USD" || (currency == "EUR" || (currency == "GBP" || currency == "PLN")))))
      "unsupported currency"
  set_base_currency id currency

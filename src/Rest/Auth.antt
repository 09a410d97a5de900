-- ===== src/Rest/Auth.antt =====
-- internal/rest/auth.go: signing up and in, the settings of an account, and the sessions of a browser.
use finance_engine.Prelude.{
  ℕ, String, Bool, true, false, Option, none, some, List, [], ◌∷◌, ◌==◌, string_eq, map, ◌/◌,
  if◌then◌else◌, pos, negsuc,
}
use finance_engine.Schema.{Uuid, Time, User, second}
use finance_engine.Store.{Result, Error, refused, no_rows, unavailable, constraint}
use finance_engine.Users.{get_by_id}
use finance_engine.Json.{user_to_json, session_to_json}
use finance_engine.Accounts
use finance_engine.Accounts.{
  Texts, SignInResult, sign_up_with_email, sign_in_with_email, sign_in_with_google,
  update_preferences, update_profile, update_goals, update_base_currency,
}
use finance_engine.Sessions
use finance_engine.Sessions.{Pair, issue, refresh, logout, list_active, revoke_for_user}
use finance_engine.Rest.{
  Request, Response, Handler, Config, Cookie, write_json, write_error, reply, required, call, ◌>>=◌,
  cookie_named, strip_prefix, access_cookie_name, refresh_cookie_name, or_empty, user, sessions,
  status_ok,
}

-- The bodies of the requests.
pub record EmailPasswordRequest : Type 0 where
  pub email : String
  pub password : String

pub record PreferencesRequest : Type 0 where
  pub theme : String
  pub gradient_color : String

pub record ProfileRequest : Type 0 where
  pub name : String
  pub avatar : String

abbrev pub invalid_body : Response
invalid_body = write_error 400 "invalid request body"

-- `errors.Is(err, sessionsvc.ErrInvalidRefreshToken)`
unfoldable pub is_invalid_refresh : Error → Bool
is_invalid_refresh no_rows = false
is_invalid_refresh unavailable = false
is_invalid_refresh constraint = false
is_invalid_refresh (refused message) = message == "invalid or expired refresh token"

module _ (cfg : Config) where
  abbrev pub is_some : {A : Type 0} → Option A → Bool
  is_some none = false
  is_some (some a) = true

  unfoldable pub secure_cookies : Bool
  secure_cookies = is_some (strip_prefix "https://" cfg.cors_origin)

  unfoldable pub set_cookies : Pair → List Cookie
  set_cookies pair =
      record {
        name = access_cookie_name;
        value = pair.access_token;
        path = "/";
        http_only = true;
        secure = secure_cookies;
        is_lax = true;
        max_age = pos (cfg.access_max_age / second);
      }
      ∷ record {
        name = refresh_cookie_name;
        value = pair.refresh_token;
        path = "/api/auth";
        http_only = true;
        secure = secure_cookies;
        is_lax = true;
        max_age = pos (cfg.refresh_max_age / second);
      }
      ∷ []

  abbrev cleared : String → String → Cookie
  cleared name path = record {
    name = name;
    value = "";
    path = path;
    http_only = false;
    secure = false;
    is_lax = false;
    max_age = negsuc 0;
  }

  unfoldable pub clear_cookies : List Cookie
  clear_cookies = cleared access_cookie_name "/" ∷ cleared refresh_cookie_name "/api/auth" ∷ []

  abbrev pub says : ℕ → Error → Response
  says status e = write_error status (cfg.message e)

  abbrev pub one_user : User → Response
  one_user u = write_json [] 200 (user (user_to_json cfg.formats u))

  -- me
  unfoldable pub me : Uuid → Handler
  me user_id = do
    u ← call (get_by_id user_id) (λ _. write_error 401 "not signed in")
    reply (one_user u)

  module _ (t : Texts) where
    unfoldable pub update_preferences_handler : Uuid → Option PreferencesRequest → Handler
    update_preferences_handler user_id body = do
      req ← required body invalid_body
      u ← call (update_preferences t user_id req.theme req.gradient_color) (says 400)
      reply (one_user u)

    unfoldable pub update_profile_handler : Uuid → Option ProfileRequest → Handler
    update_profile_handler user_id body = do
      req ← required body invalid_body
      u ← call (update_profile t user_id req.name req.avatar) (says 400)
      reply (one_user u)

    unfoldable pub update_goals_handler : Uuid → Option String → Handler
    update_goals_handler user_id body = do
      goals ← required body invalid_body
      u ← call (update_goals t user_id goals) (says 400)
      reply (one_user u)

  unfoldable pub update_currency_handler : Uuid → Option String → Handler
  update_currency_handler user_id body = do
    currency ← required body invalid_body
    u ← call (update_base_currency user_id currency) (says 400)
    reply (one_user u)

  module _ (s : Sessions.Service) where
    unfoldable pub issue_and_respond : Request → Sessions.Draw → SignInResult → Handler
    issue_and_respond r d result = do
      pair ←
          call (issue s result.user.id r.user_agent d)
            (λ _. write_error 500 "failed to create session")
      reply (write_json (set_cookies pair) 200 (user (user_to_json cfg.formats result.user)))

    module _ (t : Texts) where
      unfoldable pub signup :
          Request → Option EmailPasswordRequest → Accounts.Draw → Sessions.Draw → Handler
      signup r body account d = do
        req ← required body invalid_body
        result ← call (sign_up_with_email t account req.email req.password) (says 409)
        issue_and_respond r d result

      unfoldable pub login :
          Request → Option EmailPasswordRequest → Accounts.Draw → Sessions.Draw → Handler
      login r body account d = do
        req ← required body invalid_body
        result ← call (sign_in_with_email t account req.email req.password) (says 401)
        issue_and_respond r d result

    -- google, with what Google's verifier answers for the token of the body.
    unfoldable pub google :
        Request
        → Option String
        → (String → Result (String × String))
        → Accounts.Draw
        → Sessions.Draw
        → Handler
    google r body verified account d = do
      id_token ← required body invalid_body
      result ← call (sign_in_with_google account (verified id_token)) (says 401)
      issue_and_respond r d result

    abbrev pub refresh_error : Error → Response
    refresh_error e =
        if is_invalid_refresh e
        then record (write_error 401 "session expired, please log in again") {
          cookies = clear_cookies;
        }
        else write_error 500 "failed to refresh session"

    unfoldable pub refresh_handler : Request → Time → Time → Sessions.Draw → Handler
    refresh_handler r now revoked d = do
      raw ←
          required (cookie_named refresh_cookie_name r.cookies)
            (write_error 401 "missing refresh token")
      pair ← call (refresh s raw now revoked d) refresh_error
      reply (write_json (set_cookies pair) 200 status_ok)

    unfoldable pub list_sessions : Request → Uuid → Time → Handler
    list_sessions r user_id now = do
      active ←
          call (list_active s user_id (or_empty (cookie_named refresh_cookie_name r.cookies)) now)
            (λ _. write_error 500 "failed to load sessions")
      reply (write_json [] 200 (sessions (map (session_to_json cfg.formats) active)))

    unfoldable pub revoke_session : Uuid → String → Time → Handler
    revoke_session user_id path_id revoked = do
      session_id ← required (cfg.formats.parse_uuid path_id) (write_error 400 "invalid session id")
      done ← call (revoke_for_user s user_id session_id revoked) (says 404)
      reply (write_json [] 200 status_ok)

    -- `_ = h.sessions.Revoke(…)`, then the cookies are cleared in any case.
    unfoldable pub logout_handler : Request → Time → Handler
    logout_handler r revoked w = (
      write_json clear_cookies 200 status_ok,
      elim (cookie_named refresh_cookie_name r.cookies) [
        | some raw ↦ (logout s raw revoked w).1
        | none ↦ w
      ],
    )

-- ===== src/Rest/Entry.antt =====
-- internal/rest/auth.go: the cookies that a sign-in sets, and the requests that come back with them.
use finance_engine.Prelude.{
  ℕ, String, Bool, true, false, not, ◌&&◌, ◌||◌, Option, none, some, List, ◌==◌, if◌then◌else◌, ltb,
  ◌/◌, ℤ, pos, negsuc, arith, string_eq, nat_eq, ◌≡◌, ◌≢◌, refl, sym, ap, ◌∙◌, ◌<◌, ◌+◌, map,
}
use finance_engine.Schema.{Uuid, Time, second}
use finance_engine.Store.{World, ok, IsUp, from}
use finance_engine.Table.{exists, select}
use finance_engine.Users.{has_id}
use finance_engine.Formats.{IsReadable}
use finance_engine.Accounts.{SignInResult}
use finance_engine.Sessions
use finance_engine.Sessions.{Pair, access_of, has_hash, is_session, issue, create}
use finance_engine.Tokens.{generate, verify}
use finance_engine.Tokens.Laws.{IsFaithful, verify-generate}
use finance_engine.Rest.{
  Request, Handler, Config, Cookie, access_token, bearer_token, cookie_named, strip_prefix,
  with_auth, call, write_json,
}
use finance_engine.Rest.Auth.{issue_and_respond, set_cookies, secure_cookies}
use finance_engine.Rest.Guards.{with_auth-verified}

-- RFC 6265 on when a browser sends a cookie with a request: its path leads to that of the request, it is not too
-- old, where a MaxAge of 0 sets no limit and a negative one deletes it, and one that is secure goes over
-- HTTPS only.
abbrev pub is_found : Option String → Bool
is_found none = false
is_found (some rest) = true

abbrev is_below : Option String → Bool
is_below none = false
is_below (some rest) = rest == "" || is_found (strip_prefix "/" rest)

abbrev path_matches : String → String → Bool
path_matches path at =
    if path == "/" then is_found (strip_prefix "/" at) else is_below (strip_prefix path at)

abbrev is_kept : ℕ → ℤ → Bool
is_kept age (pos n) = n == 0 || ltb age n
is_kept age (negsuc n) = false

abbrev is_sent : String → ℕ → Bool → Cookie → Bool
is_sent at age https c =
    path_matches c.path at && (is_kept age c.max_age && (not c.secure || https))

-- The cookies that a browser that had none sends to a path some seconds after a reply.
abbrev pub jar : String → ℕ → Bool → List Cookie → List (String × String)
jar at age https cookies =
    map (λ (c : Cookie). (c.name, c.value)) (select (is_sent at age https) cookies)

-- The session service signs with the manager by which withAuth verifies, as main.go passes webAccessJWT to both.
pub record SharesManager (cfg : Config) (s : Sessions.Service) : Type 0 where
  pub library : s.library ≡ cfg.library
  pub formats : s.formats ≡ cfg.formats
  pub jwt : s.access_jwt ≡ cfg.jwt

-- Nothing fails when the session of a sign-in is stored, and its row collides with none.
pub record IsStorable (s : Sessions.Service) (i : Uuid) (d : Sessions.Draw) (p : Pair) (w : World)
    : Type 0 where
  pub up : IsUp w
  pub signed : access_of s i d ≡ ok p.access_token
  pub drawn : d.raw ≡ ok p.refresh_token
  pub known : exists (has_id i) w.db.users ≡ true
  pub new_id : exists (is_session d.id) w.db.sessions ≡ false
  pub new_hash : exists (has_hash (s.hash p.refresh_token)) w.db.sessions ≡ false

-- What issueAndRespond answers then.
issue_and_respond_lem :
    (cfg : Config) (s : Sessions.Service) (r : Request) (d : Sessions.Draw) (result : SignInResult)
    (p : Pair) (w : World)
    → IsStorable s result.user.id d p w
    → let out = (issue_and_respond cfg s r d result w).0 in
      (out.status ≡ 200) × (out.cookies ≡ set_cookies cfg p)
unfolding issue_and_respond call issue create from write_json
issue_and_respond_lem cfg s r d result p w f =
    rw (f.signed, f.drawn, f.up w.queries, f.new_id, f.new_hash, f.known) (refl, refl)

jar_token :
    (cfg : Config) (p : Pair) (r : Request) (at : String) (age : ℕ) (https : Bool)
    → path_matches "/" at ≡ true
    → ltb age (cfg.access_max_age / second) ≡ true
    → (not (secure_cookies cfg) || https) ≡ true
    → r.authorization ≡ ""
    → r.cookies ≡ jar at age https (set_cookies cfg p)
    → access_token r ≡ p.access_token
unfolding access_token bearer_token strip_prefix cookie_named set_cookies select
jar_token cfg p r at age https rooted young safe bare brought =
    let kept : is_kept age (pos (cfg.access_max_age / second)) ≡ true = ground arith in
    rw (bare, brought, rooted, kept, safe) refl

-- A sign-in ends in a reply of status 200 whose cookies admit the browser as the user who signed in: a later
-- request without an Authorization header, with the cookies that a browser sends of these to a path from the
-- root, is served by every handler behind withAuth as that user's, before the cookie's age is over and the
-- access token expires. The conditions: the session service signs with the manager by which withAuth verifies,
-- its token is not empty, the session can be stored, the JWT library reads back what it signs, ids are printed
-- readably, and the request goes over HTTPS if the cookies are secure.
pub sign_in_admits :
    (cfg : Config) (s : Sessions.Service) (r later_r : Request) (d : Sessions.Draw)
    (result : SignInResult) (p : Pair) (at : String) (age : ℕ) (https : Bool) (read : Time)
    (w w' : World) (next : Uuid → Handler)
    → SharesManager cfg s
    → IsFaithful cfg.library
    → IsReadable cfg.formats
    → IsStorable s result.user.id d p w
    → p.access_token ≢ ""
    → read < cfg.library.numeric_date (d.signed_at + cfg.jwt.duration)
    → path_matches "/" at ≡ true
    → ltb age (cfg.access_max_age / second) ≡ true
    → (not (secure_cookies cfg) || https) ≡ true
    → later_r.authorization ≡ ""
    → later_r.cookies ≡ jar at age https (issue_and_respond cfg s r d result w).0.cookies
    → ((issue_and_respond cfg s r d result w).0.status ≡ 200)
      × (with_auth cfg read later_r next w' ≡ next result.user.id w')
sign_in_admits cfg s r later_r d result p at age https read w w' next shared faithful readable f
      some_token alive rooted young safe bare brought =
    let (status, cookies) = issue_and_respond_lem cfg s r d result p w f in
    let token =
      jar_token cfg p later_r at age https rooted young safe bare
        (brought ∙ ap (jar at age https) cookies) in
    let made : generate cfg.library cfg.formats cfg.jwt result.user.id d.signed_at d.signed_later
        ≡ ok p.access_token =
      rw⁻¹ (shared.library, shared.formats, shared.jwt) f.signed in
    let valid =
      verify-generate cfg.library cfg.formats cfg.jwt result.user.id d.signed_at d.signed_later read
        p.access_token faithful readable made alive in
    (
      status,
      with_auth-verified cfg read later_r result.user.id next w'
          (λ blank. some_token (sym token ∙ blank))
          (ap (verify cfg.library cfg.formats cfg.jwt read) token ∙ valid),
    )

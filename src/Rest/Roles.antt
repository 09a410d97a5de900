-- ===== src/Rest/Roles.antt =====
-- internal/rest/middleware.go and admin.go over pkg/jwt and pkg/adminauth: the tokens of one kind at the routes of
-- the other.
use finance_engine.Prelude.{String, none, ◌≡◌, ap, ◌∙◌}
use finance_engine.Schema.{Uuid, Time}
use finance_engine.Store.{World, ok}
use finance_engine.Tokens.{generate, verify, generate_admin, verify_admin}
use finance_engine.Tokens.Laws.{IsFaithful, tokens_separate}
use finance_engine.Rest.{Request, Response, access_token, bearer_token}
use finance_engine.Rest.Panel.{admin_token_duration}
use finance_engine.Rest.Mux.{App, UserRoute, AdminRoute, serve_route, user, admin}
use finance_engine.Rest.Guards.{with_auth-refused, with_admin_auth-refused}

-- The answer 401, with the world as it was.
abbrev pub IsTurnedAway : World → Response × World → Type 0
IsTurnedAway w out = (out.0.status ≡ 401) × (out.1 ≡ w)

-- At any time, a request that presents a user's access token as its bearer token gets 401 at every route of the
-- operator, and a request that presents the operator's token gets 401 at every route behind withAuth; neither
-- changes anything. The tokens are those that Generate of pkg/jwt and of pkg/adminauth make under the one
-- secret, the JWT library reads a token as the claims that it signed or not at all, and the empty text is not
-- an id.
pub tokens_keep_apart :
    (app : App) (i : Uuid) (now later now' later' read : Time) (token admin_token : String)
    (r r' : Request) (route : AdminRoute) (route' : UserRoute) (w : World)
    → IsFaithful app.config.library
    → app.config.formats.parse_uuid "" ≡ none
    → generate app.config.library app.config.formats app.config.jwt i now later ≡ ok token
    → generate_admin app.config.library app.config.jwt.secret admin_token_duration now' later'
      ≡ ok admin_token
    → bearer_token r ≡ token
    → access_token r' ≡ admin_token
    → IsTurnedAway w (serve_route app read r (admin route) w)
      × IsTurnedAway w (serve_route app read r' (user route') w)
unfolding serve_route
tokens_keep_apart app i now later now' later' read token admin_token r r' route route' w faithful
      no_id made made' shown shown' =
    let lib = app.config.library in
    let (not_admin, _) =
      tokens_separate lib app.config.formats app.config.jwt i admin_token_duration now later now'
        later' read token admin_token faithful no_id made made' in
    let (_, not_user) =
      tokens_separate lib app.config.formats app.config.jwt i admin_token_duration now later now'
        later' read token admin_token faithful no_id made made' in
    (
      with_admin_auth-refused app.config read r _ w
          (ap (verify_admin lib app.config.jwt.secret read) shown ∙ not_admin),
      with_auth-refused app.config read r' _ w
          (ap (verify lib app.config.formats app.config.jwt read) shown' ∙ not_user),
    )

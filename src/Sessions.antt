-- ===== src/Sessions.antt =====
-- internal/service/session/session.go over internal/repository/session.go and
-- internal/db/queries/sessions.sql: the browser's refresh tokens. The readings of the clock, the random token,
-- the id of a new row and the clock of the database are arguments of each call.
pub mod Rotation
pub mod Ownership
pub mod Race
mod Tests
use finance_engine.Prelude.{
  ℕ, String, Bool, true, false, not, ◌&&◌, ◌||◌, Option, none, some, List, [], ◌∷◌, ◌==◌,
  if◌then◌else◌, string_eq, nat_eq, ltb, ◌+◌, ◌≡◌, ◌≢◌, map,
}
use finance_engine.Schema.{Uuid, Time, User, Session, Db}
use finance_engine.Store.{
  M, World, Result, ok, err, Error, refused, no_rows, unavailable, constraint, one, query, pure,
  fail, from, refuse_if, try, ◌>>=◌, ◌>>◌,
}
use finance_engine.Table.{first, exists, select, update, count}
use finance_engine.Users.{has_id}
use finance_engine.Formats.{Formats}
use finance_engine.Tokens.{Library, Manager, generate}

abbrev pub has_hash : String → Session → Bool
has_hash h s = s.refresh_hash == h

abbrev pub is_session : Uuid → Session → Bool
is_session i s = s.id == i

-- A row that `SessionRevokeForUser` may touch.
abbrev pub is_owned : Uuid → Uuid → Session → Bool
is_owned i user_id s = s.id == i && (s.user_id == user_id && s.revoked_at == 0)

-- `SET revoked_at = now()`
abbrev pub revoke : Time → Session → Session
revoke now s = record s { revoked_at = now }

-- SessionRepository.Create: the id and the hash are unique, and the user is known.
unfoldable pub create : Session → M Session
create row = query λ db.
    if exists (is_session row.id) db.sessions
      || (exists (has_hash row.refresh_hash) db.sessions
          || not (exists (has_id row.user_id) db.users))
    then (err constraint, db)
    else (ok row, record db { sessions = row ∷ db.sessions })

unfoldable pub get_by_refresh_hash : String → M Session
get_by_refresh_hash h = query λ db. (one (first (has_hash h) db.sessions), db)

unfoldable pub revoke_by_id : Uuid → Time → M (Unit {0})
revoke_by_id i now =
    query λ db. (ok tt, record db { sessions = update (is_session i) (revoke now) db.sessions })

unfoldable pub revoke_by_refresh_hash : String → Time → M (Unit {0})
revoke_by_refresh_hash h now =
    query λ db. (ok tt, record db { sessions = update (has_hash h) (revoke now) db.sessions })

-- SessionRepository.RevokeForUser: whether a row was there to revoke.
unfoldable pub revoke_owned : Uuid → Uuid → Time → M Bool
revoke_owned i user_id now = query λ db. (
  ok (exists (is_owned i user_id) db.sessions),
  record db { sessions = update (is_owned i user_id) (revoke now) db.sessions },
)

unfoldable pub list_active_for_user : Uuid → Time → M (List Session)
list_active_for_user user_id now = query λ db. (
  ok (
      select (λ s. s.user_id == user_id && (s.revoked_at == 0 && ltb now s.expires_at))
        db.sessions),
  db,
)

-- session.Service, with `sessiontoken.Hash`, and what its accessJWT signs and prints with.
pub record Service : Type 0 where
  pub hash : String → String
  pub library : Library
  pub formats : Formats
  pub access_jwt : Manager
  pub refresh_duration : ℕ

pub record Pair : Type 0 where
  pub access_token : String
  pub refresh_token : String

-- What a call of Issue draws from outside: the two readings of the clock that the access token carries, the
-- random token or its error, the clock, and the id and the time that the database gives the row.
pub record Draw : Type 0 where
  pub signed_at : Time
  pub signed_later : Time
  pub raw : Result String
  pub now : Time
  pub id : Uuid
  pub created_at : Time

pub record Active : Type 0 where
  pub id : Uuid
  pub user_agent : String
  pub created_at : Time
  pub expires_at : Time
  pub current : Bool

-- A call of the service by anybody.
pub data Call : Type 0 where
  issues : Uuid → String → Draw → Call
  refreshes : String → Time → Time → Draw → Call
  logs_out : String → Time → Call
  revokes : Uuid → Uuid → Time → Call

module _ (s : Service) where
  abbrev pub session_of : Uuid → String → String → Draw → Session
  session_of user_id user_agent raw d = record {
    id = d.id;
    user_id = user_id;
    refresh_hash = s.hash raw;
    created_at = d.created_at;
    expires_at = d.now + s.refresh_duration;
    revoked_at = 0;
    user_agent = user_agent;
  }

  -- `s.accessJWT.Generate(userID)`
  abbrev pub access_of : Uuid → Draw → Result String
  access_of user_id d = generate s.library s.formats s.access_jwt user_id d.signed_at d.signed_later

  unfoldable pub issue : Uuid → String → Draw → M Pair
  issue user_id user_agent d = do
    access ← from (access_of user_id d)
    raw ← from d.raw
    create (session_of user_id user_agent raw d)
    pure (record { access_token = access; refresh_token = raw })

  -- Refresh once the lookup has answered; `now` is the clock's reading, `revoked` the database's.
  unfoldable pub rotate : Time → Time → Draw → Result Session → M Pair
  rotate now revoked d (err no_rows) = fail (refused "invalid or expired refresh token")
  rotate now revoked d (err unavailable) = fail unavailable
  rotate now revoked d (err constraint) = fail constraint
  rotate now revoked d (err (refused message)) = fail (refused message)
  rotate now revoked d (ok sess) = do
    refuse_if (not (sess.revoked_at == 0) || ltb sess.expires_at now)
        "invalid or expired refresh token"
    revoke_by_id sess.id revoked
    issue sess.user_id sess.user_agent d

  unfoldable pub refresh : String → Time → Time → Draw → M Pair
  refresh raw now revoked d = do
    found ← try (get_by_refresh_hash (s.hash raw))
    rotate now revoked d found

  unfoldable pub logout : String → Time → M (Unit {0})
  logout raw revoked = revoke_by_refresh_hash (s.hash raw) revoked

  abbrev pub active_of : String → Session → Active
  active_of current_hash sess = record {
    id = sess.id;
    user_agent = sess.user_agent;
    created_at = sess.created_at;
    expires_at = sess.expires_at;
    current = not (current_hash == "") && sess.refresh_hash == current_hash;
  }

  unfoldable pub list_active : Uuid → String → Time → M (List Active)
  list_active user_id raw now = do
    sessions ← list_active_for_user user_id now
    pure (map (active_of (if raw == "" then "" else s.hash raw)) sessions)

  unfoldable pub revoke_for_user : Uuid → Uuid → Time → M (Unit {0})
  revoke_for_user user_id session_id revoked = do
    found ← revoke_owned session_id user_id revoked
    refuse_if (not found) "session not found"

  unfoldable pub step : World → Call → World
  step w (issues user_id user_agent d) = (issue user_id user_agent d w).1
  step w (refreshes raw now revoked d) = (refresh raw now revoked d w).1
  step w (logs_out raw revoked) = (logout raw revoked w).1
  step w (revokes user_id session_id revoked) = (revoke_for_user user_id session_id revoked w).1

  unfoldable pub run : World → List Call → World
  unfolding step
  run w [] = w
  run w (c ∷ cs) = run (step w c) cs

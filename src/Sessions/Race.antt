-- ===== src/Sessions/Race.antt =====
-- internal/service/session/session.go: two requests that refresh by one token at the same time. Refresh reads
-- the session in one query and revokes it in another, so both may have read it before either revokes it.
use finance_engine.Prelude.{String, true, false, string_eq, nat_eq, ltb, ◌≡◌, refl, ap, ◌∙◌, suc}
use finance_engine.Schema.{Time, Session}
use finance_engine.Store.{World, Result, ok, IsUp, from, refuse_if}
use finance_engine.Table.{exists}
use finance_engine.Table.Laws.{exists-update}
use finance_engine.Users.{has_id}
use finance_engine.Sessions.{
  Service, access_of, Pair, Draw, has_hash, is_session, revoke, create, get_by_refresh_hash,
  revoke_by_id, issue, rotate,
}

-- What a request draws, at a world where its new row collides with none.
pub record IsFresh (s : Service) (sess : Session) (d : Draw) (p : Pair) (v : World) : Type 0 where
  pub up : IsUp v
  pub signed : access_of s sess.user_id d ≡ ok p.access_token
  pub drawn : d.raw ≡ ok p.refresh_token
  pub known : exists (has_id sess.user_id) v.db.users ≡ true
  pub new_id : exists (is_session d.id) v.db.sessions ≡ false
  pub new_hash : exists (has_hash (s.hash p.refresh_token)) v.db.sessions ≡ false

-- The rest of Refresh, for a session that was live when it was read, whatever has become of it.
rotate_live :
    (s : Service) (now revoked : Time) (d : Draw) (p : Pair) (sess : Session) (v : World)
    → sess.revoked_at ≡ 0
    → ltb sess.expires_at now ≡ false
    → IsFresh s sess d p v
    → (rotate s now revoked d (ok sess) v).0 ≡ ok p
unfolding rotate refuse_if revoke_by_id issue create from
rotate_live s now revoked d p sess v live early f =
    let new_id =
      exists-update (is_session d.id) (is_session sess.id) (revoke revoked) v.db.sessions
        (λ _. refl)
      ∙ f.new_id in
    let new_hash =
      exists-update (has_hash (s.hash p.refresh_token)) (is_session sess.id) (revoke revoked)
        v.db.sessions (λ _. refl)
      ∙ f.new_hash in
    rw (
      live,
      early,
      f.up v.queries,
      f.signed,
      f.drawn,
      f.up (suc v.queries),
      new_id,
      new_hash,
      f.known,
    )

-- The same of what the lookup answered.
rotate_found :
    (s : Service) (now revoked : Time) (d : Draw) (p : Pair) (sess : Session)
    (found : Result Session) (v : World)
    → found ≡ ok sess
    → sess.revoked_at ≡ 0
    → ltb sess.expires_at now ≡ false
    → IsFresh s sess d p v
    → (rotate s now revoked d found v).0 ≡ ok p
rotate_found s now revoked d p sess found v read live early f =
    ap (λ r. (rotate s now revoked d r v).0) read
    ∙ rotate_live s now revoked d p sess v live early f

-- Two requests have both read the session of one refresh token, live and not expired, before either revokes
-- it: then both get a pair of tokens, one after the other, if the database answers, the tokens can be made,
-- and each new row's id and hash are new where it is stored.
pub rotate_twice :
    (s : Service) (raw : String) (sess : Session) (now revoked now' revoked' : Time) (d d' : Draw)
    (p p' : Pair) (w : World)
    → (get_by_refresh_hash (s.hash raw) w).0 ≡ ok sess
    → sess.revoked_at ≡ 0
    → ltb sess.expires_at now ≡ false
    → ltb sess.expires_at now' ≡ false
    → IsFresh s sess d p w
    → IsFresh s sess d' p' (rotate s now revoked d (get_by_refresh_hash (s.hash raw) w).0 w).1
    → let found = (get_by_refresh_hash (s.hash raw) w).0 in
      ((rotate s now revoked d found w).0 ≡ ok p)
      × ((rotate s now' revoked' d' found (rotate s now revoked d found w).1).0 ≡ ok p')
rotate_twice s raw sess now revoked now' revoked' d d' p p' w read live early early' f f' = (
  rotate_found s now revoked d p sess _ w read live early f,
  rotate_found s now' revoked' d' p' sess _ _ read live early' f',
)

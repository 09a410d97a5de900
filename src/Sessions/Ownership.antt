-- ===== src/Sessions/Ownership.antt =====
-- internal/service/session/session.go: which sessions RevokeForUser touches, and the first use of a token.
use finance_engine.Prelude.{
  String, true, false, not, ◌||◌, some, List, [], ◌∷◌, ◌==◌, string_eq, nat_eq, ltb, if◌then◌else◌,
  ◌≡◌, refl, ◌∙◌, arith, Bool-cases, inl, inr, ==-refl, suc, ◌+◌,
}
use finance_engine.Schema.{Uuid, Time, Session}
use finance_engine.Store.{World, ok, err, refused, unavailable, IsUp, from, refuse_if}
use finance_engine.Table.{first, exists, update, delete}
use finance_engine.Table.Laws.{exists-update}
use finance_engine.Users.{has_id}
use finance_engine.Sessions.{
  access_of, Service, Pair, Draw, has_hash, is_session, is_owned, revoke, create,
  get_by_refresh_hash, revoke_by_id, revoke_owned, session_of, issue, rotate, refresh,
  revoke_for_user,
}

others-update :
    (i u : Uuid) (now : Time) (xs : List Session)
    → delete (λ x. x.user_id == u) (update (is_owned i u) (revoke now) xs)
      ≡ delete (λ x. x.user_id == u) xs
unfolding delete update
others-update i u now [] = refl
others-update i u now (x ∷ xs) = ground (arith, others-update i u now xs)

module _ (s : Service) where
  -- RevokeForUser leaves every session of other users as it was, and answers that the session was not
  -- found unless it is one of this user that is not revoked, or that the database is down.
  pub revoke_for_user_owned :
      (user_id session_id : Uuid) (revoked : Time) (w : World)
      → let out = revoke_for_user s user_id session_id revoked w in
        (delete (λ x. x.user_id == user_id) out.1.db.sessions
          ≡ delete (λ x. x.user_id == user_id) w.db.sessions)
        × (out.0 ≡ (
            if w.down w.queries
            then err unavailable
            else if exists (is_owned session_id user_id) w.db.sessions
            then ok tt
            else err (refused "session not found")))
  unfolding revoke_for_user revoke_owned refuse_if
  revoke_for_user_owned u i revoked w = elim (Bool-cases (w.down w.queries)) [
    | inl failed ↦ rw failed (refl, refl)
    | inr up ↦ elim (Bool-cases (exists (is_owned i u) w.db.sessions)) [
      | inl there ↦ rw (up, there) (others-update i u revoked w.db.sessions, refl)
      | inr missing ↦ rw (up, missing) (others-update i u revoked w.db.sessions, refl)
    ]
  ]

-- Refresh of a live session, when nothing fails.
refresh_live :
    (s : Service) (raw : String) (now revoked : Time) (d : Draw) (v : World) (sess : Session)
    (access raw' : String)
    → IsUp v
    → first (has_hash (s.hash raw)) v.db.sessions ≡ some sess
    → sess.revoked_at ≡ 0
    → ltb sess.expires_at now ≡ false
    → access_of s sess.user_id d ≡ ok access
    → d.raw ≡ ok raw'
    → exists (has_id sess.user_id) v.db.users ≡ true
    → exists (is_session d.id) v.db.sessions ≡ false
    → exists (has_hash (s.hash raw')) v.db.sessions ≡ false
    → (refresh s raw now revoked d v).0
      ≡ ok (record { access_token = access; refresh_token = raw' })
unfolding refresh rotate get_by_refresh_hash refuse_if revoke_by_id issue create from
refresh_live s raw now revoked d v sess access raw' up found live early signed drawn known free
      fresh =
    let free' =
      exists-update (is_session d.id) (is_session sess.id) (revoke revoked) v.db.sessions
        (λ _. refl)
      ∙ free in
    let fresh' =
      exists-update (has_hash (s.hash raw')) (is_session sess.id) (revoke revoked) v.db.sessions
        (λ _. refl)
      ∙ fresh in
    rw (
      up v.queries,
      found,
      live,
      early,
      up (suc v.queries),
      signed,
      drawn,
      up (suc (suc v.queries)),
      free',
      fresh',
      known,
    )

module _ (s : Service) (user_id : Uuid) (agent : String) (d : Draw) (w : World) (raw : String) where
  abbrev issued : Session
  issued = session_of s user_id agent raw d

  -- The world after Issue has stored its session.
  abbrev stored : World
  stored = record w {
    db = record (w.db) { sessions = issued ∷ w.db.sessions };
    queries = suc w.queries;
  }

  issue-stored :
      (access : String) (p : Pair)
      → access_of s user_id d ≡ ok access
      → d.raw ≡ ok raw
      → (issue s user_id agent d w).0 ≡ ok p
      → (p.refresh_token ≡ raw)
        × (exists (has_id user_id) w.db.users ≡ true)
        × ((issue s user_id agent d w).1 ≡ stored)
  unfolding issue create from
  issue-stored access p signed drawn h =
      let h' = rw (signed, drawn, issue, create, from) at h in
      rw (signed, drawn)
        (elim (Bool-cases (w.down w.queries)) [
          | inl failed ↦ absurd (cc (rw failed at h'))
          | inr up ↦
              elim (Bool-cases (
                exists (is_session d.id) w.db.sessions
                || (exists (has_hash (s.hash raw)) w.db.sessions
                    || not (exists (has_id user_id) w.db.users)))) [
                      | inl clash ↦ absurd (cc (rw (up, clash) at h'))
                      | inr free ↦ rw (up, free) (ground arith, ground arith, refl)
                    ]
        ])

  -- A refresh token that Issue has just given works until it expires: Refresh gives the next pair, if the
  -- database answers, the next tokens can be made, and the next row's id and hash are new.
  pub refresh-issue :
      (access : String) (p : Pair) (now revoked : Time) (next : Draw) (access' raw' : String)
      → IsUp w
      → access_of s user_id d ≡ ok access
      → d.raw ≡ ok raw
      → (issue s user_id agent d w).0 ≡ ok p
      → ltb (d.now + s.refresh_duration) now ≡ false
      → access_of s user_id next ≡ ok access'
      → next.raw ≡ ok raw'
      → exists (is_session next.id) stored.db.sessions ≡ false
      → exists (has_hash (s.hash raw')) stored.db.sessions ≡ false
      → (refresh s p.refresh_token now revoked next (issue s user_id agent d w).1).0
        ≡ ok (record { access_token = access'; refresh_token = raw' })
  unfolding first
  refresh-issue access p now revoked next access' raw' up signed drawn h early signed' drawn' free
        fresh =
      let (token, known, after) = issue-stored access p signed drawn h in
      let found : first (has_hash (s.hash raw)) stored.db.sessions ≡ some issued =
        rw (==-refl (s.hash raw)) in
      rw (after, token)
        (refresh_live s raw now revoked next stored issued access' raw' up found refl early signed'
          drawn' known free fresh)

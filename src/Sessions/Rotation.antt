-- ===== src/Sessions/Rotation.antt =====
-- internal/service/session/session.go: refresh tokens after their use and after a logout.
use finance_engine.Prelude.{
  ℕ, String, Bool, true, not, ◌||◌, some, List, [], ◌∷◌, ◌==◌, string_eq, nat_eq, ltb,
  if◌then◌else◌, ◌≡◌, ◌≢◌, refl, ap, ◌∙◌, arith, Bool-cases, Option-cases, inl, inr, All,
  nat_beq_iff, ==-refl, eq_iff, suc,
}
use mathlib.Core.Option
use finance_engine.Schema.{Uuid, Time, Session}
use finance_engine.Store.{
  World, Result, ok, err, refused, no_rows, unavailable, constraint, refuse_if,
}
use finance_engine.Store.Rules.{>>=-after, from-after, refuse_if-after}
use finance_engine.Table.{first, exists, update}
use finance_engine.Table.Laws.{first-update, first-holds, exists_of_first}
use finance_engine.Sessions.{
  Service, access_of, Pair, Draw, Call, issues, refreshes, logs_out, revokes, has_hash, is_session,
  is_owned, revoke, create, get_by_refresh_hash, revoke_by_id, revoke_by_refresh_hash, revoke_owned,
  session_of, issue, rotate, refresh, logout, revoke_for_user, step, run,
}

-- A session with the hash exists and is revoked.
pub record Spent (h : String) (w : World) : Type 0 where
  pub row : Session
  pub there : first (has_hash h) w.db.sessions ≡ some row
  pub dead : row.revoked_at ≢ 0

-- The clock of the database has a reading after the year 1 where the call takes one.
abbrev pub IsStamped : Call → Type 0
IsStamped (issues user_id user_agent d) = Unit
IsStamped (refreshes raw now revoked d) = revoked ≢ 0
IsStamped (logs_out raw revoked) = revoked ≢ 0
IsStamped (revokes user_id session_id revoked) = revoked ≢ 0

module _ (h : String) where
  revoked-Spent :
      (p : Session → Bool) (now : Time) (w : World) (n : ℕ)
      → now ≢ 0
      → Spent h w
      → Spent h (record w {
        db = record (w.db) { sessions = update p (revoke now) w.db.sessions };
        queries = n;
      })
  revoked-Spent p now w n stamped v =
      let found =
        first-update (has_hash h) p (revoke now) w.db.sessions (λ _. refl)
        ∙ ap (Option.map (λ x. if p x then revoke now x else x)) v.there in
      elim (Bool-cases (p v.row)) [
        | inl hit ↦ record { row = revoke now v.row; there = rw found (rw hit); dead = stamped }
        | inr miss ↦ record { row = v.row; there = rw found (rw miss); dead = v.dead }
      ]

  create-Spent : (row : Session) (w : World) → Spent h w → Spent h (create row w).1
  unfolding create first
  create-Spent row w v = elim (Bool-cases (row.refresh_hash == h)) [
    | inl mine ↦
        let e = (eq_iff row.refresh_hash h).0 mine in
        let known : exists (has_hash row.refresh_hash) w.db.sessions ≡ true =
          rw e (exists_of_first (has_hash h) w.db.sessions v.there) in
        record { row = v.row; there = ground (arith, v.there); dead = v.dead }
    | inr other ↦ record { row = v.row; there = ground (arith, v.there); dead = v.dead }
  ]

  get_by_refresh_hash-Spent :
      (g : String) (w : World) → Spent h w → Spent h (get_by_refresh_hash g w).1
  unfolding get_by_refresh_hash
  get_by_refresh_hash-Spent g w v = record {
    row = v.row;
    there = ground (arith, v.there);
    dead = v.dead;
  }

  revoke_by_id-Spent :
      (i : Uuid) (now : Time) (w : World) → now ≢ 0 → Spent h w → Spent h (revoke_by_id i now w).1
  unfolding revoke_by_id
  revoke_by_id-Spent i now w stamped v = elim (Bool-cases (w.down w.queries)) [
    | inl failed ↦ rw failed (record { row = v.row; there = v.there; dead = v.dead })
    | inr up ↦ rw up (revoked-Spent (is_session i) now w (suc w.queries) stamped v)
  ]

  revoke_by_refresh_hash-Spent :
      (g : String) (now : Time) (w : World)
      → now ≢ 0
      → Spent h w
      → Spent h (revoke_by_refresh_hash g now w).1
  unfolding revoke_by_refresh_hash
  revoke_by_refresh_hash-Spent g now w stamped v = elim (Bool-cases (w.down w.queries)) [
    | inl failed ↦ rw failed (record { row = v.row; there = v.there; dead = v.dead })
    | inr up ↦ rw up (revoked-Spent (has_hash g) now w (suc w.queries) stamped v)
  ]

  revoke_owned-Spent :
      (i u : Uuid) (now : Time) (w : World)
      → now ≢ 0
      → Spent h w
      → Spent h (revoke_owned i u now w).1
  unfolding revoke_owned
  revoke_owned-Spent i u now w stamped v = elim (Bool-cases (w.down w.queries)) [
    | inl failed ↦ rw failed (record { row = v.row; there = v.there; dead = v.dead })
    | inr up ↦ rw up (revoked-Spent (is_owned i u) now w (suc w.queries) stamped v)
  ]

  module _ (s : Service) where
    issue-Spent :
        (u : Uuid) (agent : String) (d : Draw) (w : World)
        → Spent h w
        → Spent h (issue s u agent d w).1
    unfolding issue
    issue-Spent u agent d w v = from-after (Spent h) (access_of s u d) _ w v λ access _.
        from-after (Spent h) d.raw _ w v λ raw _.
          let stored = create-Spent (session_of s u agent raw d) w v in
          >>=-after (Spent h) (create (session_of s u agent raw d)) _ w stored (λ _ _. stored)

    rotate-Spent :
        (now revoked : Time) (d : Draw) (r : Result Session) (w : World)
        → revoked ≢ 0
        → Spent h w
        → Spent h (rotate s now revoked d r w).1
    unfolding rotate
    rotate-Spent now revoked d (err no_rows) w stamped v = v
    rotate-Spent now revoked d (err unavailable) w stamped v = v
    rotate-Spent now revoked d (err constraint) w stamped v = v
    rotate-Spent now revoked d (err (refused message)) w stamped v = v
    rotate-Spent now revoked d (ok sess) w stamped v = refuse_if-after (Spent h) _ _ _ w v λ _.
        let out = revoke_by_id-Spent sess.id revoked w stamped v in
        >>=-after (Spent h) (revoke_by_id sess.id revoked) _ w out
          λ _ _. issue-Spent sess.user_id sess.user_agent d (revoke_by_id sess.id revoked w).1 out

    refresh-Spent :
        (raw : String) (now revoked : Time) (d : Draw) (w : World)
        → revoked ≢ 0
        → Spent h w
        → Spent h (refresh s raw now revoked d w).1
    unfolding refresh
    refresh-Spent raw now revoked d w stamped v =
        rotate-Spent now revoked d (get_by_refresh_hash (s.hash raw) w).0 _ stamped
          (get_by_refresh_hash-Spent (s.hash raw) w v)

    step-Spent : (w : World) (c : Call) → IsStamped c → Spent h w → Spent h (step s w c)
    unfolding step logout revoke_for_user refuse_if
    step-Spent w (issues u agent d) stamped v = issue-Spent u agent d w v
    step-Spent w (refreshes raw now revoked d) stamped v =
        refresh-Spent raw now revoked d w stamped v
    step-Spent w (logs_out raw revoked) stamped v =
        revoke_by_refresh_hash-Spent (s.hash raw) revoked w stamped v
    step-Spent w (revokes u i revoked) stamped v =
        let out = revoke_owned-Spent i u revoked w stamped v in
        >>=-after (Spent h) (revoke_owned i u revoked) _ w out (λ _ _. out)

    run-Spent : (w : World) (cs : List Call) → All IsStamped cs → Spent h w → Spent h (run s w cs)
    unfolding run
    run-Spent w [] stamped v = v
    run-Spent w (c ∷ cs) stamped v =
        run-Spent (step s w c) cs stamped.1 (step-Spent w c stamped.0 v)

module _ (s : Service) where
  rotate-spends :
      (h : String) (now revoked : Time) (d : Draw) (sess : Session) (w : World) (p : Pair)
      → first (has_hash h) w.db.sessions ≡ some sess
      → revoked ≢ 0
      → (rotate s now revoked d (ok sess) w).0 ≡ ok p
      → Spent h (rotate s now revoked d (ok sess) w).1
  unfolding rotate refuse_if revoke_by_id
  rotate-spends h now revoked d sess w p found stamped done =
      elim (Bool-cases (not (sess.revoked_at == 0) || ltb sess.expires_at now)) [
        | inl bad ↦ absurd (cc (rw (bad, rotate, refuse_if) at done))
        | inr good ↦ elim (Bool-cases (w.down w.queries)) [
          | inl failed ↦ absurd (cc (rw (good, failed, rotate, refuse_if, revoke_by_id) at done))
          | inr up ↦
              let there =
                first-update (has_hash h) (is_session sess.id) (revoke revoked) w.db.sessions
                  (λ _. refl)
                ∙ ap (Option.map (λ x. if is_session sess.id x then revoke revoked x else x))
                    found in
              rw (good, up)
                (issue-Spent h s sess.user_id sess.user_agent d _ (record {
                  row = revoke revoked sess;
                  there = rw there (rw (==-refl sess.id));
                  dead = stamped;
                }))
        ]
      ]

  refresh-spends :
      (raw : String) (now revoked : Time) (d : Draw) (w : World) (p : Pair)
      → revoked ≢ 0
      → (refresh s raw now revoked d w).0 ≡ ok p
      → Spent (s.hash raw) (refresh s raw now revoked d w).1
  unfolding refresh rotate get_by_refresh_hash
  refresh-spends raw now revoked d w p stamped done = elim (Bool-cases (w.down w.queries)) [
    | inl failed ↦ absurd (cc (rw (failed, refresh, get_by_refresh_hash, rotate) at done))
    | inr up ↦ elim (Option-cases (first (has_hash (s.hash raw)) w.db.sessions)) [
      | inl missing ↦ absurd (cc (rw (up, missing, refresh, get_by_refresh_hash, rotate) at done))
      | inr (sess, found) ↦
          rw (up, found)
            (rotate-spends (s.hash raw) now revoked d sess (record w { queries = suc w.queries }) p
              found stamped (rw (up, found, refresh, get_by_refresh_hash) at done))
    ]
  ]

  refresh-refused :
      (raw : String) (now revoked : Time) (d : Draw) (w : World) (p : Pair)
      → Spent (s.hash raw) w
      → (refresh s raw now revoked d w).0 ≢ ok p
  unfolding refresh rotate get_by_refresh_hash refuse_if
  refresh-refused raw now revoked d w p v done =
      ground (arith, v.there, v.dead, nat_beq_iff v.row.revoked_at 0)

  logout-spends :
      (raw : String) (revoked : Time) (w : World) (row : Session)
      → revoked ≢ 0
      → first (has_hash (s.hash raw)) w.db.sessions ≡ some row
      → (logout s raw revoked w).0 ≡ ok tt
      → Spent (s.hash raw) (logout s raw revoked w).1
  unfolding logout revoke_by_refresh_hash
  logout-spends raw revoked w row stamped found done = elim (Bool-cases (w.down w.queries)) [
    | inl failed ↦ absurd (cc (rw (failed, logout, revoke_by_refresh_hash) at done))
    | inr up ↦
        let there =
          first-update (has_hash (s.hash raw)) (has_hash (s.hash raw)) (revoke revoked)
            w.db.sessions (λ _. refl)
          ∙ ap (Option.map (λ x. if has_hash (s.hash raw) x then revoke revoked x else x)) found in
        rw up (record {
          row = revoke revoked row;
          there = rw there (rw (first-holds (has_hash (s.hash raw)) w.db.sessions found));
          dead = stamped;
        })
  ]

  -- Once Refresh has given a new pair for a refresh token, Refresh never gives one for this token again,
  -- after any history of calls of the session service by anybody, with any failures on the way, if the
  -- database's clock reads a time after the year 1.
  pub refresh_once :
      (raw : String) (now revoked : Time) (d : Draw) (w : World) (p : Pair) (cs : List Call)
      (now' revoked' : Time) (d' : Draw) (p' : Pair)
      → revoked ≢ 0
      → All IsStamped cs
      → (refresh s raw now revoked d w).0 ≡ ok p
      → (refresh s raw now' revoked' d' (run s (refresh s raw now revoked d w).1 cs)).0 ≢ ok p'
  refresh_once raw now revoked d w p cs now' revoked' d' p' stamped all done =
      refresh-refused raw now' revoked' d' _ p'
        (run-Spent (s.hash raw) s _ cs all (refresh-spends raw now revoked d w p stamped done))

  -- Once Revoke has logged out a refresh token that has a session, Refresh never gives a pair for this
  -- token again, after any history of calls of the session service by anybody, with any failures on the
  -- way, if the database's clock reads a time after the year 1.
  pub logout_once :
      (raw : String) (revoked : Time) (w : World) (row : Session) (cs : List Call)
      (now' revoked' : Time) (d' : Draw) (p' : Pair)
      → revoked ≢ 0
      → All IsStamped cs
      → first (has_hash (s.hash raw)) w.db.sessions ≡ some row
      → (logout s raw revoked w).0 ≡ ok tt
      → (refresh s raw now' revoked' d' (run s (logout s raw revoked w).1 cs)).0 ≢ ok p'
  logout_once raw revoked w row cs now' revoked' d' p' stamped all found done =
      refresh-refused raw now' revoked' d' _ p'
        (run-Spent (s.hash raw) s _ cs all (logout-spends raw revoked w row stamped found done))

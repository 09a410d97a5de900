-- ===== src/Admin/Trend.antt =====
-- internal/service/admin/admin.go: Stats over the database, with the signups by day of
-- internal/repository/user.go and internal/db/queries/users.sql. A day is one of UTC.
use finance_engine.Prelude.{ℕ, zero, suc, List, [], ◌∷◌, ◌==◌, nat_eq, ◌-◌, ◌*◌, ◌/◌}
use finance_engine.Schema.{Time, User, day}
use finance_engine.Store.{M, ok, query, pure, ◌>>=◌}
use finance_engine.Table.{count}
use finance_engine.Admin.Stats.{Stats, count_by_plan, tally_all, no_stats}

pub record DaySignups : Type 0 where
  pub day : Time
  pub signups : ℕ

-- The date of a time: its midnight.
abbrev pub date_of : Time → Time
date_of t = t / day * day

-- A row of the query: how many users signed up on the day of a time.
unfoldable pub signups_on : List User → Time → DaySignups
signups_on users t = record {
  day = date_of t;
  signups = count (λ (u : User). date_of u.created_at == date_of t) users;
}

-- The rows for so many days before a time, and for its own day.
unfoldable pub signups_since : List User → Time → ℕ → List DaySignups
signups_since users now zero = signups_on users now ∷ []
signups_since users now (suc days) =
    signups_on users (now - suc days * day) ∷ signups_since users now days

-- UserRepository.SignupsByDay, at PostgreSQL's now().
unfoldable pub signups_by_day : ℕ → Time → M (List DaySignups)
signups_by_day days now = query λ db. (ok (signups_since db.users now days), db)

-- signupTrendDays
abbrev pub signup_trend_days : ℕ
signup_trend_days = 30

-- Stats, and the trend beside them.
unfoldable pub load_stats : Time → M (Stats × List DaySignups)
load_stats now = do
  counts ← query λ db. (ok (count_by_plan db.users), db)
  signups ← signups_by_day signup_trend_days now
  pure (tally_all no_stats counts, signups)

-- ===== src/Admin/Stats/Laws.antt =====
-- internal/service/admin/admin.go: the figures of the statistics and the counts over the users.
use finance_engine.Prelude.{
  ℕ, String, Bool, true, false, ◌&&◌, List, [], ◌∷◌, ◌==◌, if◌then◌else◌, string_eq, ◌+◌, ◌*◌, ◌≡◌,
  refl, arith, length, eq_iff, ◌∙◌,
}
use finance_engine.Schema.{User}
use finance_engine.Table.{count}
use finance_engine.Plan
use finance_engine.Admin.Stats.{
  PlanCount, Stats, bump, count_by_plan, add_at, value_at, stats_price, tally, tally_all, no_stats,
  stats,
}

-- A sum over the rows of a weight that depends on the group alone.
abbrev weigh : (String → String → ℕ) → List PlanCount → ℕ
weigh g [] = 0
weigh g (c ∷ cs) = c.user_count * g c.plan c.subscription_status + weigh g cs

abbrev weigh_users : (String → String → ℕ) → List User → ℕ
weigh_users g [] = 0
weigh_users g (u ∷ us) = g u.plan u.subscription_status + weigh_users g us

weigh-bump :
    (g : String → String → ℕ) (p s : String) (cs : List PlanCount)
    → weigh g (bump p s cs) ≡ g p s + weigh g cs
unfolding bump
weigh-bump g p s [] = omega arith
weigh-bump g p s (c ∷ cs) =
    ground (arith, eq_iff c.plan p, eq_iff c.subscription_status s, weigh-bump g p s cs)

weigh-count_by_plan :
    (g : String → String → ℕ) (us : List User) → weigh g (count_by_plan us) ≡ weigh_users g us
unfolding count_by_plan
weigh-count_by_plan g [] = refl
weigh-count_by_plan g (u ∷ us) =
    weigh-bump g u.plan u.subscription_status (count_by_plan us)
    ∙ omega (arith, weigh-count_by_plan g us)

value_at-add_at :
    (k j : String) (n : ℕ) (m : List (String × ℕ))
    → value_at k (add_at j n m) ≡ value_at k m + (if j == k then n else 0)
unfolding value_at add_at
value_at-add_at k j n [] = ground arith
value_at-add_at k j n ((i, v) ∷ m) =
    ground (arith, eq_iff i j, eq_iff i k, eq_iff j k, value_at-add_at k j n m)

abbrev one_each : String → String → ℕ
one_each p s = 1

abbrev in_plan : String → String → String → ℕ
in_plan k p s = if p == k then 1 else 0

abbrev on_trial : String → String → ℕ
on_trial p s = if s == "trialing" then 1 else 0

abbrev revenue : String → String → ℕ
revenue p s = if s == "active" then stats_price p else 0

-- Each figure grows by the sum of its weights.
abbrev Adds : Stats → List PlanCount → Stats → Type 0
Adds s cs t =
    (t.total_users ≡ s.total_users + weigh one_each cs)
    × ((k : String) → value_at k t.by_plan ≡ value_at k s.by_plan + weigh (in_plan k) cs)
    × (t.active_mrr ≡ s.active_mrr + weigh revenue cs)
    × (t.trial_count ≡ s.trial_count + weigh on_trial cs)

tally_all-Adds : (s : Stats) (cs : List PlanCount) → Adds s cs (tally_all s cs)
unfolding tally_all tally
tally_all-Adds s [] = (omega arith, λ k. omega arith, omega arith, omega arith)
tally_all-Adds s (c ∷ cs) =
    let rest = tally_all-Adds (tally s c) cs in
    (
      ground (arith, rest.0),
      λ k. ground (arith, rest.1 k, value_at-add_at k c.plan c.user_count s.by_plan),
      ground (arith, rest.2),
      ground (arith, rest.3),
    )

weigh_users-one_each : (us : List User) → weigh_users one_each us ≡ length us
weigh_users-one_each [] = refl
weigh_users-one_each (u ∷ us) = omega (arith, weigh_users-one_each us)

weigh_users-in_plan :
    (k : String) (us : List User) → weigh_users (in_plan k) us ≡ count (λ u. u.plan == k) us
unfolding count
weigh_users-in_plan k [] = refl
weigh_users-in_plan k (u ∷ us) = ground (arith, weigh_users-in_plan k us)

weigh_users-on_trial :
    (us : List User) → weigh_users on_trial us ≡ count (λ u. u.subscription_status == "trialing") us
unfolding count
weigh_users-on_trial [] = refl
weigh_users-on_trial (u ∷ us) = ground (arith, weigh_users-on_trial us)

-- The user pays LiqPay for the plan.
abbrev pub pays : String → User → Bool
pays p u = u.subscription_status == "active" && u.plan == p

pro-ne-max : (p : String) → (p == Plan.pro) ≡ true → (p == Plan.max) ≡ false
pro-ne-max p h = rw ((eq_iff p Plan.pro).0 h) refl

weigh_users-revenue :
    (us : List User)
    → weigh_users revenue us ≡ 15 * count (pays Plan.pro) us + 99 * count (pays Plan.max) us
unfolding count stats_price
weigh_users-revenue [] = refl
weigh_users-revenue (u ∷ us) = ground (arith, pro-ne-max u.plan, weigh_users-revenue us)

-- The statistics over the grouped rows are counts over the users: all of them, those of each plan, 15 and
-- 99 dollars for each active user of Pro and Max, and those on trial.
pub stats_counts :
    (users : List User) (k : String)
    → ((stats users).total_users ≡ length users)
      × (value_at k (stats users).by_plan ≡ count (λ u. u.plan == k) users)
      × ((stats users).active_mrr
          ≡ 15 * count (pays Plan.pro) users + 99 * count (pays Plan.max) users)
      × ((stats users).trial_count ≡ count (λ u. u.subscription_status == "trialing") users)
unfolding stats value_at
stats_counts users k =
    let sums = tally_all-Adds no_stats (count_by_plan users) in
    (
      sums.0 ∙ omega (arith, weigh-count_by_plan one_each users, weigh_users-one_each users),
      sums.1 k ∙ omega (arith, weigh-count_by_plan (in_plan k) users, weigh_users-in_plan k users),
      sums.2 ∙ omega (arith, weigh-count_by_plan revenue users, weigh_users-revenue users),
      sums.3 ∙ omega (arith, weigh-count_by_plan on_trial users, weigh_users-on_trial users),
    )

-- ===== src/Retention/Sweep.antt =====
-- internal/retention/retention.go: the transactions that a sweep deletes and those that it keeps.
use finance_engine.Prelude.{
  ℕ, String, Bool, true, false, not, ◌&&◌, Option, none, some, List, [], ◌∷◌, ◌==◌, string_eq,
  nat_eq, ltb, ◌≡◌, refl, ap, ◌∙◌, arith, Bool-cases, Option-cases, inl, inr, nat_beq_iff, eq_iff,
  suc, ◌-◌, ◌*◌,
}
use finance_engine.Schema.{Time, User, Transaction, day, Uuid}
use finance_engine.Store.{World, IsUp}
use finance_engine.Table.{first, exists, select, IsKeyed}
use finance_engine.Table.Laws.{select_cong, select-delete, delete-delete}
use finance_engine.Users.{has_id}
use finance_engine.Plan.{retention_days}
use finance_engine.Plan
use finance_engine.Transactions.{is_on_plan, delete_expired_for_plan}
use finance_engine.Retention.{sweep_plans, sweep_once, plans_with_limited_retention}

-- The transaction is older than what the plan of its user keeps.
abbrev pub is_expired : (String → Time) → List User → Transaction → Bool
is_expired clock users t = elim (first (has_id t.user_id) users) [
  | none ↦ false
  | some u ↦ elim (retention_days u.plan) [
    | none ↦ false
    | some days ↦ ltb t.date (clock u.plan - days * day)
  ]
]

abbrev has_plan : Option User → String → Bool
has_plan none p = false
has_plan (some u) p = u.plan == p

nobody_on_plan :
    (i : Uuid) (p : String) (users : List User)
    → first (has_id i) users ≡ none
    → exists (λ u. u.id == i && u.plan == p) users ≡ false
unfolding first exists
nobody_on_plan i p [] h = refl
nobody_on_plan i p (u ∷ us) h = ground (arith, nobody_on_plan i p us)

-- An id names one user, so that the subquery finds the plan of the transaction's user.
is_on_plan-has_plan :
    (users : List User) (p : String) (t : Transaction)
    → IsKeyed (λ (u : User). u.id) users
    → is_on_plan users p t ≡ has_plan (first (has_id t.user_id) users) p
unfolding first exists
is_on_plan-has_plan [] p t v = refl
is_on_plan-has_plan (u ∷ us) p t v = elim (Bool-cases (u.id == t.user_id)) [
  | inl mine ↦
      let e = (nat_beq_iff u.id t.user_id).0 mine in
      let alone = nobody_on_plan t.user_id p us (rw e at v.0) in rw (mine, alone) (ground arith)
  | inr other ↦ rw other (is_on_plan-has_plan us p t v.1)
]

and_both : (a b : Bool) → (a && b) ≡ true → (a ≡ true) × (b ≡ true)
and_both a b h = (ground arith, ground arith)

module _ (clock : String → Time) (users : List User)
    (keyed : IsKeyed (λ (u : User). u.id) users) where
  -- What the turn of a plan deletes is expired.
  turn-is_expired :
      (p : String) (days : ℕ) (t : Transaction)
      → retention_days p ≡ some days
      → (ltb t.date (clock p - days * day) && is_on_plan users p t) ≡ true
      → is_expired clock users t ≡ true
  turn-is_expired p days t limited h =
      let h' = rw (is_on_plan-has_plan users p t keyed) at h in
      elim (Option-cases (first (has_id t.user_id) users)) [
        | inl missing ↦ absurd (ground (arith, rw missing at h'))
        | inr (u, found) ↦
            let both =
              and_both (ltb t.date (clock p - days * day)) (u.plan == p) (rw found at h') in
            let e = (eq_iff u.plan p).0 both.1 in
            let mine : retention_days u.plan ≡ some days = rw e limited in
            rw (found, mine, is_expired) (rw e both.0)
      ]

-- The users are those of the start, and so are the transactions that have not expired.
record Kept (clock : String → Time) (w w' : World) : Type 0 where
  users : w'.db.users ≡ w.db.users
  rest :
      select (λ t. not (is_expired clock w.db.users t)) w'.db.transactions
      ≡ select (λ t. not (is_expired clock w.db.users t)) w.db.transactions

module _ (clock : String → Time) (w : World) (keyed : IsKeyed (λ (u : User). u.id) w.db.users) where
  turn-Kept :
      (p : String) (days : ℕ) (v : World)
      → retention_days p ≡ some days
      → Kept clock w v
      → Kept clock w (delete_expired_for_plan p (clock p - days * day) v).1
  unfolding delete_expired_for_plan
  turn-Kept p days v limited k = elim (Bool-cases (v.down v.queries)) [
    | inl failed ↦ rw failed (record { users = k.users; rest = k.rest })
    | inr up ↦ rw up (record {
      users = k.users;
      rest =
          rw k.users (
            select-delete (λ t. not (is_expired clock w.db.users t)) _ v.db.transactions
              (λ t h. ap not (turn-is_expired clock w.db.users keyed p days t limited h)))
          ∙ k.rest;
    })
  ]

  sweep_plans-Kept :
      (ps : List String) (v : World) → Kept clock w v → Kept clock w (sweep_plans clock ps v).1
  unfolding sweep_plans
  sweep_plans-Kept [] v k = k
  sweep_plans-Kept (p ∷ ps) v k = elim (Option-cases (retention_days p)) [
    | inl unlimited ↦ rw (unlimited, sweep_plans) (sweep_plans-Kept ps v k)
    | inr (days, limited) ↦
        rw (limited, sweep_plans) (sweep_plans-Kept ps _ (turn-Kept p days v limited k))
  ]

  -- Whatever queries of a sweep fail, every transaction that its user's plan still keeps is there
  -- afterwards, in the same order, if user ids are unique.
  pub sweep_keeps :
      select (λ t. not (is_expired clock w.db.users t)) (sweep_once clock w).1.db.transactions
      ≡ select (λ t. not (is_expired clock w.db.users t)) w.db.transactions
  unfolding sweep_once
  sweep_keeps =
      (sweep_plans-Kept plans_with_limited_retention w (record { users = refl; rest = refl })).rest

  -- The rows that stay are those that no turn deletes.
  stays :
      (t : Transaction)
      → (not (ltb t.date (clock Plan.pro - 365 * day) && is_on_plan w.db.users Plan.pro t)
          && not (ltb t.date (clock Plan.free - 30 * day) && is_on_plan w.db.users Plan.free t))
        ≡ not (is_expired clock w.db.users t)
  unfolding retention_days
  stays t =
      rw
        (
          is_on_plan-has_plan w.db.users Plan.pro t keyed,
          is_on_plan-has_plan w.db.users Plan.free t keyed,
        )
        (elim (Option-cases (first (has_id t.user_id) w.db.users)) [
          | inl missing ↦ rw missing (ground arith)
          | inr (u, found) ↦ elim (Bool-cases (u.plan == Plan.free)) [
            | inl free ↦ let e = (eq_iff u.plan Plan.free).0 free in rw (found, e) (ground arith)
            | inr unfree ↦ elim (Bool-cases (u.plan == Plan.pro)) [
              | inl pro ↦ let e = (eq_iff u.plan Plan.pro).0 pro in rw (found, e) (ground arith)
              | inr other ↦ rw (found, unfree, other) (ground arith)
            ]
          ]
        ])

  -- A sweep during which no query fails leaves exactly the transactions that their users' plans still keep,
  -- in the same order, if user ids are unique.
  pub sweep_exact :
      IsUp w
      → (sweep_once clock w).1.db.transactions
        ≡ select (λ t. not (is_expired clock w.db.users t)) w.db.transactions
  unfolding sweep_once sweep_plans retention_days delete_expired_for_plan
  sweep_exact up =
      rw (up w.queries, up (suc w.queries))
        (delete-delete _ _ w.db.transactions ∙ select_cong _ _ w.db.transactions stays)

-- ===== src/Subscriptions/Trials.antt =====
-- internal/service/billing/billing.go: how often a trial or a purchase may begin.
use finance_engine.Prelude.{
  String, some, List, [], ◌∷◌, map, ◌==◌, string_eq, nat_eq, ◌≡◌, ◌≢◌, refl, sym, ap, ◌∙◌, arith,
  Bool-cases, Option-cases, inl, inr, eq_iff, ne_of_test, nat_beq_iff,
}
use finance_engine.Schema.{Uuid, Time, User, Db}
use finance_engine.Store.{World, ok, refuse_if}
use finance_engine.Table.{first}
use finance_engine.Users.Laws.{first-set_user-some, first-set_user_other}
use finance_engine.Users.{has_id, set_user, checkout_begun, subscribed, get_by_id}
use finance_engine.Billing.{Service, Checkout, start_trial, subscribe, plan_price}
use finance_engine.Billing.Change.{
  Change, same, begun, moved, IsLegal, start_trial-Change, subscribe-Change, handle_callback-Change,
  cancel-Change,
}
use finance_engine.Billing.Begin.{Begun, start_trial-Begun, subscribe-Begun}
use finance_engine.Subscriptions.{
  Call, starts_trial, subscribes, gets_callback, cancels, by_user, step, run,
}
use finance_engine.Subscriptions.Entitlement.{IsSound, step-IsSound}

-- The user, if there is one, has a subscription status.
abbrev pub HasStarted : Uuid → List User → Type 0
HasStarted i users = (u : User) → first (has_id i) users ≡ some u → u.subscription_status ≢ ""

-- An update that sets a status starts the user whom it is for, and leaves the others as they were.
set_user-HasStarted :
    (i j : Uuid) (f : User → User) (users : List User)
    → ((u : User) → (f u).id ≡ u.id)
    → ((u : User) → (f u).subscription_status ≢ "")
    → HasStarted i users
    → HasStarted i (set_user j f users)
set_user-HasStarted i j f users keep sets h u found = elim (Bool-cases (i == j)) [
  | inl hit ↦
      let e : i ≡ j = (nat_beq_iff i j).0 hit in
      let (x, _, made) = first-set_user-some f users keep i u (rw (← e) at found) in
      rw made (sets x)
  | inr miss ↦
      h u (
        sym (first-set_user_other f users keep i j (λ e. cc (miss, (nat_beq_iff i j).1 e))) ∙ found)
]

Change-HasStarted :
    (i : Uuid) {users r : List User} → Change users r → HasStarted i users → HasStarted i r
Change-HasStarted i same h = h
Change-HasStarted i {users} (begun j u o t found fresh) h =
    set_user-HasStarted i j (checkout_begun o t) users (λ _. refl)
      (λ _. ne_of_test "pending" "" refl) h
Change-HasStarted i {users} (moved j u plan status t found legal) h =
    set_user-HasStarted i j (subscribed plan status t) users (λ _. refl)
      (λ _. legal-ne status legal) h
  where
    legal-ne : (q : String) → IsLegal plan q → q ≢ ""
    legal-ne q (inl e) = rw e (ne_of_test "trialing" "" refl)
    legal-ne q (inr (inl e)) = rw e (ne_of_test "active" "" refl)
    legal-ne q (inr (inr (_, e))) = rw e (ne_of_test "canceled" "" refl)

step-HasStarted :
    (s : Service) (i : Uuid) (w : World) (c : Call)
    → IsSound w.db.users
    → HasStarted i w.db.users
    → HasStarted i (step s w c).db.users
unfolding step
step-HasStarted s i w (starts_trial j now later) v =
    Change-HasStarted i (start_trial-Change s w j now later)
step-HasStarted s i w (subscribes j plan now later) v =
    Change-HasStarted i (subscribe-Change s w j plan now later)
step-HasStarted s i w (gets_callback raw signature e now) v =
    Change-HasStarted i (handle_callback-Change s w raw signature e now v.keyed)
step-HasStarted s i w (cancels j reply) v = Change-HasStarted i (cancel-Change s w j reply)

run-HasStarted :
    (s : Service) (i : Uuid) (w : World) (cs : List Call)
    → IsSound w.db.users
    → HasStarted i w.db.users
    → HasStarted i (run s w (map by_user cs)).db.users
unfolding run
run-HasStarted s i w [] v h = h
run-HasStarted s i w (c ∷ cs) v h =
    run-HasStarted s i (step s w c) cs (step-IsSound s w c v) (step-HasStarted s i w c v h)

Begun-HasStarted :
    (s : Service) (w : World) (i : Uuid) (o : String) (t : Time) (c : Checkout) (w' : World)
    → Begun s w i o t c w'
    → HasStarted i w'.db.users
Begun-HasStarted s w i o t c w' b u found =
    let users = ap (λ (db : Db). first (has_id i) db.users) b.recorded in
    let (x, _, made) =
      first-set_user-some (checkout_begun o t) w.db.users (λ _. refl) i u (sym users ∙ found) in
    rw made (ne_of_test "pending" "" refl)

-- A checkout that was built has set the user's status.
start_trial-HasStarted :
    (s : Service) (i : Uuid) (now later : Time) (w : World) (c : Checkout)
    → (start_trial s i now later w).0 ≡ ok c
    → HasStarted i (start_trial s i now later w).1.db.users
start_trial-HasStarted s i now later w c h =
    Begun-HasStarted s w i _ _ c _ (start_trial-Begun s w i now later c h)

subscribe-HasStarted :
    (s : Service) (i : Uuid) (plan : String) (now later : Time) (w : World) (c : Checkout)
    → (subscribe s i plan now later w).0 ≡ ok c
    → HasStarted i (subscribe s i plan now later w).1.db.users
subscribe-HasStarted s i plan now later w c h =
    Begun-HasStarted s w i _ _ c _ (subscribe-Begun s w i plan now later c h).1

module _ (s : Service) (i : Uuid) (w : World) (started : HasStarted i w.db.users) where
  start_trial-refused : (now later : Time) (c : Checkout) → (start_trial s i now later w).0 ≢ ok c
  unfolding start_trial get_by_id refuse_if
  start_trial-refused now later c h = elim (Option-cases (first (has_id i) w.db.users)) [
    | inl missing ↦ ground arith
    | inr (u, found) ↦ ground (arith, started u found, eq_iff u.subscription_status "")
  ]

  subscribe-refused :
      (plan : String) (now later : Time) (c : Checkout) → (subscribe s i plan now later w).0 ≢ ok c
  unfolding subscribe get_by_id refuse_if plan_price
  subscribe-refused plan now later c h = elim (Option-cases (first (has_id i) w.db.users)) [
    | inl missing ↦ ground arith
    | inr (u, found) ↦ ground (arith, started u found, eq_iff u.subscription_status "")
  ]

-- A checkout of either kind that is asked for is refused.
run-refused :
    (s : Service) (i : Uuid) (w : World) (cs : List Call) (plan : String) (now later : Time)
    (c : Checkout)
    → IsSound w.db.users
    → HasStarted i w.db.users
    → let w' = run s w (map by_user cs) in
      ((start_trial s i now later w').0 ≢ ok c) × ((subscribe s i plan now later w').0 ≢ ok c)
run-refused s i w cs plan now later c v h =
    let started = run-HasStarted s i w cs v h in
    (
      start_trial-refused s i _ started now later c,
      subscribe-refused s i _ started plan now later c,
    )

-- Once StartTrial has given a user a checkout, neither StartTrial nor Subscribe gives this user another one
-- after any history of calls of the billing service, with any failures on the way, if at the start user
-- ids were unique and each plan other than Free had its subscription status.
pub trial_once :
    (s : Service) (i : Uuid) (now later : Time) (w : World) (c : Checkout) (cs : List Call)
    (plan : String) (now' later' : Time) (c' : Checkout)
    → IsSound w.db.users
    → (start_trial s i now later w).0 ≡ ok c
    → let w' = run s (start_trial s i now later w).1 (map by_user cs) in
      ((start_trial s i now' later' w').0 ≢ ok c') × ((subscribe s i plan now' later' w').0 ≢ ok c')
unfolding step
trial_once s i now later w c cs plan now' later' c' v h =
    run-refused s i _ cs plan now' later' c' (step-IsSound s w (starts_trial i now later) v)
      (start_trial-HasStarted s i now later w c h)

-- Once Subscribe has given a user a checkout, neither StartTrial nor Subscribe gives this user another one
-- after any history of calls of the billing service, with any failures on the way, if at the start user
-- ids were unique and each plan other than Free had its subscription status.
pub purchase_once :
    (s : Service) (i : Uuid) (bought : String) (now later : Time) (w : World) (c : Checkout)
    (cs : List Call) (plan : String) (now' later' : Time) (c' : Checkout)
    → IsSound w.db.users
    → (subscribe s i bought now later w).0 ≡ ok c
    → let w' = run s (subscribe s i bought now later w).1 (map by_user cs) in
      ((start_trial s i now' later' w').0 ≢ ok c') × ((subscribe s i plan now' later' w').0 ≢ ok c')
unfolding step
purchase_once s i bought now later w c cs plan now' later' c' v h =
    run-refused s i _ cs plan now' later' c' (step-IsSound s w (subscribes i bought now later) v)
      (subscribe-HasStarted s i bought now later w c h)

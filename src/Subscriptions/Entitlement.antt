-- ===== src/Subscriptions/Entitlement.antt =====
-- internal/service/billing and internal/service/admin: paid plans and the subscriptions that justify them.
use finance_engine.Prelude.{
  String, Option, none, some, List, [], ◌∷◌, ◌==◌, if◌then◌else◌, string_eq, nat_eq, ◌≡◌, refl, sym,
  ap, ◌∙◌, ne_of_test, arith, Bool-cases, inl, inr, ◌⊎◌, eq_iff, All,
}
use finance_engine.Schema.{Uuid, Time, User}
use finance_engine.Store.{World}
use finance_engine.Store.Rules.{>>=-after, refuse_if-after}
use finance_engine.Table.{first, IsKeyed}
use finance_engine.Table.Laws.{IsKeyed-update, All-update}
use finance_engine.Users.{
  has_id, set_user, checkout_begun, subscribed, get_by_id, update_subscription,
}
use finance_engine.Users.Laws.{get_by_id-db, update_subscription-db}
use finance_engine.Plan
use finance_engine.Billing.{Service}
use finance_engine.Billing.Change.{
  Change, same, begun, moved, IsLegal, start_trial-Change, subscribe-Change, handle_callback-Change,
  cancel-Change,
}
use finance_engine.Admin.{set_plan, grant, new_end, extend_trial, cancel_subscription}
use finance_engine.Subscriptions.{
  Call, starts_trial, subscribes, gets_callback, cancels, AdminCall, sets_plan, extends_trial,
  cancels_subscription, Event, by_user, by_admin, step, admin_step, run,
}

-- The subscription status under which a user may have a paid plan.
abbrev pub IsRunning : String → Type 0
IsRunning status = (status ≡ "trialing") ⊎ ((status ≡ "active") ⊎ (status ≡ "manual"))

abbrev pub IsEntitled : User → Type 0
IsEntitled u = (u.plan ≡ Plan.free) ⊎ IsRunning u.subscription_status

-- The users of a database that the service keeps: ids are a primary key, and every plan has its reason.
pub record IsSound (users : List User) : Type 0 where
  pub keyed : IsKeyed (λ (u : User). u.id) users
  pub entitled : All IsEntitled users

begun-IsEntitled :
    (u : User) (o : String) (t : Time)
    → u.subscription_status ≡ ""
    → IsEntitled u
    → IsEntitled (checkout_begun o t u)
begun-IsEntitled u o t fresh (inl unpaid) = inl unpaid
begun-IsEntitled u o t fresh (inr (inl e)) = absurd (ne_of_test "" "trialing" refl (sym fresh ∙ e))
begun-IsEntitled u o t fresh (inr (inr (inl e))) =
    absurd (ne_of_test "" "active" refl (sym fresh ∙ e))
begun-IsEntitled u o t fresh (inr (inr (inr e))) =
    absurd (ne_of_test "" "manual" refl (sym fresh ∙ e))

moved-IsEntitled :
    (u : User) (plan status : String) (t : Time)
    → IsLegal plan status
    → IsEntitled (subscribed plan status t u)
moved-IsEntitled u plan status t legal = ground arith

set_user-IsSound :
    (i : Uuid) (f : User → User) (users : List User)
    → ((u : User) → (f u).id ≡ u.id)
    → ((u : User) → first (has_id i) users ≡ some u → IsEntitled u → IsEntitled (f u))
    → IsSound users
    → IsSound (set_user i f users)
set_user-IsSound i f users keep step v = record {
  keyed = IsKeyed-update (λ (u : User). u.id) (has_id i) f users keep v.keyed;
  entitled = All-update (λ (u : User). u.id) IsEntitled i f users v.keyed step v.entitled;
}

Change-IsSound : {users r : List User} → Change users r → IsSound users → IsSound r
Change-IsSound same v = v
Change-IsSound {users} (begun i u o t found fresh) v =
    set_user-IsSound i (checkout_begun o t) users (λ _. refl)
      (λ x found' paid.
        let e : u ≡ x = cc in
        begun-IsEntitled x o t (ap (λ (y : User). y.subscription_status) (sym e) ∙ fresh) paid)
      v
Change-IsSound {users} (moved i u plan status t found legal) v =
    set_user-IsSound i (subscribed plan status t) users (λ _. refl)
      (λ x _ _. moved-IsEntitled x plan status t legal) v

-- Every billing call keeps the users sound, whatever fails on the way.
pub step-IsSound :
    (s : Service) (w : World) (c : Call) → IsSound w.db.users → IsSound (step s w c).db.users
unfolding step
step-IsSound s w (starts_trial i now later) v =
    Change-IsSound (start_trial-Change s w i now later) v
step-IsSound s w (subscribes i plan now later) v =
    Change-IsSound (subscribe-Change s w i plan now later) v
step-IsSound s w (gets_callback raw signature e now) v =
    Change-IsSound (handle_callback-Change s w raw signature e now v.keyed) v
step-IsSound s w (cancels i reply) v = Change-IsSound (cancel-Change s w i reply) v

-- A call that sets a subscription which its plan allows keeps the users sound.
update_subscription-IsSound :
    (i : Uuid) (plan status : String) (t : Time) (w : World)
    → ((u : User) → IsEntitled (subscribed plan status t u))
    → IsSound w.db.users
    → IsSound (update_subscription i plan status t w).1.db.users
update_subscription-IsSound i plan status t w allowed v =
    elim (update_subscription-db w i plan status t) [
      | inl failed ↦ rw failed v
      | inr done ↦ rw done (
          set_user-IsSound i (subscribed plan status t) w.db.users (λ _. refl) (λ u _ _. allowed u)
            v)
    ]

abbrev SoundAfter : World → Type 0
SoundAfter w = IsSound w.db.users

granted-IsEntitled :
    (plan : String) (u : User)
    → IsEntitled (subscribed plan (if plan == Plan.free then "" else "manual") 0 u)
granted-IsEntitled plan u = ground (arith, eq_iff plan Plan.free)

grant-IsSound :
    (i : Uuid) (end : Option Time) (w : World)
    → IsSound w.db.users
    → IsSound (grant i end w).1.db.users
grant-IsSound i none w v = v
grant-IsSound i (some end) w v =
    update_subscription-IsSound i Plan.max "trialing" end w (λ _. inr (inl refl)) v

-- So does every call of the operator.
pub admin_step-IsSound :
    (s : Service) (w : World) (c : AdminCall)
    → IsSound w.db.users
    → IsSound (admin_step s w c).db.users
unfolding admin_step set_plan extend_trial cancel_subscription
admin_step-IsSound s w (sets_plan i plan) v =
    refuse_if-after SoundAfter _ _ _ w v
      λ _. update_subscription-IsSound i plan _ 0 w (granted-IsEntitled plan) v
admin_step-IsSound s w (extends_trial add_days i days now later) v =
    refuse_if-after SoundAfter _ _ _ w v λ _.
      let looked : SoundAfter (get_by_id i w).1 = rw (get_by_id-db w i) v in
      >>=-after SoundAfter (get_by_id i) _ w looked
        λ u _. grant-IsSound i (new_end add_days u.trial_ends_at days now later) _ looked
admin_step-IsSound s w (cancels_subscription i reply) v =
    let looked : SoundAfter (get_by_id i w).1 = rw (get_by_id-db w i) v in
    >>=-after SoundAfter (get_by_id i) _ w looked λ u _.
      elim (Bool-cases (u.liqpay_order_id == "")) [
        | inl bare ↦
            let done =
              update_subscription-IsSound i Plan.free "" 0 (get_by_id i w).1 (λ _. inl refl)
                looked in
            rw bare (
              >>=-after SoundAfter (update_subscription i Plan.free "" 0) _ (get_by_id i w).1 done
                (λ _ _. done))
        | inr ordered ↦
            rw ordered (Change-IsSound (cancel-Change s (get_by_id i w).1 i reply) looked)
      ]

-- After any history of calls of users and of the operator, with any failures on the way, ids are still a
-- primary key, and a user with a plan other than Free has a subscription that is trialing, active or manual, if both were so at the start.
pub run-IsSound :
    (s : Service) (w : World) (es : List Event) → IsSound w.db.users → IsSound (run s w es).db.users
unfolding run
run-IsSound s w [] v = v
run-IsSound s w (by_user c ∷ es) v = run-IsSound s (step s w c) es (step-IsSound s w c v)
run-IsSound s w (by_admin c ∷ es) v =
    run-IsSound s (admin_step s w c) es (admin_step-IsSound s w c v)

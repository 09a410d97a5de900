-- ===== src/Billing/Change.antt =====
-- What a call of billing.go may do to the users table, whatever fails on the way.
use finance_engine.Prelude.{
  String, false, not, Option, some, List, ◌==◌, string_eq, nat_eq, ap, ◌∙◌, ◌≡◌, refl, arith,
  Option-cases, inl, inr, ◌⊎◌, eq_iff,
}
use finance_engine.Schema.{Uuid, Time, User, PaymentEvent, Db}
use finance_engine.Store.{from, pure, refuse_if, ◌>>◌, ◌>>=◌, World, Result}
use finance_engine.Table.{first, IsKeyed}
use finance_engine.Table.Laws.{first-first}
use finance_engine.Users.{has_id, set_user, checkout_begun, subscribed}
use finance_engine.Plan
use finance_engine.Store.Rules.{>>=-after, refuse_if-after, from-after}
use finance_engine.Users.Laws.{
  get_by_id-db, get_by_id-first, begin_checkout-db, update_subscription-db,
  get_by_liqpay_order_id-db, get_by_liqpay_order_id-first,
}
use finance_engine.Users.{get_by_id, begin_checkout, update_subscription, get_by_liqpay_order_id}
use finance_engine.LiqPay.{Reply}
use finance_engine.Billing.{
  plan_price, create_event, event_of, callback_update, apply_status, Service, start_trial,
  subscribe, handle_callback, cancel,
}
use finance_engine.Billing.Orders.{parse_order_id}

-- A subscription that a callback or a cancellation may set: access while it runs, or none at its end.
abbrev pub IsLegal : String → String → Type 0
IsLegal plan status =
    (status ≡ "trialing") ⊎ ((status ≡ "active") ⊎ ((plan ≡ Plan.free) × (status ≡ "canceled")))

callback_update-IsLegal :
    (flow plan status : String) (t : Time) {p q : String} {r : Time}
    → callback_update flow plan status t ≡ some (p, q, r)
    → IsLegal p q
unfolding callback_update
callback_update-IsLegal flow plan status t h = ground arith

pub data Change (users : List User) : List User → Type 0 where
  same : Change users users
  begun :
      (i : Uuid) (u : User) (o : String) (t : Time)
      → first (has_id i) users ≡ some u
      → u.subscription_status ≡ ""
      → Change users (set_user i (checkout_begun o t) users)
  moved :
      (i : Uuid) (u : User) (plan status : String) (t : Time)
      → first (has_id i) users ≡ some u
      → IsLegal plan status
      → Change users (set_user i (subscribed plan status t) users)

-- An update that goes ahead is such a change, and one that fails is none.
begin_checkout-Change :
    (i : Uuid) (u : User) (o : String) (t : Time) (w v : World)
    → v.db ≡ w.db
    → first (has_id i) w.db.users ≡ some u
    → not (u.subscription_status == "") ≡ false
    → Change w.db.users (begin_checkout i o t v).1.db.users
begin_checkout-Change i u o t w v e found fresh = elim (begin_checkout-db v i o t) [
  | inl failed ↦ rw (failed, e) same
  | inr done ↦ rw (done, e) (begun i u o t found (ground (arith, eq_iff u.subscription_status "")))
]

update_subscription-Change :
    (i : Uuid) (u : User) (plan status : String) (t : Time) (w v : World)
    → v.db.users ≡ w.db.users
    → first (has_id i) w.db.users ≡ some u
    → IsLegal plan status
    → Change w.db.users (update_subscription i plan status t v).1.db.users
update_subscription-Change i u plan status t w v e found legal =
    elim (update_subscription-db v i plan status t) [
      | inl failed ↦ rw (failed, e) same
      | inr done ↦ rw (done, e) (moved i u plan status t found legal)
    ]

pub create_event-users :
    (numeric : String → Option String) (e : PaymentEvent) (w : World)
    → (create_event numeric e w).1.db.users ≡ w.db.users
unfolding create_event
create_event-users numeric e w = elim (Option-cases (numeric e.amount)) [
  | inl bad ↦ rw (bad, create_event)
  | inr (a, good) ↦ rw (good, create_event) (ground arith)
]

module _ (s : Service) (w : World) where
  -- Only the users of the database that the call began with matter.
  abbrev After : World → Type 0
  After v = Change w.db.users v.db.users

  get_by_id-After : (i : Uuid) → After (get_by_id i w).1
  get_by_id-After i = rw (get_by_id-db w i) same

  -- The part that StartTrial and Subscribe share.
  checkout-After :
      {A : Type 0} (i : Uuid) (message o : String) (t : Time) (r : Result A)
      → After
          ((do
            user ← get_by_id i
            refuse_if (not (user.subscription_status == "")) message
            begin_checkout i o t
            from r)
            w).1
  unfolding from
  checkout-After i message o t r = >>=-after After (get_by_id i) _ w (get_by_id-After i) λ u found.
      refuse_if-after After _ _ _ (get_by_id i w).1 (get_by_id-After i) λ fresh.
        let done =
          begin_checkout-Change i u o t w (get_by_id i w).1 (get_by_id-db w i)
            (get_by_id-first w i u found) fresh in
        >>=-after After (begin_checkout i o t) _ (get_by_id i w).1 done (λ _ _. done)

  pub start_trial-Change : (i : Uuid) (now later : Time) → After (start_trial s i now later w).1
  unfolding start_trial
  start_trial-Change i now later = checkout-After i _ _ _ _

  pub subscribe-Change :
      (i : Uuid) (plan : String) (now later : Time) → After (subscribe s i plan now later w).1
  unfolding subscribe
  subscribe-Change i plan now later = elim (Option-cases (plan_price plan)) [
    | inl unknown ↦ rw (unknown, subscribe) same
    | inr (price, known) ↦ rw (known, subscribe) (checkout-After i _ _ _ _)
  ]

  module _ (i : Uuid) (u : User) (found : first (has_id i) w.db.users ≡ some u) where
    -- One of the updates with which the callbacks and the cancellation end.
    set-After :
        (plan status : String) (t : Time) (v : World)
        → v.db.users ≡ w.db.users
        → IsLegal plan status
        → After ((update_subscription i plan status t >> pure tt) v).1
    set-After plan status t v e legal =
        let done = update_subscription-Change i u plan status t w v e found legal in
        >>=-after After (update_subscription i plan status t) _ v done (λ _ _. done)

  pub apply_status-Change :
      (u : User) (flow plan status : String) (v : World)
      → first (has_id u.id) w.db.users ≡ some u
      → v.db.users ≡ w.db.users
      → After (apply_status s u flow plan status v).1
  unfolding apply_status
  apply_status-Change u flow plan status v found e =
      elim (Option-cases (callback_update flow plan status u.trial_ends_at)) [
        | inl ignored ↦ rw (ignored, apply_status) (rw e same)
        | inr ((p, q, t), set) ↦
            rw (set, apply_status)
              (set-After u.id u found p q t v e
                (callback_update-IsLegal flow plan status u.trial_ends_at set))
      ]

  pub handle_callback-Change :
      (raw signature : String) (e : Uuid) (now : Time)
      → IsKeyed (λ (x : User). x.id) w.db.users
      → After (handle_callback s raw signature e now w).1
  unfolding handle_callback
  handle_callback-Change raw signature e now keyed = from-after After _ _ w same λ cb _.
      let looked : After (get_by_liqpay_order_id cb.order_id w).1 =
        rw (get_by_liqpay_order_id-db w cb.order_id) same in
      >>=-after After (get_by_liqpay_order_id cb.order_id) _ w looked λ u found.
        elim (Option-cases (parse_order_id cb.order_id)) [
          | inl malformed ↦ rw malformed looked
          | inr ((flow, plan), parsed) ↦
              let v = (get_by_liqpay_order_id cb.order_id w).1 in
              let event = event_of u plan cb e now in
              let kept =
                create_event-users s.numeric event v
                ∙ ap (λ (db : Db). db.users) (get_by_liqpay_order_id-db w cb.order_id) in
              let found' =
                first-first (λ (x : User). x.id) _ w.db.users keyed
                  (get_by_liqpay_order_id-first w cb.order_id u found) in
              rw parsed (
                >>=-after After (create_event s.numeric event) _ v (rw kept same)
                  (λ _ _. apply_status-Change u flow plan cb.status _ found' kept))
        ]

  pub cancel-Change : (i : Uuid) (reply : Reply) → After (cancel s i reply w).1
  unfolding cancel
  cancel-Change i reply = >>=-after After (get_by_id i) _ w (get_by_id-After i) λ u found.
      refuse_if-after After _ _ _ (get_by_id i w).1 (get_by_id-After i) λ _.
        from-after After _ _ (get_by_id i w).1 (get_by_id-After i) λ _ _.
          set-After i u (get_by_id-first w i u found) _ _ _ (get_by_id i w).1
            (ap (λ db. db.users) (get_by_id-db w i)) (inr (inr (refl, refl)))

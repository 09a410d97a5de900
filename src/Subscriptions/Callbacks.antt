-- ===== src/Subscriptions/Callbacks.antt =====
-- internal/service/billing/billing.go: the effect of a callback of LiqPay.
use finance_engine.Prelude.{
  String, Bool, true, false, ◌||◌, none, some, ◌∷◌, ◌==◌, ==-ne, string_eq, nat_eq, if◌then◌else◌,
  ◌≡◌, ◌≢◌, refl, sym, ap, ◌∙◌, arith, Bool-cases, inl, inr, ◌⊎◌, eq_iff, ne_of_test, suc,
}
use mathlib.Core.Option
use finance_engine.Schema.{Uuid, Time, User, PaymentEvent}
use finance_engine.Store.{World, Result, ok, err, refused, no_rows, unavailable, from, IsUp}
use finance_engine.Table.{first, exists, delete, IsKeyed}
use finance_engine.Table.Laws.{first-first, exists_of_first, delete-update}
use finance_engine.Users.{
  has_id, has_order, set_user, subscribed, get_by_liqpay_order_id, update_subscription,
}
use finance_engine.Users.Laws.{first-set_user_self, get_by_liqpay_order_id-found}
use finance_engine.Plan
use finance_engine.LiqPay.{Callback, sign, verify_and_decode}
use finance_engine.Billing.{
  Service, handle_callback, create_event, event_of, apply_status, callback_update,
}
use finance_engine.Billing.Orders.{parse_order_id}

module _ (s : Service) (raw signature : String) (e : Uuid) (now : Time) (w : World) where
  -- A callback whose signature is not the one of its data is refused, and nothing is read or written.
  pub handle_callback_forged :
      signature ≢ sign s.codec s.client raw
      → handle_callback s raw signature e now w
        ≡ (err (refused "invalid liqpay callback signature"), w)
  unfolding handle_callback verify_and_decode from
  handle_callback_forged h =
      let differs : (sign s.codec s.client raw == signature) ≡ false =
        ==-ne (sign s.codec s.client raw) signature (λ p. h (sym p)) in
      rw (differs, verify_and_decode)

  module _ (cb : Callback)
      (verified : verify_and_decode s.codec s.client raw signature ≡ ok cb) where
    -- A signed callback for an order that is no user's current order writes nothing, and reports that no
    -- user was found, or that the database did not answer.
    pub handle_callback_superseded :
        first (has_order cb.order_id) w.db.users ≡ none
        → let out = handle_callback s raw signature e now w in
          (out.1.db ≡ w.db) × (out.0 ≡ err (if w.down w.queries then unavailable else no_rows))
    unfolding handle_callback from get_by_liqpay_order_id
    handle_callback_superseded missing = rw (verified, from) (ground arith, ground arith)

-- The step of a subscription that a callback of the given status asks for, for an order of the given flow
-- and plan.
pub data Outcome (flow plan status : String) (u : User) : User → Type 0 where
  trial_starts :
      status ≡ "subscribed"
      → flow ≢ "direct"
      → Outcome flow plan status u (record u { plan = plan; subscription_status = "trialing" })
  purchase_starts :
      status ≡ "subscribed"
      → flow ≡ "direct"
      → Outcome flow plan status u (record u { plan = plan; subscription_status = "active" })
  charged :
      status ≡ "success"
      → Outcome flow plan status u
          (record u { plan = plan; subscription_status = "active"; trial_ends_at = 0 })
  ended :
      (status ≡ "failure") ⊎ ((status ≡ "unsubscribed") ⊎ (status ≡ "error"))
      → Outcome flow plan status u
          (record u { plan = Plan.free; subscription_status = "canceled"; trial_ends_at = 0 })
  ignored :
      status ≢ "subscribed"
      → status ≢ "success"
      → status ≢ "failure"
      → status ≢ "unsubscribed"
      → status ≢ "error"
      → Outcome flow plan status u u

abbrev ends : String → Bool
ends status = status == "failure" || (status == "unsubscribed" || status == "error")

ends_sound :
    (status : String)
    → ends status ≡ true
    → (status ≡ "failure") ⊎ ((status ≡ "unsubscribed") ⊎ (status ≡ "error"))
ends_sound status h =
    ground (arith, eq_iff status "failure", eq_iff status "unsubscribed", eq_iff status "error")

ends_complete :
    (status : String)
    → ends status ≡ false
    → (status ≢ "failure") × (status ≢ "unsubscribed") × (status ≢ "error")
ends_complete status h =
    ground (arith, eq_iff status "failure", eq_iff status "unsubscribed", eq_iff status "error")

module _ (s : Service) (u : User) (flow plan status : String) (w : World) where
  -- The user before and after, and everybody else.
  pub record Applied (out : Result (Unit {0}) × World) : Type 0 where
    pub user' : User
    pub answer : out.0 ≡ ok tt
    pub becomes : first (has_id u.id) out.1.db.users ≡ some user'
    pub outcome : Outcome flow plan status u user'
    pub others : delete (has_id u.id) out.1.db.users ≡ delete (has_id u.id) w.db.users
    pub events : out.1.db.payment_events ≡ w.db.payment_events

  module _ (found : first (has_id u.id) w.db.users ≡ some u) (up : w.down w.queries ≡ false)
      (p q : String) (t : Time)
      (set : callback_update flow plan status u.trial_ends_at ≡ some (p, q, t)) where
    updated :
        Outcome flow plan status u (subscribed p q t u)
        → Applied (apply_status s u flow plan status w)
    unfolding apply_status update_subscription
    updated o =
        let there = first-set_user_self (subscribed p q t) w.db.users (λ _. refl) u.id in
        let mine : first (has_id u.id) (set_user u.id (subscribed p q t) w.db.users)
            ≡ some (subscribed p q t u) =
          there ∙ ap (Option.map (subscribed p q t)) found in
        rw (set, apply_status, up)
          (record {
            user' = subscribed p q t u;
            answer = rw mine;
            becomes = rw mine mine;
            outcome = o;
            others =
                rw mine (delete-update (has_id u.id) (subscribed p q t) w.db.users (λ _. refl));
            events = rw mine refl;
          })

  apply_ignored :
      first (has_id u.id) w.db.users ≡ some u
      → (status == "subscribed") ≡ false
      → (status == "success") ≡ false
      → ends status ≡ false
      → Applied (apply_status s u flow plan status w)
  unfolding apply_status callback_update
  apply_ignored found unsub unpaid going =
      let (f, un, er) = ends_complete status going in
      let none_set : callback_update flow plan status u.trial_ends_at ≡ none =
        rw (unsub, unpaid, going) in
      rw (none_set, apply_status)
        (record {
          user' = u;
          answer = refl;
          becomes = found;
          outcome =
              ignored (ne_of_test status "subscribed" unsub) (ne_of_test status "success" unpaid) f
                un er;
          others = refl;
          events = refl;
        })

  apply_status-Applied :
      first (has_id u.id) w.db.users ≡ some u
      → w.down w.queries ≡ false
      → Applied (apply_status s u flow plan status w)
  unfolding callback_update
  apply_status-Applied found up = elim (Bool-cases (status == "subscribed")) [
    | inl sub ↦ elim (Bool-cases (flow == "direct")) [
      | inl direct ↦
          updated found up plan "active" u.trial_ends_at (rw (sub, direct))
            (purchase_starts ((eq_iff status "subscribed").0 sub) ((eq_iff flow "direct").0 direct))
      | inr delayed ↦
          updated found up plan "trialing" u.trial_ends_at (rw (sub, delayed))
            (trial_starts ((eq_iff status "subscribed").0 sub) (ne_of_test flow "direct" delayed))
    ]
    | inr unsub ↦ elim (Bool-cases (status == "success")) [
      | inl paid ↦
          updated found up plan "active" 0 (rw (unsub, paid))
            (charged ((eq_iff status "success").0 paid))
      | inr unpaid ↦ elim (Bool-cases (ends status)) [
        | inl over ↦
            updated found up Plan.free "canceled" 0 (rw (unsub, unpaid, over))
              (ended (ends_sound status over))
        | inr going ↦ apply_ignored found unsub unpaid going
      ]
    ]
  ]

module _ (s : Service) (raw signature : String) (e : Uuid) (now : Time) (w : World) (cb : Callback)
    (u : User) (flow plan amount : String) where
  -- The payment event as the database keeps it.
  abbrev pub receipt : PaymentEvent
  receipt = let x = event_of u plan cb e now in record x { amount = amount }

  -- The world in which the subscription moves: after the lookup and the recording.
  abbrev recorded : World
  recorded = record w {
    db = record (w.db) { payment_events = receipt ∷ w.db.payment_events };
    queries = suc (suc w.queries);
  }

  create_event-receipt :
      (v : World)
      → v.db.users ≡ w.db.users
      → v.db.payment_events ≡ w.db.payment_events
      → v.down v.queries ≡ false
      → s.numeric cb.amount ≡ some amount
      → exists (λ x. x.id == e) w.db.payment_events ≡ false
      → exists (has_id u.id) w.db.users ≡ true
      → create_event s.numeric (event_of u plan cb e now) v ≡ (
        ok receipt,
        record v {
          db = record (v.db) { payment_events = receipt ∷ v.db.payment_events };
          queries = suc v.queries;
        },
      )
  unfolding create_event
  create_event-receipt v users events up number fresh known =
      rw (number, create_event, up, users, known, events, fresh, ← events)

  handle_callback-apply_status :
      IsKeyed (λ (x : User). x.id) w.db.users
      → IsUp w
      → verify_and_decode s.codec s.client raw signature ≡ ok cb
      → first (has_order cb.order_id) w.db.users ≡ some u
      → parse_order_id cb.order_id ≡ some (flow, plan)
      → s.numeric cb.amount ≡ some amount
      → exists (λ x. x.id == e) w.db.payment_events ≡ false
      → handle_callback s raw signature e now w ≡ apply_status s u flow plan cb.status recorded
  unfolding handle_callback from
  handle_callback-apply_status keyed up verified found parsed number fresh =
      let known =
        exists_of_first (has_id u.id) w.db.users
          (first-first (λ (x : User). x.id) _ w.db.users keyed found) in
      let looked = record w { queries = suc w.queries } in
      rw (
        verified,
        get_by_liqpay_order_id-found w cb.order_id u (up w.queries) found,
        parsed,
        create_event-receipt looked refl refl (up (suc w.queries)) number fresh known,
      )

  -- A signed callback for a user's current order, when no query fails, user ids are unique, the order id has
  -- a flow and a plan, the amount is a number and the event's id is new: it succeeds, adds one payment event
  -- with what LiqPay said, whatever the status, and moves the user's subscription by the step that the
  -- status asks for; no other user changes.
  pub handle_callback_effect :
      IsKeyed (λ (x : User). x.id) w.db.users
      → IsUp w
      → verify_and_decode s.codec s.client raw signature ≡ ok cb
      → first (has_order cb.order_id) w.db.users ≡ some u
      → parse_order_id cb.order_id ≡ some (flow, plan)
      → s.numeric cb.amount ≡ some amount
      → exists (λ x. x.id == e) w.db.payment_events ≡ false
      → let out = handle_callback s raw signature e now w in
        (out.0 ≡ ok tt)
        × (out.1.db.payment_events ≡ receipt ∷ w.db.payment_events)
        × ((u' : User) × (first (has_id u.id) out.1.db.users ≡ some u')
            × Outcome flow plan cb.status u u')
        × (delete (has_id u.id) out.1.db.users ≡ delete (has_id u.id) w.db.users)
  handle_callback_effect keyed up verified found parsed number fresh =
      let done =
        apply_status-Applied s u flow plan cb.status recorded
          (first-first (λ (x : User). x.id) _ w.db.users keyed found) (up (suc (suc w.queries))) in
      rw (handle_callback-apply_status keyed up verified found parsed number fresh)
        (done.answer, done.events, (done.user', done.becomes, done.outcome), done.others)

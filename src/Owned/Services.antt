-- ===== src/Owned/Services.antt =====
-- internal/service: the calls that a user makes, and what another user sees of them.
use finance_engine.Prelude.{
  String, Bool, Option, List, ◌==◌, nat_eq, string_eq, ◌≡◌, ◌≢◌, refl, Bool-cases, Option-cases,
  inl, inr,
}
use finance_engine.Schema.{Uuid, Time, Category, Transaction}
use finance_engine.Store.{M, Result, refused, from, refuse_if, ◌>>◌}
use finance_engine.Users.{get_by_id, begin_checkout, update_subscription, update_user}
use finance_engine.Accounts.{
  Texts, update_preferences, update_goals, update_profile, update_base_currency, set_preferences,
  set_goals, set_profile, set_base_currency,
}
use finance_engine.Sessions
use finance_engine.Sessions.{issue, list_active, revoke_for_user, session_of}
use finance_engine.Categories.{create_category, get_category}
use finance_engine.Transactions
use finance_engine.Transactions.{
  create_transaction, update_transaction, delete_transaction, check_category,
}
use finance_engine.Billing.{Service, start_trial, subscribe, cancel, plan_price}
use finance_engine.LiqPay.{Reply}
use finance_engine.Connections
use finance_engine.Connections.{
  connect, update_accounts, status_of, status, import_all, sync, sync_now, disconnect,
  get_by_user_id,
}
use finance_engine.Owned.{Spares}
use finance_engine.Owned.Queries.{
  >>=-Spares, from-Spares, pure-Spares, fail-Spares, refuse_if-Spares, read-Spares,
}
use finance_engine.Owned.Writes.{
  update_user-Spares, revoke_owned-Spares, insert_category-Spares, insert-Spares,
  update_for_user-Spares, delete_for_user-Spares, set_accounts-Spares, upsert-Spares,
}

module _ (j : Uuid) where
  -- `if bad { return … }` before a call.
  pub refuse-Spares :
      {A : Type 0} (b : Bool) (message : String) (m : M A)
      → Spares j m
      → Spares j (refuse_if b message >> m)
  refuse-Spares b message m h =
      >>=-Spares j (refuse_if b message) (λ _. m) (refuse_if-Spares j b message) (λ _. h)

  pub get_by_id-Spares : (k : Uuid) → Spares j (get_by_id k)
  unfolding get_by_id
  get_by_id-Spares k = read-Spares j _

  get_category-Spares : (k : Uuid) → Spares j (get_category k)
  unfolding get_category
  get_category-Spares k = read-Spares j _

module _ (i j : Uuid) (ne : i ≢ j) where
  module _ (t : Texts) where
    pub update_preferences-Spares :
        (theme color : String) → Spares j (update_preferences t i theme color)
    unfolding update_preferences set_preferences
    update_preferences-Spares theme color =
        refuse-Spares j _ _ _ (refuse-Spares j _ _ _ (update_user-Spares i j ne _ (λ u. refl)))

    pub update_goals-Spares : (goals : String) → Spares j (update_goals t i goals)
    unfolding update_goals set_goals
    update_goals-Spares goals = refuse-Spares j _ _ _ (update_user-Spares i j ne _ (λ u. refl))

    pub update_profile-Spares : (name avatar : String) → Spares j (update_profile t i name avatar)
    unfolding update_profile set_profile
    update_profile-Spares name avatar =
        refuse-Spares j _ _ _
          (refuse-Spares j _ _ _ (refuse-Spares j _ _ _ (update_user-Spares i j ne _ (λ u. refl))))

  pub update_base_currency-Spares : (currency : String) → Spares j (update_base_currency i currency)
  unfolding update_base_currency set_base_currency
  update_base_currency-Spares currency =
      refuse-Spares j _ _ _ (update_user-Spares i j ne _ (λ u. refl))

  pub revoke_for_user-Spares :
      (s : Sessions.Service) (k : Uuid) (now : Time) → Spares j (revoke_for_user s i k now)
  unfolding revoke_for_user
  revoke_for_user-Spares s k now =
      >>=-Spares j (Sessions.revoke_owned k i now) _ (revoke_owned-Spares i j ne k now)
        (λ found. refuse_if-Spares j _ _)

  pub create_category-Spares : (c : Category) → c.user_id ≡ i → Spares j (create_category c)
  unfolding create_category
  create_category-Spares c mine =
      refuse-Spares j _ _ _ (refuse-Spares j _ _ _ (insert_category-Spares i j ne _ mine))

  module _ (numeric : String → Option String) where
    check_category-Spares : (k u : Uuid) → Spares j (check_category numeric k u)
    unfolding check_category
    check_category-Spares k u = elim (Bool-cases (k == 0)) [
      | inl bare ↦ rw (bare, check_category) (pure-Spares j tt)
      | inr real ↦
          rw (real, check_category)
            (>>=-Spares j (get_category k) _ (get_category-Spares j k)
              (λ c. refuse_if-Spares j _ _))
    ]

    pub create_transaction-Spares :
        (p : Transaction) → p.user_id ≡ i → Spares j (create_transaction numeric p)
    unfolding create_transaction
    create_transaction-Spares p mine = refuse-Spares j _ _ _ (
        refuse-Spares j _ _ _ (
          >>=-Spares j (check_category numeric p.category_id p.user_id) _
            (check_category-Spares p.category_id p.user_id)
            (λ _. insert-Spares i j ne numeric _ mine)))

    pub update_transaction-Spares :
        (p : Transaction) (now : Time) → p.user_id ≡ i → Spares j (update_transaction numeric p now)
    unfolding update_transaction
    update_transaction-Spares p now mine = refuse-Spares j _ _ _ (
        refuse-Spares j _ _ _ (
          >>=-Spares j (check_category numeric p.category_id p.user_id) _
            (check_category-Spares p.category_id p.user_id)
            (λ _. update_for_user-Spares i j ne numeric p now mine)))

  pub delete_transaction-Spares : (k : Uuid) → Spares j (delete_transaction i k)
  unfolding delete_transaction
  delete_transaction-Spares k =
      >>=-Spares j (Transactions.delete_for_user k i) _ (delete_for_user-Spares i j ne k)
        (λ d. refuse_if-Spares j _ _)

  module _ (s : Service) where
    pub start_trial-Spares : (now later : Time) → Spares j (start_trial s i now later)
    unfolding start_trial begin_checkout
    start_trial-Spares now later = >>=-Spares j (get_by_id i) _ (get_by_id-Spares j i) (λ u.
        refuse-Spares j _ _ _ (
          >>=-Spares j (update_user i _) _ (update_user-Spares i j ne _ (λ u. refl))
            (λ _. from-Spares j _)))

    pub subscribe-Spares :
        (plan : String) (now later : Time) → Spares j (subscribe s i plan now later)
    unfolding subscribe begin_checkout
    subscribe-Spares plan now later = elim (Option-cases (plan_price plan)) [
      | inl bare ↦ rw (bare, subscribe) (fail-Spares j (refused "plan is not purchasable"))
      | inr (price, known) ↦
          rw (known, subscribe)
            (>>=-Spares j (get_by_id i) _ (get_by_id-Spares j i) (λ u. refuse-Spares j _ _ _ (
              >>=-Spares j (update_user i _) _ (update_user-Spares i j ne _ (λ u. refl))
                (λ _. from-Spares j _))))
    ]

    pub cancel-Spares : (answer : Reply) → Spares j (cancel s i answer)
    unfolding cancel update_subscription
    cancel-Spares answer = >>=-Spares j (get_by_id i) _ (get_by_id-Spares j i) (λ u.
        refuse-Spares j _ _ _ (
          >>=-Spares j (from _) _ (from-Spares j _) (λ _.
            >>=-Spares j (update_user i _) _ (update_user-Spares i j ne _ (λ u. refl))
              (λ _. pure-Spares j tt))))

  pub update_accounts-Spares :
      (ids pans types currencies : List String)
      → Spares j (update_accounts i ids pans types currencies)
  unfolding update_accounts
  update_accounts-Spares ids pans types currencies = refuse-Spares j _ _ _ (
      >>=-Spares j (Connections.set_accounts i ids pans types currencies) _
        (set_accounts-Spares i j ne ids pans types currencies) (λ c. pure-Spares j _))

  pub connect-Spares :
      (base token : String) (ids pans types currencies : List String)
      (secret encrypted : Result String) (registered : Result (Unit {0})) (now : Time)
      → Spares j (connect base i token ids pans types currencies secret encrypted registered now)
  unfolding connect
  connect-Spares base token ids pans types currencies secret encrypted registered now =
      refuse-Spares j _ _ _ (
        refuse-Spares j _ _ _ (
          refuse-Spares j _ _ _ (
            >>=-Spares j (from secret) _ (from-Spares j secret) (λ webhook_secret.
              >>=-Spares j (from encrypted) _ (from-Spares j encrypted) (λ encrypted_token.
                >>=-Spares j (from registered) _ (from-Spares j registered) (λ _.
                  >>=-Spares j (Connections.upsert _) _ (upsert-Spares i j ne _ refl)
                    (λ c. pure-Spares j _)))))))

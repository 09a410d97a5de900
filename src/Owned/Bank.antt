-- ===== src/Owned/Bank.antt =====
-- internal/service/monobank and internal/monobankimport: a user's calls about Monobank, and what another user
-- sees of them.
use finance_engine.Prelude.{
  ℕ, String, Bool, false, Option, List, [], ◌∷◌, ◌==◌, string_eq, ◌≢◌, refl, Bool-cases, inl, inr,
  is_zero,
}
use finance_engine.Schema.{Uuid, Time, MonobankConnection}
use finance_engine.Store.{Result, ok, err, refused, no_rows, unavailable, constraint, from, try}
use finance_engine.Sessions
use finance_engine.Sessions.{list_active, list_active_for_user}
use finance_engine.Listings.{list_transactions, list_events, receipts}
use finance_engine.Categories.{list_categories, visible}
use finance_engine.Transactions.{create_with_external_id}
use finance_engine.Imports.{
  StatementItem, import_item, choose_category, find_category, category_in, touch_sync,
}
use finance_engine.Connections.{status_of, status, import_all, sync, sync_now, get_by_user_id}
use finance_engine.Connections.Accounts.{Account, list_accounts, list_tracked, list_my_accounts}
use finance_engine.Owned.{Spares}
use finance_engine.Owned.Queries.{
  >>=-Spares, from-Spares, pure-Spares, fail-Spares, try-Spares, read-Spares,
}
use finance_engine.Owned.Writes.{create_with_external_id-Spares, touch_sync-Spares}
use finance_engine.Owned.Services.{refuse-Spares}

module _ (j : Uuid) where
  pub list_active-Spares :
      (s : Sessions.Service) (i : Uuid) (raw : String) (now : Time)
      → Spares j (list_active s i raw now)
  unfolding list_active list_active_for_user
  list_active-Spares s i raw now =
      >>=-Spares j (list_active_for_user i now) _ (read-Spares j _) (λ l. pure-Spares j _)

  pub list_transactions-Spares :
      (i : Uuid) (from to : Time) → Spares j (list_transactions i from to)
  unfolding list_transactions
  list_transactions-Spares i from to = read-Spares j _

  pub receipts-Spares : (i : Uuid) → Spares j (receipts i)
  unfolding receipts list_events
  receipts-Spares i = read-Spares j _

  pub list_categories-Spares : (i : Uuid) → Spares j (list_categories i)
  unfolding list_categories
  list_categories-Spares i = record {
    same = λ w. (read-Spares j (λ db. ok (visible w.collation i db.categories))).same w;
  }

  get_by_user_id-Spares : (i : Uuid) → Spares j (get_by_user_id i)
  unfolding get_by_user_id
  get_by_user_id-Spares i = read-Spares j _

  status_of-Spares : (r : Result MonobankConnection) → Spares j (status_of r)
  unfolding status_of
  status_of-Spares (ok c) = pure-Spares j _
  status_of-Spares (err no_rows) = pure-Spares j _
  status_of-Spares (err unavailable) = fail-Spares j unavailable
  status_of-Spares (err constraint) = fail-Spares j constraint
  status_of-Spares (err (refused m)) = fail-Spares j (refused m)

  pub status-Spares : (i : Uuid) → Spares j (status i)
  unfolding status
  status-Spares i =
      >>=-Spares j (try (get_by_user_id i)) _
        (try-Spares j (get_by_user_id i) (get_by_user_id-Spares i)) status_of-Spares

  module _ (client_info : String → Result (List Account)) where
    pub list_accounts-Spares : (token : String) → Spares j (list_accounts client_info token)
    unfolding list_accounts
    list_accounts-Spares token = refuse-Spares j _ _ _ (
        >>=-Spares j (from (client_info token)) _ (from-Spares j (client_info token))
          (λ l. pure-Spares j _))

    module _ (decrypt : String → Result String) where
      list_tracked-Spares :
          (r : Result MonobankConnection) → Spares j (list_tracked client_info decrypt r)
      unfolding list_tracked
      list_tracked-Spares (ok c) =
          >>=-Spares j (from (decrypt c.encrypted_token)) _
            (from-Spares j (decrypt c.encrypted_token))
            (λ token.
              >>=-Spares j (list_accounts client_info token) _ (list_accounts-Spares token)
                (λ l. pure-Spares j _))
      list_tracked-Spares (err no_rows) = fail-Spares j (refused "monobank is not connected")
      list_tracked-Spares (err unavailable) = fail-Spares j unavailable
      list_tracked-Spares (err constraint) = fail-Spares j constraint
      list_tracked-Spares (err (refused m)) = fail-Spares j (refused m)

      pub list_my_accounts-Spares : (i : Uuid) → Spares j (list_my_accounts client_info decrypt i)
      unfolding list_my_accounts
      list_my_accounts-Spares i =
          >>=-Spares j (try (get_by_user_id i)) _
            (try-Spares j (get_by_user_id i) (get_by_user_id-Spares i)) list_tracked-Spares

  module _ (same_name : String → String → Bool) where
    find_category-Spares :
        (i : Uuid) (name type : String) → Spares j (find_category same_name i name type)
    unfolding find_category
    find_category-Spares i name type =
        >>=-Spares j (try (list_categories i)) _
          (try-Spares j (list_categories i) (list_categories-Spares i))
          (λ r. pure-Spares j (category_in same_name name type r))

    choose_category-Spares :
        (i : Uuid) (name type : String) → Spares j (choose_category same_name i name type)
    unfolding choose_category
    choose_category-Spares i name type = elim (Bool-cases (name == "")) [
      | inl bare ↦ rw (bare, choose_category) (pure-Spares j 0)
      | inr given ↦ rw (given, choose_category) (find_category-Spares i name type)
    ]

    module _ (numeric : String → Option String) (i : Uuid) (ne : i ≢ j) where
      import_item-Spares :
          (item : StatementItem) (currency : String) (id : Uuid) (now : Time)
          → Spares j (import_item same_name numeric i item currency id now)
      unfolding import_item
      import_item-Spares item currency id now = elim (Bool-cases (is_zero item.amount)) [
        | inl bare ↦ rw (bare, import_item) (pure-Spares j false)
        | inr real ↦
            rw (real, import_item)
              (>>=-Spares j (choose_category same_name i _ _) _ (choose_category-Spares i _ _) (λ k.
                >>=-Spares j (create_with_external_id numeric _) _
                  (create_with_external_id-Spares i j ne numeric _ refl) (λ row. pure-Spares j _)))
      ]

      import_all-Spares :
          (currency : String) (items : List (StatementItem × (Uuid × Time))) (n : ℕ)
          → Spares j (import_all same_name numeric i currency items n)
      unfolding import_all
      import_all-Spares currency [] n = pure-Spares j n
      import_all-Spares currency ((item, (id, now)) ∷ items) n =
          >>=-Spares j (import_item same_name numeric i item currency id now) _
            (import_item-Spares item currency id now)
            (λ created. import_all-Spares currency items _)

      sync-Spares :
          (decrypted : Result String) (statement : Result (List (StatementItem × (Uuid × Time))))
          (now : Time) (r : Result MonobankConnection)
          → Spares j (sync same_name numeric i decrypted statement now r)
      unfolding sync
      sync-Spares decrypted statement now (ok c) = refuse-Spares j _ _ _ (
          >>=-Spares j (from decrypted) _ (from-Spares j decrypted) (λ token.
            >>=-Spares j (from statement) _ (from-Spares j statement) (λ items.
              >>=-Spares j (import_all same_name numeric i _ items 0) _
                (import_all-Spares _ items 0)
                (λ n.
                  >>=-Spares j (touch_sync i now) _ (touch_sync-Spares i j ne now)
                    (λ _. pure-Spares j n)))))
      sync-Spares decrypted statement now (err no_rows) =
          fail-Spares j (refused "monobank is not connected")
      sync-Spares decrypted statement now (err unavailable) = fail-Spares j unavailable
      sync-Spares decrypted statement now (err constraint) = fail-Spares j constraint
      sync-Spares decrypted statement now (err (refused m)) = fail-Spares j (refused m)

      pub sync_now-Spares :
          (decrypted : Result String) (statement : Result (List (StatementItem × (Uuid × Time))))
          (now : Time)
          → Spares j (sync_now same_name numeric i decrypted statement now)
      unfolding sync_now
      sync_now-Spares decrypted statement now =
          >>=-Spares j (try (get_by_user_id i)) _
            (try-Spares j (get_by_user_id i) (get_by_user_id-Spares i))
            (sync-Spares decrypted statement now)

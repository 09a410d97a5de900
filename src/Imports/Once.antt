-- ===== src/Imports/Once.antt =====
-- internal/monobankimport/import.go: histories of deliveries among the calls of the other services.
use finance_engine.Prelude.{
  ℕ, String, Bool, false, not, ◌&&◌, Option, List, [], ◌∷◌, ◌==◌, if◌then◌else◌, string_eq, nat_eq,
  ◌≡◌, refl, arith, Bool-cases, Option-cases, inl, inr, is_zero, is_negative,
}
use finance_engine.Schema.{Uuid, Time, Category, Transaction, MonobankConnection}
use finance_engine.Store.{
  World, Result, ok, err, no_rows, unavailable, constraint, refused, M, refuse_if, ◌>>◌,
}
use finance_engine.Store.Rules.{>>=-after, refuse_if-after, from-after}
use finance_engine.Categories.{
  list_categories, insert_category, update_translations, delete_owned_category, heal_translations,
  create_category, delete_category,
}
use finance_engine.Transactions.{
  create_with_external_id, update_for_user, check_category, create_transaction, update_transaction,
  delete_for_user, delete_transaction,
}
use finance_engine.Retention.{sweep_plans, sweep_once, plans_with_limited_retention}
use finance_engine.Plan.{retention_days}
use finance_engine.Connections.{import_all, sync, sync_now, get_by_user_id}
use finance_engine.Filing
use finance_engine.Filing.{
  creates, updates, deletes, creates_category, deletes_category, heals, sweeps,
}
use finance_engine.Filing.Queries.{check_category-db}
use finance_engine.Imports.{
  StatementItem, find_category, choose_category, name_of, item_row, import_item,
  get_by_webhook_secret, touch_sync, deliver, deliver_to, process, index, text_at,
}
use finance_engine.Imports.Rows.{
  Unique, untouched-Unique, insert-Unique, create_with_external_id-Unique, update_for_user-Unique,
  delete_for_user-Unique, delete_expired_for_plan-Unique, delete_owned_category-Unique,
}

update_translations-transactions :
    (i : Uuid) (uk en : String) (w : World)
    → (update_translations i uk en w).1.db.transactions ≡ w.db.transactions
unfolding update_translations
update_translations-transactions i uk en w = ground arith

heal_translations-Unique :
    (cs : List (Category × (String × String))) (w : World)
    → Unique w
    → Unique (heal_translations cs w).1
unfolding heal_translations
heal_translations-Unique [] w v = v
heal_translations-Unique ((c, (uk, en)) ∷ cs) w v =
    elim (Bool-cases (not (c.name_uk == "") && not (c.name_en == ""))) [
      | inl whole ↦ rw (whole, heal_translations) (heal_translations-Unique cs w v)
      | inr partial ↦ elim (Bool-cases (uk == "" && en == "")) [
        | inl nothing ↦ rw (partial, nothing, heal_translations) v
        | inr some_text ↦
            rw (partial, some_text, heal_translations)
              (heal_translations-Unique cs _
                (untouched-Unique w _ (update_translations-transactions c.id uk en w) v))
      ]
    ]

insert_category-transactions :
    (c : Category) (w : World) → (insert_category c w).1.db.transactions ≡ w.db.transactions
unfolding insert_category
insert_category-transactions c w = ground arith

sweep_plans-Unique :
    (clock : String → Time) (ps : List String) (w : World)
    → Unique w
    → Unique (sweep_plans clock ps w).1
unfolding sweep_plans
sweep_plans-Unique clock [] w v = v
sweep_plans-Unique clock (p ∷ ps) w v = elim (Option-cases (retention_days p)) [
  | inl unlimited ↦ rw (unlimited, sweep_plans) (sweep_plans-Unique clock ps w v)
  | inr (days, limited) ↦
      rw (limited, sweep_plans)
        (sweep_plans-Unique clock ps _ (delete_expired_for_plan-Unique p _ w v))
]

refused-Unique :
    (bad : Bool) (message : String) (w : World) → Unique w → Unique (refuse_if bad message w).1
unfolding refuse_if
refused-Unique bad message w v = v

-- What happens to transactions: a delivery of Monobank's webhook, a manual sync with the statement that Monobank
-- gives, or a call of the other services.
pub data Event : Type 0 where
  delivers : String → String → StatementItem → Uuid → Time → Event
  syncs_now : Uuid → Result String → Result (List (StatementItem × (Uuid × Time))) → Time → Event
  calls : Filing.Call → Event

module _ (same_name : String → String → Bool) (numeric : String → Option String) where
  choose_category-db :
      (u : Uuid) (name type : String) (w : World)
      → (choose_category same_name u name type w).1.db ≡ w.db
  unfolding choose_category find_category list_categories
  choose_category-db u name type w = ground arith

  import_item-Unique :
      (u : Uuid) (item : StatementItem) (currency : String) (id : Uuid) (now : Time) (w : World)
      → Unique w
      → Unique (import_item same_name numeric u item currency id now w).1
  unfolding import_item
  import_item-Unique u item currency id now w v = elim (Bool-cases (is_zero item.amount)) [
    | inl nothing ↦ rw (nothing, import_item) v
    | inr something ↦
        let type = if is_negative item.amount then "expense" else "income" in
        let chosen : Unique
            (choose_category same_name u (name_of same_name numeric item) type w).1 =
          record {
            unique = rw (choose_category-db u (name_of same_name numeric item) type w) v.unique;
          } in
        rw (something, import_item)
          (>>=-after Unique (choose_category same_name u (name_of same_name numeric item) type) _ w
            chosen
            λ c _.
              let stored = create_with_external_id-Unique numeric _ _ chosen in
              >>=-after Unique
                (create_with_external_id numeric
                  (item_row same_name numeric u item currency c id now))
                _ _ stored (λ _ _. stored))
  ]

  deliver_to-Unique :
      (account : String) (item : StatementItem) (id : Uuid) (now : Time)
      (r : Result MonobankConnection) (w : World)
      → Unique w
      → Unique (deliver_to same_name numeric account item id now r w).1
  unfolding deliver_to deliver touch_sync
  deliver_to-Unique account item id now (err no_rows) w v = v
  deliver_to-Unique account item id now (err unavailable) w v = v
  deliver_to-Unique account item id now (err constraint) w v = v
  deliver_to-Unique account item id now (err (refused message)) w v = v
  deliver_to-Unique account item id now (ok conn) w v =
      elim (Option-cases (index account conn.account_ids)) [
        | inl untracked ↦ rw (untracked, deliver) v
        | inr (i, tracked) ↦
            let done =
              import_item-Unique conn.user_id item (text_at i conn.account_currencies) id now w v in
            rw (tracked, deliver)
              (>>=-after Unique
                (import_item same_name numeric conn.user_id item (text_at i conn.account_currencies)
                  id now)
                _ w done (λ _ _. untouched-Unique _ _ (ground arith) done))
      ]

  import_all-Unique :
      (u : Uuid) (currency : String) (items : List (StatementItem × (Uuid × Time))) (n : ℕ)
      (w : World)
      → Unique w
      → Unique (import_all same_name numeric u currency items n w).1
  unfolding import_all
  import_all-Unique u currency [] n w v = v
  import_all-Unique u currency ((item, (id, now)) ∷ items) n w v =
      let done = import_item-Unique u item currency id now w v in
      >>=-after Unique (import_item same_name numeric u item currency id now) _ w done
        λ created _. import_all-Unique u currency items _ _ done

  sync-Unique :
      (u : Uuid) (decrypted : Result String)
      (statement : Result (List (StatementItem × (Uuid × Time)))) (now : Time)
      (r : Result MonobankConnection) (w : World)
      → Unique w
      → Unique (sync same_name numeric u decrypted statement now r w).1
  unfolding sync touch_sync
  sync-Unique u decrypted statement now (err no_rows) w v = v
  sync-Unique u decrypted statement now (err unavailable) w v = v
  sync-Unique u decrypted statement now (err constraint) w v = v
  sync-Unique u decrypted statement now (err (refused message)) w v = v
  sync-Unique u decrypted statement now (ok conn) w v = refuse_if-after Unique _ _ _ w v λ _.
      from-after Unique decrypted _ w v λ _ _. from-after Unique statement _ w v λ items _.
        let currency = text_at 0 conn.account_currencies in
        let done = import_all-Unique u currency items 0 w v in
        >>=-after Unique (import_all same_name numeric u currency items 0) _ w done
          λ _ _. untouched-Unique _ _ (ground arith) done

  checked-Unique :
      (p : Transaction) (m : M Transaction) (w : World)
      → ((v : World) → Unique v → Unique (m v).1)
      → Unique w
      → Unique ((check_category numeric p.category_id p.user_id >> m) w).1
  checked-Unique p m w then_unique v =
      let looked : Unique (check_category numeric p.category_id p.user_id w).1 = record {
        unique = rw (check_category-db numeric p.category_id p.user_id w) v.unique;
      } in
      >>=-after Unique (check_category numeric p.category_id p.user_id) _ w looked
        λ _ _. then_unique _ looked

  call-Unique : (w : World) (c : Filing.Call) → Unique w → Unique (Filing.step numeric w c)
  unfolding Filing.step create_transaction update_transaction delete_transaction create_category
      delete_category sweep_once
  call-Unique w (creates p) v = refuse_if-after Unique _ _ _ w v λ _.
      refuse_if-after Unique _ _ _ w v
        λ _. checked-Unique p _ w (λ u g. insert-Unique numeric _ u refl g) v
  call-Unique w (updates p now) v = refuse_if-after Unique _ _ _ w v λ _.
      refuse_if-after Unique _ _ _ w v λ _.
        checked-Unique p (update_for_user numeric p now) w (update_for_user-Unique numeric p now) v
  call-Unique w (deletes u i) v =
      let gone = delete_for_user-Unique i u w v in
      >>=-after Unique (delete_for_user i u) _ w gone (λ d _. refused-Unique (not d) _ _ gone)
  call-Unique w (creates_category c) v = refuse_if-after Unique _ _ _ w v λ _.
      refuse_if-after Unique _ _ _ w v λ _.
        untouched-Unique w _ (insert_category-transactions (record c { is_default = false }) w) v
  call-Unique w (deletes_category u i) v =
      let gone = delete_owned_category-Unique i u w v in
      >>=-after Unique (delete_owned_category i u) _ w gone (λ d _. refused-Unique (not d) _ _ gone)
  call-Unique w (heals cs) v = heal_translations-Unique cs w v
  call-Unique w (sweeps clock) v = sweep_plans-Unique clock plans_with_limited_retention w v

  unfoldable pub happens : World → Event → World
  happens w (delivers secret account item id now) =
      (process same_name numeric secret account item id now w).1
  happens w (syncs_now user_id decrypted statement now) =
      (sync_now same_name numeric user_id decrypted statement now w).1
  happens w (calls c) = Filing.step numeric w c

  unfoldable pub run_events : World → List Event → World
  unfolding happens
  run_events w [] = w
  run_events w (e ∷ es) = run_events (happens w e) es

  get_by_webhook_secret-transactions :
      (secret : String) (w : World)
      → (get_by_webhook_secret secret w).1.db.transactions ≡ w.db.transactions
  unfolding get_by_webhook_secret
  get_by_webhook_secret-transactions secret w = ground arith

  get_by_user_id-transactions :
      (u : Uuid) (w : World) → (get_by_user_id u w).1.db.transactions ≡ w.db.transactions
  unfolding get_by_user_id
  get_by_user_id-transactions u w = ground arith

  happens-Unique : (w : World) (e : Event) → Unique w → Unique (happens w e)
  unfolding happens process sync_now
  happens-Unique w (delivers secret account item id now) v =
      deliver_to-Unique account item id now (get_by_webhook_secret secret w).0 _
        (untouched-Unique w _ (get_by_webhook_secret-transactions secret w) v)
  happens-Unique w (syncs_now u decrypted statement now) v =
      sync-Unique u decrypted statement now (get_by_user_id u w).0 _
        (untouched-Unique w _ (get_by_user_id-transactions u w) v)
  happens-Unique w (calls c) v = call-Unique w c v

  -- After any history of deliveries of Monobank's webhook, repeated ones included, of manual syncs, whatever
  -- the statement has, of calls on categories and transactions and of retention sweeps, with any failures on
  -- the way, no two transactions of one user have the same id of Monobank, if it was so at the start.
  pub run_events-Unique : (w : World) (es : List Event) → Unique w → Unique (run_events w es)
  unfolding run_events
  run_events-Unique w [] v = v
  run_events-Unique w (e ∷ es) v = run_events-Unique (happens w e) es (happens-Unique w e v)

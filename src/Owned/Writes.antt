-- ===== src/Owned/Writes.antt =====
-- internal/repository: the statements that write rows of one user, and what another user sees of them.
use finance_engine.Prelude.{
  String, Bool, true, false, not, ◌&&◌, ◌||◌, Option, List, ◌∷◌, ◌==◌, nat_eq, string_eq, ◌≡◌, ◌≢◌,
  refl, sym, ap, ◌∙◌, Bool-cases, Option-cases, inl, inr, ==-ne, nat_beq_iff, arith,
}
use finance_engine.Schema.{Uuid, Time, User, Session, Category, Transaction, MonobankConnection, Db}
use finance_engine.Store.{refused}
use finance_engine.Table.{exists, select, update, delete}
use finance_engine.Table.Laws.{select-delete}
use finance_engine.Users.{has_id, update_user}
use finance_engine.Sessions
use finance_engine.Sessions.{is_session, has_hash, revoke}
use finance_engine.Categories.{insert_category, is_category}
use finance_engine.Transactions
use finance_engine.Transactions.{
  insert, create_with_external_id, update_for_user, delete_for_user, is_transaction, is_imported,
  refers, edited,
}
use finance_engine.Connections.{is_of, upsert, set_accounts, disconnect}
use finance_engine.Imports.{touch_sync}
use finance_engine.Owned.{view, Spares}
use finance_engine.Owned.Rows.{select_insert, select-update_other}
use finance_engine.Owned.Queries.{query-Spares, fail-Spares}

-- A row of one user is not of another.
pub other : (k i j : Uuid) → i ≢ j → (k == i) ≡ true → (k == j) ≡ false
other k i j ne mine = ==-ne k j (λ same. ne (sym ((nat_beq_iff k i).0 mine) ∙ same))

and_right : (a b : Bool) → (a && b) ≡ true → b ≡ true
and_right true b h = h
and_right false b h = absurd (cc h)

module _ (i j : Uuid) (ne : i ≢ j) where
  pub update_user-Spares :
      (f : User → User) → ((u : User) → (f u).id ≡ u.id) → Spares j (update_user i f)
  unfolding view
  update_user-Spares f keep = query-Spares j _ λ db.
      ap (λ us. record (view j db) { users = us })
        (select-update_other (λ (u : User). u.id == j) (has_id i) f db.users
          (λ u hit. (other u.id i j ne hit, rw (keep u) (other u.id i j ne hit))))

  pub create_session-Spares : (row : Session) → row.user_id ≡ i → Spares j (Sessions.create row)
  unfolding Sessions.create view
  create_session-Spares row mine = query-Spares j _ λ db.
      elim (Bool-cases (
        exists (is_session row.id) db.sessions
        || (exists (has_hash row.refresh_hash) db.sessions
            || not (exists (has_id row.user_id) db.users)))) [
              | inl bad ↦ rw bad refl
              | inr fine ↦ rw fine (
                  ap (λ ss. record (view j db) { sessions = ss })
                    (select_insert (λ (s : Session). s.user_id == j) row db.sessions
                      (rw mine (==-ne i j ne))))
            ]

  pub revoke_owned-Spares : (k : Uuid) (now : Time) → Spares j (Sessions.revoke_owned k i now)
  unfolding Sessions.revoke_owned view
  revoke_owned-Spares k now = query-Spares j _ λ db.
      ap (λ ss. record (view j db) { sessions = ss })
        (select-update_other (λ (s : Session). s.user_id == j) (Sessions.is_owned k i) (revoke now)
          db.sessions
          (λ s hit.
            let owned = and_right (s.id == k) (s.user_id == i && s.revoked_at == 0) hit in
            let mine = other s.user_id i j ne (ground (arith, owned)) in (mine, mine)))

  pub insert_category-Spares : (c : Category) → c.user_id ≡ i → Spares j (insert_category c)
  unfolding insert_category view
  insert_category-Spares c mine = query-Spares j _ λ db.
      elim (Bool-cases
        (exists (is_category c.id) db.categories || not (exists (has_id c.user_id) db.users))) [
          | inl bad ↦ rw bad refl
          | inr fine ↦ rw fine (
              ap (λ cs. record (view j db) { categories = cs })
                (select_insert (λ (x : Category). x.user_id == j) c db.categories
                  (rw mine (==-ne i j ne))))
        ]

  module _ (numeric : String → Option String) where
    new_row :
        (row : Transaction) (db : Db)
        → row.user_id ≡ i
        → select (λ (t : Transaction). t.user_id == j) (row ∷ db.transactions)
          ≡ select (λ (t : Transaction). t.user_id == j) db.transactions
    new_row row db mine =
        select_insert (λ (t : Transaction). t.user_id == j) row db.transactions
          (rw mine (==-ne i j ne))

    pub insert-Spares : (row : Transaction) → row.user_id ≡ i → Spares j (insert numeric row)
    unfolding insert view
    insert-Spares row mine = elim (Option-cases (numeric row.amount)) [
      | inl bare ↦ rw (bare, insert) (fail-Spares j (refused "numeric"))
      | inr (amount, kept) ↦
          rw (kept, insert)
            (query-Spares j _ λ db.
              elim (Bool-cases
                (exists (is_transaction row.id) db.transactions || not (refers db row))) [
                  | inl bad ↦ rw bad refl
                  | inr fine ↦ rw fine (
                      ap (λ ts. record (view j db) { transactions = ts })
                        (new_row (record row { amount = amount }) db mine))
                ])
    ]

    pub create_with_external_id-Spares :
        (row : Transaction) → row.user_id ≡ i → Spares j (create_with_external_id numeric row)
    unfolding create_with_external_id view
    create_with_external_id-Spares row mine = elim (Option-cases (numeric row.amount)) [
      | inl bare ↦ rw (bare, create_with_external_id) (fail-Spares j (refused "numeric"))
      | inr (amount, kept) ↦
          rw (kept, create_with_external_id)
            (query-Spares j _ λ db. elim (Bool-cases (exists (is_imported row) db.transactions)) [
              | inl old ↦ rw old refl
              | inr new ↦
                  elim (Bool-cases
                    (exists (is_transaction row.id) db.transactions || not (refers db row))) [
                      | inl bad ↦ rw (new, bad) refl
                      | inr fine ↦
                          rw (new, fine)
                            (ap (λ ts. record (view j db) { transactions = ts })
                              (new_row (record row { amount = amount }) db mine))
                    ]
            ])
    ]

    pub update_for_user-Spares :
        (p : Transaction) (now : Time) → p.user_id ≡ i → Spares j (update_for_user numeric p now)
    unfolding update_for_user view
    update_for_user-Spares p now mine = elim (Option-cases (numeric p.amount)) [
      | inl bare ↦ rw (bare, update_for_user) (fail-Spares j (refused "numeric"))
      | inr (amount, kept) ↦
          rw (kept, update_for_user)
            (query-Spares j _ λ db.
              elim (Bool-cases (exists (Transactions.is_owned p.id p.user_id) db.transactions)) [
                | inr missing ↦ rw missing refl
                | inl there ↦
                    elim (Bool-cases
                      (p.category_id == 0 || exists (is_category p.category_id) db.categories)) [
                        | inr bad ↦ rw (there, bad) refl
                        | inl fine ↦
                            rw (there, fine)
                              (ap (λ ts. record (view j db) { transactions = ts })
                                (select-update_other (λ (t : Transaction). t.user_id == j)
                                  (Transactions.is_owned p.id p.user_id)
                                  (edited (record p { amount = amount }) now) db.transactions
                                  (λ t hit.
                                    let his = other t.user_id i j ne (
                                      rw (sym mine)
                                        (and_right (t.id == p.id) (t.user_id == p.user_id) hit)) in
                                    (his, his))))
                      ]
              ])
    ]

  pub delete_for_user-Spares : (k : Uuid) → Spares j (delete_for_user k i)
  unfolding delete_for_user view
  delete_for_user-Spares k = query-Spares j _ λ db.
      ap (λ ts. record (view j db) { transactions = ts })
        (select-delete (λ (t : Transaction). t.user_id == j) (Transactions.is_owned k i)
          db.transactions
          (λ t hit. other t.user_id i j ne (and_right (t.id == k) (t.user_id == i) hit)))

  -- A connection of another user is changed, and stays that user's.
  connection_update :
      (k : Uuid) (f : MonobankConnection → MonobankConnection) (db : Db)
      → k ≢ j
      → ((c : MonobankConnection) → is_of k c ≡ true → (f c).user_id ≡ k)
      → view j (record db { monobank_connections = update (is_of k) f db.monobank_connections })
        ≡ view j db
  unfolding view
  connection_update k f db apart keep =
      ap (λ cs. record (view j db) { monobank_connections = cs })
        (select-update_other (λ (c : MonobankConnection). c.user_id == j) (is_of k) f
          db.monobank_connections
          (λ c hit. (other c.user_id k j apart hit, rw (keep c hit) (==-ne k j apart))))

  pub touch_sync-Spares : (now : Time) → Spares j (touch_sync i now)
  unfolding touch_sync
  touch_sync-Spares now =
      query-Spares j _ λ db. connection_update i _ db ne (λ c hit. (nat_beq_iff c.user_id i).0 hit)

  pub set_accounts-Spares :
      (ids pans types currencies : List String)
      → Spares j (set_accounts i ids pans types currencies)
  unfolding set_accounts
  set_accounts-Spares ids pans types currencies =
      query-Spares j _ λ db. connection_update i _ db ne (λ c hit. (nat_beq_iff c.user_id i).0 hit)

  pub disconnect-Spares : Spares j (disconnect i)
  unfolding disconnect view
  disconnect-Spares = query-Spares j _ λ db.
      ap (λ cs. record (view j db) { monobank_connections = cs })
        (select-delete (λ (c : MonobankConnection). c.user_id == j) (is_of i)
          db.monobank_connections (λ c hit. other c.user_id i j ne hit))

  pub upsert-Spares : (row : MonobankConnection) → row.user_id ≡ i → Spares j (upsert row)
  unfolding upsert view
  upsert-Spares row mine = query-Spares j _ λ db.
      let others = delete (is_of row.user_id) db.monobank_connections in
      elim (Bool-cases
        (exists (λ (c : MonobankConnection). c.webhook_secret == row.webhook_secret) others)) [
          | inl taken ↦ rw taken refl
          | inr free ↦ elim (Bool-cases (not (exists (has_id row.user_id) db.users))) [
            | inl unknown ↦ rw (free, unknown) refl
            | inr known ↦ elim (Bool-cases (exists (is_of row.user_id) db.monobank_connections)) [
              | inl there ↦
                  rw (free, known, there)
                    (connection_update row.user_id (λ c. row) db (λ e. ne (sym mine ∙ e))
                      (λ c hit. refl))
              | inr missing ↦
                  rw (free, known, missing)
                    (ap (λ cs. record (view j db) { monobank_connections = cs })
                      (select_insert (λ (c : MonobankConnection). c.user_id == j) row
                        db.monobank_connections (rw mine (==-ne i j ne))))
            ]
          ]
        ]

-- ===== src/Connections.antt =====
-- internal/service/monobank/monobank.go over internal/repository/monobank.go: connecting to Monobank, the
-- choice of accounts, the manual sync, and disconnecting. What Monobank and the cipher answer is an
-- argument of each call.
pub mod Silence
pub mod Accounts
mod Tests
use finance_engine.Prelude.{
  ℕ, String, Bool, true, false, not, Option, none, some, List, [], ◌∷◌, ◌==◌, if◌then◌else◌,
  string_eq, nat_eq, suc, ◌+◌,
}
use finance_engine.Schema.{Uuid, Time, MonobankConnection, Db}
use finance_engine.Store.{
  M, World, Result, ok, err, refused, no_rows, unavailable, constraint, one, query, pure, fail,
  from, refuse_if, try, ◌>>=◌, ◌>>◌,
}
use finance_engine.Table.{first, exists, update, delete}
use finance_engine.Users.{has_id}
use finance_engine.Imports.{StatementItem, import_item, touch_sync, text_at}

abbrev pub is_of : Uuid → MonobankConnection → Bool
is_of user_id c = c.user_id == user_id

-- MonobankRepository.Upsert: one connection for each user, with a secret that is no other user's.
unfoldable pub upsert : MonobankConnection → M MonobankConnection
upsert row = query λ db.
    let others = delete (is_of row.user_id) db.monobank_connections in
    if exists (λ c. c.webhook_secret == row.webhook_secret) others
    then (err constraint, db)
    else if not (exists (has_id row.user_id) db.users)
    then (err constraint, db)
    else if exists (is_of row.user_id) db.monobank_connections
    then (
      ok row,
      record db {
        monobank_connections = update (is_of row.user_id) (λ c. row) db.monobank_connections;
      },
    )
    else (ok row, record db { monobank_connections = row ∷ db.monobank_connections })

unfoldable pub get_by_user_id : Uuid → M MonobankConnection
get_by_user_id user_id = query λ db. (one (first (is_of user_id) db.monobank_connections), db)

-- MonobankRepository.UpdateAccounts
unfoldable pub set_accounts :
    Uuid → List String → List String → List String → List String → M MonobankConnection
set_accounts user_id ids pans types currencies = query λ db.
    let rows =
      update (is_of user_id)
        (λ c. record c {
          account_ids = ids;
          masked_pans = pans;
          account_types = types;
          account_currencies = currencies;
        })
        db.monobank_connections in
    (one (first (is_of user_id) rows), record db { monobank_connections = rows })

-- MonobankRepository.Delete, which is all that Disconnect does.
unfoldable pub disconnect : Uuid → M (Unit {0})
disconnect user_id = query λ db.
    (ok tt, record db { monobank_connections = delete (is_of user_id) db.monobank_connections })

pub record Status : Type 0 where
  pub is_connected : Bool
  pub masked_pans : List String
  pub connected_at : Time
  pub last_synced_at : Time

abbrev pub status_from_connection : MonobankConnection → Status
status_from_connection c = record {
  is_connected = true;
  masked_pans = c.masked_pans;
  connected_at = c.connected_at;
  last_synced_at = c.last_synced_at;
}

abbrev is_empty : List String → Bool
is_empty [] = true
is_empty (x ∷ xs) = false

-- Connect, with the random secret, the encrypted token, Monobank's answer to the registration, and the
-- database's clock.
unfoldable pub connect :
    String
    → Uuid
    → String
    → List String
    → List String
    → List String
    → List String
    → Result String
    → Result String
    → Result (Unit {0})
    → Time
    → M Status
connect webhook_base_url user_id token ids pans types currencies secret encrypted registered now =
    do
      refuse_if (token == "") "personal_token is required"
      refuse_if (is_empty ids) "at least one account_id is required"
      refuse_if (webhook_base_url == "") "PUBLIC_BASE_URL is not configured on the server"
      webhook_secret ← from secret
      encrypted_token ← from encrypted
      from registered
      conn ← upsert (record {
        user_id = user_id;
        encrypted_token = encrypted_token;
        webhook_secret = webhook_secret;
        masked_pans = pans;
        account_ids = ids;
        connected_at = now;
        last_synced_at = 0;
        account_types = types;
        account_currencies = currencies;
      })
      pure (status_from_connection conn)

-- UpdateAccounts
unfoldable pub update_accounts :
    Uuid → List String → List String → List String → List String → M Status
update_accounts user_id ids pans types currencies = do
  refuse_if (is_empty ids) "at least one account_id is required"
  conn ← set_accounts user_id ids pans types currencies
  pure (status_from_connection conn)

-- Status once the lookup has answered, and Status.
unfoldable pub status_of : Result MonobankConnection → M Status
status_of (ok conn) = pure (status_from_connection conn)
status_of (err no_rows) =
    pure (record { is_connected = false; masked_pans = []; connected_at = 0; last_synced_at = 0 })
status_of (err unavailable) = fail unavailable
status_of (err constraint) = fail constraint
status_of (err (refused message)) = fail (refused message)

unfoldable pub status : Uuid → M Status
status user_id = do found ← try (get_by_user_id user_id); status_of found

module _ (same_name : String → String → Bool) (numeric : String → Option String) where
  -- The loop of SyncNow over the statement, each item with the id and the time of the row it may become:
  -- the number of rows created.
  unfoldable pub import_all : Uuid → String → List (StatementItem × (Uuid × Time)) → ℕ → M ℕ
  import_all user_id currency [] imported = pure imported
  import_all user_id currency ((item, (id, now)) ∷ items) imported = do
    created ← import_item same_name numeric user_id item currency id now
    import_all user_id currency items (if created then suc imported else imported)

  -- SyncNow for a known connection, with the decrypted token and the statement of the first account.
  unfoldable pub sync :
      Uuid
      → Result String
      → Result (List (StatementItem × (Uuid × Time)))
      → Time
      → Result MonobankConnection
      → M ℕ
  sync user_id decrypted statement now (ok conn) = do
    refuse_if (is_empty conn.account_ids) "no accounts are being tracked"
    token ← from decrypted
    items ← from statement
    imported ← import_all user_id (text_at 0 conn.account_currencies) items 0
    touch_sync user_id now
    pure imported
  sync user_id decrypted statement now (err no_rows) = fail (refused "monobank is not connected")
  sync user_id decrypted statement now (err unavailable) = fail unavailable
  sync user_id decrypted statement now (err constraint) = fail constraint
  sync user_id decrypted statement now (err (refused message)) = fail (refused message)

  unfoldable pub sync_now :
      Uuid → Result String → Result (List (StatementItem × (Uuid × Time))) → Time → M ℕ
  sync_now user_id decrypted statement now = do
    found ← try (get_by_user_id user_id)
    sync user_id decrypted statement now found

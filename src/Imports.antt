-- ===== src/Imports.antt =====
-- internal/monobankimport/import.go and the `process` of internal/webhook/monobank.go: a statement item of
-- Monobank becomes a transaction. `numeric` is what PostgreSQL keeps of a decimal text, and `same_name`
-- is `strings.EqualFold(strings.TrimSpace(a), b)`.
pub mod Rows
pub mod Once
mod Tests
use finance_engine.Prelude.{
  ℕ, String, Bool, true, false, not, ◌&&◌, ◌||◌, Option, none, some, List, [], ◌∷◌, ◌==◌,
  if◌then◌else◌, string_eq, nat_eq, ℤ, pos, negsuc, is_negative, is_zero, negate_int64, ◌+++◌, ◌+◌,
  ◌*◌, ◌-◌, ◌/◌, ◌%◌, suc, get_elem?,
}
use mathlib.Core.Option
use finance_engine.Prelude.Text.{show, show_two}
use finance_engine.Schema.{Uuid, Time, Category, Transaction, MonobankConnection, Db, second}
use finance_engine.Store.{
  M, World, Result, ok, err, Error, refused, no_rows, unavailable, constraint, one, query, pure,
  fail, try, ◌>>=◌, ◌>>◌,
}
use finance_engine.Table.{first, update}
use finance_engine.Categories.{list_categories}
use finance_engine.Transactions.{create_with_external_id}
use finance_engine.Mcc.{category_name, currency_code}

-- monobank.StatementItem; the codes are those of ISO 18245 and ISO 4217, so not negative.
pub record StatementItem : Type 0 where
  pub id : String
  pub time : ℤ
  pub description : String
  pub mcc : ℕ
  pub amount : ℤ
  pub currency_code : ℕ
  pub operation_amount : ℤ
  pub operation_currency_code : ℕ

-- `fmt.Sprintf("%d.%02d", amount/100, amount%100)`, where Go's division cuts towards zero, so that both
-- parts of a negative number have its sign.
unfoldable pub amount_text : ℤ → String
amount_text (pos n) = show (n / 100) +++ ("." +++ show_two (n % 100))
amount_text (negsuc n) =
    let whole = suc n / 100 in
    let part = suc n % 100 in
    (if whole == 0 then "0" else "-" +++ show whole)
    +++ ("." +++ (if part == 0 then "00" else "-" +++ show part))

-- `time.Unix(t, 0)`
abbrev pub unix_time : ℤ → Time
unix_time (pos n) = (62135596800 + n) * second
unix_time (negsuc n) = (62135596800 - suc n) * second

-- MonobankRepository.GetByWebhookSecret
unfoldable pub get_by_webhook_secret : String → M MonobankConnection
get_by_webhook_secret secret =
    query λ db. (one (first (λ c. c.webhook_secret == secret) db.monobank_connections), db)

-- MonobankRepository.TouchSync
unfoldable pub touch_sync : Uuid → Time → M (Unit {0})
touch_sync user_id now = query λ db. (
  ok tt,
  record db {
    monobank_connections =
        update (λ c. c.user_id == user_id) (λ c. record c { last_synced_at = now })
          db.monobank_connections;
  },
)

-- `slices.Index`
unfoldable pub index : String → List String → Option ℕ
index a [] = none
index a (x ∷ xs) = if x == a then some 0 else Option.map suc (index a xs)

-- `xs[i]`, or the empty text where the list is too short.
abbrev pub text_at : ℕ → List String → String
text_at i xs = elim (get_elem? xs i) [ none ↦ "" | some x ↦ x ]

module _ (same_name : String → String → Bool) where
  -- findCategory
  abbrev pub has_name : String → String → Category → Bool
  has_name name type c = same_name c.name name && c.type == type

  abbrev pub category_in : String → String → Result (List Category) → Uuid
  category_in name type (err e) = 0
  category_in name type (ok cs) = elim (first (has_name name type) cs) [ none ↦ 0 | some c ↦ c.id ]

  -- The category's id, and uuid.Nil where there is none.
  unfoldable pub find_category : Uuid → String → String → M Uuid
  find_category user_id name type = do
    found ← try (list_categories user_id)
    pure (category_in name type found)

  unfoldable pub choose_category : Uuid → String → String → M Uuid
  unfolding find_category
  choose_category user_id name type = if name == "" then pure 0 else find_category user_id name type

  module _ (numeric : String → Option String) where
    abbrev pub item_row : Uuid → StatementItem → String → Uuid → Uuid → Time → Transaction
    item_row user_id item account_currency category_id id now =
        let currency = currency_code item.currency_code in
        record {
          id = id;
          user_id = user_id;
          category_id = category_id;
          amount =
              amount_text
                (if is_negative item.amount then negate_int64 item.amount else item.amount);
          currency =
              if not (account_currency == "") && not (currency == account_currency)
              then account_currency
              else currency;
          type = if is_negative item.amount then "expense" else "income";
          date = unix_time item.time;
          note = item.description;
          created_at = now;
          is_internal_transfer = false;
          external_id = item.id;
          operation_amount = item.operation_amount;
          operation_currency_code = item.operation_currency_code;
          updated_at = 0;
        }

    abbrev pub name_of : StatementItem → String
    name_of item =
        let name = category_name item.mcc in
        if name == "" && is_negative item.amount then "Інше" else name

    abbrev pub is_created : Option Transaction → Bool
    is_created none = false
    is_created (some t) = true

    -- Item, with the id and the time that the database gives the row: whether it was created.
    unfoldable pub import_item : Uuid → StatementItem → String → Uuid → Time → M Bool
    import_item user_id item account_currency id now =
        if is_zero item.amount then pure false else do
          category_id ←
              choose_category user_id (name_of item)
                (if is_negative item.amount then "expense" else "income")
          row ←
              create_with_external_id numeric
                (item_row user_id item account_currency category_id id now)
          pure (is_created row)

    -- The delivery of an item to a connection that is known; an account that the user does not track is
    -- passed over.
    unfoldable pub deliver :
        String → StatementItem → Uuid → Time → MonobankConnection → M (Unit {0})
    unfolding index
    deliver account item id now conn = elim (index account conn.account_ids) [
      | none ↦ pure tt
      | some i ↦ do
        import_item conn.user_id item (text_at i conn.account_currencies) id now
        touch_sync conn.user_id now
    ]

    -- `process` once the lookup has answered.
    unfoldable pub deliver_to :
        String → StatementItem → Uuid → Time → Result MonobankConnection → M (Unit {0})
    deliver_to account item id now (ok conn) = deliver account item id now conn
    deliver_to account item id now (err no_rows) = fail (refused "unknown webhook secret")
    deliver_to account item id now (err unavailable) = fail unavailable
    deliver_to account item id now (err constraint) = fail constraint
    deliver_to account item id now (err (refused message)) = fail (refused message)

    -- `process`, for a webhook that names an account and an item.
    unfoldable pub process : String → String → StatementItem → Uuid → Time → M (Unit {0})
    process secret account item id now = do
      found ← try (get_by_webhook_secret secret)
      deliver_to account item id now found

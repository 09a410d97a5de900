-- ===== src/Rest/Echo.antt =====
-- internal/rest/transaction.go and models.go: a transaction as it is read, and sent back as an edit.
use finance_engine.Prelude.{
  ℕ, suc, String, true, false, not, ◌&&◌, ◌||◌, Option, some, [], ◌==◌, string_eq, nat_eq, ◌≡◌, ◌≢◌,
  refl, sym, ap, ◌∙◌, Bool-cases, inl, inr, eq_iff, ==-ne, ==-refl, arith,
}
use mathlib.Core.Option
use finance_engine.Schema.{Time, Transaction}
use finance_engine.Store.{World, ok, IsUp, refuse_if}
use finance_engine.Table.{first, exists, update, delete}
use finance_engine.Table.Laws.{first-update_self, delete-update, exists_of_first}
use finance_engine.Formats.{IsReadable}
use finance_engine.Json.{TransactionJson, transaction_to_json, nil_text}
use finance_engine.Categories.{is_category, get_category, is_no_type}
use finance_engine.Transactions.{
  is_owned, edited, check_category, update_for_user, update_transaction,
}
use finance_engine.Filing.Rows.{IsFiled}
use finance_engine.Rest.{Config, write_json, call, required, transaction}
use finance_engine.Rest.Book.{
  CreateTransactionRequest, parse_category, transaction_of, update_transaction_handler,
}

-- The request that sends back what was read.
abbrev pub sent_back : TransactionJson → CreateTransactionRequest
sent_back t = record {
  category_id = t.category_id;
  amount = t.amount;
  currency = t.currency;
  type = t.type;
  date = t.date;
  note = t.note;
  is_internal_transfer = t.is_internal_transfer;
}

-- The category of a transaction is printed so that a request reads it back.
category_read :
    (cfg : Config) (t : Transaction)
    → IsReadable cfg.formats
    → cfg.formats.uuid_text 0 ≡ nil_text
    → parse_category cfg (transaction_to_json cfg.formats t).category_id ≡ some t.category_id
unfolding parse_category transaction_to_json
category_read cfg t readable nil =
    elim (Bool-cases (cfg.formats.uuid_text t.category_id == nil_text)) [
      | inl bare ↦
          let e = (eq_iff (cfg.formats.uuid_text t.category_id) nil_text).0 bare in
          rw bare (
            sym (readable.reads 0)
            ∙ ap cfg.formats.parse_uuid (nil ∙ sym e)
            ∙ readable.reads t.category_id)
      | inr real ↦
          rw
            (
              real,
              ==-ne (cfg.formats.uuid_text t.category_id) "" (readable.not_empty t.category_id),
            )
            (readable.reads t.category_id)
    ]

-- The check of a category that may be used, while the database answers.
filed_checked :
    (numeric : String → Option String) (t : Transaction) (w : World)
    → IsUp w
    → IsFiled w.db.categories t
    → (n : ℕ) × (check_category numeric t.category_id t.user_id w
        ≡ (ok tt, record w { queries = n }))
unfolding check_category get_category refuse_if
filed_checked numeric t w up (inl bare) = (w.queries, rw bare refl)
filed_checked numeric t w up (inr u) = elim (Bool-cases (t.category_id == 0)) [
  | inl bare ↦ (w.queries, rw bare refl)
  | inr real ↦
      let fine : (not (u.category.user_id == 0) && not (u.category.user_id == t.user_id)) ≡ false =
        elim u.shared_or_own [
          | inl shared ↦ rw shared refl
          | inr own ↦ rw (own, ==-refl t.user_id) (ground arith)
        ] in
      (suc w.queries, rw (real, up w.queries, u.there, fine) refl)
]

is_known :
    (t : Transaction) (w : World)
    → IsFiled w.db.categories t
    → (t.category_id == 0 || exists (is_category t.category_id) w.db.categories) ≡ true
is_known t w (inl bare) = rw bare refl
is_known t w (inr u) =
    ground (arith, exists_of_first (is_category t.category_id) w.db.categories u.there)

-- The row as an edit of the same values leaves it.
abbrev pub touched : Time → Transaction → Transaction
touched now t = record t { updated_at = now }

-- The transaction stands in the tables as PostgreSQL keeps it and as the service let it in.
pub record IsKept (numeric : String → Option String) (t : Transaction) (w : World) : Type 0 where
  pub up : IsUp w
  pub there : first (is_owned t.id t.user_id) w.db.transactions ≡ some t
  pub amount : numeric t.amount ≡ some t.amount
  pub some_amount : t.amount ≢ ""
  pub typed : is_no_type t.type ≡ false
  pub filed : IsFiled w.db.categories t

-- A transaction that the API shows, sent back unchanged as an edit: the edit answers 200 with the transaction as
-- it was shown, the row then differs in the time of its change alone, and every other row is as it was.
-- The conditions: the database answers and has the row, whose amount is as PostgreSQL keeps it and not
-- empty, whose type is one of the two, and whose category is none, a shared one or the user's own; ids
-- are printed readably, the nil id as zeros; and the layout of the API reads the date back that it prints.
pub sent_back_unchanged :
    (cfg : Config) (numeric : String → Option String) (t : Transaction) (now : Time) (w : World)
    → IsReadable cfg.formats
    → cfg.formats.uuid_text 0 ≡ nil_text
    → cfg.formats.parse_time (cfg.formats.time_text t.date) ≡ some t.date
    → IsKept numeric t w
    → let shown = transaction_to_json cfg.formats t in
      let out =
        update_transaction_handler cfg numeric t.user_id shown.id (some (sent_back shown)) now w in
      (out.0 ≡ write_json [] 200 (transaction shown))
      × (first (is_owned t.id t.user_id) out.1.db.transactions ≡ some (touched now t))
      × (delete (is_owned t.id t.user_id) out.1.db.transactions
          ≡ delete (is_owned t.id t.user_id) w.db.transactions)
unfolding transaction_to_json update_transaction_handler call required update_transaction
    update_for_user refuse_if
sent_back_unchanged cfg numeric t now w readable nil dated kept =
    let shown = transaction_to_json cfg.formats t in
    let p =
      transaction_of t.id t.user_id t.category_id t.date 0 t.is_internal_transfer
        (sent_back shown) in
    let mine = is_owned t.id t.user_id in
    let (n, checked) = filed_checked numeric t w kept.up kept.filed in
    let named = ==-ne t.amount "" kept.some_amount in
    let known : (t.category_id == 0 || exists (is_category t.category_id) w.db.categories) ≡ true =
      is_known t w kept.filed in
    let there = exists_of_first mine w.db.transactions kept.there in
    let found : first mine (update mine (edited p now) w.db.transactions) ≡ some (touched now t) =
      first-update_self mine (edited p now) w.db.transactions (λ _. refl)
      ∙ ap (Option.map (edited p now)) kept.there in
    let others = delete-update mine (edited p now) w.db.transactions (λ _. refl) in
    rw
      (
        readable.reads t.id,
        category_read cfg t readable nil,
        dated,
        kept.typed,
        named,
        checked,
        update_for_user,
        kept.amount,
        kept.up n,
        there,
        known,
        found,
      )
      (refl, found, others)

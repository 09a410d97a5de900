-- ===== src/Grpc/Agreement.antt =====
-- internal/grpc/controllers against internal/rest: the two APIs to the categories and the transactions.
use finance_engine.Prelude.{
  ℕ, String, Bool, false, Option, none, some, ◌==◌, nat_eq, if◌then◌else◌, ◌≡◌, refl, ap,
}
use finance_engine.Schema.{Uuid}
use finance_engine.Store.{World, M, Result, ok, err, Error}
use finance_engine.Categories.{list_categories, create_category, delete_category}
use finance_engine.Transactions.{create_transaction, delete_transaction}
use finance_engine.Listings.{list_transactions}
use finance_engine.Rest
use finance_engine.Rest.{Response}
use finance_engine.Rest.Book.{
  Row, CreateCategoryRequest, CreateTransactionRequest, list_categories_handler,
  create_category_handler, delete_category_handler, list_transactions_handler,
  create_transaction_handler, delete_transaction_handler,
}
use finance_engine.Rest.Book
use finance_engine.Grpc.{
  Code, Settings, Reply, Handler, replied, failed, required, answer, call, with_user,
  unauthenticated, invalid_argument, not_found, internal, currency_from_proto,
  transaction_type_from_proto,
}
use finance_engine.Grpc.Book.{
  CategoryCreateRequest, TransactionCreateRequest, category_list, category_create, category_delete,
  transaction_list, transaction_create, transaction_delete, category_id_of, optional_time,
}

-- The codes of a failure, in a reply and for a status of HTTP.
unfoldable pub code_of : {A : Type 0} → Reply A → Option Code
code_of (replied a) = none
code_of (failed c message) = some c

unfoldable pub code_for : ℕ → Option Code
code_for status =
    if status == 400
    then some invalid_argument
    else if status == 401
    then some unauthenticated
    else if status == 404
    then some not_found
    else if status == 500
    then some internal
    else none

-- What a caller sees of the failure, and the tables after it.
abbrev pub grpc_outcome : {A : Type 0} → Reply A × World → Option Code × World
grpc_outcome (r, w) = (code_of r, w)

abbrev pub rest_outcome : Response × World → Option Code × World
rest_outcome (r, w) = (code_for r.status, w)

-- A reply and a response that leave the same tables, with the same queries made, and fail in the same way.
abbrev pub Agrees : {A : Type 0} → Reply A × World → Response × World → Type 0
Agrees g r = grpc_outcome g ≡ rest_outcome r

-- The requests of gRPC as REST spells them.
abbrev pub category_body : CategoryCreateRequest → CreateCategoryRequest
category_body req = record {
  name = req.name;
  icon_name = req.icon_name;
  color_hex = req.color_hex;
  type = transaction_type_from_proto req.type;
}

abbrev pub transaction_body : TransactionCreateRequest → CreateTransactionRequest
transaction_body req = record {
  category_id = req.category_id;
  amount = req.amount;
  currency = currency_from_proto req.currency;
  type = transaction_type_from_proto req.type;
  date = req.date;
  note = req.note;
  is_internal_transfer = false;
}

-- The configuration of the one for that of the other.
abbrev pub settings : Rest.Config → (String → String → Bool) → Settings
settings cfg equal_fold = record {
  library = cfg.library;
  formats = cfg.formats;
  jwt = cfg.jwt;
  equal_fold = equal_fold;
  message = cfg.message;
}

module _ {A B : Type 0} where
  required-Agrees :
      (o : Option A) (c : Code) (message : String) (k : A → Handler B) (refusal : Response)
      (k' : A → Rest.Handler) (w : World)
      → some c ≡ code_for refusal.status
      → ((a : A) → Agrees (k a w) (k' a w))
      → Agrees (required o c message k w) (Rest.required o refusal k' w)
  unfolding required Rest.required code_of
  required-Agrees none c message k refusal k' w same h = ap (λ x. (x, w)) same
  required-Agrees (some a) c message k refusal k' w same h = h a

  answer-Agrees :
      (out : Result A × World) (on_error : Error → Reply B) (k : A → Handler B)
      (on_error' : Error → Response) (k' : A → Rest.Handler)
      → ((e : Error) → code_of (on_error e) ≡ code_for (on_error' e).status)
      → ((a : A) (w : World) → Agrees (k a w) (k' a w))
      → Agrees (answer on_error k out) (Rest.answer on_error' k' out)
  unfolding code_of code_for
  answer-Agrees (ok a, w) on_error k on_error' k' same h = h a w
  answer-Agrees (err e, w) on_error k on_error' k' same h = ap (λ x. (x, w)) (same e)

  call-Agrees :
      (m : M A) (on_error : Error → Reply B) (k : A → Handler B) (on_error' : Error → Response)
      (k' : A → Rest.Handler) (w : World)
      → ((e : Error) → code_of (on_error e) ≡ code_for (on_error' e).status)
      → ((a : A) (w : World) → Agrees (k a w) (k' a w))
      → Agrees (call m on_error k w) (Rest.call m on_error' k' w)
  unfolding call Rest.call
  call-Agrees m on_error k on_error' k' w same h =
      answer-Agrees (m w) on_error k on_error' k' same h

module _ (cfg : Rest.Config) (equal_fold : String → String → Bool) (i : Uuid) (w : World) where
  pub category_list-Agrees :
      Agrees (category_list (settings cfg equal_fold) (some i) w) (list_categories_handler cfg i w)
  unfolding category_list list_categories_handler with_user Rest.write_json Rest.write_error code_of
      code_for
  category_list-Agrees = call-Agrees (list_categories i) _ _ _ _ w (λ e. refl) (λ a w'. refl)

  pub category_create-Agrees :
      (req : CategoryCreateRequest) (row : Row)
      → Agrees
          (category_create (settings cfg equal_fold) (some i) req row w)
          (create_category_handler cfg i (some (category_body req)) row w)
  unfolding category_create create_category_handler with_user Rest.required Rest.write_json
      Rest.write_error code_of code_for
  category_create-Agrees req row =
      call-Agrees (create_category _) _ _ _ _ w (λ e. refl) (λ a w'. refl)

  pub category_delete-Agrees :
      (text : String)
      → Agrees
          (category_delete (settings cfg equal_fold) (some i) text w)
          (delete_category_handler cfg i text w)
  unfolding category_delete delete_category_handler with_user Rest.write_json Rest.write_error
      Rest.write_header code_of code_for
  category_delete-Agrees text =
      required-Agrees (cfg.formats.parse_uuid text) _ _ _ _ _ w refl
        (λ k. call-Agrees (delete_category i k) _ _ _ _ w (λ e. refl) (λ a w'. refl))

  pub transaction_list-Agrees :
      (first last : String)
      → Agrees
          (transaction_list (settings cfg equal_fold) (some i) first last w)
          (list_transactions_handler cfg i first last w)
  unfolding transaction_list list_transactions_handler with_user Rest.write_json Rest.write_error
      code_of code_for optional_time Rest.Book.parse_optional_time
  transaction_list-Agrees first last =
      required-Agrees (optional_time (settings cfg equal_fold) first) _ _ _ _ _ w refl (λ a.
        required-Agrees (optional_time (settings cfg equal_fold) last) _ _ _ _ _ w refl
          (λ b. call-Agrees (list_transactions i a b) _ _ _ _ w (λ e. refl) (λ ts w'. refl)))

  pub transaction_create-Agrees :
      (numeric : String → Option String) (req : TransactionCreateRequest) (row : Row)
      → Agrees
          (transaction_create (settings cfg equal_fold) numeric (some i) req row w)
          (create_transaction_handler cfg numeric i (some (transaction_body req)) row w)
  unfolding transaction_create create_transaction_handler with_user Rest.required Rest.write_json
      Rest.write_error code_of code_for category_id_of Rest.Book.parse_category
  transaction_create-Agrees numeric req row =
      required-Agrees (cfg.formats.parse_time req.date) _ _ _ _ _ w refl (λ date.
        required-Agrees (category_id_of (settings cfg equal_fold) req.category_id) _ _ _ _ _ w refl
          (λ c. call-Agrees (create_transaction numeric _) _ _ _ _ w (λ e. refl) (λ t w'. refl)))

  pub transaction_delete-Agrees :
      (text : String)
      → Agrees
          (transaction_delete (settings cfg equal_fold) (some i) text w)
          (delete_transaction_handler cfg i text w)
  unfolding transaction_delete delete_transaction_handler with_user Rest.write_json Rest.write_error
      Rest.write_header code_of code_for
  transaction_delete-Agrees text =
      required-Agrees (cfg.formats.parse_uuid text) _ _ _ _ _ w refl
        (λ k. call-Agrees (delete_transaction i k) _ _ _ _ w (λ e. refl) (λ a w'. refl))

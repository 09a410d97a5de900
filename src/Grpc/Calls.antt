-- ===== src/Grpc/Calls.antt =====
-- internal/grpc/server.go against internal/rest/server.go: a whole call on the categories or the transactions,
-- from the token in its header on.
use finance_engine.Prelude.{
  String, Bool, true, Option, some, List, ◌∷◌, ◌==◌, string_eq, ◌≡◌, ◌≢◌, refl, Bool-cases,
  Option-cases, inl, inr, eq_iff,
}
use finance_engine.Schema.{Uuid, Time}
use finance_engine.Store.{World}
use finance_engine.Table.{exists}
use finance_engine.Tokens.{verify}
use finance_engine.Rest
use finance_engine.Rest.{Request, with_auth, access_token}
use finance_engine.Rest.Book.{
  Row, list_categories_handler, create_category_handler, delete_category_handler,
  list_transactions_handler, create_transaction_handler, delete_transaction_handler,
}
use finance_engine.Grpc.{Code, Handler, unary, authorize, authorize_parts, split_space, required}
use finance_engine.Grpc.Book.{
  CategoryCreateRequest, TransactionCreateRequest, category_list, category_create, category_delete,
  transaction_list, transaction_create, transaction_delete,
}
use finance_engine.Grpc.Agreement.{
  Agrees, code_of, code_for, grpc_outcome, rest_outcome, settings, category_body, transaction_body,
  category_list-Agrees, category_create-Agrees, category_delete-Agrees, transaction_list-Agrees,
  transaction_create-Agrees, transaction_delete-Agrees,
}

-- The calls that the two APIs have in common, as gRPC spells them, each with what it draws from outside.
pub data Call : Type 0 where
  list_categories_call : Call
  create_category_call : CategoryCreateRequest → Row → Call
  delete_category_call : String → Call
  list_transactions_call : String → String → Call
  create_transaction_call : TransactionCreateRequest → Row → Call
  delete_transaction_call : String → Call

module _ (cfg : Rest.Config) (equal_fold : String → String → Bool)
    (numeric : String → Option String) (now : Time) where
  -- The call over gRPC, with the values of its "authorization" metadata.
  unfoldable pub grpc_call : List String → Call → World → Option Code × World
  grpc_call values list_categories_call w = grpc_outcome (
      unary (settings cfg equal_fold) now "/CategoryService/CategoryList" values
        (category_list (settings cfg equal_fold)) w)
  grpc_call values (create_category_call req row) w = grpc_outcome (
      unary (settings cfg equal_fold) now "/CategoryService/CategoryCreate" values
        (λ user. category_create (settings cfg equal_fold) user req row) w)
  grpc_call values (delete_category_call text) w = grpc_outcome (
      unary (settings cfg equal_fold) now "/CategoryService/CategoryDelete" values
        (λ user. category_delete (settings cfg equal_fold) user text) w)
  grpc_call values (list_transactions_call first last) w = grpc_outcome (
      unary (settings cfg equal_fold) now "/TransactionService/TransactionList" values
        (λ user. transaction_list (settings cfg equal_fold) user first last) w)
  grpc_call values (create_transaction_call req row) w = grpc_outcome (
      unary (settings cfg equal_fold) now "/TransactionService/TransactionCreate" values
        (λ user. transaction_create (settings cfg equal_fold) numeric user req row) w)
  grpc_call values (delete_transaction_call text) w = grpc_outcome (
      unary (settings cfg equal_fold) now "/TransactionService/TransactionDelete" values
        (λ user. transaction_delete (settings cfg equal_fold) user text) w)

  -- The same call as a request to REST.
  unfoldable pub rest_call : Request → Call → World → Option Code × World
  rest_call r list_categories_call w =
      rest_outcome (with_auth cfg now r (list_categories_handler cfg) w)
  rest_call r (create_category_call req row) w =
      rest_outcome
        (with_auth cfg now r (λ i. create_category_handler cfg i (some (category_body req)) row) w)
  rest_call r (delete_category_call text) w =
      rest_outcome (with_auth cfg now r (λ i. delete_category_handler cfg i text) w)
  rest_call r (list_transactions_call first last) w =
      rest_outcome (with_auth cfg now r (λ i. list_transactions_handler cfg i first last) w)
  rest_call r (create_transaction_call req row) w = rest_outcome (
      with_auth cfg now r
        (λ i. create_transaction_handler cfg numeric i (some (transaction_body req)) row) w)
  rest_call r (delete_transaction_call text) w =
      rest_outcome (with_auth cfg now r (λ i. delete_transaction_handler cfg i text) w)

  module _ (scheme value : String) (values : List String) (r : Request) (w : World)
      (read : split_space value ≡ some (scheme, access_token r))
      (bearer : equal_fold scheme "bearer" ≡ true) (given : access_token r ≢ "") where
    -- The two guards agree where the handlers behind them do.
    guards-Agrees :
        {A : Type 0} (next : Option Uuid → Handler A) (next' : Uuid → Rest.Handler)
        → ((i : Uuid) → Agrees (next (some i) w) (next' i w))
        → Agrees
            (authorize (settings cfg equal_fold) now (value ∷ values) (λ i. next (some i)) w)
            (with_auth cfg now r next' w)
    unfolding authorize authorize_parts required with_auth Rest.required Rest.allowed
        Rest.write_error Rest.write_json code_of code_for
    guards-Agrees next next' h = elim (Bool-cases (access_token r == "")) [
      | inl blank ↦ absurd (given ((eq_iff (access_token r) "").0 blank))
      | inr some_token ↦
          elim (Option-cases (verify cfg.library cfg.formats cfg.jwt now (access_token r))) [
            | inl invalid ↦ rw (read, bearer, some_token, invalid) refl
            | inr (i, valid) ↦ rw (read, bearer, some_token, valid) (h i)
          ]
    ]

    -- A call with a token, not empty, in the metadata, after a scheme that is "bearer", and a request with the
    -- same token, to the two APIs at the same time: whether the token is one of a user or not, they fail with
    -- the same kind of failure or both succeed, and leave the same tables after as many queries.
    pub apis_agree : (c : Call) → grpc_call (value ∷ values) c w ≡ rest_call r c w
    unfolding grpc_call rest_call unary exists
    apis_agree list_categories_call =
        guards-Agrees (λ user. category_list (settings cfg equal_fold) user)
          (λ i. list_categories_handler cfg i) (λ i. category_list-Agrees cfg equal_fold i w)
    apis_agree (create_category_call req row) =
        guards-Agrees (λ user. category_create (settings cfg equal_fold) user req row)
          (λ i. create_category_handler cfg i (some (category_body req)) row)
          (λ i. category_create-Agrees cfg equal_fold i w req row)
    apis_agree (delete_category_call text) =
        guards-Agrees (λ user. category_delete (settings cfg equal_fold) user text)
          (λ i. delete_category_handler cfg i text)
          (λ i. category_delete-Agrees cfg equal_fold i w text)
    apis_agree (list_transactions_call first last) =
        guards-Agrees (λ user. transaction_list (settings cfg equal_fold) user first last)
          (λ i. list_transactions_handler cfg i first last)
          (λ i. transaction_list-Agrees cfg equal_fold i w first last)
    apis_agree (create_transaction_call req row) =
        guards-Agrees (λ user. transaction_create (settings cfg equal_fold) numeric user req row)
          (λ i. create_transaction_handler cfg numeric i (some (transaction_body req)) row)
          (λ i. transaction_create-Agrees cfg equal_fold i w numeric req row)
    apis_agree (delete_transaction_call text) =
        guards-Agrees (λ user. transaction_delete (settings cfg equal_fold) user text)
          (λ i. delete_transaction_handler cfg i text)
          (λ i. transaction_delete-Agrees cfg equal_fold i w text)

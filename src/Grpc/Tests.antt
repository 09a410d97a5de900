-- ===== src/Grpc/Tests.antt =====
-- A transaction that Ann creates over gRPC and over REST.
use finance_engine.Prelude.{String, [], ◌∷◌, ◌==◌, string_eq, ◌≡◌, refl, ne_of_test, ◌+++◌}
use finance_engine.Rest.{Request, access_token, bearer_token, strip_prefix}
use finance_engine.Rest.Fixtures.{app, world, request}
use finance_engine.Grpc.{split_space, currency_usd, type_income}
use finance_engine.Grpc.Calls.{Call, grpc_call, rest_call, create_transaction_call, apis_agree}

abbrev token : String
token = "uxxxxxxx00000000-0000-0000-0000-000000000000"

abbrev anns_request : Request
anns_request = request "https://app" ("Bearer " +++ token) []

abbrev call : Call
call =
    create_transaction_call
      (record {
        amount = "5";
        currency = currency_usd;
        type = type_income;
        date = "xxx00000000-0000-0000-0000-000000000000";
        note = "gift";
        category_id = "";
      })
      (record { id = 41; created_at = 20; name_uk = ""; name_en = "" })

apis_agree_example :
    grpc_call app.config (λ a b. a == b) app.numeric 20 (("bearer " +++ token) ∷ []) call world
    ≡ rest_call app.config (λ a b. a == b) app.numeric 20 anns_request call world
unfolding split_space access_token bearer_token strip_prefix
apis_agree_example =
    apis_agree app.config (λ a b. a == b) app.numeric 20 "bearer" ("bearer " +++ token) []
      anns_request world refl refl (ne_of_test token "" refl) call

-- ===== src/Webhooks/Tests.antt =====
-- Requests that nobody vouches for, at the theorems on them.
use finance_engine.Prelude.{some, ◌≡◌, refl, string_eq, pos, ne_of_test}
use finance_engine.LiqPay.{sign}
use finance_engine.Rest.Fixtures.{app, world}
use finance_engine.Webhooks.{Payload, serve_liqpay}
use finance_engine.Webhooks.Answers.{forged_liqpay}

forged_liqpay_example :
    serve_liqpay app.billing "POST" (some ("form", "forged")) 1 20 world ≡ (200, world)
unfolding sign
forged_liqpay_example =
    forged_liqpay app.billing "POST" "form" "forged" 1 20 world
      (ne_of_test "forged" (sign app.billing.codec app.billing.client "form") refl)

abbrev payload : Payload
payload = record {
  type = "StatementItem";
  account = "card";
  item = record {
    id = "item";
    time = pos 100;
    description = "Coffee";
    mcc = 5812;
    amount = pos 500;
    currency_code = 980;
    operation_amount = pos 500;
    operation_currency_code = 980;
  };
}

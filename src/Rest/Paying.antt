-- ===== src/Rest/Paying.antt =====
-- internal/rest/billing.go: the trial, the subscription, and the receipts. What is logged is not kept.
use finance_engine.Prelude.{String, Option, [], map}
use finance_engine.Schema.{Uuid, Time, PaymentEvent}
use finance_engine.LiqPay.{Reply}
use finance_engine.Billing.{Service, start_trial, subscribe, cancel}
use finance_engine.Listings
use finance_engine.Rest.{
  Handler, Config, ReceiptJson, write_json, write_error, reply, required, call, ◌>>=◌, checkout,
  receipts, status_ok,
}
use finance_engine.Rest.Auth.{invalid_body, says}

module _ (cfg : Config) where
  abbrev pub receipt_to_json : PaymentEvent → ReceiptJson
  receipt_to_json e = record {
    order_id = e.order_id;
    plan = e.plan;
    status = e.status;
    amount = e.amount;
    currency = e.currency;
    error_description = e.error_description;
    created_at = cfg.formats.time_text e.created_at;
  }

  unfoldable pub receipts_handler : Uuid → Handler
  receipts_handler user_id = do
    events ← call (Listings.receipts user_id) (λ _. write_error 500 "failed to load receipts")
    reply (write_json [] 200 (receipts (map receipt_to_json events)))

  module _ (s : Service) where
    unfoldable pub start_trial_handler : Uuid → Time → Time → Handler
    start_trial_handler user_id now later = do
      c ← call (start_trial s user_id now later) (says cfg 400)
      reply (write_json [] 200 (checkout c))

    unfoldable pub subscribe_handler : Uuid → Option String → Time → Time → Handler
    subscribe_handler user_id body now later = do
      plan ← required body invalid_body
      c ← call (subscribe s user_id plan now later) (says cfg 400)
      reply (write_json [] 200 (checkout c))

    unfoldable pub cancel_handler : Uuid → Reply → Handler
    cancel_handler user_id answer = do
      done ← call (cancel s user_id answer) (says cfg 400)
      reply (write_json [] 200 status_ok)

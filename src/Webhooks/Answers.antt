-- ===== src/Webhooks/Answers.antt =====
-- internal/webhook: requests that nobody vouches for.
use finance_engine.Prelude.{
  String, Bool, ◌||◌, Option, none, some, ◌==◌, string_eq, ◌≡◌, ◌≢◌, refl, Bool-cases, inl, inr,
  if◌then◌else◌,
}
use finance_engine.Schema.{Uuid, Time, MonobankConnection}
use finance_engine.Store.{World}
use finance_engine.Table.{first}
use finance_engine.LiqPay.{sign}
use finance_engine.Billing.{Service}
use finance_engine.Subscriptions.Callbacks.{handle_callback_forged}
use finance_engine.Imports.{process, get_by_webhook_secret, deliver_to}
use finance_engine.Webhooks.{Payload, is_post, serve_liqpay, serve_monobank, receive, secret_of}

-- A request to LiqPay's webhook whose signature is not the one of its data under the private key changes nothing,
-- whatever the data says. It is answered 200 like a good one if it is a POST with both fields, 400 if a field
-- is missing, and 405 if it is no POST.
pub forged_liqpay :
    (s : Service) (method data_field signature : String) (event : Uuid) (now : Time) (w : World)
    → signature ≢ sign s.codec s.client data_field
    → serve_liqpay s method (some (data_field, signature)) event now w ≡ (
      (if is_post method then (if data_field == "" || signature == "" then 400 else 200) else 405),
      w,
    )
unfolding serve_liqpay
forged_liqpay s method data_field signature event now w forged =
    elim (Bool-cases (is_post method)) [
      | inr other ↦ rw (other, serve_liqpay) refl
      | inl post ↦ elim (Bool-cases (data_field == "" || signature == "")) [
        | inl missing ↦ rw (post, missing, serve_liqpay) refl
        | inr complete ↦
            rw
              (
                post,
                complete,
                serve_liqpay,
                handle_callback_forged s data_field signature event now w forged,
              )
              refl
      ]
    ]

unknown-process :
    (same_name : String → String → Bool) (numeric : String → Option String)
    (secret account : String) (item : _) (id : Uuid) (now : Time) (w : World)
    → first (λ (c : MonobankConnection). c.webhook_secret == secret) w.db.monobank_connections
      ≡ none
    → (process same_name numeric secret account item id now w).1.db ≡ w.db
unfolding process get_by_webhook_secret deliver_to
unknown-process same_name numeric secret account item id now w missing =
    elim (Bool-cases (w.down w.queries)) [
      | inl failed ↦ rw failed refl
      | inr up ↦ rw (up, missing) refl
    ]

-- A request to Monobank's webhook whose body can be decoded and whose path ends in a secret of no connection
-- changes no table, whatever its method is, what the body says, and whether the database answers. It is answered
-- 405 if it is no POST, 404 if the path has no secret, and 200 otherwise.
pub unknown_monobank :
    (same_name : String → String → Bool) (numeric : String → Option String) (method path : String)
    (payload : Payload) (id : Uuid) (now : Time) (w : World)
    → first
        (λ (c : MonobankConnection). c.webhook_secret == secret_of path)
        w.db.monobank_connections
      ≡ none
    → let out = serve_monobank same_name numeric method path (some payload) id now w in
      (out.1.db ≡ w.db)
      × (out.0 ≡ (if is_post method then (if secret_of path == "" then 404 else 200) else 405))
unfolding serve_monobank receive
unknown_monobank same_name numeric method path payload id now w missing =
    elim (Bool-cases (is_post method)) [
      | inr other ↦ rw (other, serve_monobank) (refl, refl)
      | inl post ↦ elim (Bool-cases (secret_of path == "")) [
        | inl blank ↦ rw (post, blank, serve_monobank) (refl, refl)
        | inr named ↦ elim (Bool-cases (payload.type == "StatementItem")) [
          | inr ping ↦ rw (post, named, ping, serve_monobank, receive) (refl, refl)
          | inl item ↦
              rw (post, named, item, serve_monobank, receive)
                (
                  unknown-process same_name numeric (secret_of path) payload.account payload.item id
                      now w missing,
                  refl,
                )
        ]
      ]
    ]

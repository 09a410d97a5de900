-- ===== src/Webhooks.antt =====
-- internal/webhook: what LiqPay and Monobank post to the server. The answer is a status; what is logged is
-- not kept.
pub mod Answers
mod Tests
use finance_engine.Prelude.{
  ℕ, String, Bool, true, false, not, ◌||◌, Option, none, some, ◌==◌, string_eq, if◌then◌else◌,
}
use finance_engine.Schema.{Uuid, Time}
use finance_engine.Store.{M, World, Result}
use finance_engine.Billing.{Service, handle_callback}
use finance_engine.Imports.{StatementItem, process}
use finance_engine.Rest.{strip_prefix}

-- `r.Method == http.MethodPost`
abbrev pub is_post : String → Bool
is_post method = method == "POST"

-- The form of LiqPay's callback, where it can be parsed: the values of "data" and "signature".
unfoldable pub serve_liqpay :
    Service → String → Option (String × String) → Uuid → Time → World → ℕ × World
serve_liqpay s method none event now w = (if is_post method then 400 else 405, w)
serve_liqpay s method (some (data_field, signature)) event now w = elim (is_post method) [
  | false ↦ (405, w)
  | true ↦ elim (data_field == "" || signature == "") [
    | true ↦ (400, w)
    | false ↦ (200, (handle_callback s data_field signature event now w).1)
  ]
]

-- monobank.WebhookPayload
pub record Payload : Type 0 where
  pub type : String
  pub account : String
  pub item : StatementItem

abbrev pub webhook_prefix : String
webhook_prefix = "/webhooks/monobank/"

abbrev stripped : String → Option String → String
stripped path none = path
stripped path (some rest) = rest

-- `strings.TrimPrefix(r.URL.Path, "/webhooks/monobank/")`
unfoldable pub secret_of : String → String
secret_of path = stripped path (strip_prefix webhook_prefix path)

module _ (same_name : String → String → Bool) (numeric : String → Option String) where
  -- The webhook once its path names a secret.
  unfoldable pub receive : String → Option Payload → Uuid → Time → World → ℕ × World
  receive secret none id now w = (400, w)
  receive secret (some payload) id now w = elim (payload.type == "StatementItem") [
    | false ↦ (200, w)
    | true ↦ (200, (process same_name numeric secret payload.account payload.item id now w).1)
  ]

  -- MonobankHandler.ServeHTTP, with what the JSON decoder makes of the body.
  unfoldable pub serve_monobank : String → String → Option Payload → Uuid → Time → World → ℕ × World
  serve_monobank method path body id now w = elim (is_post method) [
    | false ↦ (405, w)
    | true ↦ elim (secret_of path == "") [
      | true ↦ (404, w)
      | false ↦ receive (secret_of path) body id now w
    ]
  ]

-- ===== src/LiqPay.antt =====
-- pkg/liqpay/liqpay.go: requests to LiqPay, their signature, and the check of a callback. The hash,
-- base64 and JSON are parameters, and so are the texts of ids and times.
use finance_engine.Prelude.{
  ℕ, String, Bool, not, Option, none, some, List, [], ◌∷◌, ◌==◌, if◌then◌else◌, string_eq, nat_eq,
  ◌+++◌,
}
use finance_engine.Schema.{Uuid, Time}
use finance_engine.Store.{Result, ok, err, refused}

-- A value of `map[string]any`.
pub data Value : Type 0 where
  text : String → Value
  number : ℕ → Value

-- The map of a request, in any order.
abbrev pub Params : Type 0
Params = List (String × Value)

-- `params[k] = v`
unfoldable pub put : String → Value → Params → Params
put k v [] = (k, v) ∷ []
put k v ((j, w) ∷ m) = if j == k then (k, v) ∷ m else (j, w) ∷ put k v m

pub record Callback : Type 0 where
  pub action : String
  pub status : String
  pub order_id : String
  pub amount : String
  pub currency : String
  pub err_description : String

-- What Go's library and the uuid package compute: base64 of SHA-1, base64 of JSON and back, and texts.
pub record Codec : Type 0 where
  pub sha1_base64 : String → String
  pub marshal_base64 : Params → Option String
  pub base64_decode : String → Option String
  pub unmarshal : String → Option Callback
  pub uuid_text : Uuid → String
  pub format_subscribe_date : Time → String

pub record Client : Type 0 where
  pub public_key : String
  pub private_key : String
  pub sandbox : Bool

abbrev pub checkout_url : String
checkout_url = "https://www.liqpay.ua/api/3/checkout"

abbrev pub status_subscribed : String
status_subscribed = "subscribed"

abbrev pub status_success : String
status_success = "success"

abbrev pub status_failure : String
status_failure = "failure"

abbrev pub status_error : String
status_error = "error"

abbrev pub status_unsubscribed : String
status_unsubscribed = "unsubscribed"

-- What the remote side answers to a request, after the request is sent.
pub data Reply : Type 0 where
  unreachable undecodable : Reply
  answered : ℕ → Reply

module _ (codec : Codec) (c : Client) where
  unfoldable pub sign : String → String
  sign data' = codec.sha1_base64 (c.private_key +++ (data' +++ c.private_key))

  unfoldable pub encode : Params → Result String
  unfolding put
  encode params =
      let keyed = put "version" (number 3) (put "public_key" (text c.public_key) params) in
      let all = if c.sandbox then put "sandbox" (number 1) keyed else keyed in
      elim (codec.marshal_base64 all) [
        | none ↦ err (refused "marshal liqpay params")
        | some data' ↦ ok data'
      ]

  unfoldable pub checkout_fields : Params → Result (String × String)
  checkout_fields params = elim (encode params) [
    | err e ↦ err e
    | ok data' ↦ ok (data', sign data')
  ]

  unfoldable pub verify_and_decode : String → String → Result Callback
  verify_and_decode data' signature =
      if not (sign data' == signature)
      then err (refused "invalid liqpay callback signature")
      else elim (codec.base64_decode data') [
        | none ↦ err (refused "decode callback data")
        | some raw ↦ elim (codec.unmarshal raw) [
          | none ↦ err (refused "unmarshal callback data")
          | some cb ↦ ok cb
        ]
      ]

  -- `none` where the request could not be built, else what the server made of it.
  unfoldable pub request : Params → Reply → Result (Unit {0})
  request params reply = elim (encode params) [
    | err e ↦ err e
    | ok data' ↦ elim reply [
      | unreachable ↦ err (refused "call liqpay")
      | undecodable ↦ err (refused "decode liqpay response")
      | answered status ↦
          if not (status == 200) then err (refused "liqpay returned status") else ok tt
    ]
  ]

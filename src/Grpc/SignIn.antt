-- ===== src/Grpc/SignIn.antt =====
-- internal/grpc/controllers/auth.go.
use finance_engine.Prelude.{String, Bool}
use finance_engine.Store.{Result}
use finance_engine.Accounts.{SignInResult, Draw, sign_in_with_apple, dev_sign_in}
use finance_engine.Grpc.{
  Settings, Handler, Currency, call, reply, failed, currency_to_proto, unauthenticated,
  permission_denied,
}

-- SignInWithAppleReply, with the fields of its UserModel.User.
pub record SignInReply : Type 0 where
  pub access_token : String
  pub id : String
  pub email : String
  pub base_currency : Currency
  pub created_at : String

module _ (cfg : Settings) where
  unfoldable pub sign_in_reply : SignInResult → SignInReply
  sign_in_reply result = record {
    access_token = result.access_token;
    id = cfg.formats.uuid_text result.user.id;
    email = result.user.email;
    base_currency = currency_to_proto result.user.base_currency;
    created_at = cfg.formats.time_text result.user.created_at;
  }

  -- SignInWithApple, with what the verifier answers for the identity token.
  unfoldable pub apple_method : Draw → Result (String × String) → Handler SignInReply
  apple_method d verified =
      call (sign_in_with_apple d verified)
        (λ _. failed unauthenticated "failed to sign in with apple")
        λ result. reply (sign_in_reply result)

  unfoldable pub dev_method : Bool → Draw → String → Handler SignInReply
  dev_method dev_mode d device_id =
      call (dev_sign_in dev_mode d device_id) (λ e. failed permission_denied (cfg.message e))
        λ result. reply (sign_in_reply result)

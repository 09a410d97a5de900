-- ===== src/Accounts/Tests.antt =====
-- A user with a password, and the theorems on signing in.
use finance_engine.Prelude.{true, false, [], ◌∷◌, ◌≡◌, ◌==◌, string_eq, refl}
use finance_engine.Schema.{Uuid, User}
use finance_engine.Store.{World, ok, err, refused, from}
use finance_engine.Table.{first, exists}
use finance_engine.Accounts.{
  Texts, Draw, new_user, find_or_create, sign_in_with_email, get_by_apple_sub, or_create,
  insert_user, give_token,
}
use finance_engine.Accounts.SignIn.{sign_in_with_email_checks}

abbrev texts : Texts
texts = record {
  normalize_email = λ t. t;
  trim = λ t. t;
  size = λ t. 1;
  is_color = λ t. true;
  is_image = λ t. true;
  verifies = λ hash password. hash == password;
}

abbrev ann : User
ann = new_user 7 5 "" "" "ann@example.org" "pass" "UAH"

abbrev world : World
world = record {
  db = record {
    users = ann ∷ [];
    payment_events = [];
    sessions = [];
    categories = [];
    transactions = [];
    monobank_connections = [];
  };
  down = λ n. false;
  queries = 0;
  collation = λ s t. false;
}

abbrev draw : Uuid → Draw
draw i = record { id = i; now = 9; token = λ u. ok "jwt"; hashed = ok "pass" }

sign_in_with_email_checks_example :
    ((sign_in_with_email texts (draw 1) "ann@example.org" "guess" world).1.db ≡ world.db)
    × ((sign_in_with_email texts (draw 1) "ann@example.org" "guess" world).0
        ≡ err (refused "invalid email or password"))
unfolding first
sign_in_with_email_checks_example =
    sign_in_with_email_checks texts (draw 1) "ann@example.org" "guess" world

abbrev bob : User
bob = new_user 8 9 "apple-bob" "" "bob@example.org" "" "UAH"

bob_arrives :
    (find_or_create (draw 8) "apple-bob" "bob@example.org" world).0
    ≡ ok (record { access_token = "jwt"; user = bob })
unfolding find_or_create get_by_apple_sub or_create insert_user give_token from first exists
bob_arrives = refl

-- ===== src/Sessions/Tests.antt =====
-- Two browsers of one user, and the theorems at them.
use finance_engine.Prelude.{
  String, false, List, [], ◌∷◌, ◌≡◌, ◌≢◌, refl, ne_of_test, nat_eq, ◌==◌, ◌+++◌, some, none,
}
use finance_engine.Schema.{Uuid, User, Session}
use finance_engine.Store.{World, ok, err, refused, from, refuse_if}
use finance_engine.Table.{first, exists, update, delete}
use finance_engine.Tokens.{generate}
use finance_engine.Sessions.{
  Service, Pair, Draw, Call, logs_out, issues, issue, rotate, refresh, logout, revoke_for_user, run,
  create, get_by_refresh_hash, revoke_by_id, revoke_by_refresh_hash,
}
use finance_engine.Sessions.Race.{IsFresh, rotate_twice}
use finance_engine.Sessions.Rotation.{refresh_once, logout_once}
use finance_engine.Sessions.Ownership.{revoke_for_user_owned, refresh-issue}

abbrev service : Service
service = record {
  hash = λ t. "#" +++ t;
  library = record {
    numeric_date = λ t. t;
    sign = λ secret c. ok "jwt";
    parse = λ secret now token. none;
  };
  formats = record {
    uuid_text = λ i. "id";
    parse_uuid = λ t. some 7;
    time_text = λ t. "time";
    parse_time = λ t. some 1;
  };
  access_jwt = record { secret = "secret"; duration = 90 };
  refresh_duration = 1000;
}

abbrev ann : User
ann = record {
  id = 7;
  apple_sub = "";
  email = "ann@example.org";
  base_currency = "UAH";
  password_hash = "";
  google_sub = "";
  theme = "system";
  gradient_color = "#34C759";
  plan = "free";
  goals = "";
  subscription_status = "";
  trial_ends_at = 0;
  liqpay_order_id = "";
  created_at = 5;
  name = "";
  avatar = "";
}

abbrev laptop : Session
laptop = record {
  id = 1;
  user_id = 7;
  refresh_hash = "#one";
  created_at = 10;
  expires_at = 1010;
  revoked_at = 0;
  user_agent = "Firefox";
}

abbrev world : World
world = record {
  db = record {
    users = ann ∷ [];
    payment_events = [];
    sessions = laptop ∷ [];
    categories = [];
    transactions = [];
    monobank_connections = [];
  };
  down = λ n. false;
  queries = 0;
  collation = λ s t. false;
}

abbrev draw : Uuid → String → Draw
draw i raw = record {
  signed_at = 20;
  signed_later = 20;
  raw = ok raw;
  now = 20;
  id = i;
  created_at = 20;
}

abbrev pair : String → Pair
pair raw = record { access_token = "jwt"; refresh_token = raw }

laptop_refreshes : (refresh service "one" 20 20 (draw 2 "two") world).0 ≡ ok (pair "two")
unfolding refresh rotate get_by_refresh_hash refuse_if revoke_by_id issue create from first exists
    update generate
laptop_refreshes = refl

abbrev later_calls : List Call
later_calls = logs_out "two" 30 ∷ issues 7 "Chrome" (draw 3 "three") ∷ []

refresh_once_example :
    (refresh service "one" 40 40
      (draw 4 "four")
      (run service (refresh service "one" 20 20 (draw 2 "two") world).1 later_calls)).0
    ≢ ok (pair "four")
refresh_once_example =
    refresh_once service "one" 20 20 (draw 2 "two") world (pair "two") later_calls 40 40
      (draw 4 "four") (pair "four") (ne_of_test 20 0 refl) (ne_of_test 30 0 refl, (tt, tt))
      laptop_refreshes

logout_once_example :
    (refresh service "one" 40 40
      (draw 4 "four")
      (run service (logout service "one" 20 world).1 later_calls)).0
    ≢ ok (pair "four")
unfolding first logout revoke_by_refresh_hash
logout_once_example =
    logout_once service "one" 20 world laptop later_calls 40 40 (draw 4 "four") (pair "four")
      (ne_of_test 20 0 refl) (ne_of_test 30 0 refl, (tt, tt)) refl refl

revoke_for_user_owned_example :
    (delete (λ x. x.user_id == 8) (revoke_for_user service 8 1 20 world).1.db.sessions
      ≡ laptop ∷ [])
    × ((revoke_for_user service 8 1 20 world).0 ≡ err (refused "session not found"))
unfolding delete exists
revoke_for_user_owned_example = revoke_for_user_owned service 8 1 20 world

ann_logs_in : (issue service 7 "Chrome" (draw 2 "two") world).0 ≡ ok (pair "two")
unfolding issue create from exists generate
ann_logs_in = refl

refresh-issue_example :
    (refresh service "two" 30 30
      (draw 3 "three")
      (issue service 7 "Chrome" (draw 2 "two") world).1).0
    ≡ ok (pair "three")
unfolding exists generate
refresh-issue_example =
    refresh-issue service 7 "Chrome" (draw 2 "two") world "two" "jwt" (pair "two") 30 30
      (draw 3 "three") "jwt" "three" (λ n. refl) refl refl ann_logs_in refl refl refl refl refl

first-IsFresh : IsFresh service laptop (draw 2 "two") (pair "two") world
unfolding exists generate
first-IsFresh = record {
  up = λ n. refl;
  signed = refl;
  drawn = refl;
  known = refl;
  new_id = refl;
  new_hash = refl;
}

second-IsFresh :
    IsFresh service laptop
      (draw 3 "three")
      (pair "three")
      (rotate service 20 20 (draw 2 "two") (get_by_refresh_hash "#one" world).0 world).1
unfolding rotate get_by_refresh_hash refuse_if revoke_by_id issue create from first exists update
    generate
second-IsFresh = record {
  up = λ n. refl;
  signed = refl;
  drawn = refl;
  known = refl;
  new_id = refl;
  new_hash = refl;
}

rotate_twice_example :
    let found = (get_by_refresh_hash "#one" world).0 in
    ((rotate service 20 20 (draw 2 "two") found world).0 ≡ ok (pair "two"))
    × ((rotate service 20 20
          (draw 3 "three")
          found
          (rotate service 20 20 (draw 2 "two") found world).1).0
        ≡ ok (pair "three"))
unfolding get_by_refresh_hash first
rotate_twice_example =
    rotate_twice service "one" laptop 20 20 20 20 (draw 2 "two") (draw 3 "three") (pair "two")
      (pair "three") world refl refl refl refl first-IsFresh second-IsFresh

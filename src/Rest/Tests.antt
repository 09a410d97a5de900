-- ===== src/Rest/Tests.antt =====
-- The theorems on the API, at two users and their browsers.
use finance_engine.Prelude.{
  String, true, none, some, [], ◌∷◌, ◌≡◌, refl, inl, inr, ne_of_test, nat_eq, string_eq, pos,
  negsuc, ◌+++◌, ◌≤◌, ◌<◌, ◌^◌, arith,
}
use finance_engine.Schema.{Category}
use finance_engine.Store.{ok, from}
use finance_engine.Table.{first, exists, select, delete, IsKeyed}
use finance_engine.Tokens.{generate, generate_admin, verify}
use finance_engine.LiqPay.{answered}
use finance_engine.Plan
use finance_engine.Filing.Queries.{Filed}
use finance_engine.Owned.{view}
use finance_engine.Sessions
use finance_engine.Sessions.{Pair}
use finance_engine.Transactions.{is_owned}
use finance_engine.Json.{transaction_to_json}
use finance_engine.Rest.{
  Request, with_auth, access_token, bearer_token, strip_prefix, cookie_named, call, write_json,
  transaction,
}
use finance_engine.Rest.Auth.{issue_and_respond, set_cookies, secure_cookies}
use finance_engine.Rest.Book.{update_transaction_handler}
use finance_engine.Rest.Mux.{
  serve, serve_route, serve_user, serve_admin, user, admin, get_me, get_users, delete_category_at,
  post_bank_sync, post_admin_cancel,
}
use finance_engine.Rest.Panel.{parse_pagination}
use finance_engine.Rest.Isolation.{serve-isolated}
use finance_engine.Rest.Entry.{sign_in_admits, IsStorable}
use finance_engine.Rest.Roles.{tokens_keep_apart, IsTurnedAway}
use finance_engine.Rest.Gates.{gated_routes, syncs}
use finance_engine.Rest.Pagination.{parse_pagination_bounds, offset_wraps}
use finance_engine.Rest.Echo.{sent_back, sent_back_unchanged, touched, IsKept}
use finance_engine.Rest.Fixtures.{
  formats, formats-IsReadable, library-IsFaithful, app, world, request, spent, uuid_text,
  parse_uuid, ann,
}

abbrev anns_token : String
anns_token = "uxxxxxxx00000000-0000-0000-0000-000000000000"

world-IsKeyed : IsKeyed (λ (c : Category). c.id) world.db.categories
unfolding first
world-IsKeyed = (refl, (refl, (refl, tt)))

world-Filed : Filed world
unfolding first
world-Filed = record {
  filed = (
    inr (record { category = _; there = refl; shared_or_own = inr refl }),
    (inr (record { category = _; there = refl; shared_or_own = inl refl }), tt),
  );
}

abbrev anns_again : Request
anns_again = request "https://app" "" (("access_token", anns_token) ∷ ("refresh_token", "raw") ∷ [])

abbrev anns_request : Request
anns_request = request "https://app" "" (("access_token", anns_token) ∷ [])

serve-isolated_example :
    view 8
      (serve app 20 anns_request
        (user (delete_category_at "xx00000000-0000-0000-0000-000000000000"))
        world).1.db
    ≡ view 8 world.db
unfolding verify access_token bearer_token strip_prefix cookie_named parse_uuid
serve-isolated_example =
    serve-isolated app 20 anns_request (delete_category_at "xx00000000-0000-0000-0000-000000000000")
      7 8 world refl (ne_of_test 7 0 refl) (ne_of_test 7 8 refl) world-IsKeyed world-Filed

abbrev pair : Pair
pair = record { access_token = anns_token; refresh_token = "raw" }

abbrev draw : Sessions.Draw
draw = record {
  signed_at = 10;
  signed_later = 10;
  raw = ok "raw";
  now = 10;
  id = 1;
  created_at = 10;
}

abbrev entry : Request
entry = request "https://app" "" []

storable : IsStorable app.sessions 7 draw pair world
unfolding exists generate uuid_text
storable = record {
  up = λ n. refl;
  signed = refl;
  drawn = refl;
  known = refl;
  new_id = refl;
  new_hash = refl;
}

sign_in_admits_example :
    ((issue_and_respond app.config app.sessions entry draw
        (record { access_token = "jwt"; user = ann })
        world).0.status
      ≡ 200)
    × (with_auth app.config 20 anns_again (serve_user app anns_again get_me) world
        ≡ serve_user app anns_again get_me 7 world)
unfolding generate uuid_text issue_and_respond call Sessions.issue from Sessions.create exists
    write_json set_cookies select strip_prefix secure_cookies
sign_in_admits_example =
    sign_in_admits app.config app.sessions entry anns_again draw
      (record { access_token = "jwt"; user = ann }) pair "/api/auth/me" 60 true 20 world world
      (serve_user app anns_again get_me) (record { library = refl; formats = refl; jwt = refl })
      library-IsFaithful formats-IsReadable storable (ne_of_test anns_token "" refl) (omega arith)
      refl refl refl refl refl

tokens_keep_apart_example :
    IsTurnedAway world (
      serve_route app 20
        (request "https://admin" ("Bearer " +++ anns_token) [])
        (admin (post_admin_cancel "x" (answered 200)))
        world)
    × IsTurnedAway world
        (serve_route app 20 (request "https://app" "Bearer admin" []) (user get_me) world)
unfolding generate generate_admin bearer_token access_token strip_prefix uuid_text parse_uuid
tokens_keep_apart_example =
    tokens_keep_apart app 7 10 10 10 10 20 anns_token "admin"
      (request "https://admin" ("Bearer " +++ anns_token) [])
      (request "https://app" "Bearer admin" []) (post_admin_cancel "x" (answered 200)) get_me world
      library-IsFaithful refl refl refl refl refl

gated_routes_example :
    let out = serve_user app anns_request (post_bank_sync (ok "token") (ok []) 20) 7 world in
    (out.0.status ≡ 403) × (out.1.db ≡ world.db)
unfolding first Plan.allows_monobank
gated_routes_example =
    gated_routes app anns_request (post_bank_sync (ok "token") (ok []) 20) Plan.allows_monobank 7
      ann world (syncs (ok "token") (ok []) 20) (λ n. refl) refl refl

parse_pagination_bounds_example :
    (1 ≤ (parse_pagination (some (pos 500)) (some (negsuc 3))).0)
    × ((parse_pagination (some (pos 500)) (some (negsuc 3))).0 ≤ 200)
    × ((parse_pagination (some (pos 500)) (some (negsuc 3))).1 < 2 ^ 63)
    × (parse_pagination (some (pos 25)) (some (pos 50)) ≡ (25, 50))
parse_pagination_bounds_example =
    parse_pagination_bounds (some (pos 500)) (some (negsuc 3)) 25 50 (omega arith) (omega arith)
      (omega arith)

offset_wraps_example :
    (serve_admin app (get_users (λ us. us) "" "" none (some (pos 4294967296))) world
      ≡ serve_admin app (get_users (λ us. us) "" "" none (some (pos 0))) world)
    × ((serve_admin app (get_users (λ us. us) "" "" none (some (pos 2147483648))) world).0.status
        ≡ 500)
offset_wraps_example =
    offset_wraps app (λ us. us) "" "" none 4294967296 2147483648 world (λ n. refl) (omega arith)
      (omega arith) (omega arith)

lunch : IsKept app.numeric (spent 21 7 2) world
unfolding first
lunch = record {
  up = λ n. refl;
  there = refl;
  amount = refl;
  some_amount = ne_of_test "10" "" refl;
  typed = refl;
  filed = inr (record { category = _; there = refl; shared_or_own = inr refl });
}

sent_back_unchanged_example :
    let shown = transaction_to_json formats (spent 21 7 2) in
    let out =
      update_transaction_handler app.config app.numeric 7 shown.id
        (some (sent_back shown))
        9
        world in
    (out.0 ≡ write_json [] 200 (transaction shown))
    × (first (is_owned 21 7) out.1.db.transactions ≡ some (touched 9 (spent 21 7 2)))
    × (delete (is_owned 21 7) out.1.db.transactions ≡ delete (is_owned 21 7) world.db.transactions)
unfolding uuid_text parse_uuid
sent_back_unchanged_example =
    sent_back_unchanged app.config app.numeric (spent 21 7 2) 9 world formats-IsReadable refl refl
      lunch

-- ===== src/Listings/Tests.antt =====
-- The pages of a list of three users, at the theorems on them.
use mathlib.Core.List.{Permᴰ, reverse}
use mathlib.Core.List.Permᴰ
use finance_engine.Prelude.{
  ℕ, zero, suc, Bool, String, true, false, List, [], ◌∷◌, ◌≡◌, refl, arith,
}
use finance_engine.Schema.{Uuid, Time, User}
use finance_engine.Store.{World, ok}
use finance_engine.Table.{select, count}
use finance_engine.Listings.{
  UserList, collect, limit, offset, list_users, listed, is_listed, newest, insert_newest,
}
use finance_engine.Listings.Order.{IsSorted}
use finance_engine.Listings.Pages.{Arrange, pages, pages-listed, page-total, total_of}

abbrev person : Uuid → Time → User
person id created_at = record {
  id = id;
  apple_sub = "";
  email = "ann@example.org";
  base_currency = "UAH";
  password_hash = "";
  google_sub = "";
  theme = "system";
  gradient_color = "#34C759";
  plan = "free";
  goals = "";
  subscription_status = "";
  trial_ends_at = 0;
  liqpay_order_id = "";
  created_at = created_at;
  name = "";
  avatar = "";
}

abbrev world : World
world = record {
  db = record {
    users = person 1 5 ∷ person 2 9 ∷ person 3 7 ∷ [];
    payment_events = [];
    sessions = [];
    categories = [];
    transactions = [];
    monobank_connections = [];
  };
  down = λ n. false;
  queries = 0;
  collation = λ s t. false;
}

abbrev like : String → String → Bool
like q email = true

-- The users are taken in another order for every other page.
abbrev arrange : Arrange
arrange zero us = us
arrange (suc q) us = reverse us

arrange-Permᴰ : (us : List User) (q : ℕ) → Permᴰ us (arrange q us)
arrange-Permᴰ us zero = Permᴰ.refl us
arrange-Permᴰ us (suc q) = Permᴰ.symm (Permᴰ.reverse us)

pages-listed_example :
    let read = pages like arrange "" "free" world 2 2 0 in
    IsSorted (λ (u : User). u.created_at) read
    × ((p : User → Bool)
        → count p read ≡ count p (select (is_listed like "" "free") world.db.users))
unfolding select count
pages-listed_example =
    pages-listed like arrange "" "free" world 2 2 (λ n. refl) (λ t. ground arith)
      (arrange-Permᴰ (select (is_listed like "" "free") world.db.users)) (omega arith) (omega arith)
      (omega arith)

-- The three users on two pages.
pages_read : pages like arrange "" "free" world 2 2 0 ≡ person 2 9 ∷ person 3 7 ∷ person 1 5 ∷ []
unfolding list_users collect listed newest insert_newest select count limit offset
pages_read = refl

page-total_example :
    (l : UserList) × ((list_users like reverse "" "free" 2 4 world).0 ≡ ok l)
    × (l.total ≡ total_of (count (is_listed like "" "free") world.db.users) l.users)
page-total_example =
    page-total like reverse "" "free" world 2 4 (λ n. refl) (omega arith) (omega arith)

-- ===== src/Categories.antt =====
-- internal/service/category/category.go over internal/repository/category.go and
-- internal/db/queries/categories.sql. What the translation service answers is an argument of each call,
-- with the empty text where it fails.
use finance_engine.Prelude.{
  String, Bool, true, false, not, ◌&&◌, ◌||◌, List, [], ◌∷◌, ◌==◌, if◌then◌else◌, string_eq, nat_eq,
  ◌++◌, sort_by,
}
use finance_engine.Schema.{Uuid, Category, Transaction}
use finance_engine.Store.{M, ok, err, constraint, one, query, pure, refuse_if, try, ◌>>=◌, ◌>>◌}
use finance_engine.Table.{first, exists, select, update, delete}
use finance_engine.Users.{has_id}

abbrev pub is_category : Uuid → Category → Bool
is_category i c = c.id == i

-- CategoryRepository.GetByID
unfoldable pub get_category : Uuid → M Category
get_category i = query λ db. (one (first (is_category i) db.categories), db)

-- `ORDER BY name`, in the order of the database's collation.
unfoldable pub by_name : (String → String → Bool) → List Category → List Category
by_name before cs = sort_by (λ (a b : Category). before a.name b.name) cs

-- The categories of CategoryListForUser: the shared ones first, and each kind by name.
abbrev pub visible : (String → String → Bool) → Uuid → List Category → List Category
visible before user_id cs =
    by_name before (select (λ c. c.is_default) cs)
    ++ by_name before (select (λ c. c.user_id == user_id && not c.is_default) cs)

-- CategoryRepository.ListForUser
unfoldable pub list_categories : Uuid → M (List Category)
list_categories user_id w = query (λ db. (ok (visible w.collation user_id db.categories), db)) w

-- CategoryRepository.Create: the id is new, and the user is known.
unfoldable pub insert_category : Category → M Category
insert_category c = query λ db.
    if exists (is_category c.id) db.categories || not (exists (has_id c.user_id) db.users)
    then (err constraint, db)
    else (ok c, record db { categories = c ∷ db.categories })

unfoldable pub update_translations : Uuid → String → String → M (Unit {0})
update_translations i name_uk name_en = query λ db. (
  ok tt,
  record db {
    categories =
        update (is_category i) (λ c. record c { name_uk = name_uk; name_en = name_en })
          db.categories;
  },
)

-- A category that its user may delete.
abbrev pub is_deletable : Uuid → Uuid → Category → Bool
is_deletable i user_id c = c.id == i && (c.user_id == user_id && not c.is_default)

-- `ON DELETE SET NULL` of transactions.category_id.
abbrev pub unfile : Transaction → Transaction
unfile t = record t { category_id = 0 }

-- CategoryRepository.DeleteForUser: whether a row was there to delete.
unfoldable pub delete_owned_category : Uuid → Uuid → M Bool
delete_owned_category i user_id = query λ db.
    if exists (is_deletable i user_id) db.categories
    then (
      ok true,
      record db {
        categories = delete (is_deletable i user_id) db.categories;
        transactions = update (λ t. t.category_id == i) unfile db.transactions;
      },
    )
    else (ok false, db)

-- `t != "expense" && t != "income"`
abbrev pub is_no_type : String → Bool
is_no_type t = not (t == "expense") && not (t == "income")

-- Service.Create, for the row that it asks the repository to insert.
unfoldable pub create_category : Category → M Category
create_category c = do
  refuse_if (c.name == "") "name is required"
  refuse_if (is_no_type c.type) "invalid transaction type"
  insert_category (record c { is_default = false })

-- Service.Delete
unfoldable pub delete_category : Uuid → Uuid → M (Unit {0})
delete_category user_id i = do
  deleted ← delete_owned_category i user_id
  refuse_if (not deleted) "category not found or not deletable"

-- healTranslations, on the categories with the two translations that each would get.
unfoldable pub heal_translations : List (Category × (String × String)) → M (Unit {0})
heal_translations [] = pure tt
heal_translations ((c, (name_uk, name_en)) ∷ cs) =
    let rest = heal_translations cs in
    if not (c.name_uk == "") && not (c.name_en == "")
    then rest
    else if name_uk == "" && name_en == ""
    then pure tt
    else do try (update_translations c.id name_uk name_en); rest

-- ===== src/Listings/Pages.antt =====
-- The pages of the operator's list of users (UserListForAdmin with a limit and an offset).
use finance_engine.Prelude.{
  ℕ, zero, suc, String, Bool, false, List, [], ◌∷◌, ◌++◌, ◌≡◌, refl, ◌+◌, ◌*◌, ◌<◌, ◌≤◌, ◌^◌, ◌%◌,
  arith, length, ap, sym, ◌∙◌,
}
use mathlib.Core.List.{Permᴰ}
use mathlib.Core.Path.{subst}
use finance_engine.Schema.{User}
use finance_engine.Store.{World, Result, ok, err, IsUp}
use finance_engine.Table.{select, count}
use finance_engine.Listings.{
  newest, UserList, limit, offset, collect, rows_of, listed, is_listed, list_users, wraps_negative,
}
use finance_engine.Listings.Ties.{Apart, newest-Permᴰ}
use finance_engine.Listings.Order.{
  length-newest, length-select, IsSorted, IsSorted-newest, count-newest,
}

module _ {A : Type 0} where
  limit-offset : (n : ℕ) (xs : List A) → limit n xs ++ offset n xs ≡ xs
  unfolding limit offset
  limit-offset zero [] = refl
  limit-offset zero (x ∷ xs) = refl
  limit-offset (suc n) [] = refl
  limit-offset (suc n) (x ∷ xs) = ap (λ ys. x ∷ ys) (limit-offset n xs)

  offset-suc : (n : ℕ) (x : A) (xs : List A) → offset (suc n) (x ∷ xs) ≡ offset n xs
  unfolding offset
  offset-suc n x xs = refl

  offset_none : (n : ℕ) → ◌≡◌ {A = List A} (offset n []) []
  unfolding offset
  offset_none zero = refl
  offset_none (suc n) = refl

  offset-offset : (n from : ℕ) (xs : List A) → offset n (offset from xs) ≡ offset (from + n) xs
  unfolding offset
  offset-offset n zero xs = ap (λ k. offset k xs) (omega arith)
  offset-offset n (suc from) [] = offset_none n ∙ sym (offset_none (suc from + n))
  offset-offset n (suc from) (x ∷ xs) =
      offset-offset n from xs
      ∙ sym (offset-suc (from + n) x xs)
      ∙ ap (λ k. offset k (x ∷ xs)) {x = suc (from + n)} (omega arith)

  offset_past : (from : ℕ) (xs : List A) → length xs ≤ from → offset from xs ≡ []
  unfolding offset
  offset_past zero [] h = refl
  offset_past zero (x ∷ xs) h = absurd (omega (arith, h))
  offset_past (suc from) [] h = refl
  offset_past (suc from) (x ∷ xs) h = offset_past from xs (omega (arith, h))

collect-users : (total n : ℕ) (us : List User) → (collect total (rows_of n us)).users ≡ us
unfolding collect
collect-users total n [] = refl
collect-users total n (u ∷ us) = ap (λ vs. u ∷ vs) (collect-users n n us)

-- The total of no row, and of any row.
abbrev pub total_of : ℕ → List User → ℕ
total_of n [] = 0
total_of n (u ∷ us) = n

collect-total_same : (n : ℕ) (us : List User) → (collect n (rows_of n us)).total ≡ n
unfolding collect
collect-total_same n [] = refl
collect-total_same n (u ∷ us) = collect-total_same n us

collect-total : (n : ℕ) (us : List User) → (collect 0 (rows_of n us)).total ≡ total_of n us
unfolding collect
collect-total n [] = refl
collect-total n (u ∷ us) = collect-total_same n us

small : (n : ℕ) → n < 2 ^ 31 → (n % 2 ^ 32 ≡ n) × (wraps_negative n ≡ false)
small n h = ground (arith, h)

-- What PostgreSQL arranges for each query.
abbrev pub Arrange : Type 0
Arrange = ℕ → List User → List User

module _ (is_like : String → String → Bool) (arrange : Arrange) (search plan : String) where
  abbrev users_of : Result UserList → List User
  users_of (ok l) = l.users
  users_of (err e) = []

  -- The page that a query gives, and `k` pages in a row, each by a query of its own.
  abbrev pub page : ℕ → World → ℕ → ℕ → List User
  page q w n from = users_of (list_users is_like (arrange q) search plan n from w).0

  abbrev pub pages : World → ℕ → ℕ → ℕ → List User
  pages w n zero from = []
  pages w n (suc k) from = page k w n from ++ pages w n k (from + n)

  page_lem :
      (q : ℕ) (w : World) (n from : ℕ)
      → IsUp w
      → n < 2 ^ 31
      → from < 2 ^ 31
      → page q w n from ≡ limit n (offset from (listed is_like (arrange q) search plan w.db.users))
  unfolding list_users
  page_lem q w n from up small_n small_from =
      let (n_same, n_fine) = small n small_n in
      let (from_same, from_fine) = small from small_from in
      rw (up w.queries, n_fine, from_fine, n_same, from_same)
        (collect-users 0 (count (is_listed is_like search plan) w.db.users)
          (limit n (offset from (listed is_like (arrange q) search plan w.db.users))))

  -- The users that are selected, of which no two are of one time, and which each query arranges in some order.
  module _ (w : World) (up : IsUp w)
      (apart : Apart
        (λ (u : User). u.created_at)
        (select (is_listed is_like search plan) w.db.users))
      (arranged : (q : ℕ)
        → Permᴰ
            (select (is_listed is_like search plan) w.db.users)
            (arrange q (select (is_listed is_like search plan) w.db.users))) where
    abbrev pub all : List User
    all = newest (λ (u : User). u.created_at) (select (is_listed is_like search plan) w.db.users)

    page-all :
        (q n from : ℕ) → n < 2 ^ 31 → from < 2 ^ 31 → page q w n from ≡ limit n (offset from all)
    unfolding listed
    page-all q n from small_n small_from =
        page_lem q w n from up small_n small_from
        ∙ ap (λ l. limit n (offset from l))
            (sym (newest-Permᴰ (λ (u : User). u.created_at) (arranged q) apart))

    pages-offset :
        (n k from : ℕ)
        → n < 2 ^ 31
        → from + k * n < 2 ^ 31
        → length all ≤ from + k * n
        → pages w n k from ≡ offset from all
    pages-offset n zero from small_n fits enough =
        sym (offset_past from all (omega (arith, enough)))
    pages-offset n (suc k) from small_n fits enough =
        rw
          (
            page-all k n from small_n (omega (arith, fits)),
            pages-offset n k (from + n) small_n (omega (arith, fits)) (omega (arith, enough)),
            sym (offset-offset n from all),
          )
          (limit-offset n (offset from all))

-- The operator's list of users, read page by page while the database answers: k pages of n users each,
-- with n and k * n within an int32 and k * n no less than the number of users that the search and the plan
-- select, give one after the other exactly those users, the newest first, each once, if no two of them
-- were created at one time. Each page is a query of its own, for which PostgreSQL may take the users in
-- any order.
pub pages-listed :
    (is_like : String → String → Bool) (arrange : Arrange) (search plan : String) (w : World)
    (n k : ℕ)
    → IsUp w
    → Apart (λ (u : User). u.created_at) (select (is_listed is_like search plan) w.db.users)
    → ((q : ℕ)
        → Permᴰ
            (select (is_listed is_like search plan) w.db.users)
            (arrange q (select (is_listed is_like search plan) w.db.users)))
    → n < 2 ^ 31
    → k * n < 2 ^ 31
    → count (is_listed is_like search plan) w.db.users ≤ k * n
    → let read = pages is_like arrange search plan w n k 0 in
      IsSorted (λ (u : User). u.created_at) read
      × ((p : User → Bool)
          → count p read ≡ count p (select (is_listed is_like search plan) w.db.users))
unfolding offset
pages-listed is_like arrange search plan w n k up apart arranged small_n fits enough =
    let at = λ (u : User). u.created_at in
    let chosen = select (is_listed is_like search plan) w.db.users in
    let size = length-newest at chosen ∙ length-select (is_listed is_like search plan) w.db.users in
    let whole =
      pages-offset is_like arrange search plan w up apart arranged n k 0 small_n
        (omega (arith, fits)) (omega (arith, enough, size)) in
    (
      subst (IsSorted at) (sym whole) (IsSorted-newest at chosen),
      λ p. ap (count p) whole ∙ count-newest at p chosen,
    )

-- Of one page of the operator's list, while the database answers and for a limit and an offset within an
-- int32: its total is the number of users that the search and the plan select if the page has a user, and
-- 0 if it has none, also where users stand on the pages before it.
pub page-total :
    (is_like : String → String → Bool) (arrange : List User → List User) (search plan : String)
    (w : World) (n from : ℕ)
    → IsUp w
    → n < 2 ^ 31
    → from < 2 ^ 31
    → (l : UserList) × ((list_users is_like arrange search plan n from w).0 ≡ ok l)
      × (l.total ≡ total_of (count (is_listed is_like search plan) w.db.users) l.users)
unfolding list_users
page-total is_like arrange search plan w n from up small_n small_from =
    let (n_same, n_fine) = small n small_n in
    let (from_same, from_fine) = small from small_from in
    let c = count (is_listed is_like search plan) w.db.users in
    let us = limit n (offset from (listed is_like arrange search plan w.db.users)) in
    (
      collect 0 (rows_of c us),
      rw (up w.queries, n_fine, from_fine, n_same, from_same) refl,
      collect-total c us ∙ ap (total_of c) (sym (collect-users 0 c us)),
    )

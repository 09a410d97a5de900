-- ===== src/Rest/Pagination.antt =====
-- internal/rest/admin.go: parsePagination, and what internal/repository/user.go makes of its numbers.
use finance_engine.Prelude.{
  ℕ, String, Bool, true, Option, none, some, List, ◌≡◌, refl, ap, ◌≤◌, ◌<◌, ◌^◌, ◌%◌, leb, ℤ, pos,
  negsuc, arith, Bool-cases, inl, inr, ◌&&◌,
}
use finance_engine.Schema.{User}
use finance_engine.Store.{World, err, IsUp, refused}
use finance_engine.Listings.{list_users, wraps_negative}
use finance_engine.Rest.{Response, call, write_error, write_json}
use finance_engine.Rest.Keeping.{answer-failed}
use finance_engine.Rest.Mux.{App, serve_admin, get_users}
use finance_engine.Rest.Panel.{parameter, parse_pagination, or_default, max_int, list_users_handler}

-- A parameter within its bounds, or a default that is.
parameter_within :
    (low high d : ℕ) (o : Option ℤ)
    → low ≤ d
    → d ≤ high
    → let v = or_default d (parameter low high o) in
      (low ≤ v) × (v ≤ high) × ((n : ℕ) → o ≡ some (pos n) → low ≤ n → n ≤ high → v ≡ n)
unfolding parameter
parameter_within low high d none a b = (a, b, λ n e. absurd (cc e))
parameter_within low high d (some (negsuc k)) a b = (a, b, λ n e. absurd (cc e))
parameter_within low high d (some (pos k)) a b = elim (Bool-cases (leb low k && leb k high)) [
  | inl good ↦ rw good (ground (arith, good), ground (arith, good), λ n e _ _. cc e)
  | inr bad ↦
      rw bad (a, b, λ n e c h. let same : k ≡ n = cc e in absurd (ground (arith, bad, same, c, h)))
]

-- parsePagination always gives a limit from 1 to 200 and an offset that an int holds, whatever stands in the
-- query; a limit and an offset within these bounds are taken as they are.
pub parse_pagination_bounds :
    (limit offset : Option ℤ) (l o : ℕ)
    → 1 ≤ l
    → l ≤ 200
    → o < 2 ^ 63
    → (1 ≤ (parse_pagination limit offset).0)
      × ((parse_pagination limit offset).0 ≤ 200)
      × ((parse_pagination limit offset).1 < 2 ^ 63)
      × (parse_pagination (some (pos l)) (some (pos o)) ≡ (l, o))
unfolding parse_pagination
parse_pagination_bounds limit offset l o above below small =
    let (from_one, to_200, _) = parameter_within 1 200 50 limit (omega arith) (omega arith) in
    let (_, in_int, _) = parameter_within 0 max_int 0 offset (omega arith) (omega arith) in
    let (_, _, limit_kept) = parameter_within 1 200 50 (some (pos l)) (omega arith) (omega arith) in
    let (_, _, offset_kept) =
      parameter_within 0 max_int 0 (some (pos o)) (omega arith) (omega arith) in
    (
      from_one,
      to_200,
      omega (arith, in_int),
      rw (limit_kept l refl above below, offset_kept o refl (omega arith) (omega (arith, small)))
          refl,
    )

offset_of : (limit : Option ℤ) (n : ℕ) → n < 2 ^ 63 → (parse_pagination limit (some (pos n))).1 ≡ n
unfolding parse_pagination
offset_of limit n small =
    let (_, _, kept) = parameter_within 0 max_int 0 (some (pos n)) (omega arith) (omega arith) in
    kept n refl (omega arith) (omega (arith, small))

mod_mod : (n : ℕ) → (n % 2 ^ 32) % 2 ^ 32 ≡ n % 2 ^ 32
mod_mod n = omega arith

list_users_mod :
    (is_like : String → String → Bool) (arrange : List User → List User) (text plan : String)
    (l n : ℕ) (w : World)
    → list_users is_like arrange text plan l n w
      ≡ list_users is_like arrange text plan l (n % 2 ^ 32) w
unfolding list_users
list_users_mod is_like arrange text plan l n w = rw (mod_mod n) refl

list_users_far :
    (is_like : String → String → Bool) (arrange : List User → List User) (text plan : String)
    (l n : ℕ) (w : World)
    → IsUp w
    → 2 ^ 31 ≤ n % 2 ^ 32
    → (list_users is_like arrange text plan l n w).0
      ≡ err (refused "LIMIT and OFFSET must not be negative")
unfolding list_users
list_users_far is_like arrange text plan l n w up far =
    let negative : wraps_negative n ≡ true = ground (arith, far) in
    elim (Bool-cases (wraps_negative l)) [
      | inl bad ↦ rw (up w.queries, bad) refl
      | inr fine ↦ rw (up w.queries, fine, negative) refl
    ]

limit_same :
    (limit : Option ℤ) (a b : Option ℤ)
    → (parse_pagination limit a).0 ≡ (parse_pagination limit b).0
unfolding parse_pagination
limit_same limit a b = refl

-- The operator's list of users takes an offset by its last 32 bits only: an offset is answered like the offset
-- less every multiple of 2 ^ 32, and one whose last 32 bits are 2 ^ 31 or more gets the status 500 while the
-- database answers, whatever the search, the plan and the limit are.
pub offset_wraps :
    (app : App) (arrange : List User → List User) (text plan : String) (limit : Option ℤ) (n m : ℕ)
    (w : World)
    → IsUp w
    → n < 2 ^ 63
    → m < 2 ^ 63
    → 2 ^ 31 ≤ m % 2 ^ 32
    → (serve_admin app (get_users arrange text plan limit (some (pos n))) w
        ≡ serve_admin app (get_users arrange text plan limit (some (pos (n % 2 ^ 32)))) w)
      × ((serve_admin app (get_users arrange text plan limit (some (pos m))) w).0.status ≡ 500)
unfolding serve_admin list_users_handler call write_error write_json
offset_wraps app arrange text plan limit n m w up small small' far =
    let l = (parse_pagination limit (some (pos n))).0 in
    (
      rw
          (
            offset_of limit n small,
            offset_of limit (n % 2 ^ 32) (omega arith),
            limit_same limit (some (pos (n % 2 ^ 32))) (some (pos n)),
            list_users_mod app.is_like arrange text plan l n w,
          )
          refl,
      rw (offset_of limit m small') (
          ap (λ (r : Response). r.status)
            (answer-failed _ _ (list_users app.is_like arrange text plan _ m w) _
              (list_users_far app.is_like arrange text plan _ m w up far))),
    )

-- ===== src/Accounts/SignIn.antt =====
-- internal/service/auth/auth.go: sign-in by password, and sign-in with Apple more than once.
use finance_engine.Prelude.{
  String, false, not, ◌||◌, Option, none, some, List, ◌∷◌, ◌==◌, if◌then◌else◌, string_eq, nat_eq,
  ◌≡◌, ◌≢◌, refl, ap, arith, Bool-cases, Option-cases, inl, inr, ==-refl, ==-ne, suc,
}
use finance_engine.Schema.{User}
use finance_engine.Store.{World, Result, ok, err, refused, unavailable, IsUp, from, refuse_if}
use finance_engine.Store.Rules.{Result-cases}
use finance_engine.Table.{first, exists}
use finance_engine.Accounts.{
  Texts, Draw, SignInResult, matches, collides, new_user, get_by_email, get_by_apple_sub,
  insert_user, give_token, or_create, find_or_create, check_password, sign_in_with_email,
  default_base_currency,
}

-- The result of a sign-in of a user.
abbrev pub signed_in : Draw → User → Result SignInResult
signed_in d user = elim (d.token user.id) [
  | err e ↦ err e
  | ok token ↦ ok (record { access_token = token; user = user })
]

-- The account that an email and a password open.
abbrev pub account : Texts → String → String → List User → Option User
account t email password users =
    elim (first (λ u. matches (t.normalize_email email) u.email) users) [
      | none ↦ none
      | some u ↦
          if u.password_hash == "" || not (t.verifies u.password_hash password)
          then none
          else some u
    ]

give_token-signed_in :
    (d : Draw) (u : User) (w : World)
    → ((give_token d u w).1 ≡ w) × ((give_token d u w).0 ≡ signed_in d u)
unfolding give_token from
give_token-signed_in d u w = elim (Result-cases (d.token u.id)) [
  | inl (token, given) ↦ rw (given, signed_in) (refl, refl)
  | inr (e, failed) ↦ rw (failed, signed_in) (refl, refl)
]

given_user :
    (d : Draw) (u : User) (v : World) (r : SignInResult) → (give_token d u v).0 ≡ ok r → u ≡ r.user
unfolding give_token from
given_user d u v r h = elim (Result-cases (d.token u.id)) [
  | inl (token, given) ↦ ground arith
  | inr (e, failed) ↦ absurd (cc (rw (failed, give_token, from) at h))
]

checked :
    (t : Texts) (d : Draw) (password : String) (u : User) (v : World)
    → let out = check_password t d password (ok u) v in
      (out.1.db ≡ v.db)
      × (out.0
          ≡ (elim (if u.password_hash == "" || not (t.verifies u.password_hash password)
              then none
              else some u) [
                | none ↦ err (refused "invalid email or password")
                | some u ↦ signed_in d u
              ]))
unfolding check_password refuse_if
checked t d password u v =
    let (same, given) = give_token-signed_in d u v in
    elim (Bool-cases (u.password_hash == "")) [
      | inl bare ↦ rw bare (refl, refl)
      | inr hashed ↦ elim (Bool-cases (t.verifies u.password_hash password)) [
        | inl right ↦ rw (hashed, right) (rw same refl, given)
        | inr wrong ↦ rw (hashed, wrong) (refl, refl)
      ]
    ]

-- Sign-in by password changes nothing; while the database answers it gives whom the email and the password
-- open an account to the token made for them, or the error of making it, and says the same to everybody
-- else: whether there is no such account, it has no password, or the password is another.
pub sign_in_with_email_checks :
    (t : Texts) (d : Draw) (email password : String) (w : World)
    → let out = sign_in_with_email t d email password w in
      (out.1.db ≡ w.db)
      × (out.0 ≡ (
          if w.down w.queries then err unavailable else elim (account t email password w.db.users) [
            | none ↦ err (refused "invalid email or password")
            | some u ↦ signed_in d u
          ]))
unfolding sign_in_with_email check_password get_by_email refuse_if give_token from
sign_in_with_email_checks t d email password w = elim (Bool-cases (w.down w.queries)) [
  | inl failed ↦ rw (failed, get_by_email, check_password) (refl, refl)
  | inr up ↦
      elim (Option-cases (first (λ u. matches (t.normalize_email email) u.email) w.db.users)) [
        | inl missing ↦ rw (up, missing, get_by_email, check_password) (refl, refl)
        | inr (u, found) ↦
            rw (up, found, get_by_email)
              (checked t d password u (record w { queries = suc w.queries }))
      ]
]

created :
    (d : Draw) (sub email : String) (w : World) (r : SignInResult)
    → sub ≢ ""
    → w.down w.queries ≡ false
    → first (λ u. matches sub u.apple_sub) w.db.users ≡ none
    → (find_or_create d sub email w).0 ≡ ok r
    → (first (λ u. matches sub u.apple_sub) (find_or_create d sub email w).1.db.users ≡ some r.user)
      × ((find_or_create d sub email w).1.down ≡ w.down)
unfolding find_or_create get_by_apple_sub or_create insert_user first
created d sub email w r real up missing h =
    let new = new_user d.id d.now sub "" email "" default_base_currency in
    let h' = rw (up, missing, find_or_create, get_by_apple_sub, or_create, insert_user) at h in
    elim (Bool-cases (w.down (suc w.queries))) [
      | inl failed ↦ absurd (cc (rw failed at h'))
      | inr up' ↦ elim (Bool-cases (exists (collides new) w.db.users)) [
        | inl clash ↦ absurd (cc (rw (up', clash) at h'))
        | inr free ↦
            let v = record w {
              db = record (w.db) { users = new ∷ w.db.users };
              queries = suc (suc w.queries);
            } in
            let mine = given_user d new v r (rw (up', free) at h') in
            let same = (give_token-signed_in d new v).0 in
            rw
              (
                up,
                missing,
                find_or_create,
                get_by_apple_sub,
                or_create,
                insert_user,
                up',
                free,
                same,
                ==-ne sub "" real,
                ==-refl sub,
              )
              (ap some mine, refl)
      ]
    ]

-- The user whom a sign-in with Apple gives is the one that the next lookup finds.
find_or_create-first :
    (d : Draw) (sub email : String) (w : World) (r : SignInResult)
    → sub ≢ ""
    → (find_or_create d sub email w).0 ≡ ok r
    → (first (λ u. matches sub u.apple_sub) (find_or_create d sub email w).1.db.users ≡ some r.user)
      × ((find_or_create d sub email w).1.down ≡ w.down)
unfolding find_or_create get_by_apple_sub or_create insert_user give_token from first
find_or_create-first d sub email w r real h = elim (Bool-cases (w.down w.queries)) [
  | inl failed ↦ absurd (cc (rw (failed, find_or_create, get_by_apple_sub, or_create) at h))
  | inr up ↦ elim (Option-cases (first (λ u. matches sub u.apple_sub) w.db.users)) [
    | inl missing ↦ created d sub email w r real up missing h
    | inr (u, found) ↦
        let v = record w { queries = suc w.queries } in
        let mine =
          given_user d u v r (rw (up, found, find_or_create, get_by_apple_sub, or_create) at h) in
        let same = (give_token-signed_in d u v).0 in
        rw (up, found, find_or_create, get_by_apple_sub, or_create, same, found)
          (ap some mine, refl)
  ]
]

-- A sign-in that finds the account changes nothing.
find_or_create-found :
    (d : Draw) (sub email : String) (v : World) (u : User) (token : String)
    → v.down v.queries ≡ false
    → first (λ u. matches sub u.apple_sub) v.db.users ≡ some u
    → d.token u.id ≡ ok token
    → ((find_or_create d sub email v).0 ≡ ok (record { access_token = token; user = u }))
      × ((find_or_create d sub email v).1.db ≡ v.db)
unfolding find_or_create get_by_apple_sub or_create give_token from
find_or_create-found d sub email v u token up found given =
    rw (up, found, find_or_create, get_by_apple_sub, or_create, given) (refl, refl)

-- Signing in with Apple once more, under the same subject that is not empty, while the database answers
-- and a token can be made: whatever email is given and whether the first sign-in made the account or
-- found it, the second gives the same user and changes nothing.
pub find_or_create_again :
    (d d' : Draw) (sub email email' : String) (w : World) (r : SignInResult) (token : String)
    → sub ≢ ""
    → IsUp w
    → (find_or_create d sub email w).0 ≡ ok r
    → d'.token r.user.id ≡ ok token
    → let w' = (find_or_create d sub email w).1 in
      let out = find_or_create d' sub email' w' in
      (out.0 ≡ ok (record { access_token = token; user = r.user })) × (out.1.db ≡ w'.db)
find_or_create_again d d' sub email email' w r token real up h given =
    let (found, answers) = find_or_create-first d sub email w r real h in
    let w' = (find_or_create d sub email w).1 in
    find_or_create-found d' sub email' w' r.user token (rw answers (up w'.queries)) found given

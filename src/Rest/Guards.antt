-- ===== src/Rest/Guards.antt =====
-- internal/rest/middleware.go: who gets past the checks in front of the routes.
use finance_engine.Prelude.{
  true, false, none, some, ◌==◌, string_eq, ◌≡◌, ◌≢◌, refl, Bool-cases, inl, inr, eq_iff,
}
use finance_engine.Schema.{Uuid, Time}
use finance_engine.Store.{World}
use finance_engine.Owned.{view}
use finance_engine.Tokens.{verify, verify_admin}
use finance_engine.Rest.{
  Request, Handler, Config, with_auth, with_admin_auth, access_token, bearer_token, required,
  allowed, write_error, write_json,
}

module _ (cfg : Config) (now : Time) (r : Request) where
  -- withAuth on a request whose token is one of a user.
  pub with_auth-verified :
      (i : Uuid) (next : Uuid → Handler) (w : World)
      → access_token r ≢ ""
      → verify cfg.library cfg.formats cfg.jwt now (access_token r) ≡ some i
      → with_auth cfg now r next w ≡ next i w
  unfolding with_auth required allowed
  with_auth-verified i next w some_token valid = elim (Bool-cases (access_token r == "")) [
    | inl blank ↦ absurd (some_token ((eq_iff (access_token r) "").0 blank))
    | inr given ↦ rw (given, valid) refl
  ]

  -- withAuth on any other request.
  pub with_auth-refused :
      (next : Uuid → Handler) (w : World)
      → verify cfg.library cfg.formats cfg.jwt now (access_token r) ≡ none
      → ((with_auth cfg now r next w).0.status ≡ 401) × ((with_auth cfg now r next w).1 ≡ w)
  unfolding with_auth required allowed write_error write_json
  with_auth-refused next w invalid = elim (Bool-cases (access_token r == "")) [
    | inl blank ↦ rw blank (refl, refl)
    | inr given ↦ rw (given, invalid) (refl, refl)
  ]

  pub with_admin_auth-refused :
      (next : Handler) (w : World)
      → verify_admin cfg.library cfg.jwt.secret now (bearer_token r) ≡ false
      → ((with_admin_auth cfg now r next w).0.status ≡ 401)
        × ((with_admin_auth cfg now r next w).1 ≡ w)
  unfolding with_admin_auth allowed write_error write_json
  with_admin_auth-refused next w invalid = elim (Bool-cases (bearer_token r == "")) [
    | inl blank ↦ rw blank (refl, refl)
    | inr given ↦ rw (given, invalid) (refl, refl)
  ]

  pub with_auth-blank :
      (j : Uuid) (next : Uuid → Handler) (w : World)
      → (access_token r == "") ≡ true
      → view j (with_auth cfg now r next w).1.db ≡ view j w.db
  unfolding with_auth allowed
  with_auth-blank j next w blank = rw blank refl

-- ===== src/Tokens/Laws.antt =====
-- pkg/jwt and pkg/adminauth: tokens made by one package and read by either.
use finance_engine.Prelude.{
  ℕ, String, false, none, some, string_eq, ◌≡◌, refl, ◌<◌, ◌+◌, Option-cases, inl, inr,
}
use finance_engine.Schema.{Uuid, Time}
use finance_engine.Store.{ok}
use finance_engine.Formats.{Formats, IsReadable}
use finance_engine.Tokens.{
  Library, Manager, Claims, generate, verify, generate_admin, verify_admin, user_claims,
  admin_claims,
}

-- What the library documents: a token that it signed is read back until it expires, and is never read as
-- other claims.
pub record IsFaithful (lib : Library) : Type 0 where
  pub reads :
      (secret : String) (c : Claims) (token : String) (now : Time)
      → lib.sign secret c ≡ ok token
      → now < c.expires_at
      → lib.parse secret now token ≡ some c
  pub reads_only :
      (secret : String) (c c' : Claims) (token : String) (now : Time)
      → lib.sign secret c ≡ ok token
      → lib.parse secret now token ≡ some c'
      → c' ≡ c

-- A token that Generate signs for a user is verified as that user's, by a manager of the same secret, at
-- any time before its expiry, if the library reads back what it signs and ids are printed readably.
pub verify-generate :
    (lib : Library) (f : Formats) (m : Manager) (i : Uuid) (now later read : Time) (token : String)
    → IsFaithful lib
    → IsReadable f
    → generate lib f m i now later ≡ ok token
    → read < lib.numeric_date (now + m.duration)
    → verify lib f m read token ≡ some i
unfolding generate verify
verify-generate lib f m i now later read token faithful readable made alive =
    rw (faithful.reads m.secret (user_claims lib f m.duration i now later) token read made alive)
      (readable.reads i)

-- Under one shared secret, and at any time, a token that pkg/jwt generates for a user is never accepted as
-- the operator's, and a token that pkg/adminauth generates is never accepted as a user's, if the library
-- reads a token as the claims that it signed or not at all, and the empty text is not an id.
pub tokens_separate :
    (lib : Library) (f : Formats) (m : Manager) (i : Uuid) (duration : ℕ)
    (now later now' later' read : Time) (token admin_token : String)
    → IsFaithful lib
    → f.parse_uuid "" ≡ none
    → generate lib f m i now later ≡ ok token
    → generate_admin lib m.secret duration now' later' ≡ ok admin_token
    → (verify_admin lib m.secret read token ≡ false) × (verify lib f m read admin_token ≡ none)
unfolding generate verify generate_admin verify_admin
tokens_separate lib f m i duration now later now' later' read token admin_token faithful no_id made
      made_admin =
    (
      elim (Option-cases (lib.parse m.secret read token)) [
        | inl e ↦ rw e refl
        | inr (c', e) ↦
            rw
              (
                e,
                faithful.reads_only m.secret (user_claims lib f m.duration i now later) c' token
                    read made e,
              )
              refl
      ],
      elim (Option-cases (lib.parse m.secret read admin_token)) [
        | inl e ↦ rw e refl
        | inr (c', e) ↦
            rw
              (
                e,
                faithful.reads_only m.secret (admin_claims lib duration now' later') c' admin_token
                    read made_admin e,
              )
              no_id
      ],
    )

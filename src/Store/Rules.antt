-- ===== src/Store/Rules.antt =====
-- Rules for what holds after a call, step by step, whichever of its steps fails.
use finance_engine.Prelude.{Bool, true, false, String, ◌≡◌, refl, ◌⊎◌, inl, inr}
use finance_engine.Store.{Error, Result, ok, err, World, M, next, ◌>>=◌, ◌>>◌, refuse_if, from}

module _ (P : World → Type 0) where
  next-after :
      {A B : Type 0} (f : A → M B) (r : Result A × World)
      → P r.1
      → ((a : A) → r.0 ≡ ok a → P (f a r.1).1)
      → P (next f r).1
  next-after f (ok a, w) failed went = went a refl
  next-after f (err e, w) failed went = failed

  -- After `m >>= f`: after `m` where it fails, and after `f` where `m` gives it a value.
  pub >>=-after :
      {A B : Type 0} (m : M A) (f : A → M B) (w : World)
      → P (m w).1
      → ((a : A) → (m w).0 ≡ ok a → P (f a (m w).1).1)
      → P ((m >>= f) w).1
  >>=-after m f w = next-after f (m w)

  -- After `if bad { return … }` and then `m`.
  pub refuse_if-after :
      {B : Type 0} (bad : Bool) (message : String) (m : M B) (w : World)
      → P w
      → (bad ≡ false → P (m w).1)
      → P ((refuse_if bad message >> m) w).1
  unfolding refuse_if
  refuse_if-after true message m w failed went = failed
  refuse_if-after false message m w failed went = went refl

  -- After a computation that touches no database.
  pub from-after :
      {A B : Type 0} (r : Result A) (f : A → M B) (w : World)
      → P w
      → ((a : A) → r ≡ ok a → P (f a w).1)
      → P ((from r >>= f) w).1
  unfolding from
  from-after (ok a) f w failed went = went a refl
  from-after (err e) f w failed went = failed

-- A chain of steps that succeeds has a first step that does.
pub next-ok :
    {A B : Type 0} (f : A → M B) (r : Result A × World) {b : B}
    → (next f r).0 ≡ ok b
    → (a : A) × ((f a r.1).0 ≡ ok b)
next-ok f (ok a, w) h = (a, h)
next-ok f (err e, w) h = absurd (cc h)

pub from-world : {A : Type 0} (r : Result A) (w : World) → (from r w).1 ≡ w
unfolding from
from-world r w = refl

-- To split on a computed result and keep the equation.
pub Result-cases :
    {A : Type 0} (r : Result A) → ((a : A) × (r ≡ ok a)) ⊎ ((e : Error) × (r ≡ err e))
Result-cases (ok a) = inl (a, refl)
Result-cases (err e) = inr (e, refl)

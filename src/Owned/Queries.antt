-- ===== src/Owned/Queries.antt =====
-- Statements on the rows of one user, and what another user sees of them.
use finance_engine.Prelude.{String, Bool, nat_eq, string_eq, ◌≡◌, refl, ◌∙◌, Bool-cases, inl, inr}
use finance_engine.Schema.{Uuid, Db}
use finance_engine.Store.{
  World, M, Result, ok, err, Error, query, pure, fail, from, refuse_if, try, next, ◌>>=◌,
}
use finance_engine.Owned.{view, Spares}

module _ (j : Uuid) where
  pub query-Spares :
      {A : Type 0} (q : Db → Result A × Db)
      → ((db : Db) → view j (q db).1 ≡ view j db)
      → Spares j (query q)
  query-Spares q h = record {
    same = λ w. elim (Bool-cases (w.down w.queries)) [
      | inl failed ↦ rw failed refl
      | inr up ↦ rw up (h w.db)
    ];
  }

  pub next-Spares :
      {A B : Type 0} (f : A → M B) (r : Result A × World) (db : Db)
      → view j r.1.db ≡ db
      → ((a : A) → Spares j (f a))
      → view j (next f r).1.db ≡ db
  next-Spares f (ok a, w) db h k = (k a).same w ∙ h
  next-Spares f (err e, w) db h k = h

  pub >>=-Spares :
      {A B : Type 0} (m : M A) (f : A → M B)
      → Spares j m
      → ((a : A) → Spares j (f a))
      → Spares j (m >>= f)
  >>=-Spares m f h k = record { same = λ w. next-Spares f (m w) (view j w.db) (h.same w) k }

  pub from-Spares : {A : Type 0} (r : Result A) → Spares j (from r)
  unfolding from
  from-Spares r = record { same = λ w. refl }

  pub pure-Spares : {A : Type 0} (a : A) → Spares j (pure a)
  pure-Spares a = record { same = λ w. refl }

  pub fail-Spares : {A : Type 0} (e : Error) → Spares j (fail {A = A} e)
  fail-Spares e = record { same = λ w. refl }

  pub refuse_if-Spares : (b : Bool) (message : String) → Spares j (refuse_if b message)
  unfolding refuse_if
  refuse_if-Spares b message = record { same = λ w. refl }

  pub try-Spares : {A : Type 0} (m : M A) → Spares j m → Spares j (try m)
  try-Spares m h = record { same = λ w. h.same w }

  -- A query that only reads.
  pub read-Spares : {A : Type 0} (q : Db → Result A) → Spares j (query (λ db. (q db, db)))
  read-Spares q = query-Spares (λ db. (q db, db)) (λ db. refl)

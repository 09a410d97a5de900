-- ===== src/Rest/Keeping.antt =====
-- internal/rest: the rules by which a handler leaves the rows of a user as they are.
use finance_engine.Prelude.{Bool, true, false, Option, none, some, ◌≡◌, refl, ap, ◌∙◌}
use finance_engine.Schema.{Uuid, User}
use finance_engine.Store.{World, M, Result, ok, err, Error}
use finance_engine.Users.{get_by_id}
use finance_engine.Owned.{view, Spares}
use finance_engine.Owned.Services.{get_by_id-Spares}
use finance_engine.Rest.{Response, Handler, required, allowed, call, answer, reply}
use finance_engine.Rest.Bank.{on_max_plan}
use finance_engine.Rest.Felix.{with_account, on_felix_plan}

-- The reply to a call that fails.
pub answer-failed :
    {A : Type 0} (on_error : Error → Response) (k : A → Handler) (r : Result A × World) (e : Error)
    → r.0 ≡ err e
    → (answer on_error k r).0 ≡ on_error e
answer-failed on_error k (ok a, w) e h = absurd (cc h)
answer-failed on_error k (err e', w) e h = let same : e' ≡ e = cc h in ap on_error same

-- A handler that leaves the rows of a user as they are.
pub record Keeps (j : Uuid) (h : Handler) : Type 0 where
  pub same : (w : World) → view j (h w).1.db ≡ view j w.db

module _ (j : Uuid) where
  pub reply-Keeps : (r : Response) → Keeps j (reply r)
  reply-Keeps r = record { same = λ w. refl }

  pub answer-view :
      {A : Type 0} (on_error : Error → Response) (k : A → Handler) (r : Result A × World)
      (w : World)
      → view j r.1.db ≡ view j w.db
      → ((a : A) → Keeps j (k a))
      → view j (answer on_error k r).1.db ≡ view j w.db
  answer-view on_error k (ok a, w') w h next = (next a).same w' ∙ h
  answer-view on_error k (err e, w') w h next = h

  pub call-Keeps :
      {A : Type 0} (m : M A) (on_error : Error → Response) (k : A → Handler)
      → Spares j m
      → ((a : A) → Keeps j (k a))
      → Keeps j (call m on_error k)
  unfolding call
  call-Keeps m on_error k h next = record {
    same = λ w. answer-view on_error k (m w) w (h.same w) next;
  }

  pub required-Keeps :
      {A : Type 0} (o : Option A) (refusal : Response) (k : A → Handler)
      → ((a : A) → Keeps j (k a))
      → Keeps j (required o refusal k)
  unfolding required
  required-Keeps none refusal k next = record { same = λ w. refl }
  required-Keeps (some a) refusal k next = record { same = λ w. (next a).same w }

  pub allowed-Keeps :
      (b : Bool) (refusal : Response) (k : Unit {0} → Handler)
      → Keeps j (k tt)
      → Keeps j (allowed b refusal k)
  unfolding allowed
  allowed-Keeps true refusal k next = record { same = λ w. next.same w }
  allowed-Keeps false refusal k next = record { same = λ w. refl }

  pub on_max_plan-Keeps : (i : Uuid) (next : Handler) → Keeps j next → Keeps j (on_max_plan i next)
  unfolding on_max_plan
  on_max_plan-Keeps i next h =
      call-Keeps (get_by_id i) _ _ (get_by_id-Spares j i) (λ u. allowed-Keeps _ _ _ h)

  pub with_account-Keeps :
      (i : Uuid) (next : User → Handler)
      → ((u : User) → Keeps j (next u))
      → Keeps j (with_account i next)
  unfolding with_account
  with_account-Keeps i next h = call-Keeps (get_by_id i) _ _ (get_by_id-Spares j i) h

  pub on_felix_plan-Keeps :
      (i : Uuid) (next : User → Handler)
      → ((u : User) → Keeps j (next u))
      → Keeps j (on_felix_plan i next)
  unfolding on_felix_plan
  on_felix_plan-Keeps i next h = with_account-Keeps i _ (λ u. allowed-Keeps _ _ _ (h u))

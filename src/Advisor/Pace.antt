-- ===== src/Advisor/Pace.antt =====
-- internal/service/advisor/insights.go: BudgetPace.
use finance_engine.Prelude.{
  sort_by, String, not, ◌||◌, none, some, List, [], ◌∷◌, ◌==◌, string_eq, nat_eq, if◌then◌else◌,
  ltb, pos, negsuc,
}
use finance_engine.Schema.{Uuid, Time, Category, Transaction}
use finance_engine.Maps.{lookup, alter, or_else}
use finance_engine.Store.{M, Result, from, pure, ◌>>=◌}
use finance_engine.Categories.{list_categories}
use finance_engine.Listings.{list_transactions}
use finance_engine.Rates.{Rate}
use finance_engine.Advisor.{Float, Service, rate_table, convert, add_to, zero_float}

pub record CategoryPace : Type 0 where
  pub category_id : Uuid
  pub category_name : String
  pub typical_monthly : Float
  pub spent_so_far : Float
  pub pace_ratio : Float

-- The names of the categories by their ids.
unfoldable pub category_names : List (Uuid × String) → List Category → List (Uuid × String)
category_names names [] = names
category_names names (c ∷ cs) = category_names (alter "" (λ _. c.name) c.id names) cs

-- The variables of the loop.
pub record Spending : Type 0 where
  pub history_totals : List (Uuid × Float)
  pub this_month_totals : List (Uuid × Float)

module _ (s : Service) where
  unfoldable pub add_spending :
      String → List (String × Float) → Time → Spending → Transaction → Spending
  add_spending base table month spending tx =
      if not (tx.type == "expense") || tx.is_internal_transfer
      then spending
      else elim (s.floats.scan tx.amount) [
        | none ↦ spending
        | some amount ↦
            let converted = convert s.floats amount tx.currency base table in
            if ltb tx.date month
            then record spending {
              history_totals = add_to s.floats tx.category_id converted spending.history_totals;
            }
            else record spending {
              this_month_totals =
                  add_to s.floats tx.category_id converted spending.this_month_totals;
            }
      ]

  -- The loop over the transactions.
  unfoldable pub add_spendings :
      String → List (String × Float) → Time → Spending → List Transaction → Spending
  add_spendings base table month spending [] = spending
  add_spendings base table month spending (tx ∷ txs) =
      add_spendings base table month (add_spending base table month spending tx) txs

  -- The loop over the totals of the last months.
  unfoldable pub paces :
      List (Uuid × String) → List (Uuid × Float) → Float → List (Uuid × Float) → List CategoryPace
  paces names spent progress [] = []
  paces names spent progress ((id, total) ∷ totals) =
      let f = s.floats in
      let typical = f.div total (f.of_int (pos 3)) in
      let so_far = or_else (zero_float f) (lookup id spent) in
      if f.eq typical (zero_float f)
      then paces names spent progress totals
      else record {
        category_id = id;
        category_name = or_else "" (lookup id names);
        typical_monthly = typical;
        spent_so_far = so_far;
        pace_ratio = f.div (f.div so_far typical) progress;
      }
        ∷ paces names spent progress totals

  -- The paces for a list of transactions.
  unfoldable pub pace_of :
      String → List (Rate Float) → List Category → List Transaction → Time → List CategoryPace
  pace_of base rates categories txs now =
      let f = s.floats in
      let spending =
        add_spendings base (rate_table f rates) (s.calendar.month_start now)
          (record { history_totals = []; this_month_totals = [] }) txs in
      let progress =
        f.div (f.of_int (pos (s.calendar.day now)))
          (f.of_int (pos (s.calendar.days_in_month now))) in
      sort_by (λ (a b : CategoryPace). f.lt b.pace_ratio a.pace_ratio)
        (paces (category_names [] categories) spending.this_month_totals progress
          (s.orders.totals spending.history_totals))

  -- BudgetPace, with three months of history.
  unfoldable pub budget_pace :
      Uuid → String → Result (List (Rate Float)) → Time → M (List CategoryPace)
  budget_pace user_id base rates now = do
    txs ←
        list_transactions user_id (s.calendar.add_months (negsuc 2) (s.calendar.month_start now))
          now
    categories ← list_categories user_id
    known ← from rates
    pure (pace_of base known categories txs now)

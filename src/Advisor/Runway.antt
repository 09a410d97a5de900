-- ===== src/Advisor/Runway.antt =====
-- internal/service/advisor/insights.go: Runway.
use finance_engine.Prelude.{
  ℕ, String, Bool, true, not, ◌&&◌, none, some, List, [], ◌∷◌, ◌++◌, ◌==◌, string_eq, nat_eq,
  if◌then◌else◌, ltb, leb, pos, length, ◌-◌, ◌*◌, ◌+◌, ◌/◌,
}
use finance_engine.Schema.{Uuid, Time, Transaction, day}
use finance_engine.Maps.{lookup, alter, or_else}
use finance_engine.Store.{M, Result, from, pure, ◌>>=◌}
use finance_engine.Listings.{list_transactions}
use finance_engine.Rates.{Rate}
use finance_engine.Advisor.{Float, Service, rate_table, convert, add_to, zero_float}

-- RunwayForecast; a time of 0 is the zero time.
pub record Forecast : Type 0 where
  pub current_balance : Float
  pub daily_burn_rate : Float
  pub projected_zero_date : Time
  pub next_payday_estimate : Time
  pub will_make_it : Bool

abbrev pub runway_burn_window : ℕ
runway_burn_window = 30 * day

-- The variables of the loop.
pub record Flow : Type 0 where
  pub balance : Float
  pub income_by_category : List (Uuid × Float)
  pub income_days_by_category : List (Uuid × List ℕ)
  pub recent_expense : Float

module _ (s : Service) where
  unfoldable pub add_flow : String → List (String × Float) → Time → Flow → Transaction → Flow
  add_flow base table since flow tx =
      if tx.is_internal_transfer then flow else elim (s.floats.scan tx.amount) [
        | none ↦ flow
        | some amount ↦
            let converted = convert s.floats amount tx.currency base table in
            if tx.type == "income"
            then record flow {
              balance = s.floats.add flow.balance converted;
              income_by_category = add_to s.floats tx.category_id converted flow.income_by_category;
              income_days_by_category =
                  alter [] (λ days. days ++ s.calendar.day tx.date ∷ []) tx.category_id
                    flow.income_days_by_category;
            }
            else record flow {
              balance = s.floats.sub flow.balance converted;
              recent_expense =
                  if leb since tx.date
                  then s.floats.add flow.recent_expense converted
                  else flow.recent_expense;
            }
      ]

  -- The loop over the transactions.
  unfoldable pub add_flows : String → List (String × Float) → Time → Flow → List Transaction → Flow
  add_flows base table since flow [] = flow
  add_flows base table since flow (tx ∷ txs) =
      add_flows base table since (add_flow base table since flow tx) txs

  abbrev pub no_flow : Flow
  no_flow = record {
    balance = zero_float s.floats;
    income_by_category = [];
    income_days_by_category = [];
    recent_expense = zero_float s.floats;
  }

  -- The category with the most income, and that income; uuid.Nil and 0 at first.
  unfoldable pub salary_category : Uuid → Float → List (Uuid × Float) → Uuid
  salary_category id greatest [] = id
  salary_category id greatest ((i, total) ∷ totals) =
      salary_category (if s.floats.lt greatest total then i else id)
        (if s.floats.lt greatest total then total else greatest) totals

  abbrev pub sum_days : List ℕ → ℕ
  sum_days [] = 0
  sum_days (d ∷ days) = d + sum_days days

  -- The estimate for the days of the salary's category, at a reading of the clock.
  unfoldable pub next_payday : List ℕ → Time → Time
  next_payday days now =
      let candidate = s.calendar.month_day now (sum_days days / length days) in
      if ltb (length days) 2
      then 0
      else if ltb now candidate
      then candidate
      else s.calendar.add_months (pos 1) candidate

  -- What Runway makes of the sums, at two readings of the clock.
  unfoldable pub forecast : Flow → Time → Time → Forecast
  forecast flow now later =
      let f = s.floats in
      let burn = f.div flow.recent_expense (f.of_int (pos 30)) in
      let salary = salary_category 0 (zero_float f) (s.orders.totals flow.income_by_category) in
      let payday = next_payday (or_else [] (lookup salary flow.income_days_by_category)) now in
      let zero_date = s.calendar.add_days (f.truncate (f.div flow.balance burn)) later in
      if f.lt (zero_float f) burn
      then record {
        current_balance = flow.balance;
        daily_burn_rate = burn;
        projected_zero_date = zero_date;
        next_payday_estimate = payday;
        will_make_it = not (not (payday == 0) && ltb zero_date payday);
      }
      else record {
        current_balance = flow.balance;
        daily_burn_rate = burn;
        projected_zero_date = 0;
        next_payday_estimate = payday;
        will_make_it = true;
      }

  -- The forecast for a list of transactions.
  unfoldable pub runway_of :
      String → List (Rate Float) → List Transaction → Time → Time → Time → Forecast
  runway_of base rates txs now now' later =
      forecast (add_flows base (rate_table s.floats rates) (now - runway_burn_window) no_flow txs)
        now' later

  -- Runway, at four readings of the clock.
  unfoldable pub runway :
      Uuid → String → Result (List (Rate Float)) → Time → Time → Time → Time → M Forecast
  runway user_id base rates listed now now' later = do
    known ← from rates
    txs ← list_transactions user_id 0 listed
    pure (runway_of base known txs now now' later)

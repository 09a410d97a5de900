-- ===== src/Advisor/Score.antt =====
-- internal/service/advisor/advisor.go: FinancialScore.
use finance_engine.Prelude.{
  ℕ, String, Bool, true, List, [], ◌∷◌, ◌==◌, string_eq, nat_eq, if◌then◌else◌, ℤ, pos, length, ◌-◌,
  ◌*◌,
}
use finance_engine.Schema.{Uuid, Time, Transaction, day}
use finance_engine.Maps.{alter, or_else}
use finance_engine.Store.{M, Result, from, pure, ◌>>=◌}
use finance_engine.Listings.{list_transactions}
use finance_engine.Rates.{Rate}
use finance_engine.Advisor.{Float, Floats, Service, rate_table, convert, add_to, zero_float}

-- FinancialScoreBreakdown
pub record Breakdown : Type 0 where
  pub total : ℤ
  pub savings_rate : Float
  pub savings_score : ℤ
  pub top_category_share : Float
  pub balance_score : ℤ
  pub active_days : ℕ
  pub consistency_score : ℤ

-- scoreWindow
abbrev pub score_window : ℕ
score_window = 30 * day

-- The variables of the loop.
pub record Sums : Type 0 where
  pub income : Float
  pub expense : Float
  pub expense_by_category : List (Uuid × Float)
  pub active_days : List (String × Bool)

module _ (f : Floats) where
  unfoldable pub clamp_score : Float → ℤ
  clamp_score v =
      if f.lt v (zero_float f)
      then pos 0
      else if f.lt (f.of_int (pos 100)) v
      then pos 100
      else f.round v

  -- `if share := amount / expense; share > topCategoryShare { … }` over the map.
  unfoldable pub largest_share : Float → Float → List (Uuid × Float) → Float
  largest_share expense share [] = share
  largest_share expense share ((id, amount) ∷ totals) =
      largest_share expense
        (if f.lt share (f.div amount expense) then f.div amount expense else share) totals

  -- The weighted sum of the three scores.
  unfoldable pub weighted : ℤ → ℤ → ℤ → ℤ
  weighted savings balance consistency = f.round (
      f.add
        (f.add (f.mul (f.constant "0.4") (f.of_int savings))
          (f.mul (f.constant "0.3") (f.of_int balance)))
        (f.mul (f.constant "0.3") (f.of_int consistency)))

module _ (s : Service) where
  -- An amount that cannot be read is 0.
  abbrev pub parse_or_zero : String → Float
  parse_or_zero text = or_else (zero_float s.floats) (s.floats.scan text)

  unfoldable pub add_transaction : String → List (String × Float) → Sums → Transaction → Sums
  add_transaction base table sums tx =
      let converted = convert s.floats (parse_or_zero tx.amount) tx.currency base table in
      let days = alter true (λ _. true) (s.calendar.day_text tx.date) sums.active_days in
      if tx.is_internal_transfer
      then sums
      else if tx.type == "income"
      then record sums { active_days = days; income = s.floats.add sums.income converted }
      else record sums {
        active_days = days;
        expense = s.floats.add sums.expense converted;
        expense_by_category = add_to s.floats tx.category_id converted sums.expense_by_category;
      }

  -- The loop over the transactions.
  unfoldable pub add_transactions : String → List (String × Float) → Sums → List Transaction → Sums
  add_transactions base table sums [] = sums
  add_transactions base table sums (tx ∷ txs) =
      add_transactions base table (add_transaction base table sums tx) txs

  abbrev pub no_sums : Sums
  no_sums = record {
    income = zero_float s.floats;
    expense = zero_float s.floats;
    expense_by_category = [];
    active_days = [];
  }

  unfoldable pub savings_rate : Sums → Float
  savings_rate sums =
      if s.floats.lt (zero_float s.floats) sums.income
      then s.floats.div (s.floats.sub sums.income sums.expense) sums.income
      else zero_float s.floats

  unfoldable pub top_category_share : Sums → Float
  top_category_share sums =
      if s.floats.lt (zero_float s.floats) sums.expense
      then largest_share s.floats sums.expense (zero_float s.floats)
          (s.orders.totals sums.expense_by_category)
      else zero_float s.floats

  -- What FinancialScore makes of the sums.
  unfoldable pub breakdown : Sums → Breakdown
  breakdown sums =
      let f = s.floats in
      let savings =
        clamp_score f
          (f.mul (f.div (savings_rate sums) (f.constant "0.20")) (f.of_int (pos 100))) in
      let balance = clamp_score f (
        f.mul (f.div (f.sub (f.constant "0.75") (top_category_share sums)) (f.constant "0.5"))
          (f.of_int (pos 100))) in
      let consistency = clamp_score f (
        f.mul (f.div (f.of_int (pos (length sums.active_days))) (f.of_int (pos 20)))
          (f.of_int (pos 100))) in
      record {
        total = weighted f savings balance consistency;
        savings_rate = savings_rate sums;
        savings_score = savings;
        top_category_share = top_category_share sums;
        balance_score = balance;
        active_days = length sums.active_days;
        consistency_score = consistency;
      }

  -- The score of a list of transactions.
  unfoldable pub score_of : String → List (Rate Float) → List Transaction → Breakdown
  score_of base rates txs =
      breakdown (add_transactions base (rate_table s.floats rates) no_sums txs)

  -- FinancialScore, with what the repository of the rates answers.
  unfoldable pub financial_score : Uuid → String → Result (List (Rate Float)) → Time → M Breakdown
  financial_score user_id base rates now = do
    txs ← list_transactions user_id (now - score_window) now
    known ← from rates
    pure (score_of base known txs)

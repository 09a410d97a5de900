-- ===== src/Advisor/Summary.antt =====
-- internal/service/advisor/advisor.go: buildSummary.
use finance_engine.Prelude.{
  sort_by, String, not, ◌&&◌, List, [], ◌∷◌, ◌==◌, string_eq, nat_eq, if◌then◌else◌, leb, pos,
  negsuc, map, ◌+++◌,
}
use finance_engine.Schema.{Uuid, Time, Category, Transaction}
use finance_engine.Maps.{lookup, or_else}
use finance_engine.Store.{M, Result, ok, err, from, pure, try, ◌>>=◌}
use finance_engine.Table.{select}
use finance_engine.Categories.{list_categories}
use finance_engine.Listings.{list_transactions}
use finance_engine.Rates.{Rate}
use finance_engine.Advisor.{Float, Service, rate_table, convert, add_to, zero_float}
use finance_engine.Advisor.Score.{Breakdown, parse_or_zero, financial_score}
use finance_engine.Advisor.Pace.{category_names}

-- The variables of the loop.
pub record MonthSums : Type 0 where
  pub this_income : Float
  pub this_expense : Float
  pub last_income : Float
  pub last_expense : Float
  pub expense_by_category : List (String × Float)
  pub income_by_category : List (String × Float)

-- `strings.Join(texts, ", ")`
unfoldable pub join : List String → String
join [] = ""
join (t ∷ []) = t
join (t ∷ t' ∷ ts) = t +++ (", " +++ join (t' ∷ ts))

abbrev pub concat : List String → String
concat [] = ""
concat (t ∷ ts) = t +++ concat ts

abbrev pub unnamed : String
unnamed = "Без категорії"

-- The name under which a category's sum is shown.
abbrev pub shown_name : List (Uuid × String) → Uuid → String
shown_name names id =
    let name = or_else "" (lookup id names) in if name == "" then unnamed else name

module _ (s : Service) where
  unfoldable pub add_to_month :
      String
      → List (String × Float)
      → List (Uuid × String)
      → Time
      → MonthSums
      → Transaction
      → MonthSums
  add_to_month base table names month sums tx =
      let f = s.floats in
      let converted = convert f (parse_or_zero s tx.amount) tx.currency base table in
      let name = shown_name names tx.category_id in
      if tx.is_internal_transfer
      then sums
      else if tx.type == "income" && leb month tx.date
      then record sums {
        this_income = f.add sums.this_income converted;
        income_by_category = add_to f name converted sums.income_by_category;
      }
      else if tx.type == "expense" && leb month tx.date
      then record sums {
        this_expense = f.add sums.this_expense converted;
        expense_by_category = add_to f name converted sums.expense_by_category;
      }
      else if tx.type == "income"
      then record sums { last_income = f.add sums.last_income converted }
      else if tx.type == "expense"
      then record sums { last_expense = f.add sums.last_expense converted }
      else sums

  -- The loop over the transactions.
  unfoldable pub add_all_to_month :
      String
      → List (String × Float)
      → List (Uuid × String)
      → Time
      → MonthSums
      → List Transaction
      → MonthSums
  add_all_to_month base table names month sums [] = sums
  add_all_to_month base table names month sums (tx ∷ txs) =
      add_all_to_month base table names month (add_to_month base table names month sums tx) txs

  abbrev pub no_months : MonthSums
  no_months = record {
    this_income = zero_float s.floats;
    this_expense = zero_float s.floats;
    last_income = zero_float s.floats;
    last_expense = zero_float s.floats;
    expense_by_category = [];
    income_by_category = [];
  }

  -- `x / y * 100`, or 0 where y is not positive.
  abbrev pub percent : Float → Float → Float
  percent x y =
      let f = s.floats in
      if f.lt (zero_float f) y then f.mul (f.div x y) (f.of_int (pos 100)) else zero_float f

  abbrev pub largest_first : List (String × Float) → List (String × Float)
  largest_first totals =
      sort_by (λ (a b : String × Float). s.floats.lt b.1 a.1) (s.orders.names totals)

  abbrev pub share_line : Float → String × Float → String
  share_line total (name, amount) = concat (
      "- "
      ∷ name
      ∷ ": "
      ∷ s.floats.whole amount
      ∷ " ("
      ∷ s.floats.whole (percent amount total)
      ∷ "%)\n"
      ∷ [])

  abbrev pub income_part : Float → List (String × Float) → String
  income_part total [] = ""
  income_part total (c ∷ cs) =
      "Розподіл доходів цього місяця по категоріях (сума і % від загального доходу цього місяця):\n"
      +++ concat (map (share_line total) (c ∷ cs))

  abbrev pub expense_part : Float → List (String × Float) → String
  expense_part total [] = "Цього місяця ще немає жодної витрати.\n"
  expense_part total (c ∷ cs) =
      "Розподіл витрат цього місяця по категоріях (сума і % від загальних витрат цього місяця):\n"
      +++ concat (map (share_line total) (c ∷ cs))

  abbrev pub hundredfold : Float → String
  hundredfold x = s.floats.whole (s.floats.mul x (s.floats.of_int (pos 100)))

  -- The lines on the score, if there is one.
  abbrev pub score_part : Result Breakdown → String
  score_part (err e) = ""
  score_part (ok b) = concat (
      "\nШкала фінансової грамотності користувача (0-100, за останні 30 днів): "
      ∷ s.texts.decimal b.total
      ∷ "/100.\nСкладові цієї шкали: заощадження "
      ∷ s.texts.decimal b.savings_score
      ∷ "/100 ("
      ∷ hundredfold b.savings_rate
      ∷ "% доходу відкладено), баланс категорій "
      ∷ s.texts.decimal b.balance_score
      ∷ "/100 (найбільша категорія витрат займає "
      ∷ hundredfold b.top_category_share
      ∷ "% усіх витрат), регулярність внесення транзакцій "
      ∷ s.texts.decimal b.consistency_score
      ∷ "/100 ("
      ∷ s.texts.decimal (pos b.active_days)
      ∷ " активних днів із 30).\n"
      ∷ "Якщо користувач питає про цю шкалу — поясни її саме через ці три складові, "
      ∷ "а не абстрактно.\n"
      ∷ [])

  abbrev pub names_of : List Category → String
  names_of cs = join (map (λ (c : Category). c.name) cs)

  -- The text up to the score.
  unfoldable pub summary_text : String → List Category → MonthSums → String
  summary_text base categories sums =
      let f = s.floats in
      concat (
        "Базова валюта користувача: "
        ∷ base
        ∷ "\nКатегорії витрат, які вже є у користувача: "
        ∷ names_of (select (λ (c : Category). c.type == "expense") categories)
        ∷ "\nКатегорії доходів, які вже є у користувача: "
        ∷ names_of (select (λ (c : Category). not (c.type == "expense")) categories)
        ∷ "\nЦей місяць: дохід "
        ∷ f.whole sums.this_income
        ∷ ", витрати "
        ∷ f.whole sums.this_expense
        ∷ " (це "
        ∷ f.whole (percent sums.this_expense sums.this_income)
        ∷ "% від доходу, збережено "
        ∷ f.whole (percent (f.sub sums.this_income sums.this_expense) sums.this_income)
        ∷ "% доходу)\nМинулий місяць: дохід "
        ∷ f.whole sums.last_income
        ∷ ", витрати "
        ∷ f.whole sums.last_expense
        ∷ "\n"
        ∷ (if f.lt (zero_float f) sums.last_expense
            then "Зміна витрат порівняно з минулим місяцем: "
              +++ (f.signed (percent (f.sub sums.this_expense sums.last_expense) sums.last_expense)
                  +++ "%\n")
            else "")
        ∷ expense_part sums.this_expense (largest_first sums.expense_by_category)
        ∷ income_part sums.this_income (largest_first sums.income_by_category)
        ∷ [])

  -- The text for the categories and a list of transactions.
  unfoldable pub summary_of :
      String → List (Rate Float) → List Category → List Transaction → Time → String
  summary_of base rates categories txs now = summary_text base categories (
      add_all_to_month base (rate_table s.floats rates) (category_names [] categories)
        (s.calendar.month_start now) no_months txs)

  -- buildSummary, with the two answers of the repository of the rates and two readings of the clock.
  unfoldable pub build_summary :
      Uuid
      → String
      → Result (List (Rate Float))
      → Result (List (Rate Float))
      → Time
      → Time
      → M String
  build_summary user_id base rates rates' now now' = do
    txs ←
        list_transactions user_id (s.calendar.add_months (negsuc 0) (s.calendar.month_start now))
          now
    categories ← list_categories user_id
    known ← from rates
    score ← try (financial_score s user_id base rates' now')
    pure (summary_of base known categories txs now +++ score_part score)

-- ===== src/Advisor/Transfers.antt =====
-- internal/service/advisor: what the computations make of the transfers between a user's own accounts.
use finance_engine.Prelude.{
  String, Bool, true, false, not, ◌||◌, List, [], ◌∷◌, string_eq, ◌-◌, ◌≡◌, refl, sym, ap, ◌∙◌,
  Bool-cases, inl, inr,
}
use finance_engine.Schema.{Time, Category, Transaction}
use finance_engine.Table.{select}
use finance_engine.Rates.{Rate}
use finance_engine.Advisor.{Float, Service, rate_table}
use finance_engine.Advisor.Score.{no_sums, breakdown, add_transaction, add_transactions, score_of}
use finance_engine.Advisor.Recurring.{add_charge, charge_of, group, recurring_in}
use finance_engine.Advisor.Runway.{
  no_flow, forecast, runway_burn_window, add_flow, add_flows, runway_of,
}
use finance_engine.Advisor.Pace.{category_names, add_spending, add_spendings, pace_of}
use finance_engine.Advisor.Summary.{
  no_months, summary_text, add_to_month, add_all_to_month, summary_of,
}

-- The transactions that are no transfers.
abbrev pub is_real : Transaction → Bool
is_real tx = not tx.is_internal_transfer

-- A loop whose step leaves its state on transfers does not see them.
loop_skips :
    {S : Type 0} (step : S → Transaction → S) (loop : S → List Transaction → S)
    → ((acc : S) → loop acc [] ≡ acc)
    → ((acc : S) (tx : Transaction) (txs : List Transaction)
        → loop acc (tx ∷ txs) ≡ loop (step acc tx) txs)
    → ((acc : S) (tx : Transaction) → tx.is_internal_transfer ≡ true → step acc tx ≡ acc)
    → (acc : S) (txs : List Transaction) → loop acc (select is_real txs) ≡ loop acc txs
unfolding select
loop_skips step loop nil cons skips acc [] = refl
loop_skips step loop nil cons skips acc (tx ∷ txs) = elim (Bool-cases tx.is_internal_transfer) [
  | inl transfer ↦
      let rest = loop_skips step loop nil cons skips acc txs in
      let same = cons acc tx txs ∙ ap (λ a. loop a txs) (skips acc tx transfer) in
      ap (loop acc) (simp transfer) ∙ rest ∙ sym same
  | inr real ↦
      let rest = loop_skips step loop nil cons skips (step acc tx) txs in
      ap (loop acc) (simp real) ∙ cons acc tx (select is_real txs) ∙ rest ∙ sym (cons acc tx txs)
]

||-true : (b : Bool) → (b || true) ≡ true
||-true true = refl
||-true false = refl

module _ (s : Service) (base : String) (rates : List (Rate Float)) (txs : List Transaction) where
  pub score_of-real : score_of s base rates (select is_real txs) ≡ score_of s base rates txs
  unfolding score_of add_transactions add_transaction
  score_of-real =
      let table = rate_table s.floats rates in
      ap (breakdown s) (
        loop_skips (add_transaction s base table) (add_transactions s base table) (λ acc. refl)
          (λ acc tx rest. refl) (λ acc tx transfer. rw transfer refl) (no_sums s) txs)

  pub runway_of-real :
      (now now' later : Time)
      → runway_of s base rates (select is_real txs) now now' later
        ≡ runway_of s base rates txs now now' later
  unfolding runway_of add_flows add_flow
  runway_of-real now now' later =
      let table = rate_table s.floats rates in
      let since = now - runway_burn_window in
      ap (λ flow. forecast s flow now' later)
        (loop_skips (add_flow s base table since) (add_flows s base table since) (λ acc. refl)
          (λ acc tx rest. refl) (λ acc tx transfer. rw transfer refl) (no_flow s) txs)

  pub pace_of-real :
      (categories : List Category) (now : Time)
      → pace_of s base rates categories (select is_real txs) now
        ≡ pace_of s base rates categories txs now
  unfolding pace_of add_spendings add_spending
  pace_of-real categories now =
      let table = rate_table s.floats rates in
      let month = s.calendar.month_start now in
      rw
        (loop_skips (add_spending s base table month) (add_spendings s base table month)
          (λ acc. refl) (λ acc tx rest. refl) (λ acc tx transfer. rw (transfer, ||-true) refl)
          (record { history_totals = []; this_month_totals = [] }) txs)
        refl

  pub summary_of-real :
      (categories : List Category) (now : Time)
      → summary_of s base rates categories (select is_real txs) now
        ≡ summary_of s base rates categories txs now
  unfolding summary_of add_all_to_month add_to_month
  summary_of-real categories now =
      let table = rate_table s.floats rates in
      let names = category_names [] categories in
      let month = s.calendar.month_start now in
      ap (summary_text s base categories) (
        loop_skips (add_to_month s base table names month)
          (add_all_to_month s base table names month) (λ acc. refl) (λ acc tx rest. refl)
          (λ acc tx transfer. rw transfer refl) (no_months s) txs)

  pub recurring_in-real : recurring_in s (select is_real txs) ≡ recurring_in s txs
  unfolding recurring_in group charge_of
  recurring_in-real =
      rw
        (loop_skips (λ groups tx. add_charge s groups (charge_of s tx)) (group s) (λ acc. refl)
          (λ acc tx rest. refl) (λ acc tx transfer. rw (transfer, ||-true) refl) [] txs)
        refl

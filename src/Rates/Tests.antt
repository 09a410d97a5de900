-- ===== src/Rates/Tests.antt =====
-- A date of which the bank has no rates yet, at the theorem on the stored rates. A rate is a whole number here.
use finance_engine.Prelude.{
  sort_by, insert_sorted, ℕ, false, some, [], ◌∷◌, ◌≡◌, refl, nat_beq, ◌/◌,
}
use finance_engine.Store.{ok}
use finance_engine.Rates.{
  Floats, Redis, historical_rates, get_history, lookup, fetch_history, collect_rates, filled,
  list_rates, put,
}
use finance_engine.Rates.History.{run, syncs, asks, history_frozen}

abbrev whole : Floats ℕ
whole = record { one = 1; divide = λ a b. a / b; is_zero = λ a. nat_beq a 0 }

abbrev redis : Redis ℕ
redis = record {
  rates = ("UAH", some (1, 5)) ∷ ("USD", some (44, 5)) ∷ [];
  history = [];
  down = λ n. false;
  commands = 0;
}

-- The current rates are given and stored; the bank's own for the date, 41, are not asked for any more.
history_frozen_example :
    (historical_rates ℕ whole "20260101" (ok (("USD", 41) ∷ [])) (
      run whole
        (historical_rates ℕ whole "20260101" (ok []) redis).1
        (asks "20251231" (ok (("USD", 43) ∷ [])) ∷ syncs (ok []) 9 ∷ []))).0
    ≡ ok (("UAH", 1) ∷ ("USD", 44) ∷ [])
unfolding sort_by insert_sorted historical_rates get_history lookup fetch_history collect_rates
    filled list_rates put
history_frozen_example =
    history_frozen whole "20260101" (ok []) (ok (("USD", 41) ∷ [])) redis
      (asks "20251231" (ok (("USD", 43) ∷ [])) ∷ syncs (ok []) 9 ∷ [])
      (("UAH", 1) ∷ ("USD", 44) ∷ []) (λ n. refl) refl

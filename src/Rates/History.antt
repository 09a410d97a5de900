-- ===== src/Rates/History.antt =====
-- internal/repository/rate.go: the rates of a date once they are in Redis.
use finance_engine.Prelude.{
  ℕ, suc, String, false, not, ◌||◌, some, List, [], ◌∷◌, ◌==◌, string_eq, ◌≡◌, refl, sym, ap, ◌∙◌,
  Bool-cases, Option-cases, inl, inr, ==-refl, eq_iff,
}
use mathlib.Core.Path.{subst}
use finance_engine.Schema.{Time}
use finance_engine.Store.{Result, ok, err}
use finance_engine.Rates.{
  Floats, Redis, NbuRate, lookup, put, list_rates, upsert_rate, is_supported, get_history,
  set_history, store_rates, fetch_and_store, collect_rates, has_one, filled, saved, fetch_history,
  historical_rates,
}

lookup-put :
    {A : Type 0} (k : String) (a : A) (m : List (String × A)) → lookup k (put k a m) ≡ some a
unfolding lookup put
lookup-put k a [] = rw (==-refl k) refl
lookup-put k a ((k', b) ∷ m) = elim (Bool-cases (k' == k)) [
  | inl same ↦ rw (same, same) refl
  | inr other ↦ rw (other, other) (lookup-put k a m)
]

lookup-put_other :
    {A : Type 0} (k j : String) (a : A) (m : List (String × A))
    → (j == k) ≡ false
    → lookup k (put j a m) ≡ lookup k m
unfolding lookup put
lookup-put_other k j a [] ne = rw ne refl
lookup-put_other k j a ((k', b) ∷ m) ne = elim (Bool-cases (k' == j)) [
  | inl same ↦
      let e = (eq_iff k' j).0 same in
      let miss : (k' == k) ≡ false = ap (λ x. x == k) e ∙ ne in rw (same, miss) refl
  | inr other ↦ rw (other, lookup-put_other k j a m ne) refl
]

-- A request to the service of rates, or a round of the synchronisation, with what the bank answers.
pub data Event (Q : Type 0) : Type 0 where
  lists : Event Q
  syncs : Result (List (NbuRate Q)) → Time → Event Q
  asks : String → Result (List (String × Q)) → Event Q

module _ {Q : Type 0} (q : Floats Q) (key : String) (rates : List (String × Q)) where
  -- The rates are stored under the key, and Redis is there.
  pub record Frozen (s : Redis Q) : Type 0 where
    pub up : (n : ℕ) → s.down n ≡ false
    pub kept : lookup key s.history ≡ some rates

  list_rates-Frozen : (s : Redis Q) → Frozen s → Frozen (list_rates Q s).1
  unfolding list_rates
  list_rates-Frozen s f = rw (f.up s.commands) (record { up = f.up; kept = f.kept })

  store_rates-Frozen :
      (rs : List (NbuRate Q)) (now : Time) (s : Redis Q)
      → Frozen s
      → Frozen (store_rates Q q rs now s).1
  unfolding store_rates upsert_rate
  store_rates-Frozen [] now s f = f
  store_rates-Frozen (r ∷ rs) now s f =
      elim (Bool-cases (not (is_supported Q r.currency_code) || q.is_zero r.units)) [
        | inl passed ↦ rw passed (store_rates-Frozen rs now s f)
        | inr stored ↦
            rw (stored, f.up s.commands)
              (store_rates-Frozen rs now _ (record { up = f.up; kept = f.kept }))
      ]

  fetch_and_store-Frozen :
      (answer : Result (List (NbuRate Q))) (now : Time) (s : Redis Q)
      → Frozen s
      → Frozen (fetch_and_store Q q answer now s).1
  unfolding fetch_and_store upsert_rate
  fetch_and_store-Frozen (err e) now s f = f
  fetch_and_store-Frozen (ok rs) now s f =
      rw (f.up s.commands) (store_rates-Frozen rs now _ (record { up = f.up; kept = f.kept }))

  set_history-Frozen :
      (j : String) (m : List (String × Q)) (s : Redis Q)
      → (j == key) ≡ false
      → Frozen s
      → Frozen (set_history Q j m s).1
  unfolding set_history
  set_history-Frozen j m s ne f =
      rw (f.up s.commands)
        (record { up = f.up; kept = lookup-put_other key j m s.history ne ∙ f.kept })

  filled-Frozen : (m : List (String × Q)) (s : Redis Q) → Frozen s → Frozen (filled Q q m s).1
  unfolding filled list_rates
  filled-Frozen m s f = elim (Bool-cases (has_one Q q m)) [
    | inl bare ↦ rw (bare, f.up s.commands) (record { up = f.up; kept = f.kept })
    | inr full ↦ rw full f
  ]

  fetch_history-Frozen :
      (j : String) (answer : Result (List (String × Q))) (s : Redis Q)
      → (j == key) ≡ false
      → Frozen s
      → Frozen (fetch_history Q q j answer s).1
  unfolding fetch_history
  fetch_history-Frozen j (err e) s ne f = f
  fetch_history-Frozen j (ok raw) s ne f =
      let m = collect_rates Q q (("UAH", q.one) ∷ []) raw in
      set_history-Frozen j (filled Q q m s).0 (filled Q q m s).1 ne (filled-Frozen m s f)

  -- The stored rates are what is answered.
  historical_rates-kept :
      (answer : Result (List (String × Q))) (s : Redis Q)
      → Frozen s
      → ((historical_rates Q q key answer s).0 ≡ ok rates)
        × Frozen (historical_rates Q q key answer s).1
  unfolding historical_rates get_history
  historical_rates-kept answer s f =
      rw (f.up s.commands, f.kept) (refl, record { up = f.up; kept = f.kept })

  historical_rates-other :
      (j : String) (answer : Result (List (String × Q))) (s : Redis Q)
      → (j == key) ≡ false
      → Frozen s
      → Frozen (historical_rates Q q j answer s).1
  unfolding historical_rates get_history
  historical_rates-other j answer s ne f = elim (Option-cases (lookup j s.history)) [
    | inl missing ↦
        rw (f.up s.commands, missing)
          (fetch_history-Frozen j answer _ ne (record { up = f.up; kept = f.kept }))
    | inr (m, found) ↦ rw (f.up s.commands, found) (record { up = f.up; kept = f.kept })
  ]

  filled_up :
      (m : List (String × Q)) (s : Redis Q)
      → ((n : ℕ) → s.down n ≡ false)
      → (n : ℕ) → (filled Q q m s).1.down n ≡ false
  unfolding filled list_rates
  filled_up m s up n = elim (Bool-cases (has_one Q q m)) [
    | inl bare ↦ rw (bare, up s.commands) (up n)
    | inr full ↦ rw full (up n)
  ]

  saved-Frozen :
      (out : List (String × Q) × Redis Q)
      → ((n : ℕ) → out.1.down n ≡ false)
      → (saved Q q key out).0 ≡ ok rates
      → Frozen (saved Q q key out).1
  unfolding set_history
  saved-Frozen (m, s) up done =
      let same : m ≡ rates = cc done in
      rw (up s.commands) (record { up = up; kept = lookup-put key m s.history ∙ ap some same })

  historical_rates-Frozen :
      (answer : Result (List (String × Q))) (s : Redis Q)
      → ((n : ℕ) → s.down n ≡ false)
      → (historical_rates Q q key answer s).0 ≡ ok rates
      → Frozen (historical_rates Q q key answer s).1
  unfolding historical_rates get_history fetch_history
  historical_rates-Frozen (err e) s up done = elim (Option-cases (lookup key s.history)) [
    | inl missing ↦
        absurd
          (cc (rw (up s.commands, missing, historical_rates, get_history, fetch_history) at done))
    | inr (m, found) ↦
        let same : m ≡ rates =
          cc (rw (up s.commands, found, historical_rates, get_history) at done) in
        rw (up s.commands, found) (record { up = up; kept = found ∙ ap some same })
  ]
  historical_rates-Frozen (ok raw) s up done = elim (Option-cases (lookup key s.history)) [
    | inl missing ↦
        let m = collect_rates Q q (("UAH", q.one) ∷ []) raw in
        let s' = record s { commands = suc s.commands } in
        rw (up s.commands, missing)
          (saved-Frozen (filled Q q m s') (filled_up m s' up)
            (rw (up s.commands, missing, historical_rates, get_history, fetch_history) at done))
    | inr (m, found) ↦
        let same : m ≡ rates =
          cc (rw (up s.commands, found, historical_rates, get_history) at done) in
        rw (up s.commands, found) (record { up = up; kept = found ∙ ap some same })
  ]

module _ {Q : Type 0} (q : Floats Q) where
  unfoldable pub step : Redis Q → Event Q → Redis Q
  step s lists = (list_rates Q s).1
  step s (syncs answer now) = (fetch_and_store Q q answer now s).1
  step s (asks key answer) = (historical_rates Q q key answer s).1

  unfoldable pub run : Redis Q → List (Event Q) → Redis Q
  unfolding step
  run s [] = s
  run s (e ∷ es) = run (step s e) es

  step-Frozen :
      (key : String) (rates : List (String × Q)) (s : Redis Q) (e : Event Q)
      → Frozen q key rates s
      → Frozen q key rates (step s e)
  unfolding step
  step-Frozen key rates s lists f = list_rates-Frozen q key rates s f
  step-Frozen key rates s (syncs answer now) f = fetch_and_store-Frozen q key rates answer now s f
  step-Frozen key rates s (asks j answer) f = elim (Bool-cases (j == key)) [
    | inr other ↦ historical_rates-other q key rates j answer s other f
    | inl same ↦
        subst (λ k. Frozen q key rates (historical_rates Q q k answer s).1)
          (sym ((eq_iff j key).0 same)) (historical_rates-kept q key rates answer s f).1
  ]

  run-Frozen :
      (key : String) (rates : List (String × Q)) (s : Redis Q) (es : List (Event Q))
      → Frozen q key rates s
      → Frozen q key rates (run s es)
  unfolding run
  run-Frozen key rates s [] f = f
  run-Frozen key rates s (e ∷ es) f =
      run-Frozen key rates (step s e) es (step-Frozen key rates s e f)

  -- While Redis answers, the rates that HistoricalRates has once given for a date are given for it ever after,
  -- whatever rounds of the synchronisation and requests for any dates come between, and whatever the bank would
  -- answer later; also where the bank had no rates for the date at first, and current ones were given in their
  -- place.
  pub history_frozen :
      (key : String) (answer later : Result (List (String × Q))) (s : Redis Q) (es : List (Event Q))
      (rates : List (String × Q))
      → ((n : ℕ) → s.down n ≡ false)
      → (historical_rates Q q key answer s).0 ≡ ok rates
      → (historical_rates Q q key later (run (historical_rates Q q key answer s).1 es)).0 ≡ ok rates
  history_frozen key answer later s es rates up done =
      (historical_rates-kept q key rates later _
        (run-Frozen key rates _ es (historical_rates-Frozen q key rates answer s up done))).0
